-- ===== src/Rtsp/Vp9/Receiver.antt =====
-- What a receiver takes from the payloads of a frame, after RFC 9628.
use vscreen.Base.{
  All, Bool, List, Option, [], drop, false, if◌then◌else◌, length, none, refl, some, true, ℕ, ◌%◌,
  ◌++◌, ◌/◌, ◌==◌, ◌^◌, ◌∷◌, ◌≡◌, ◌≤◌, nat_eq, string_eq,
}
use vscreen.Rtsp.Vp9.{byte_0}

-- Bit `k` of a payload's byte 0.
abbrev pub bit : ℕ → List ℕ → Bool
bit k [] = false
bit k (b ∷ packet) = (b / 2 ^ k) % 2 == 1

-- The payload after the descriptor: 8 bytes with a scalability structure (the V bit), else 3.
abbrev pub body : List ℕ → List ℕ
body packet = drop (if bit 1 packet then 8 else 3) packet

abbrev pub bodies : List (List ℕ) → List ℕ
bodies [] = []
bodies (p ∷ ps) = body p ++ bodies ps

-- The start bit is `b` on the first packet and not set on the others; the end bit is set on the
-- last packet only.
abbrev pub Marked : Bool → List (List ℕ) → Type 0
Marked b [] = Unit
Marked b (p ∷ []) = (bit 3 p ≡ b) × (bit 2 p ≡ true)
Marked b (p ∷ q ∷ ps) = (bit 3 p ≡ b) × (bit 2 p ≡ false) × Marked false (q ∷ ps)

-- A finished result that carries the frame.
abbrev pub Carries : ℕ → Bool → List ℕ → Option (List (List ℕ)) → Type 0
Carries mtu b frame none = ⊥
Carries mtu b frame (some ps) = (bodies ps ≡ frame) × All (λ p. length p ≤ mtu) ps × Marked b ps

pub byte_0-bits :
    (k s e v : Bool) (packet : List ℕ)
    → (bit 3 (byte_0 k s e v ∷ packet) ≡ s)
      × (bit 2 (byte_0 k s e v ∷ packet) ≡ e)
      × (bit 1 (byte_0 k s e v ∷ packet) ≡ v)
unfolding byte_0
byte_0-bits true true true true packet = (refl, refl, refl)
byte_0-bits true true true false packet = (refl, refl, refl)
byte_0-bits true true false true packet = (refl, refl, refl)
byte_0-bits true true false false packet = (refl, refl, refl)
byte_0-bits true false true true packet = (refl, refl, refl)
byte_0-bits true false true false packet = (refl, refl, refl)
byte_0-bits true false false true packet = (refl, refl, refl)
byte_0-bits true false false false packet = (refl, refl, refl)
byte_0-bits false true true true packet = (refl, refl, refl)
byte_0-bits false true true false packet = (refl, refl, refl)
byte_0-bits false true false true packet = (refl, refl, refl)
byte_0-bits false true false false packet = (refl, refl, refl)
byte_0-bits false false true true packet = (refl, refl, refl)
byte_0-bits false false true false packet = (refl, refl, refl)
byte_0-bits false false false true packet = (refl, refl, refl)
byte_0-bits false false false false packet = (refl, refl, refl)
