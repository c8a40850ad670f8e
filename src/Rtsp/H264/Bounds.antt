-- ===== src/Rtsp/H264/Bounds.antt =====
-- `packetize` ends, and keeps every payload within the MTU.
use mathlib.Core.Option
use vscreen.Base.{
  All, All-append, Bool, Bool-cases, List, Option, [], arith, drop, false, inl, inr, leb, leb→le,
  length, length-drop, length-take, max, min, none, some, subst, suc, true, zero, ℕ, ◌+◌, ◌-◌, ◌<◌,
  ◌∷◌, ◌≤◌, nat_eq, string_eq,
}
use vscreen.Rtsp.H264.{
  append_both, fragment_fu_a, fragment_loop, packetize, packetize_nals, split_annex_b, with_mtu,
}
use vscreen.Rtsp.H264.Fragments.{}

-- The call ends, with payloads of at most `n` bytes, none of them empty.
abbrev pub Bounded : ℕ → Option (List (List ℕ)) → Type 0
Bounded n none = ⊥
Bounded n (some ps) = All (λ p. (0 < length p) × (length p ≤ n)) ps

Bounded-append_both :
    (n : ℕ) (o later : Option (List (List ℕ)))
    → Bounded n o
    → Bounded n later
    → Bounded n (append_both o later)
Bounded-append_both n none later h k = h
Bounded-append_both n (some ps) none h k = k
Bounded-append_both n (some ps) (some qs) h k =
    All-append (λ p. (0 < length p) × (length p ≤ n)) ps qs h k

Bounded-map :
    (packet : List ℕ) (n : ℕ) (o : Option (List (List ℕ)))
    → (0 < length packet) × (length packet ≤ n)
    → Bounded n o
    → Bounded n (Option.map (λ later. packet ∷ later) o)
Bounded-map packet n none h k = k
Bounded-map packet n (some ps) h k = (h, k)

fragment_loop-Bounded :
    (fuel i t m : ℕ) (b : Bool) (bytes : List ℕ)
    → length bytes ≤ fuel
    → 0 < m
    → Bounded (m + 2) (fragment_loop fuel i t m b bytes)
unfolding fragment_loop
fragment_loop-Bounded fuel i t m b [] h p = tt
fragment_loop-Bounded zero i t m b (x ∷ xs) h p = absurd (omega arith)
fragment_loop-Bounded (suc fuel) i t m b (x ∷ xs) h p =
    Bounded-map _ (m + 2) (fragment_loop fuel i t m false (drop k (x ∷ xs)))
      (omega arith, omega (arith, length-take k (x ∷ xs)))
      (fragment_loop-Bounded fuel i t m false (drop k (x ∷ xs))
        (omega (arith, length-drop k (x ∷ xs))) p)
  where
    k : ℕ
    k = min (length (x ∷ xs)) m

pub packetize_nals-Bounded :
    (n : ℕ) (nals : List (List ℕ)) → 2 < n → Bounded n (packetize_nals n nals)
unfolding packetize_nals fragment_fu_a
packetize_nals-Bounded n [] p = tt
packetize_nals-Bounded n ([] ∷ nals) p = packetize_nals-Bounded n nals p
packetize_nals-Bounded n ((x ∷ nal) ∷ nals) p = elim (Bool-cases (leb (length (x ∷ nal)) n)) [
  | inl fits ↦ rw fits (
      Bounded-append_both n (some ((x ∷ nal) ∷ [])) (packetize_nals n nals)
        ((omega arith, leb→le _ n fits), tt) (packetize_nals-Bounded n nals p))
  | inr long ↦ rw long (
      Bounded-append_both n (fragment_fu_a (x ∷ nal) n) (packetize_nals n nals)
        (subst (λ m. Bounded m (fragment_fu_a (x ∷ nal) n)) (omega arith)
          (fragment_loop-Bounded (length nal) _ _ (n - 2) true nal (omega arith) (omega arith)))
        (packetize_nals-Bounded n nals p))
]

-- With a packetizer made by `with_mtu`, whatever the MTU asked for and whatever the bytes,
-- `packetize` ends, and every payload has at least one byte and fits, with the 12 bytes of the
-- RTP header, the MTU (which is at least 100).
pub packetize-Bounded :
    (mtu : ℕ) (bytes : List ℕ) → Bounded (max mtu 100 - 12) (packetize (with_mtu mtu) bytes)
unfolding packetize with_mtu
packetize-Bounded mtu bytes =
    packetize_nals-Bounded (max mtu 100 - 12) (split_annex_b bytes) (omega arith)
