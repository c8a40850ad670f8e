-- ===== src/Rtsp/H264/Fragments.antt =====
-- What a receiver gets from the FU-A fragments of a NAL unit.
use Prim.Native.Nat.{bit_and, bit_or}
use mathlib.Core.Option
use vscreen.Base.{
  All, Bool, List, Option, [], ap, ap₂, arith, drop, false, length, length-drop, length-take, min,
  nat_beq_iff, none, refl, some, subst, suc, take, take-append-drop, true, zero, ℕ, ◌++◌, ◌+◌, ◌-◌,
  ◌<◌, ◌==◌, ◌∙◌, ◌∷◌, ◌≡◌, ◌≤◌, nat_eq, string_eq,
}
use vscreen.Base.Bytes.{all_below, all_below_sound}
use vscreen.Rtsp.H264.{fragment_loop, fragment_fu_a, fu_header}

-- The bytes after the two FU bytes, of one packet and of all.
abbrev fu_payload : List ℕ → List ℕ
fu_payload packet = drop 2 packet

abbrev fu_payloads : List (List ℕ) → List ℕ
fu_payloads [] = []
fu_payloads (p ∷ ps) = fu_payload p ++ fu_payloads ps

-- The NAL header from the first packet: F and NRI of the indicator, the type of the FU header.
abbrev reassemble : List (List ℕ) → List ℕ
reassemble ((indicator ∷ header ∷ bytes) ∷ ps) =
    bit_or (bit_and indicator 0xE0) (bit_and header 0x1F) ∷ bytes ++ fu_payloads ps
reassemble ps = []

-- The loop ends with this fuel, gives the bytes in order, and keeps to the size.
abbrev LoopDone : ℕ → List ℕ → Option (List (List ℕ)) → Type 0
LoopDone frag_max bytes none = ⊥
LoopDone frag_max bytes (some ps) = (fu_payloads ps ≡ bytes) × All (λ p. length p ≤ frag_max + 2) ps

LoopDone-cons :
    (i h frag_max k : ℕ) (bytes : List ℕ) (o : Option (List (List ℕ)))
    → k ≤ frag_max
    → LoopDone frag_max (drop k bytes) o
    → LoopDone frag_max bytes (Option.map (λ later. (i ∷ h ∷ take k bytes) ∷ later) o)
LoopDone-cons i h frag_max k bytes none le d = d
LoopDone-cons i h frag_max k bytes (some ps) le d = (
  ap (λ xs. take k bytes ++ xs) d.0 ∙ take-append-drop k bytes,
  (omega (arith, length-take k bytes), d.1),
)

fragment_loop-LoopDone :
    (fuel indicator nal_type frag_max : ℕ) (b : Bool) (bytes : List ℕ)
    → length bytes ≤ fuel
    → 0 < frag_max
    → LoopDone frag_max bytes (fragment_loop fuel indicator nal_type frag_max b bytes)
unfolding fragment_loop
fragment_loop-LoopDone fuel i t m b [] h p = (refl, tt)
fragment_loop-LoopDone zero i t m b (x ∷ xs) h p = absurd (omega arith)
fragment_loop-LoopDone (suc fuel) i t m b (x ∷ xs) h p =
    LoopDone-cons i _ m (min (length (x ∷ xs)) m) (x ∷ xs)
      (fragment_loop fuel i t m false (drop (min (length (x ∷ xs)) m) (x ∷ xs))) (omega arith)
      (fragment_loop-LoopDone fuel i t m false (drop (min (length (x ∷ xs)) m) (x ∷ xs))
        (omega (arith, length-drop (min (length (x ∷ xs)) m) (x ∷ xs))) p)

-- The NAL header survives the split into FU indicator and FU header, whatever the S and E bits.
header_back : ℕ → Bool → Bool → Bool
header_back h b l =
    bit_or (bit_and (bit_or (bit_and h 0xE0) 28) 0xE0)
      (bit_and (fu_header (bit_and h 0x1F) b l) 0x1F)
    == h

header_table : (b l : Bool) → all_below 256 (λ h. header_back h b l) ≡ true
unfolding header_back all_below
header_table true true = refl
header_table true false = refl
header_table false true = refl
header_table false false = refl

header_restored :
    (h : ℕ) (b l : Bool)
    → h < 256
    → bit_or
        (bit_and (bit_or (bit_and h 0xE0) 28) 0xE0)
        (bit_and (fu_header (bit_and h 0x1F) b l) 0x1F)
      ≡ h
header_restored h b l lt =
    (nat_beq_iff _ h).0
      (unfold header_back in all_below_sound 256 (λ x. header_back x b l) h (header_table b l) lt)

abbrev Reassembles : ℕ → List ℕ → Option (List (List ℕ)) → Type 0
Reassembles max_payload nal none = ⊥
Reassembles max_payload nal (some ps) = (reassemble ps ≡ nal) × All (λ p. length p ≤ max_payload) ps

first_packet :
    (h m k : ℕ) (l : Bool) (bytes : List ℕ) (o : Option (List (List ℕ)))
    → h < 256
    → k ≤ m
    → LoopDone m (drop k bytes) o
    → Reassembles (m + 2) (h ∷ bytes) (
        Option.map
          (λ later.
            (bit_or (bit_and h 0xE0) 28 ∷ fu_header (bit_and h 0x1F) true l ∷ take k bytes) ∷ later)
          o)
first_packet h m k l bytes none lt le d = d
first_packet h m k l bytes (some ps) lt le d = (
  ap₂ ◌∷◌ (header_restored h true l lt)
      (ap (λ xs. take k bytes ++ xs) d.0 ∙ take-append-drop k bytes),
  (omega (arith, length-take k bytes), d.1),
)

-- For a NAL unit of a header byte and at least one more byte, and packets of more than two bytes,
-- `fragment_fu_a` ends; the payloads of the fragments joined after the restored header are the NAL
-- unit; and no fragment is longer than `max_payload`.
fragment_fu_a-Reassembles :
    (h x : ℕ) (xs : List ℕ) (max_payload : ℕ)
    → h < 256
    → 2 < max_payload
    → Reassembles max_payload (h ∷ x ∷ xs) (fragment_fu_a (h ∷ x ∷ xs) max_payload)
unfolding fragment_fu_a
fragment_fu_a-Reassembles h x xs max_payload lt p =
    subst (λ n. Reassembles n (h ∷ x ∷ xs) (fragment_fu_a (h ∷ x ∷ xs) max_payload)) (omega arith)
      (first_packet h (max_payload - 2) k _ (x ∷ xs) _ lt (omega arith) (
        fragment_loop-LoopDone (length xs) _ _ (max_payload - 2) false (drop k (x ∷ xs))
          (omega (arith, length-drop k (x ∷ xs))) (omega arith)))
  where
    k : ℕ
    k = min (length (x ∷ xs)) (max_payload - 2)
