-- ===== src/Rtsp/H264/Receiver.antt =====
-- A receiver of FU-A fragments after RFC 6184, section 5.8: the first fragment has the S bit and not
-- the E bit, the last the E bit and not the S bit, those between neither; all have the same
-- indicator, of type 28, and the same NAL type; and the payloads are joined.
use Prim.Native.Nat.{bit_and, bit_or}
use mathlib.Core.Option
use vscreen.Base.{
  Bool, List, Option, [], ap, ap₂, arith, drop, false, if◌then◌else◌, is_empty, leb, length,
  length-drop, ltb, min, none, not, refl, some, suc, take, take-append-drop, true, zero, ℕ, ◌&&◌,
  ◌++◌, ◌-◌, ◌<◌, ◌==◌, ◌∙◌, ◌∷◌, ◌≡◌, ◌≤◌, nat_eq, string_eq,
}
use vscreen.Base.Bytes.{all_below, all_below_sound}
use vscreen.Rtsp.H264.{fragment_loop, fragment_fu_a, fu_header}

abbrev bool_eq : Bool → Bool → Bool
bool_eq true b = b
bool_eq false b = not b

abbrev starts : ℕ → Bool
starts header = bit_and header 0x80 == 0x80

abbrev ends : ℕ → Bool
ends header = bit_and header 0x40 == 0x40

abbrev type_of : ℕ → ℕ
type_of header = bit_and header 0x1F

-- A fragment that ends the unit is the last one.
abbrev finish : Bool → List ℕ → Option (List ℕ) → Bool → Option (List ℕ)
finish true bytes later true = some bytes
finish true bytes later false = none
finish false bytes later last = Option.map (λ more. bytes ++ more) later

-- The fragments after the first one.
unfoldable pub continue : ℕ → ℕ → List (List ℕ) → Option (List ℕ)
continue indicator nal_type ((i ∷ h ∷ bytes) ∷ ps) =
    let later = continue indicator nal_type ps in
    if i == indicator && type_of h == nal_type && not (starts h)
    then finish (ends h) bytes later (is_empty ps)
    else none
continue indicator nal_type ps = none

-- The unit: F and NRI of the indicator, the type of the first header, the bytes.
unfoldable pub receive : List (List ℕ) → Option (List ℕ)
unfolding continue
receive ((i ∷ h ∷ bytes) ∷ ps) =
    if type_of i == 28 && starts h && not (ends h)
    then Option.map (λ more. bit_or (bit_and i 0xE0) (type_of h) ∷ bytes ++ more)
        (continue i (type_of h) ps)
    else none
receive ps = none

-- What the header bytes say, by all the cases.
header_says : ℕ → Bool → Bool → Bool
header_says t b l =
    (type_of (fu_header t b l) == t)
    && (bool_eq (starts (fu_header t b l)) b)
    && (bool_eq (ends (fu_header t b l)) l)

header_table : (b l : Bool) → all_below 32 (λ t. header_says t b l) ≡ true
unfolding header_says all_below
header_table true true = refl
header_table true false = refl
header_table false true = refl
header_table false false = refl

header_lem :
    (t : ℕ) (b l : Bool)
    → t < 32
    → (type_of (fu_header t b l) ≡ t)
      × (starts (fu_header t b l) ≡ b)
      × (ends (fu_header t b l) ≡ l)
header_lem t b l lt =
    let says = all_below_sound 32 (λ x. header_says x b l) t (header_table b l) lt in
    split (type_of (fu_header t b l)) (starts (fu_header t b l)) (ends (fu_header t b l))
      (unfold header_says in says)
  where
    split :
        (x : ℕ) (y z : Bool)
        → ((x == t) && (bool_eq y b) && (bool_eq z l)) ≡ true
        → (x ≡ t) × (y ≡ b) × (z ≡ l)
    split x y z h = ground arith

abbrev Continues : ℕ → ℕ → List ℕ → Option (List (List ℕ)) → Type 0
Continues i t bytes none = ⊥
Continues i t bytes (some ps) = continue i t ps ≡ some bytes

-- The NAL header survives the split into indicator and type.
nal_says : ℕ → Bool
nal_says h =
    (bit_or (bit_and (bit_or (bit_and h 0xE0) 28) 0xE0) (bit_and h 0x1F) == h)
    && (type_of (bit_or (bit_and h 0xE0) 28) == 28)
    && ltb (bit_and h 0x1F) 32

nal_table : all_below 256 nal_says ≡ true
unfolding nal_says all_below
nal_table = refl

nal_lem :
    (h : ℕ)
    → h < 256
    → (bit_or (bit_and (bit_or (bit_and h 0xE0) 28) 0xE0) (bit_and h 0x1F) ≡ h)
      × (type_of (bit_or (bit_and h 0xE0) 28) ≡ 28)
      × (bit_and h 0x1F < 32)
nal_lem h lt =
    split (bit_or (bit_and (bit_or (bit_and h 0xE0) 28) 0xE0) (bit_and h 0x1F))
      (type_of (bit_or (bit_and h 0xE0) 28)) (bit_and h 0x1F)
      (unfold nal_says in all_below_sound 256 nal_says h nal_table lt)
  where
    split : (x y z : ℕ) → ((x == h) && (y == 28) && ltb z 32) ≡ true → (x ≡ h) × (y ≡ 28) × (z < 32)
    split x y z e = ground arith

continue-step :
    (i t h : ℕ) (bytes : List ℕ) (ps : List (List ℕ)) (l : Bool)
    → type_of h ≡ t
    → starts h ≡ false
    → ends h ≡ l
    → continue i t ((i ∷ h ∷ bytes) ∷ ps) ≡ finish l bytes (continue i t ps) (is_empty ps)
unfolding continue
continue-step i t h bytes ps l e f g = ground arith

Continues-cons :
    (i t k : ℕ) (l : Bool) (bytes : List ℕ) (o : Option (List (List ℕ)))
    → t < 32
    → (l ≡ true → (take k bytes ≡ bytes) × (o ≡ some []))
    → (l ≡ false → Continues i t (drop k bytes) o)
    → Continues i t bytes (Option.map (λ later. (i ∷ fu_header t false l ∷ take k bytes) ∷ later) o)
Continues-cons i t k true bytes none lt last more = absurd (ground (arith, (last refl).1))
Continues-cons i t k true bytes (some (p ∷ ps)) lt last more =
    absurd (ground (arith, (last refl).1))
Continues-cons i t k true bytes (some []) lt last more =
    let says = header_lem t false true lt in
    continue-step i t (fu_header t false true) (take k bytes) [] true says.0 says.1 says.2
    ∙ ap some (last refl).0
Continues-cons i t k false bytes none lt last more = more refl
Continues-cons i t k false bytes (some ps) lt last more =
    let says = header_lem t false false lt in
    continue-step i t (fu_header t false false) (take k bytes) ps false says.0 says.1 says.2
    ∙ ap (Option.map (λ rest. take k bytes ++ rest)) (more refl)
    ∙ ap some (take-append-drop k bytes)

take_all : (k : ℕ) (bytes : List ℕ) → leb (length bytes) k ≡ true → take k bytes ≡ bytes
take_all zero [] h = refl
take_all (suc k) [] h = refl
take_all zero (x ∷ bytes) h = absurd (ground arith)
take_all (suc k) (x ∷ bytes) h = ap (λ r. x ∷ r) (take_all k bytes (ground arith))

drop_all : (k : ℕ) (bytes : List ℕ) → leb (length bytes) k ≡ true → drop k bytes ≡ []
drop_all zero [] h = refl
drop_all (suc k) [] h = refl
drop_all zero (x ∷ bytes) h = absurd (ground arith)
drop_all (suc k) (x ∷ bytes) h = drop_all k bytes (ground arith)

drop_some :
    (k : ℕ) (bytes : List ℕ) → leb (length bytes) k ≡ false → is_empty (drop k bytes) ≡ false
drop_some k [] h = absurd (ground arith)
drop_some zero (x ∷ bytes) h = refl
drop_some (suc k) (x ∷ bytes) h = drop_some k bytes (ground arith)

loop_nil : (fuel i t m : ℕ) → fragment_loop fuel i t m false [] ≡ some []
unfolding fragment_loop
loop_nil zero i t m = refl
loop_nil (suc fuel) i t m = refl

fragment_loop-Continues :
    (fuel i t m : ℕ) (bytes : List ℕ)
    → length bytes ≤ fuel
    → 0 < m
    → t < 32
    → is_empty bytes ≡ false
    → Continues i t bytes (fragment_loop fuel i t m false bytes)
unfolding fragment_loop
fragment_loop-Continues fuel i t m [] h p lt e = absurd (ground arith)
fragment_loop-Continues zero i t m (x ∷ xs) h p lt e = absurd (omega arith)
fragment_loop-Continues (suc fuel) i t m (x ∷ xs) h p lt e =
    let k = min (length (x ∷ xs)) m in
    Continues-cons i t k (leb (length (x ∷ xs)) k) (x ∷ xs)
      (fragment_loop fuel i t m false (drop k (x ∷ xs))) lt
      (λ all. (
        take_all k (x ∷ xs) all,
        ap (fragment_loop fuel i t m false) (drop_all k (x ∷ xs) all) ∙ loop_nil fuel i t m,
      ))
      (λ some_left.
        fragment_loop-Continues fuel i t m (drop k (x ∷ xs)) (omega (arith, length-drop k (x ∷ xs)))
          p lt (drop_some k (x ∷ xs) some_left))

abbrev pub Received : List ℕ → Option (List (List ℕ)) → Type 0
Received nal none = ⊥
Received nal (some ps) = receive ps ≡ some nal

receive-step :
    (i h : ℕ) (bytes : List ℕ) (ps : List (List ℕ))
    → type_of i ≡ 28
    → starts h ≡ true
    → ends h ≡ false
    → receive ((i ∷ h ∷ bytes) ∷ ps)
      ≡ Option.map
          (λ more. bit_or (bit_and i 0xE0) (type_of h) ∷ bytes ++ more)
          (continue i (type_of h) ps)
unfolding receive
receive-step i h bytes ps e f g = ground arith

received-cons :
    (n k : ℕ) (l : Bool) (bytes : List ℕ) (o : Option (List (List ℕ)))
    → n < 256
    → l ≡ false
    → Continues (bit_or (bit_and n 0xE0) 28) (bit_and n 0x1F) (drop k bytes) o
    → Received (n ∷ bytes) (
        Option.map
          (λ later.
            (bit_or (bit_and n 0xE0) 28 ∷ fu_header (bit_and n 0x1F) true l ∷ take k bytes) ∷ later)
          o)
received-cons n k true bytes o lt e d = absurd (ground arith)
received-cons n k false bytes none lt e d = d
received-cons n k false bytes (some ps) lt e d =
    let nal = nal_lem n lt in
    let says = header_lem (bit_and n 0x1F) true false nal.2 in
    let i = bit_or (bit_and n 0xE0) 28 in
    receive-step i (fu_header (bit_and n 0x1F) true false) (take k bytes) ps nal.1 says.1 says.2
    ∙ ap
        (λ t.
          Option.map (λ more. bit_or (bit_and i 0xE0) t ∷ take k bytes ++ more) (continue i t ps))
        says.0
    ∙ ap (Option.map (λ more. bit_or (bit_and i 0xE0) (bit_and n 0x1F) ∷ take k bytes ++ more)) d
    ∙ ap₂ (λ b rest. some (b ∷ rest)) nal.0 (take-append-drop k bytes)

-- For a NAL unit that is longer than `max_payload`, which is more than two, as where the packetizer
-- fragments it, `fragment_fu_a` ends, and a receiver that follows RFC 6184 accepts the fragments and
-- gets the NAL unit back, header and all: only the first fragment has the S bit and only the last
-- the E bit, and all have the indicator and the type of the NAL unit.
pub fragment_fu_a-Received :
    (n : ℕ) (bytes : List ℕ) (max_payload : ℕ)
    → n < 256
    → 2 < max_payload
    → max_payload < length (n ∷ bytes)
    → Received (n ∷ bytes) (fragment_fu_a (n ∷ bytes) max_payload)
unfolding fragment_fu_a fragment_loop
fragment_fu_a-Received n [] max_payload lt p long = absurd (omega arith)
fragment_fu_a-Received n (x ∷ xs) max_payload lt p long =
    let k = min (length (x ∷ xs)) (max_payload - 2) in
    received-cons n k (leb (length (x ∷ xs)) k) (x ∷ xs) _ lt (ground arith) (
      fragment_loop-Continues (length xs) _ _ (max_payload - 2) (drop k (x ∷ xs))
        (omega (arith, length-drop k (x ∷ xs))) (omega arith) (nal_lem n lt).2
        (drop_some k (x ∷ xs) (ground arith)))
