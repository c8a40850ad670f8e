-- ===== src/Rtsp/H264/Split.antt =====
-- `split_annex_b` is the inverse of writing NAL units behind start codes.
use vscreen.Base.{
  All, Bool, List, [], ap, append-nil, append_assoc, arith, false, refl, true, ℕ, ◌++◌, ◌∙◌, ◌∷◌,
  ◌≡◌, ◌≢◌, nat_eq, string_eq,
}
use vscreen.Rtsp.H264.{
  is_start_code_3, is_start_code_4, push_nal, split_nals, skip_to_first, split_annex_b,
}

-- What the H.264 encoder's emulation prevention guarantees of a NAL unit: no start code inside, and
-- a last byte that is not zero.
abbrev pub IsNal : List ℕ → Type 0
IsNal [] = ⊥
IsNal (a ∷ []) = a ≢ 0
IsNal (a ∷ b ∷ []) = b ≢ 0
IsNal (a ∷ b ∷ c ∷ nal) = (is_start_code_3 a b c ≡ false) × IsNal (b ∷ c ∷ nal)

-- A start code of four bytes or of three, and what follows.
abbrev pub start_code : Bool → List ℕ → List ℕ
start_code true rest = 0 ∷ 0 ∷ 0 ∷ 1 ∷ rest
start_code false rest = 0 ∷ 0 ∷ 1 ∷ rest

push_nal-append :
    (nal : List ℕ) (x : ℕ) (xs : List ℕ) (nals : List (List ℕ))
    → push_nal (nal ++ x ∷ xs) nals ≡ (nal ++ x ∷ xs) ∷ nals
push_nal-append [] x xs nals = refl
push_nal-append (n ∷ nal) x xs nals = refl

at_start_code :
    (b : Bool) (nal rest : List ℕ)
    → split_nals nal (start_code b rest) ≡ push_nal nal (split_nals [] rest)
unfolding split_nals
at_start_code true nal rest = refl
at_start_code false nal [] = refl
at_start_code false nal (d ∷ rest) = refl

-- One byte that begins no start code goes to the NAL unit.
step_byte :
    (a b c d : ℕ) (nal rest : List ℕ)
    → is_start_code_4 a b c d ≡ false
    → is_start_code_3 a b c ≡ false
    → split_nals nal (a ∷ b ∷ c ∷ d ∷ rest) ≡ split_nals (nal ++ a ∷ []) (b ∷ c ∷ d ∷ rest)
unfolding split_nals
step_byte a b c d nal rest four three = ground arith

IsNal-head : (a b c : ℕ) (nal : List ℕ) → IsNal (a ∷ b ∷ c ∷ nal) → is_start_code_3 a b c ≡ false
IsNal-head a b c nal h = h.0

IsNal-tail : (a b : ℕ) (nal : List ℕ) → IsNal (a ∷ b ∷ nal) → IsNal (b ∷ nal)
IsNal-tail a b [] h = h
IsNal-tail a b (c ∷ nal) h = h.1

-- A byte of a NAL unit that is not its last byte.
through_byte :
    (b : Bool) (nal : List ℕ) (x y : ℕ) (zs rest : List ℕ)
    → IsNal (x ∷ y ∷ zs)
    → split_nals nal (x ∷ y ∷ zs ++ start_code b rest)
      ≡ split_nals (nal ++ x ∷ []) (y ∷ zs ++ start_code b rest)
through_byte true nal x y [] rest h =
    step_byte x y 0 0 nal (0 ∷ 1 ∷ rest) (ground arith) (ground arith)
through_byte false nal x y [] rest h =
    step_byte x y 0 0 nal (1 ∷ rest) (ground arith) (ground arith)
through_byte true nal x y (z ∷ []) rest h =
    step_byte x y z 0 nal (0 ∷ 0 ∷ 1 ∷ rest) (ground arith) h.0
through_byte false nal x y (z ∷ []) rest h = step_byte x y z 0 nal (0 ∷ 1 ∷ rest) (ground arith) h.0
through_byte b nal x y (z ∷ w ∷ zs) rest h =
    step_byte x y z w nal (zs ++ start_code b rest) (ground (arith, IsNal-head y z w zs h.1)) h.0

through_last :
    (b : Bool) (nal : List ℕ) (x : ℕ) (rest : List ℕ)
    → x ≢ 0
    → split_nals nal (x ∷ start_code b rest) ≡ (nal ++ x ∷ []) ∷ split_nals [] rest
through_last true nal x rest h =
    step_byte x 0 0 0 nal (1 ∷ rest) (ground arith) (ground arith)
    ∙ at_start_code true (nal ++ x ∷ []) rest
    ∙ push_nal-append nal x [] (split_nals [] rest)
through_last false nal x rest h =
    step_byte x 0 0 1 nal rest (ground arith) (ground arith)
    ∙ at_start_code false (nal ++ x ∷ []) rest
    ∙ push_nal-append nal x [] (split_nals [] rest)

through_nal :
    (b : Bool) (nal xs rest : List ℕ)
    → IsNal xs
    → split_nals nal (xs ++ start_code b rest) ≡ (nal ++ xs) ∷ split_nals [] rest
through_nal b nal [] rest h = absurd h
through_nal b nal (x ∷ []) rest h = through_last b nal x rest h
through_nal b nal (x ∷ y ∷ zs) rest h =
    through_byte b nal x y zs rest h
    ∙ through_nal b (nal ++ x ∷ []) (y ∷ zs) rest (IsNal-tail x y zs h)
    ∙ ap (λ n. n ∷ split_nals [] rest) (append_assoc nal (x ∷ []) (y ∷ zs))

-- At the end of the bitstream.
last_byte :
    (nal : List ℕ) (x y : ℕ) (zs : List ℕ)
    → IsNal (x ∷ y ∷ zs)
    → split_nals nal (x ∷ y ∷ zs) ≡ split_nals (nal ++ x ∷ []) (y ∷ zs)
unfolding split_nals
last_byte nal x y [] h = refl
last_byte nal x y (z ∷ []) h = rw h.0 refl
last_byte nal x y (z ∷ w ∷ zs) h =
    step_byte x y z w nal zs (ground (arith, IsNal-head y z w zs h.1)) h.0

last_nal : (nal xs : List ℕ) → IsNal xs → split_nals nal xs ≡ (nal ++ xs) ∷ []
last_nal nal [] h = absurd h
last_nal nal (x ∷ []) h = unfold split_nals in push_nal-append nal x [] []
last_nal nal (x ∷ y ∷ zs) h =
    last_byte nal x y zs h
    ∙ last_nal (nal ++ x ∷ []) (y ∷ zs) (IsNal-tail x y zs h)
    ∙ ap (λ n. n ∷ []) (append_assoc nal (x ∷ []) (y ∷ zs))

-- The bitstream of NAL units, each behind a start code of either length.
abbrev pub annex_b : List (Bool × List ℕ) → List ℕ
annex_b [] = []
annex_b ((b, nal) ∷ units) = start_code b (nal ++ annex_b units)

abbrev pub nals_of : List (Bool × List ℕ) → List (List ℕ)
nals_of [] = []
nals_of ((b, nal) ∷ units) = nal ∷ nals_of units

split_units :
    (nal : List ℕ) (units : List (Bool × List ℕ))
    → IsNal nal
    → All (λ u. IsNal u.1) units
    → split_nals [] (nal ++ annex_b units) ≡ nal ∷ nals_of units
split_units nal [] h hs = ap (split_nals []) (append-nil nal) ∙ last_nal [] nal h
split_units nal ((b, next) ∷ units) h hs =
    through_nal b [] nal (next ++ annex_b units) h ∙ ap (◌∷◌ nal) (split_units next units hs.0 hs.1)

skip_code : (b : Bool) (x : ℕ) (rest : List ℕ) → skip_to_first (start_code b (x ∷ rest)) ≡ x ∷ rest
unfolding skip_to_first
skip_code true x rest = refl
skip_code false x rest = refl

-- `split_annex_b` gives back the NAL units of a bitstream in which each NAL unit stands behind a
-- start code of three or of four bytes, for NAL units with no start code inside and a last byte
-- that is not zero.
pub split_annex_b-annex_b :
    (units : List (Bool × List ℕ))
    → All (λ u. IsNal u.1) units
    → split_annex_b (annex_b units) ≡ nals_of units
unfolding split_annex_b
split_annex_b-annex_b [] h = refl
split_annex_b-annex_b ((b, []) ∷ units) h = absurd h.0
split_annex_b-annex_b ((b, x ∷ nal) ∷ units) h =
    ap (split_nals []) (skip_code b x (nal ++ annex_b units)) ∙ split_units (x ∷ nal) units h.0 h.1
