-- ===== src/Server/Memory/Last.antt =====
-- The buffers hold the last of what was pushed.
use vscreen.Base.{
  Bool, Bool-cases, List, [], ap, append-nil, append_assoc, arith, drop, drop-all, false,
  if◌then◌else◌, inl, inr, leb, leb→le, length, length-append, length-drop, max, not_leb, refl, suc,
  sym, true, zero, ℕ, ◌++◌, ◌+◌, ◌-◌, ◌<◌, ◌∙◌, ◌∷◌, ◌≡◌, ◌≤◌, nat_eq, string_eq,
}
use vscreen.Server.Memory.{push_bounded}

-- The last `n` of a list.
abbrev pub last_of {ℓ} : {A : Type ℓ} → ℕ → List A → List A
last_of n xs = drop (length xs - n) xs

unfoldable pub push_all {ℓ} : {A : Type ℓ} → ℕ → List A → List A → List A
unfolding push_bounded
push_all n entries [] = entries
push_all n entries (x ∷ xs) = push_all n (push_bounded n entries x) xs

drop-append_1 {ℓ} :
    {A : Type ℓ} (k : ℕ) (xs : List A) (x : A)
    → k ≤ length xs
    → drop k (xs ++ x ∷ []) ≡ drop k xs ++ x ∷ []
drop-append_1 zero xs x h = refl
drop-append_1 (suc k) [] x h = absurd (omega arith)
drop-append_1 (suc k) (y ∷ xs) x h = drop-append_1 k xs x (omega arith)

pub suc_add : (k j : ℕ) → suc (k + j) ≡ suc k + j
suc_add k j = omega arith

drop-drop {ℓ} : {A : Type ℓ} (j k : ℕ) (xs : List A) → drop j (drop k xs) ≡ drop (k + j) xs
drop-drop j zero xs = ap (λ k. drop k xs) (omega arith)
drop-drop j (suc k) [] = drop-all j [] (omega arith) ∙ sym (drop-all (suc k + j) [] (omega arith))
drop-drop j (suc k) (x ∷ xs) = drop-drop j k xs ∙ ap (λ n. drop n (x ∷ xs)) (suc_add k j)

-- A full buffer loses its oldest entry.
full {ℓ} :
    {A : Type ℓ} (n : ℕ) (xs : List A) (x : A)
    → 0 < n
    → n ≤ length xs
    → drop 1 (last_of n xs) ++ x ∷ [] ≡ last_of n (xs ++ x ∷ [])
full n xs x p h =
    ap (λ l. l ++ x ∷ []) (drop-drop 1 (length xs - n) xs)
    ∙ sym (drop-append_1 (length xs - n + 1) xs x (omega arith))
    ∙ ap (λ k. drop k (xs ++ x ∷ [])) (omega (arith, length-append xs (x ∷ [])))

-- A buffer that is not full keeps what it has.
not_full {ℓ} :
    {A : Type ℓ} (n : ℕ) (xs : List A) (x : A)
    → length xs < n
    → last_of n xs ++ x ∷ [] ≡ last_of n (xs ++ x ∷ [])
not_full n xs x h =
    sym (drop-append_1 (length xs - n) xs x (omega arith))
    ∙ ap (λ k. drop k (xs ++ x ∷ [])) (omega (arith, length-append xs (x ∷ [])))

-- The test of `push` on what the buffer holds.
test_full {ℓ} :
    {A : Type ℓ} (n : ℕ) (xs : List A) → 0 < n → leb n (length (last_of n xs)) ≡ leb n (length xs)
test_full n xs p = ground (arith, length-drop (length xs - n) xs)

pub push_bounded-last_of {ℓ} :
    {A : Type ℓ} (n : ℕ) (xs : List A) (x : A)
    → 0 < n
    → push_bounded n (last_of n xs) x ≡ last_of n (xs ++ x ∷ [])
unfolding push_bounded
push_bounded-last_of n xs x p = elim (Bool-cases (leb n (length xs))) [
  | inl hit ↦ rw (test_full n xs p, hit) (full n xs x p (leb→le n (length xs) hit))
  | inr miss ↦ rw (test_full n xs p, miss) (not_full n xs x (not_leb n (length xs) miss))
]

both_empty {ℓ} :
    (A : Type ℓ) (a b : Bool)
    → (if a then drop {A = A} 1 [] else []) ≡ (if b then drop {A = A} 1 [] else [])
both_empty A true true = refl
both_empty A true false = refl
both_empty A false true = refl
both_empty A false false = refl

-- A buffer of capacity 0 works as one of capacity 1.
push_bounded-max {ℓ} :
    {A : Type ℓ} (n : ℕ) (xs : List A) (x : A) → push_bounded n xs x ≡ push_bounded (max n 1) xs x
unfolding push_bounded
push_bounded-max n [] x = ap (λ l. l ++ x ∷ []) (both_empty _ (leb n 0) (leb (max n 1) 0))
push_bounded-max n (y ∷ xs) x = ap (λ b. (if b then xs else y ∷ xs) ++ x ∷ []) same
  where
    same : leb n (suc (length xs)) ≡ leb (max n 1) (suc (length xs))
    same = ground arith

push_all-last_of {ℓ} :
    {A : Type ℓ} (n : ℕ) (ys xs : List A)
    → 0 < n
    → push_all n (last_of n ys) xs ≡ last_of n (ys ++ xs)
unfolding push_all
push_all-last_of n ys [] p = rw (append-nil ys) refl
push_all-last_of n ys (x ∷ xs) p =
    ap (λ l. push_all n l xs) (push_bounded-last_of n ys x p)
    ∙ push_all-last_of n (ys ++ x ∷ []) xs p
    ∙ ap (last_of n) (append_assoc ys (x ∷ []) xs)

push_all-max {ℓ} :
    {A : Type ℓ} (n : ℕ) (ys xs : List A) → push_all n ys xs ≡ push_all (max n 1) ys xs
unfolding push_all
push_all-max n ys [] = refl
push_all-max n ys (x ∷ xs) =
    ap (λ l. push_all n l xs) (push_bounded-max n ys x)
    ∙ push_all-max n (push_bounded (max n 1) ys x) xs

-- From an empty buffer.
pub push_all-empty {ℓ} :
    {A : Type ℓ} (n : ℕ) (xs : List A) → push_all n [] xs ≡ last_of (max n 1) xs
push_all-empty n xs =
    push_all-max n [] xs
    ∙ ap (λ l. push_all (max n 1) l xs) (sym (drop-all (0 - max n 1) [] (omega arith)))
    ∙ push_all-last_of (max n 1) [] xs (omega arith)
