-- ===== src/Base/Text/Prefixes.antt =====
-- Texts that begin with another.
use vscreen.Base.Text.{Text, starts_with, strip_prefix, text_eq}
use vscreen.Base.{[], arith, refl, some, true, ◌++◌, ◌↔◌, ◌∷◌, ◌≡◌, nat_eq, string_eq}

abbrev pub BeginsWith : Text → Text → Type 0
BeginsWith p s = (rest : Text) × (s ≡ p ++ rest)

pub strip_prefix_iff : (p s rest : Text) → (strip_prefix p s ≡ some rest) ↔ (s ≡ p ++ rest)
unfolding strip_prefix
strip_prefix_iff [] s rest = ground arith
strip_prefix_iff (c ∷ p) [] rest = ground arith
strip_prefix_iff (c ∷ p) (x ∷ s) rest = ground (arith, strip_prefix_iff p s rest)

pub starts_with_iff : (p s : Text) → (starts_with p s ≡ true) ↔ BeginsWith p s
unfolding starts_with
starts_with_iff [] s = (λ h. (s, refl), λ h. refl)
starts_with_iff (c ∷ p) [] = (λ h. ground arith, λ h. absurd (ground (arith, h.1)))
starts_with_iff (c ∷ p) (x ∷ s) = (
  λ h. let later = (starts_with_iff p s).0 (ground arith) in (later.0, ground (arith, later.1)),
  λ h. ground (arith, h.1, (starts_with_iff p s).1 (h.0, ground (arith, h.1))),
)
