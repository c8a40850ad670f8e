-- ===== src/Http/Auth/Admission.antt =====
-- Which requests the middleware lets through.
use vscreen.Base.Text.Prefixes.{BeginsWith, starts_with_iff, strip_prefix_iff}
use vscreen.Base.{
  Bool, Bool-cases, List, Option, [], any, ap, arith, false, if◌then◌else◌, inl, inr, none, refl,
  some, true, ◌++◌, ◌==◌, ◌↔◌, ◌∙◌, ◌∷◌, ◌≡◌, ◌⊎◌, nat_eq, string_eq,
}
use vscreen.Base.Text.{Text, codes, split, strip_prefix, text_eq}
use vscreen.Http.Auth.{
  matches_after, HttpRequest, auth_middleware, header_matches, is_exempt, is_signal, passage,
  query_matches, runs_next,
}

matches_after_iff :
    (prefix token text : Text) → (matches_after prefix token text ≡ true) ↔ (text ≡ prefix ++ token)
unfolding matches_after
matches_after_iff prefix token text = (
  λ h. only (strip_prefix prefix text) refl h,
  λ h.
      (simp ((strip_prefix_iff prefix text token).1 h, matches_after)
        ((text_eq.beq_iff token token).1 refl)),
)
  where
    only :
        (o : Option Text)
        → strip_prefix prefix text ≡ o
        → (elim o [ some rest ↦ rest == token | none ↦ false ]) ≡ true
        → text ≡ prefix ++ token
    only none e h = ground arith
    only (some rest) e h =
        (strip_prefix_iff prefix text rest).0 e
        ∙ ap (λ s. prefix ++ s) ((text_eq.beq_iff rest token).0 h)

-- Some element is the one that is asked for.
abbrev pub Has : Text → List Text → Type 0
Has x [] = ⊥
Has x (y ∷ ys) = (y ≡ x) ⊎ Has x ys

any-matches_after :
    (prefix token : Text) (parts : List Text)
    → (any (matches_after prefix token) parts ≡ true) ↔ Has (prefix ++ token) parts
any-matches_after prefix token [] = (λ h. ground arith, λ h. absurd h)
any-matches_after prefix token (x ∷ xs) = (
  λ h. elim (Bool-cases (matches_after prefix token x)) [
    | inl hit ↦ inl ((matches_after_iff prefix token x).0 hit)
    | inr miss ↦ inr ((any-matches_after prefix token xs).0 (ground arith))
  ],
  λ h. elim h [
    | inl here ↦ ground (arith, (matches_after_iff prefix token x).1 here)
    | inr there ↦ ground (arith, (any-matches_after prefix token xs).1 there)
  ],
)

-- One of the parameters of the query.
abbrev pub HasParameter : Text → Option Text → Type 0
HasParameter p none = ⊥
HasParameter p (some query) = Has p (split b'&' query)

query_iff :
    (token : Text) (query : Option Text)
    → (query_matches token query ≡ true) ↔ HasParameter (codes "token=" ++ token) query
query_iff token none = (λ h. ground arith, λ h. absurd h)
query_iff token (some query) = any-matches_after (codes "token=") token (split b'&' query)

header_iff :
    (token : Text) (value : Option Text)
    → (header_matches token value ≡ true) ↔ (value ≡ some (codes "Bearer " ++ token))
header_iff token none = (λ h. ground arith, λ h. ground arith)
header_iff token (some value) = (
  λ h. ap some ((matches_after_iff (codes "Bearer ") token value).0 h),
  λ h. (matches_after_iff (codes "Bearer ") token value).1 (unsome h),
)
  where
    unsome : {s t : Text} → some s ≡ some t → s ≡ t
    unsome h = ground arith

passage_iff : (b : Bool) → (passage b ≡ runs_next) ↔ (b ≡ true)
passage_iff b = ground arith

is_exempt_iff :
    (path : Text) → (is_exempt path ≡ true) ↔ ((path ≡ codes "/health") ⊎ (path ≡ codes "/metrics"))
is_exempt_iff path = (
  λ h. elim (Bool-cases (path == codes "/health")) [
    | inl hit ↦ inl ((text_eq.beq_iff path (codes "/health")).0 hit)
    | inr miss ↦ inr ((text_eq.beq_iff path (codes "/metrics")).0 (ground arith))
  ],
  λ h. elim h [
    | inl e ↦ ground (arith, (text_eq.beq_iff path (codes "/health")).1 e)
    | inr e ↦ ground (arith, (text_eq.beq_iff path (codes "/metrics")).1 e)
  ],
)

not_signal_iff : (path : Text) → (is_signal path ≡ false) ↔ (¬ BeginsWith (codes "/signal/") path)
not_signal_iff path = (
  λ h b. ground (arith, (starts_with_iff (codes "/signal/") path).1 b),
  λ h. elim (Bool-cases (is_signal path)) [
    | inl begins ↦ absurd (h ((starts_with_iff (codes "/signal/") path).0 begins))
    | inr other ↦ other
  ],
)

-- What lets a request through where a token is configured.
abbrev pub Admitted : Text → HttpRequest → Type 0
Admitted token request =
    ((request.path ≡ codes "/health") ⊎ (request.path ≡ codes "/metrics"))
    ⊎ (BeginsWith (codes "/signal/") request.path
        × HasParameter (codes "token=" ++ token) request.query)
    ⊎ ((¬ BeginsWith (codes "/signal/") request.path)
        × (request.authorization ≡ some (codes "Bearer " ++ token)))

choice_iff :
    (exempt signal q h : Bool) {E S N Q H : Type 0}
    → (exempt ≡ true) ↔ E
    → (signal ≡ true) ↔ S
    → (signal ≡ false) ↔ N
    → (q ≡ true) ↔ Q
    → (h ≡ true) ↔ H
    → ((if exempt then runs_next else if signal then passage q else passage h) ≡ runs_next)
      ↔ (E ⊎ (S × Q) ⊎ (N × H))
choice_iff true signal q h fe fs fn fq fh = (λ _. inl (fe.0 refl), λ _. refl)
choice_iff false true q h fe fs fn fq fh = (
  λ e. inr (inl (fs.0 refl, fq.0 ((passage_iff q).0 e))),
  λ x. elim x [
    | inl never ↦ absurd (ground (arith, fe.1 never))
    | inr y ↦ elim y [
      | inl z ↦ (passage_iff q).1 (fq.1 z.1)
      | inr z ↦ absurd (ground (arith, fn.1 z.0))
    ]
  ],
)
choice_iff false false q h fe fs fn fq fh = (
  λ e. inr (inr (fn.0 refl, fh.0 ((passage_iff h).0 e))),
  λ x. elim x [
    | inl never ↦ absurd (ground (arith, fe.1 never))
    | inr y ↦ elim y [
      | inl z ↦ absurd (ground (arith, fs.1 z.0))
      | inr z ↦ (passage_iff h).1 (fh.1 z.1)
    ]
  ],
)

-- Where a token is configured, the middleware lets a request through exactly if its path is /health
-- or /metrics, or its path begins with /signal/ and one of the parameters of the query is the
-- token's, or its path does not and the Authorization header is Bearer and the token. So a header
-- with the token does not open a path that begins with /signal/.
pub auth_middleware_iff :
    (token : Text) (request : HttpRequest)
    → (auth_middleware (some token) request ≡ runs_next) ↔ Admitted token request
unfolding auth_middleware
auth_middleware_iff token request =
    choice_iff (is_exempt request.path) (is_signal request.path) _ _ (is_exempt_iff request.path)
      (starts_with_iff (codes "/signal/") request.path) (not_signal_iff request.path)
      (query_iff token request.query) (header_iff token request.authorization)
