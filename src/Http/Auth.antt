-- ===== src/Http/Auth.antt =====
-- crates/vscreen-server/src/middleware.rs: the middleware that asks for the token.
pub mod Admission
use vscreen.Base.{
  Bool, Option, any, false, if◌then◌else◌, none, some, true, ◌==◌, ◌||◌, nat_eq, string_eq,
}
use vscreen.Base.Text.{Text, codes, split, starts_with, strip_prefix, text_eq}

-- What the middleware reads of a request. The value of the header is there if it is text.
pub record HttpRequest : Type 0 where
  pub path : Text
  pub query : Option Text
  pub authorization : Option Text

-- The rest of the server runs, or the answer is 401.
pub data Passage : Type 0 where
  runs_next unauthorized : Passage

abbrev pub is_exempt : Text → Bool
is_exempt path = path == codes "/health" || path == codes "/metrics"

abbrev pub is_signal : Text → Bool
is_signal path = starts_with (codes "/signal/") path

-- The text after a prefix is the token.
unfoldable pub matches_after : Text → Text → Text → Bool
matches_after prefix token text = elim (strip_prefix prefix text) [
  | some rest ↦ rest == token
  | none ↦ false
]

abbrev pub passage : Bool → Passage
passage true = runs_next
passage false = unauthorized

-- The loop over the parameters of the query.
abbrev pub query_matches : Text → Option Text → Bool
query_matches token none = false
query_matches token (some query) = any (matches_after (codes "token=") token) (split b'&' query)

abbrev pub header_matches : Text → Option Text → Bool
header_matches token none = false
header_matches token (some value) = matches_after (codes "Bearer ") token value

unfoldable pub auth_middleware : Option Text → HttpRequest → Passage
unfolding matches_after
auth_middleware none request = runs_next
auth_middleware (some token) request =
    if is_exempt request.path
    then runs_next
    else if is_signal request.path
    then passage (query_matches token request.query)
    else passage (header_matches token request.authorization)
