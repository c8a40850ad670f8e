-- ===== src/Rtsp/Parser.antt =====
-- crates/vscreen-rtsp/src/parser.rs: RTSP requests and responses. A `str` is the list of its
-- bytes; whether bytes are UTF-8 is a parameter; white space and letter case are those of ASCII.
pub mod TransportHeader
pub mod Url
use mathlib.Core.Option
use vscreen.Base.Assoc
use vscreen.Base.Assoc.{get, insert}
use vscreen.Base.Text.{
  Text, codes, find_text, parse_number, show, split, split_once, split_parts, to_lowercase, trim,
  text_eq,
}
use vscreen.Base.{
  Bool, List, Option, [], drop, if◌then◌else◌, is_empty, leb, length, ltb, map, none, some, take, ℕ,
  ◌&&◌, ◌++◌, ◌-◌, ◌==◌, ◌^◌, ◌∷◌, nat_eq, string_eq,
}

pub data ParseError : Type 0 where
  incomplete : ParseError
  invalid_request_line : Text → ParseError
  unknown_method : Text → ParseError
  missing_cseq : ParseError
  invalid_header : Text → ParseError
  invalid_transport : Text → ParseError

-- `panics` is a slice that does not end between two characters.
pub data Result {ℓ} (A : Type ℓ) : Type ℓ where
  ok : A → Result A
  err : ParseError → Result A
  panics : Result A

infixl 5 ◌>>=◌
abbrev pub ◌>>=◌ {ℓ κ} : {A : Type ℓ} {B : Type κ} → Result A → (A → Result B) → Result B
ok a >>= f = f a
err e >>= f = err e
panics >>= f = panics

abbrev pub or_err {ℓ} : {A : Type ℓ} → Option A → ParseError → Result A
or_err (some a) e = ok a
or_err none e = err e

pub data Method : Type 0 where
  options describe setup play pause teardown get_parameter : Method

-- `Display`.
unfoldable pub show_method : Method → Text
show_method options = codes "OPTIONS"
show_method describe = codes "DESCRIBE"
show_method setup = codes "SETUP"
show_method play = codes "PLAY"
show_method pause = codes "PAUSE"
show_method teardown = codes "TEARDOWN"
show_method get_parameter = codes "GET_PARAMETER"

unfoldable pub parse_method : Text → Result Method
parse_method s =
    if s == codes "OPTIONS"
    then ok options
    else if s == codes "DESCRIBE"
    then ok describe
    else if s == codes "SETUP"
    then ok setup
    else if s == codes "PLAY"
    then ok play
    else if s == codes "PAUSE"
    then ok pause
    else if s == codes "TEARDOWN"
    then ok teardown
    else if s == codes "GET_PARAMETER"
    then ok get_parameter
    else err (unknown_method s)

pub record RtspRequest : Type 0 where
  pub method : Method
  pub url : Text
  pub cseq : ℕ
  pub session : Option Text
  pub headers : List (Text × Text)
  pub body : Option Text

abbrev pub blank_line : Text
blank_line = 13 ∷ 10 ∷ 13 ∷ 10 ∷ []

abbrev pub non_empty : Text → Option Text
non_empty [] = none
non_empty (c ∷ s) = some (c ∷ s)

unfoldable pub split_header_body : Text → Text × Option Text
split_header_body text = elim (find_text blank_line text) [
  | some r ↦ (r.0, non_empty r.1)
  | none ↦ (text, none)
]

-- `lines`: a `\r` before the `\n` goes too, and nothing comes after the last `\n`.
unfoldable pub strip_cr : Text → Text
strip_cr [] = []
strip_cr (c ∷ []) = if c == 13 then [] else c ∷ []
strip_cr (c ∷ d ∷ s) = c ∷ strip_cr (d ∷ s)

unfoldable pub lines_of : List Text → List Text
unfolding strip_cr
lines_of [] = []
lines_of (x ∷ []) = if is_empty x then [] else x ∷ []
lines_of (x ∷ y ∷ rest) = strip_cr x ∷ lines_of (y ∷ rest)

unfoldable pub lines : Text → List Text
unfolding lines_of
lines text = lines_of (split b'\n' text)

-- The loop of `parse_headers`, with the map so far.
unfoldable pub parse_headers : List Text → List (Text × Text) → Result (List (Text × Text))
parse_headers [] headers = ok headers
parse_headers (line ∷ rest) headers =
    let skipped = parse_headers rest headers in
    let added = or_err (split_once b':' (trim line)) (invalid_header (trim line)) >>= λ e.
    parse_headers rest (Assoc.insert (to_lowercase (trim e.0)) (trim e.1) headers) in
    if is_empty (trim line) then skipped else added

-- The text up to the first `;`, trimmed.
unfoldable pub session_of : Text → Text
session_of value = trim (split_parts b';' value).0

abbrev is_continuation : ℕ → Bool
is_continuation b = leb 0x80 b && leb b 0xBF

-- `s[..n]` of a text of at least `n` bytes.
unfoldable pub slice_to : ℕ → Text → Result Text
slice_to n s = elim (drop n s) [
  | [] ↦ ok (take n s)
  | b ∷ rest ↦ if is_continuation b then panics else ok (take n s)
]

abbrev pub max_u32 : ℕ
max_u32 = 2 ^ 32 - 1

abbrev pub max_usize : ℕ
max_usize = 2 ^ 64 - 1

-- `unwrap_or("")`
abbrev pub or_empty : Option Text → Text
or_empty none = []
or_empty (some s) = s

-- The body that `Content-Length` asks for.
unfoldable pub body_of : List (Text × Text) → Option Text → Result (Option Text)
unfolding slice_to
body_of headers section = elim (get (codes "content-length") headers) [
  | none ↦ ok none
  | some value ↦
      or_err (parse_number max_usize value) (invalid_header (codes "invalid Content-Length"))
      >>= λ n.
          let text = or_empty section in
          let cut = slice_to n text >>= λ t. ok (some t) in
          if ltb 0 n then (if ltb (length text) n then err incomplete else cut) else ok none
]

-- The part of `parse` after the request line, given the other lines.
unfoldable pub assemble : Method → Text → List Text → Option Text → Result RtspRequest
unfolding parse_headers session_of body_of
assemble method url header_lines section = do
  headers ← parse_headers header_lines []
  value ← or_err (get (codes "cseq") headers) missing_cseq
  cseq ← or_err (parse_number max_u32 value) missing_cseq
  body ← body_of headers section
  ok (record {
    method = method;
    url = url;
    cseq = cseq;
    session = Option.map session_of (get (codes "session") headers);
    headers = headers;
    body = body;
  })

-- `splitn(3, ' ')` into three parts, of which the last is not looked at.
unfoldable pub request_line : Text → Option (Text × Text)
request_line line = elim (split_once 32 line) [
  | none ↦ none
  | some r ↦ Option.map (λ rest. (r.0, rest.0)) (split_once 32 r.1)
]

unfoldable pub parse_lines : List Text → Option Text → Result RtspRequest
unfolding assemble request_line parse_method
parse_lines [] section = err (invalid_request_line (codes "empty"))
parse_lines (line ∷ header_lines) section = do
  parts ← or_err (request_line line) (invalid_request_line line)
  method ← parse_method parts.0
  assemble method parts.1 header_lines section

unfoldable pub parse : (Text → Bool) → Text → Result RtspRequest
unfolding parse_lines lines split_header_body
parse is_utf8 bytes =
    let parts = split_header_body bytes in
    if is_utf8 bytes
    then parse_lines (lines parts.0) parts.1
    else err (invalid_request_line (codes "non-UTF-8 data"))
