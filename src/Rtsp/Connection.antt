-- ===== src/Rtsp/Connection.antt =====
-- crates/vscreen-rtsp/src/server.rs: one connection, on the bytes that its client sends. The
-- decoding of UTF-8 (`is_utf8`, `lossy`) is the standard library's and is given.
pub mod Progress
pub mod Framing
mod Lengths
use vscreen.Base.Text.{Text, codes, parse_number, strip_prefix, text_eq, to_lowercase, trim}
use vscreen.Base.{
  Bool, List, Option, [], drop, false, if◌then◌else◌, leb, length, ltb, none, not, some, suc, take,
  true, zero, ℕ, ◌*◌, ◌++◌, ◌+◌, ◌==◌, ◌^◌, ◌||◌, ◌∷◌, nat_eq, string_eq,
}
use vscreen.Rtsp.Reply.{Environment, InstanceLookup}
use vscreen.Rtsp.Handler.{handle_request}
use vscreen.Rtsp.Parser.{ok, err, panics, max_usize, parse}
use vscreen.Rtsp.Response.{RtspResponse, new}
use vscreen.Rtsp.Session.Manager.{RtspSessionManager, touch}
use vscreen.Rtsp.Transport.Output.{SocketAddr}

pub record Decoding : Type 0 where
  pub is_utf8 : Text → Bool
  pub lossy : Text → Text

-- A message with the bytes after it, or the end of the connection: without an error, with one, or by
-- a panic of its task.
pub data Read : Type 0 where
  interleaved : Text → Read
  request : Text → Text → Read
  ended failed panicked : Read

-- The `Content-Length` after a line.
unfoldable pub after_line : ℕ → Text → ℕ
after_line n line = elim (strip_prefix (codes "content-length:") (to_lowercase line)) [
  | none ↦ n
  | some rest ↦ elim (parse_number max_usize (trim rest)) [ none ↦ n | some m ↦ m ]
]

abbrev pub is_blank : Text → Bool
is_blank line = line == (13 ∷ 10 ∷ []) || line == (10 ∷ [])

-- `vec![0; n]` and `read_exact`, and the request with its body.
unfoldable pub read_body : Decoding → ℕ → Text → Text → Read
read_body decoding n text input =
    if not (ltb 0 n)
    then request text input
    else if leb (2 ^ 63) n
    then panicked
    else if ltb (length input) n
    then failed
    else request (text ++ decoding.lossy (take n input)) (drop n input)

-- The loop over the lines: the input, the line so far, the request so far, its `Content-Length`.
unfoldable pub read_lines : Decoding → Text → Text → Text → ℕ → Read
unfolding after_line read_body
read_lines decoding [] line text n = if decoding.is_utf8 line then ended else failed
read_lines decoding (c ∷ input) line text n =
    let more = read_lines decoding input (line ++ c ∷ []) text n in
    let whole = line ++ c ∷ [] in
    let next = read_lines decoding input [] (text ++ whole) (after_line n whole) in
    if not (c == 10)
    then more
    else if not (decoding.is_utf8 whole)
    then failed
    else if is_blank whole
    then read_body decoding (after_line n whole) (text ++ whole) input
    else next

unfoldable pub read_frame : Text → Read
read_frame (b0 ∷ channel ∷ hi ∷ lo ∷ input) =
    let len = hi * 256 + lo in
    if ltb (length input) len then failed else interleaved (drop len input)
read_frame input = failed

-- One round of the loop, up to the request.
unfoldable pub read_message : Decoding → Text → Read
unfolding read_frame read_lines
read_message decoding [] = ended
read_message decoding (b ∷ input) =
    if b == 0x24 then read_frame (b ∷ input) else read_lines decoding (b ∷ input) [] [] 0

pub record Connection : Type 0 where
  pub manager : RtspSessionManager
  pub session_id : Option Text
  pub written : List RtspResponse

abbrev pub keepalive : ℕ → Connection → Connection
keepalive now c = elim c.session_id [
  | none ↦ c
  | some id ↦ record c { manager = touch now c.manager id }
]

abbrev or_else : Option Text → Option Text → Option Text
or_else (some s) t = some s
or_else none t = t

abbrev pub bad_request : RtspResponse
bad_request = new 400 (codes "Bad Request") 0

-- The answer to a request; `none` where the parser panics.
unfoldable pub answer :
    Decoding → InstanceLookup → Environment → SocketAddr → Connection → Text → Option Connection
unfolding handle_request parse
answer decoding lookup env peer c text = elim (parse decoding.is_utf8 text) [
  | panics ↦ none
  | err e ↦ some (record c { written = c.written ++ bad_request ∷ [] })
  | ok r ↦
      let reply = handle_request lookup env c.manager r peer in
      some (record {
        manager = reply.manager;
        session_id = or_else reply.response.session c.session_id;
        written = c.written ++ reply.response ∷ [];
      })
]

-- The loop of `handle_connection`, with what the environment gives each round; `none` where the fuel
-- runs out.
unfoldable pub serve :
    Decoding
    → InstanceLookup
    → (ℕ → Environment)
    → SocketAddr
    → ℕ
    → Connection
    → Text
    → Option Connection
unfolding read_message answer
serve decoding lookup envs peer zero c input = none
serve decoding lookup envs peer (suc fuel) c input = elim (read_message decoding input) [
  | interleaved rest ↦ serve decoding lookup envs peer fuel (keepalive (envs fuel).now c) rest
  | request text rest ↦ elim (answer decoding lookup (envs fuel) peer c text) [
    | none ↦ some c
    | some c' ↦ serve decoding lookup envs peer fuel c' rest
  ]
  | ended ↦ some c
  | failed ↦ some c
  | panicked ↦ some c
]
