-- ===== src/Rtsp/Response.antt =====
-- crates/vscreen-rtsp/src/parser.rs: responses, and their text.
use vscreen.Base.Assoc
use vscreen.Base.Assoc.{get, insert}
use vscreen.Base.Text.{Text, codes, show, text_eq}
use vscreen.Base.{List, Option, [], length, none, some, ℕ, ◌++◌, ◌∷◌}
use vscreen.Rtsp.Parser.{or_empty}

pub record RtspResponse : Type 0 where
  pub status : ℕ
  pub reason : Text
  pub cseq : ℕ
  pub session : Option Text
  pub headers : List (Text × Text)
  pub body : Option Text

abbrev pub new : ℕ → Text → ℕ → RtspResponse
new status reason cseq = record {
  status = status;
  reason = reason;
  cseq = cseq;
  session = none;
  headers = [];
  body = none;
}

abbrev pub ok_response : ℕ → RtspResponse
ok_response = new 200 (codes "OK")

abbrev pub not_found : ℕ → RtspResponse
not_found = new 404 (codes "Not Found")

abbrev pub session_not_found : ℕ → RtspResponse
session_not_found = new 454 (codes "Session Not Found")

abbrev pub unsupported_transport : ℕ → RtspResponse
unsupported_transport = new 461 (codes "Unsupported Transport")

abbrev pub internal_error : ℕ → RtspResponse
internal_error = new 500 (codes "Internal Server Error")

unfoldable pub header : Text → Text → RtspResponse → RtspResponse
header key value r = record r { headers = Assoc.insert key value r.headers }

unfoldable pub with_session : Text → ℕ → RtspResponse → RtspResponse
with_session session timeout_secs r = record r {
  session = some session;
  headers =
      Assoc.insert (codes "Session") (session ++ codes ";timeout=" ++ show timeout_secs) r.headers;
}

unfoldable pub set_body : Text → Text → RtspResponse → RtspResponse
unfolding header
set_body content_type body r =
    let typed = header (codes "Content-Type") content_type r in
    record (header (codes "Content-Length") (show (length body)) typed) { body = some body }

abbrev pub crlf : Text
crlf = 13 ∷ 10 ∷ []

unfoldable pub show_headers : List (Text × Text) → Text
show_headers [] = []
show_headers ((key, value) ∷ rest) = key ++ codes ": " ++ value ++ crlf ++ show_headers rest

-- The session line, where the headers do not have it.
abbrev session_line : RtspResponse → Text
session_line r = elim r.session [
  | none ↦ []
  | some s ↦ elim (get (codes "Session") r.headers) [
    | none ↦ codes "Session: " ++ s ++ crlf
    | some value ↦ []
  ]
]

unfoldable pub serialize : RtspResponse → Text
unfolding show_headers
serialize r =
    codes "RTSP/1.0 "
    ++ show r.status
    ++ 32 ∷ r.reason
    ++ crlf
    ++ codes "CSeq: "
    ++ show r.cseq
    ++ crlf
    ++ session_line r
    ++ show_headers r.headers
    ++ crlf
    ++ or_empty r.body
