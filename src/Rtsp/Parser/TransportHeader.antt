-- ===== src/Rtsp/Parser/TransportHeader.antt =====
-- crates/vscreen-rtsp/src/parser.rs: the Transport header. A missing second number is the first
-- one plus one, which wraps as in a release build.
pub mod RoundTrip
use vscreen.Base.Text.{
  Text, codes, contains, parse_number, show, split, starts_with, strip_prefix, to_lowercase, trim,
  text_eq,
}
use vscreen.Base.{
  Bool, List, Option, [], false, find, get_elem?, if◌then◌else◌, max, none, not, some, true, ℕ, ◌%◌,
  ◌++◌, ◌+◌, ◌||◌, ◌∷◌, nat_eq, string_eq,
}
use vscreen.Rtsp.Parser.{ParseError, invalid_transport, Result, ok, err, panics, ◌>>=◌, or_err}

pub data TransportMode : Type 0 where
  udp_unicast : ℕ → ℕ → TransportMode
  tcp_interleaved : ℕ → ℕ → TransportMode

-- One or two numbers, split at `-`.
unfoldable pub parse_pair : ℕ → ParseError → ParseError → List Text → Result (ℕ × ℕ)
parse_pair max bad_first bad_second [] = err bad_first
parse_pair max bad_first bad_second (a ∷ []) = do
  first ← or_err (parse_number max a) bad_first
  ok (first, (first + 1) % (max + 1))
parse_pair max bad_first bad_second (a ∷ b ∷ rest) = do
  first ← or_err (parse_number max a) bad_first
  second ← or_err (parse_number max b) bad_second
  ok (first, second)

-- The first part whose trimmed text has the prefix, and what follows the prefix.
unfoldable pub find_interleaved : List Text → Option Text
find_interleaved [] = none
find_interleaved (part ∷ parts) =
    let later = find_interleaved parts in
    elim (strip_prefix (codes "interleaved=") (trim part)) [ some rest ↦ some rest | none ↦ later ]

unfoldable pub parse_tcp : Text → Result TransportMode
unfolding find_interleaved parse_pair
parse_tcp lowered =
    let bad = invalid_transport (codes "invalid interleaved channel") in
    do
      part ←
          or_err (find_interleaved (split b';' lowered))
            (invalid_transport (codes "TCP mode requires interleaved= parameter"))
      pair ← parse_pair 255 bad bad (split b'-' part)
      ok (tcp_interleaved pair.0 pair.1)

-- `.nth(1)` of the parts at `=`.
abbrev second_part : List Text → Option Text
second_part parts = get_elem? parts 1

unfoldable pub parse_udp : Text → Result TransportMode
unfolding parse_pair
parse_udp value = do
  part ←
      or_err
        (find (λ p. starts_with (codes "client_port=") (to_lowercase (trim p))) (split b';' value))
        (invalid_transport (codes "missing client_port"))
  ports ← or_err (second_part (split b'=' part)) (invalid_transport (codes "malformed client_port"))
  pair ←
      parse_pair 65535 (invalid_transport (codes "invalid RTP port number"))
        (invalid_transport (codes "invalid RTCP port number")) (split b'-' (trim ports))
  ok (udp_unicast pair.0 pair.1)

unfoldable pub parse_transport : Text → Result TransportMode
unfolding parse_tcp parse_udp
parse_transport value =
    let lowered = to_lowercase value in
    let tcp = parse_tcp lowered in
    let udp = parse_udp value in
    if not (contains (codes "rtp/avp") lowered)
    then err (invalid_transport (codes "missing RTP/AVP"))
    else if contains (codes "rtp/avp/tcp") lowered || contains (codes "interleaved=") lowered
    then tcp
    else udp

unfoldable pub is_tcp_interleaved : TransportMode → Bool
is_tcp_interleaved (udp_unicast rtp rtcp) = false
is_tcp_interleaved (tcp_interleaved rtp rtcp) = true

abbrev show_pair : ℕ → ℕ → Text
show_pair a b = show a ++ (b'-' ∷ show b)

unfoldable pub format_response : TransportMode → ℕ → ℕ → Text
format_response (udp_unicast rtp rtcp) server_rtp_port server_rtcp_port =
    codes "RTP/AVP;unicast;client_port="
    ++ (show rtp
        ++ (b'-'
            ∷ (show rtcp ++ (codes ";server_port=" ++ show_pair server_rtp_port server_rtcp_port))))
format_response (tcp_interleaved rtp rtcp) server_rtp_port server_rtcp_port =
    codes "RTP/AVP/TCP;unicast;interleaved=" ++ show_pair rtp rtcp
