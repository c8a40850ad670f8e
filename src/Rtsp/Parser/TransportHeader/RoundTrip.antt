-- ===== src/Rtsp/Parser/TransportHeader/RoundTrip.antt =====
-- The Transport header of a response is read back.
use vscreen.Base.Text.Splits.{
  contains_lacks, has, split-append, split-whole, split_parts-append, split_parts-whole,
}
use vscreen.Base.Text.Numbers.{has-show, is_digit, parse_number-show, show-digits}
use vscreen.Base.Text.{
  codes, contains, show, split, split_parts, strip_prefix, text_eq, trim, trim_end, trim_start,
  Text, lower,
}
use vscreen.Base.{
  Bool, [], all, ap, append_assoc, arith, false, leb, map, nat_beq_iff, refl, sym, true, ℕ, ◌&&◌,
  ◌++◌, ◌<◌, ◌==◌, ◌^◌, ◌||◌, ◌∙◌, ◌∷◌, ◌≡◌, ◌≤◌, nat_eq, string_eq,
}
use vscreen.Rtsp.Parser.{ok, ParseError, invalid_transport, ◌>>=◌}
use vscreen.Rtsp.Parser.TransportHeader.{
  TransportMode, parse_transport, tcp_interleaved, udp_unicast, parse_pair, format_response,
}

abbrev pub Fits : TransportMode → Type 0
Fits (udp_unicast rtp rtcp) = (rtp < 2 ^ 16) × (rtcp < 2 ^ 16)
Fits (tcp_interleaved rtp rtcp) = (rtp < 2 ^ 8) × (rtcp < 2 ^ 8)

-- Two numbers with a dash between them.
abbrev pair : ℕ → ℕ → Text
pair a b = show a ++ b'-' ∷ show b

is_plain : ℕ → Bool
is_plain c = is_digit c || c == b'-'

plain-digits : (s : Text) → all is_digit s ≡ true → all is_plain s ≡ true
unfolding is_plain
plain-digits [] h = refl
plain-digits (c ∷ s) h = ground (arith, plain-digits s)

all-append : (p : ℕ → Bool) (s t : Text) → all p (s ++ t) ≡ (all p s && all p t)
all-append p [] t = refl
all-append p (c ∷ s) t = ground (arith, all-append p s t)

plain-pair : (a b : ℕ) → all is_plain (pair a b) ≡ true
plain-pair a b =
    all-append is_plain (show a) (b'-' ∷ show b)
    ∙ (unfold is_plain in
        rw (plain-digits (show a) (show-digits a), plain-digits (show b) (show-digits b)) refl)

-- Digits, `-`, `;`, `=`, `_`, and small letters other than `i`.
is_tail : ℕ → Bool
is_tail c =
    is_digit c
    || c == b'-'
    || c == b';'
    || c == b'='
    || c == b'_'
    || (leb b'a' c && leb c b'h')
    || (leb b'j' c && leb c b'z')

tail-plain : (s : Text) → all is_plain s ≡ true → all is_tail s ≡ true
unfolding is_plain is_tail
tail-plain [] h = refl
tail-plain (c ∷ s) h = ground (arith, tail-plain s)

lower-tail : (s : Text) → all is_tail s ≡ true → map lower s ≡ s
unfolding is_tail
lower-tail [] h = refl
lower-tail (c ∷ s) h = ground (arith, lower-tail s)

lower-plain : (s : Text) → all is_plain s ≡ true → map lower s ≡ s
lower-plain s h = lower-tail s (tail-plain s h)

has-tail : (d : ℕ) (s : Text) → is_tail d ≡ false → all is_tail s ≡ true → has d s ≡ false
has-tail d [] h k = refl
has-tail d (c ∷ s) h k = ground (arith, has-tail d s, nat_beq_iff c d)

has-plain : (d : ℕ) (s : Text) → is_plain d ≡ false → all is_plain s ≡ true → has d s ≡ false
has-plain d [] h k = refl
has-plain d (c ∷ s) h k = ground (arith, has-plain d s, nat_beq_iff c d)

trim-plain : (s : Text) → all is_plain s ≡ true → (trim_start s ≡ s) × (trim_end s ≡ s)
unfolding is_plain trim_start trim_end
trim-plain [] h = (refl, refl)
trim-plain (c ∷ s) h = ground (arith, trim-plain s)

split-pair : (a b : ℕ) → split b'-' (pair a b) ≡ show a ∷ show b ∷ []
split-pair a b =
    split-append b'-' (show a) (show b) (has-show b'-' a refl)
    ∙ ap (λ r. show a ∷ r) (split-whole b'-' (show b) (has-show b'-' b refl))

parse_pair-pair :
    (m a b : ℕ) (e f : ParseError)
    → a ≤ m
    → b ≤ m
    → parse_pair m e f (split b'-' (pair a b)) ≡ ok (a, b)
unfolding parse_pair
parse_pair-pair m a b e f ha hb =
    ap (parse_pair m e f) (split-pair a b)
    ∙ rw (parse_number-show m a ha, parse_number-show m b hb) refl

parse_transport_tcp :
    (a b : ℕ)
    → a < 2 ^ 8
    → b < 2 ^ 8
    → parse_transport (codes "RTP/AVP/TCP;unicast;interleaved=" ++ pair a b)
      ≡ ok (tcp_interleaved a b)
unfolding parse_transport contains split strip_prefix trim
parse_transport_tcp a b ha hb =
    rw
      (
        lower-plain (pair a b) (plain-pair a b),
        split_parts-whole b';' (pair a b)
            (has-plain b';' (pair a b) (unfold is_plain in refl) (plain-pair a b)),
        (trim-plain (pair a b) (plain-pair a b)).1,
      )
      (ap (λ r. r >>= λ p. ok (tcp_interleaved p.0 p.1))
        (parse_pair-pair 255 a b bad bad (omega arith) (omega arith)))
  where
    bad : ParseError
    bad = invalid_transport (codes "invalid interleaved channel")

-- What follows `client_port=`.
abbrev ports : ℕ → ℕ → ℕ → ℕ → Text
ports a b c d = show a ++ (b'-' ∷ (show b ++ (codes ";server_port=" ++ pair c d)))

ports-tail : (a b c d : ℕ) → all is_tail (ports a b c d) ≡ true
ports-tail a b c d =
    ap (all is_tail)
      (sym (append_assoc (show a) (b'-' ∷ show b) (codes ";server_port=" ++ pair c d)))
    ∙ all-append is_tail (pair a b) (codes ";server_port=" ++ pair c d)
    ∙ rw (tail-plain (pair a b) (plain-pair a b))
        (unfold is_tail in (unfold is_tail in tail-plain (pair c d) (plain-pair c d)))

split_parts-ports :
    (a b c d : ℕ)
    → split_parts b';' (ports a b c d) ≡ (pair a b, split b';' (codes "server_port=" ++ pair c d))
split_parts-ports a b c d =
    ap (split_parts b';')
      (sym (append_assoc (show a) (b'-' ∷ show b) (codes ";server_port=" ++ pair c d)))
    ∙ split_parts-append b';' (pair a b) (codes "server_port=" ++ pair c d)
        (has-plain b';' (pair a b) (unfold is_plain in refl) (plain-pair a b))

parse_transport_udp :
    (a b c d : ℕ)
    → a < 2 ^ 16
    → b < 2 ^ 16
    → parse_transport (codes "RTP/AVP;unicast;client_port=" ++ ports a b c d) ≡ ok (udp_unicast a b)
unfolding parse_transport contains split strip_prefix trim
parse_transport_udp a b c d ha hb =
    rw
      (
        lower-tail (ports a b c d) (ports-tail a b c d),
        contains_lacks b'/' (codes "rtp/avp/tcp") (ports a b c d) refl
            (has-tail b'/' (ports a b c d) (unfold is_tail in refl) (ports-tail a b c d)),
        contains_lacks b'i' (codes "interleaved=") (ports a b c d) refl
            (has-tail b'i' (ports a b c d) (unfold is_tail in refl) (ports-tail a b c d)),
        split_parts-ports a b c d,
        split_parts-whole b'=' (pair a b)
            (has-plain b'=' (pair a b) (unfold is_plain in refl) (plain-pair a b)),
        (trim-plain (pair a b) (plain-pair a b)).0,
        (trim-plain (pair a b) (plain-pair a b)).1,
      )
      (ap (λ r. r >>= λ p. ok (udp_unicast p.0 p.1))
        (parse_pair-pair 65535 a b (invalid_transport (codes "invalid RTP port number"))
          (invalid_transport (codes "invalid RTCP port number")) (omega arith) (omega arith)))

-- What `format_response` prints for a transport mode, whose ports or channels fit their types,
-- with any server ports, is read back by `parse` as that mode.
pub parse_transport-format_response :
    (mode : TransportMode) (server_rtp_port server_rtcp_port : ℕ)
    → Fits mode
    → parse_transport (format_response mode server_rtp_port server_rtcp_port) ≡ ok mode
unfolding format_response
parse_transport-format_response (udp_unicast a b) c d h = parse_transport_udp a b c d h.0 h.1
parse_transport-format_response (tcp_interleaved a b) c d h = parse_transport_tcp a b h.0 h.1
