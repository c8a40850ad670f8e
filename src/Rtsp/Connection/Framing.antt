-- ===== src/Rtsp/Connection/Framing.antt =====
-- What the loop reads of the messages that a client writes.
use vscreen.Base.Text.Prefixes.{BeginsWith}
use vscreen.Base.Text.{strip_prefix, Text, text_eq, codes, is_space, show, to_lowercase}
use vscreen.Base.Text.Splits.{has}
use vscreen.Base.{
  All, Bool, List, [], all, ap, append-nil, append_assoc, arith, drop-append, false, is_empty,
  length, length-append, map, refl, take-append, true, ℕ, ◌%◌, ◌*◌, ◌++◌, ◌+◌, ◌/◌, ◌<◌, ◌==◌, ◌^◌,
  ◌∙◌, ◌∷◌, ◌≡◌, ◌≤◌, nat_eq, string_eq,
}
use vscreen.Rtsp.Connection.{
  Decoding, Read, after_line, interleaved, read_body, read_lines, request, is_blank, read_frame,
  read_message,
}
use vscreen.Rtsp.Response.{crlf}
use vscreen.Rtsp.Parser.{lines, max_usize}
use vscreen.Rtsp.Connection.Lengths.{after_line-plain, after_line-sized}

-- The lines of a request up to the blank line, each with its end.
abbrev pub head : List Text → Text
head [] = []
head (line ∷ lines) = line ++ (crlf ++ head lines)

-- A line of a request: a `Content-Length` as its name is spelt, blanks, and a number in decimal; or
-- any other line.
pub data RequestLine : Type 0 where
  sized : Text → Text → ℕ → RequestLine
  plain : Text → RequestLine

abbrev pub text_of : RequestLine → Text
text_of (sized name blanks n) = name ++ (blanks ++ show n)
text_of (plain line) = line

abbrev pub texts : List RequestLine → List Text
texts lines = map text_of lines

-- The number of the last `Content-Length`.
abbrev pub announced : ℕ → List RequestLine → ℕ
announced n [] = n
announced n (sized name blanks m ∷ lines) = announced m lines
announced n (plain line ∷ lines) = announced n lines

-- What the loop makes of the lines.
abbrev counted : ℕ → List Text → ℕ
counted n [] = n
counted n (line ∷ lines) = counted (after_line n (line ++ crlf)) lines

pub data Message : Type 0 where
  frames : ℕ → Text → Message
  requests : List RequestLine → Text → Message

unfoldable pub wire : Message → Text
wire (frames channel payload) =
    0x24 ∷ channel ∷ (length payload / 256) ∷ (length payload % 256) ∷ payload
wire (requests lines body) = head (texts lines) ++ (crlf ++ body)

abbrev pub IsLine : Decoding → Text → Type 0
IsLine decoding line =
    (has 10 line ≡ false) × (is_empty line ≡ false) × (decoding.is_utf8 (line ++ crlf) ≡ true)

-- The name in any mix of cases, and a number that a `usize` holds; no other line has the name.
abbrev pub IsSpelt : RequestLine → Type 0
IsSpelt (sized name blanks n) =
    (to_lowercase name ≡ codes "content-length:") × (all is_space blanks ≡ true) × (n ≤ max_usize)
IsSpelt (plain line) = ¬ BeginsWith (codes "content-length:") (to_lowercase (line ++ crlf))

abbrev pub starts_frame : Text → Bool
starts_frame [] = false
starts_frame (b ∷ s) = b == 0x24

-- A frame of at most 65,535 bytes; or lines and a body of the length that they announce.
unfoldable pub IsMessage : Decoding → Message → Type 0
IsMessage decoding (frames channel payload) = length payload < 2 ^ 16
IsMessage decoding (requests lines body) =
    All (IsLine decoding) (texts lines)
    × All IsSpelt lines
    × (starts_frame (head (texts lines)) ≡ false)
    × (decoding.is_utf8 crlf ≡ true)
    × (announced 0 lines ≡ length body)
    × (length body < 2 ^ 63)

-- Bodies are decoded with replacement.
abbrev decoded : Decoding → Text → Text
decoded decoding [] = []
decoded decoding (b ∷ body) = decoding.lossy (b ∷ body)

unfoldable pub received : Decoding → Message → Text → Read
received decoding (frames channel payload) rest = interleaved rest
received decoding (requests lines body) rest =
    request (head (texts lines) ++ (crlf ++ decoded decoding body)) rest

read_lines-skip :
    (decoding : Decoding) (l input line text : Text) (n : ℕ)
    → has 10 l ≡ false
    → read_lines decoding (l ++ input) line text n ≡ read_lines decoding input (line ++ l) text n
unfolding read_lines
read_lines-skip decoding [] input line text n h = rw (append-nil line) refl
read_lines-skip decoding (c ∷ l) input line text n h =
    ground (
      arith,
      read_lines-skip decoding l input (line ++ c ∷ []) text n,
      append_assoc line (c ∷ []) l,
    )

read_body-append :
    (decoding : Decoding) (text body rest : Text)
    → length body < 2 ^ 63
    → read_body decoding (length body) text (body ++ rest)
      ≡ request (text ++ decoded decoding body) rest
unfolding read_body
read_body-append decoding text [] rest h = rw (append-nil text) refl
read_body-append decoding text (b ∷ body) rest h =
    ground (
      arith,
      take-append (b ∷ body) rest,
      drop-append (b ∷ body) rest,
      length-append (b ∷ body) rest,
    )

blank_line-after : (n : ℕ) → after_line n crlf ≡ n
unfolding after_line strip_prefix
blank_line-after n = refl

is_blank-line : (l : Text) → is_empty l ≡ false → is_blank (l ++ crlf) ≡ false
is_blank-line [] h = ground arith
is_blank-line (c ∷ []) h = ground arith
is_blank-line (c ∷ d ∷ []) h = ground arith
is_blank-line (c ∷ d ∷ e ∷ l) h = ground arith

-- A line that is not blank.
read_lines-line :
    (decoding : Decoding) (l input text : Text) (n : ℕ)
    → IsLine decoding l
    → read_lines decoding (l ++ (crlf ++ input)) [] text n
      ≡ read_lines decoding input [] (text ++ (l ++ crlf)) (after_line n (l ++ crlf))
unfolding read_lines
read_lines-line decoding l input text n h =
    read_lines-skip decoding l (crlf ++ input) [] text n h.0
    ∙ rw (append_assoc l (13 ∷ []) (10 ∷ []), h.2, is_blank-line l h.1) refl

-- The blank line.
read_lines-blank :
    (decoding : Decoding) (input text : Text) (n : ℕ)
    → decoding.is_utf8 crlf ≡ true
    → read_lines decoding (crlf ++ input) [] text n ≡ read_body decoding n (text ++ crlf) input
unfolding read_lines
read_lines-blank decoding input text n h =
    rw h (ap (λ m. read_body decoding m (text ++ crlf) input) (blank_line-after n))

read_lines-head :
    (decoding : Decoding) (lines : List Text) (input text : Text) (n : ℕ)
    → All (IsLine decoding) lines
    → read_lines decoding (head lines ++ input) [] text n
      ≡ read_lines decoding input [] (text ++ head lines) (counted n lines)
unfolding read_lines
read_lines-head decoding [] input text n h = rw (append-nil text) refl
read_lines-head decoding (l ∷ lines) input text n h =
    ap (λ s. read_lines decoding s [] text n) (append_assoc l (crlf ++ head lines) input)
    ∙ read_lines-line decoding l (head lines ++ input) text n h.0
    ∙ read_lines-head decoding lines input (text ++ (l ++ crlf)) (after_line n (l ++ crlf)) h.1
    ∙ ap (λ s. read_lines decoding input [] s (counted (after_line n (l ++ crlf)) lines))
        (append_assoc text (l ++ crlf) (head lines)
          ∙ ap (λ s. text ++ s) (append_assoc l crlf (head lines)))

-- The first byte of a request.
starts_frame-head :
    (decoding : Decoding) (lines : List Text) (t : Text)
    → All (IsLine decoding) lines
    → starts_frame (head lines) ≡ false
    → (is_empty (head lines ++ (crlf ++ t)) ≡ false)
      × (starts_frame (head lines ++ (crlf ++ t)) ≡ false)
starts_frame-head decoding [] t h k = (refl, refl)
starts_frame-head decoding ([] ∷ lines) t h k = (refl, refl)
starts_frame-head decoding ((c ∷ l) ∷ lines) t h k = (refl, k)

read_message-request :
    (decoding : Decoding) (s : Text)
    → is_empty s ≡ false
    → starts_frame s ≡ false
    → read_message decoding s ≡ read_lines decoding s [] [] 0
unfolding read_message
read_message-request decoding [] h k = ground arith
read_message-request decoding (b ∷ s) h k = rw k refl

counted-announced :
    (n : ℕ) (lines : List RequestLine)
    → All IsSpelt lines
    → counted n (texts lines) ≡ announced n lines
counted-announced n [] h = refl
counted-announced n (sized name b m ∷ lines) h =
    ap (λ k. counted k (texts lines)) (after_line-sized n name b m h.0.0 h.0.1 h.0.2)
    ∙ counted-announced m lines h.1
counted-announced n (plain line ∷ lines) h =
    ap (λ k. counted k (texts lines)) (after_line-plain n (line ++ crlf) h.0)
    ∙ counted-announced n lines h.1

-- Reading takes just the next message off the input: a frame with its payload, or a request with
-- its lines, its blank line and as many bytes of body as the number of its last `Content-Length`
-- line says, the name in any mix of cases, or none without such a line. This holds whatever
-- follows, so that a client may send requests and frames back to back.
pub read_message-wire :
    (decoding : Decoding) (message : Message) (rest : Text)
    → IsMessage decoding message
    → read_message decoding (wire message ++ rest) ≡ received decoding message rest
unfolding read_message read_frame wire received IsMessage
read_message-wire decoding (frames channel payload) rest h =
    let e : length payload / 256 * 256 + length payload % 256 ≡ length payload = omega arith in
    rw e (ground (arith, length-append payload rest, drop-append payload rest))
read_message-wire decoding (requests lines body) rest h =
    let ls = texts lines in
    let whole : (wire (requests lines body) ++ rest) ≡ (head ls ++ (crlf ++ (body ++ rest))) =
      append_assoc (head ls) (crlf ++ body) rest in
    let start = starts_frame-head decoding ls (body ++ rest) h.0 h.2 in
    ap (read_message decoding) whole
    ∙ read_message-request decoding _ start.0 start.1
    ∙ read_lines-head decoding ls (crlf ++ (body ++ rest)) [] 0 h.0
    ∙ read_lines-blank decoding (body ++ rest) (head ls) (counted 0 ls) h.3
    ∙ ap (λ n. read_body decoding n (head ls ++ crlf) (body ++ rest))
        (counted-announced 0 lines h.1 ∙ h.4)
    ∙ read_body-append decoding (head ls ++ crlf) body rest h.5
    ∙ ap (λ s. request s rest) (append_assoc (head ls) crlf (decoded decoding body))
