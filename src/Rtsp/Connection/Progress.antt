-- ===== src/Rtsp/Connection/Progress.antt =====
-- Each round of a connection takes some of its input.
use vscreen.Base.Text.{Text, text_eq}
use vscreen.Base.{
  is_some, Option, [], arith, at_if, at_option, leb, length, length-drop, ltb, not, refl, suc, true,
  zero, ℕ, ◌*◌, ◌++◌, ◌+◌, ◌<◌, ◌==◌, ◌^◌, ◌∷◌, ◌≡◌, nat_eq, string_eq,
}
use vscreen.Rtsp.Reply.{Environment, InstanceLookup}
use vscreen.Rtsp.Transport.Output.{SocketAddr}
use vscreen.Rtsp.Connection.{
  Decoding, Read, after_line, ended, failed, interleaved, is_blank, panicked, read_body, read_lines,
  request, read_frame, read_message, Connection, serve, answer, keepalive,
}

-- The rest of a message is shorter than `n`.
abbrev Shorter : ℕ → Read → Type 0
Shorter n (interleaved rest) = length rest < n
Shorter n (request text rest) = length rest < n
Shorter n ended = Unit
Shorter n failed = Unit
Shorter n panicked = Unit

weaken : (n : ℕ) (r : Read) → Shorter n r → Shorter (suc n) r
weaken n (interleaved rest) h = omega arith
weaken n (request text rest) h = omega arith
weaken n ended h = tt
weaken n failed h = tt
weaken n panicked h = tt

read_body-Shorter :
    (decoding : Decoding) (n : ℕ) (text input : Text)
    → Shorter (suc (length input)) (read_body decoding n text input)
unfolding read_body
read_body-Shorter decoding n text input =
    at_if (Shorter (suc (length input))) (not (ltb 0 n)) (omega arith) (
      at_if (Shorter (suc (length input))) (leb (2 ^ 63) n) tt (
        at_if (Shorter (suc (length input))) (ltb (length input) n) tt
          (omega (arith, length-drop n input))))

read_lines-Shorter :
    (decoding : Decoding) (input line text : Text) (n : ℕ)
    → Shorter (length input) (read_lines decoding input line text n)
unfolding read_lines
read_lines-Shorter decoding [] line text n = at_if (Shorter 0) (decoding.is_utf8 line) tt tt
read_lines-Shorter decoding (c ∷ input) line text n =
    let whole = line ++ c ∷ [] in
    let m = after_line n whole in
    let P = Shorter (suc (length input)) in
    let more =
      weaken (length input) (read_lines decoding input whole text n)
        (read_lines-Shorter decoding input whole text n) in
    let next =
      weaken (length input) (read_lines decoding input [] (text ++ whole) m)
        (read_lines-Shorter decoding input [] (text ++ whole) m) in
    at_if P (not (c == 10)) more (
      at_if P (not (decoding.is_utf8 whole)) tt
        (at_if P (is_blank whole) (read_body-Shorter decoding m (text ++ whole) input) next))

read_frame-Shorter : (input : Text) → Shorter (length input) (read_frame input)
unfolding read_frame
read_frame-Shorter [] = tt
read_frame-Shorter (a ∷ []) = tt
read_frame-Shorter (a ∷ b ∷ []) = tt
read_frame-Shorter (a ∷ b ∷ c ∷ []) = tt
read_frame-Shorter (a ∷ b ∷ hi ∷ lo ∷ input) =
    at_if (Shorter (suc (suc (suc (suc (length input)))))) (ltb (length input) (hi * 256 + lo)) tt
      (omega (arith, length-drop (hi * 256 + lo) input))

read_message-Shorter :
    (decoding : Decoding) (input : Text) → Shorter (length input) (read_message decoding input)
unfolding read_message
read_message-Shorter decoding [] = tt
read_message-Shorter decoding (b ∷ input) =
    at_if (Shorter (suc (length input))) (b == 0x24) (read_frame-Shorter (b ∷ input))
      (read_lines-Shorter decoding (b ∷ input) [] [] 0)

at_read {ℓ κ} :
    {B : Type ℓ} (P : B → Type κ) (n : ℕ) (r : Read) {f : Text → B} {g : Text → Text → B} {d : B}
    → Shorter n r
    → ((rest : Text) → length rest < n → P (f rest))
    → ((text rest : Text) → length rest < n → P (g text rest))
    → P d
    → P (elim r [
      | interleaved rest ↦ f rest
      | request text rest ↦ g text rest
      | ended ↦ d
      | failed ↦ d
      | panicked ↦ d
    ])
at_read P n (interleaved rest) h hf hg hd = hf rest h
at_read P n (request text rest) h hf hg hd = hg text rest h
at_read P n ended h hf hg hd = hd
at_read P n failed h hf hg hd = hd
at_read P n panicked h hf hg hd = hd

-- Whatever a client sends, the loop of its connection comes to an end: rounds as many as the bytes
-- of the input, and one more, are enough.
pub serve_ends :
    (decoding : Decoding) (lookup : InstanceLookup) (envs : ℕ → Environment) (peer : SocketAddr)
    (fuel : ℕ) (c : Connection) (input : Text)
    → length input < fuel
    → is_some (serve decoding lookup envs peer fuel c input) ≡ true
unfolding serve
serve_ends decoding lookup envs peer zero c input h = ground arith
serve_ends decoding lookup envs peer (suc fuel) c input h =
    let P : Option Connection → Type 0 = λ o. is_some o ≡ true in
    at_read P (length input) (read_message decoding input) (read_message-Shorter decoding input)
      (λ rest k.
        serve_ends decoding lookup envs peer fuel (keepalive (envs fuel).now c) rest (omega arith))
      (λ text rest k.
        at_option P (answer decoding lookup (envs fuel) peer c text) (λ e. refl)
          (λ c' e. serve_ends decoding lookup envs peer fuel c' rest (omega arith)))
      refl
