-- ===== src/Rtsp/Connection/Lengths.antt =====
-- The `Content-Length` of a line that has one.
use vscreen.Base.Text.Prefixes.{BeginsWith, strip_prefix_iff}
use vscreen.Rtsp.Parser.{max_usize}
use vscreen.Base.Text.Numbers.{
  is_digit, is_empty-show, parse_number-show, show-digits, to_lowercase-digits,
}
use vscreen.Rtsp.Connection.{after_line}
use vscreen.Base.{
  Option-cases, [], all, ap, append_assoc, ap₂, arith, false, inl, inr, is_empty, refl, true, ℕ,
  ◌++◌, ◌∙◌, ◌∷◌, ◌≡◌, ◌≤◌, nat_eq, string_eq,
}
use vscreen.Base.Text.{
  Text, codes, is_space, lower, show, strip_prefix, text_eq, to_lowercase, trim, trim_end,
  trim_start,
}
use vscreen.Rtsp.Response.{crlf}

to_lowercase-spaces : (s : Text) → all is_space s ≡ true → to_lowercase s ≡ s
to_lowercase-spaces [] h = refl
to_lowercase-spaces (c ∷ s) h = ground (arith, to_lowercase-spaces s)

trim_start-spaces : (b s : Text) → all is_space b ≡ true → trim_start (b ++ s) ≡ trim_start s
unfolding trim_start
trim_start-spaces [] s h = refl
trim_start-spaces (c ∷ b) s h = ground (arith, trim_start-spaces b s)

trim_end-digits : (s : Text) → all is_digit s ≡ true → trim_end (s ++ crlf) ≡ s
unfolding trim_end
trim_end-digits [] h = refl
trim_end-digits (c ∷ s) h = ground (arith, trim_end-digits s)

trim_start-digits :
    (s : Text) → all is_digit s ≡ true → is_empty s ≡ false → trim_start (s ++ crlf) ≡ s ++ crlf
unfolding trim_start
trim_start-digits [] h k = ground arith
trim_start-digits (c ∷ s) h k = ground arith

trim-number : (b : Text) (n : ℕ) → all is_space b ≡ true → trim (b ++ (show n ++ crlf)) ≡ show n
unfolding trim
trim-number b n h =
    ap trim_end (
      trim_start-spaces b (show n ++ crlf) h
      ∙ trim_start-digits (show n) (show-digits n) (is_empty-show n))
    ∙ trim_end-digits (show n) (show-digits n)

to_lowercase-append : (s t : Text) → to_lowercase (s ++ t) ≡ to_lowercase s ++ to_lowercase t
to_lowercase-append [] t = refl
to_lowercase-append (c ∷ s) t = ap (λ r. lower c ∷ r) (to_lowercase-append s t)

-- The text of a line with a length, in lower case.
lower_sized :
    (name b : Text) (n : ℕ)
    → to_lowercase name ≡ codes "content-length:"
    → all is_space b ≡ true
    → to_lowercase ((name ++ (b ++ show n)) ++ crlf)
      ≡ codes "content-length:" ++ (b ++ (show n ++ crlf))
lower_sized name b n h k =
    ap to_lowercase
      (append_assoc name (b ++ show n) crlf ∙ ap (λ r. name ++ r) (append_assoc b (show n) crlf))
    ∙ to_lowercase-append name (b ++ (show n ++ crlf))
    ∙ ap₂ ◌++◌ h (
        to_lowercase-append b (show n ++ crlf)
        ∙ ap₂ ◌++◌ (to_lowercase-spaces b k) (
            to_lowercase-append (show n) crlf
            ∙ ap (λ r. r ++ crlf) (to_lowercase-digits (show n) (show-digits n))))

pub after_line-sized :
    (k : ℕ) (name b : Text) (n : ℕ)
    → to_lowercase name ≡ codes "content-length:"
    → all is_space b ≡ true
    → n ≤ max_usize
    → after_line k ((name ++ (b ++ show n)) ++ crlf) ≡ n
unfolding after_line
after_line-sized k name b n h spaces small =
    let found =
      (strip_prefix_iff (codes "content-length:") _ (b ++ (show n ++ crlf))).1
        (lower_sized name b n h spaces) in
    rw (after_line, found, trim-number b n spaces, parse_number-show max_usize n small) refl

pub after_line-plain :
    (k : ℕ) (line : Text)
    → ¬ BeginsWith (codes "content-length:") (to_lowercase line)
    → after_line k line ≡ k
unfolding after_line
after_line-plain k line h =
    elim (Option-cases (strip_prefix (codes "content-length:") (to_lowercase line))) [
      | inl miss ↦ rw (after_line, miss) refl
      | inr (rest, hit) ↦
          absurd (h (rest, (strip_prefix_iff (codes "content-length:") _ rest).0 hit))
    ]
