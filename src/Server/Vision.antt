-- ===== src/Server/Vision.antt =====
-- crates/vscreen-server/src/vision.rs: the JSON object in the answer of a vision model.
pub mod Objects
use vscreen.Base.Ints.{ℤ, pos, negsuc, increment, decrement}
use vscreen.Base.Text.{Text, codes, find_text, starts_with, trim, text_eq}
use vscreen.Base.{
  Bool, Option, [], false, if◌then◌else◌, none, not, some, suc, true, zero, ℕ, ◌&&◌, ◌++◌, ◌==◌,
  ◌∷◌, nat_eq, string_eq,
}

-- The variables of the loop. `object` is the text from `start` on.
pub record Scan : Type 0 where
  pub depth : ℤ
  pub object : Option Text
  pub in_string : Bool
  pub escape : Bool

abbrev pub quote : ℕ
quote = 34

abbrev pub backslash : ℕ
backslash = 92

abbrev pub open_brace : ℕ
open_brace = 123

abbrev pub close_brace : ℕ
close_brace = 125

abbrev pub grow : ℕ → Option Text → Option Text
grow c none = none
grow c (some object) = some (object ++ c ∷ [])

abbrev pub is_positive : ℤ → Bool
is_positive (pos zero) = false
is_positive (pos (suc n)) = true
is_positive (negsuc n) = false

abbrev pub is_zero : ℤ → Bool
is_zero (pos zero) = true
is_zero (pos (suc n)) = false
is_zero (negsuc n) = false

-- The object that starts at a brace, or goes on.
abbrev pub opened : ℤ → Option Text → Option Text
opened depth object = if is_zero depth then some (open_brace ∷ []) else grow open_brace object

-- One round of the loop.
unfoldable pub next : Scan → ℕ → Scan
next s c =
    if s.escape
    then record s { escape = false; object = grow c s.object }
    else if s.in_string
    then record s {
      escape = c == backslash;
      in_string = not (c == quote);
      object = grow c s.object;
    }
    else if (c == quote) && is_positive s.depth
    then record s { in_string = true; object = grow c s.object }
    else if c == open_brace
    then record s { depth = increment s.depth; object = opened s.depth s.object }
    else if c == close_brace
    then record s { depth = decrement s.depth; object = grow c s.object }
    else record s { object = grow c s.object }

-- Whether a round returns: at the brace that brings the depth to zero.
unfoldable pub closes : Scan → ℕ → Bool
closes s c = not s.escape && not s.in_string && (c == close_brace) && is_zero (decrement s.depth)

-- The object, where the round returns one.
abbrev pub object_at : Scan → ℕ → Option Text
object_at s c = if closes s c then grow c s.object else none

unfoldable pub scan : Scan → Text → Option Text
unfolding next closes
scan s [] = none
scan s (c ∷ text) =
    let later = scan (next s c) text in
    elim (object_at s c) [ some object ↦ some object | none ↦ later ]

abbrev pub fence : Text
fence = codes "```"

unfoldable pub json_block : Text → Option Text
unfolding find_text
json_block text = elim (find_text (codes "```json") text) [
  | none ↦ none
  | some r ↦ elim (find_text fence r.1) [ none ↦ none | some e ↦ some (trim e.0) ]
]

abbrev if_object : Text → Option Text
if_object block = if starts_with (codes "{") block then some block else none

unfoldable pub any_block : Text → Option Text
unfolding find_text
any_block text = elim (find_text fence text) [
  | none ↦ none
  | some r ↦ elim (find_text fence r.1) [ none ↦ none | some e ↦ if_object (trim e.0) ]
]

abbrev pub start : Scan
start = record { depth = pos 0; object = none; in_string = false; escape = false }

abbrev pub or_then : Option Text → Option Text → Option Text
or_then (some a) b = some a
or_then none b = b

unfoldable pub extract_json : Text → Option Text
unfolding json_block any_block scan
extract_json text = or_then (json_block text) (or_then (any_block text) (scan start text))
