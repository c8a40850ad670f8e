-- ===== src/Server/Vision/Objects.antt =====
-- Which object the loop finds: texts of objects put together, and the loop run on them.
use vscreen.Base.Ints.{pos}
use vscreen.Base.Text.{Text, text_eq, codes}
use vscreen.Base.Text.Splits.{has, find_text_lacks}
use vscreen.Base.{
  Bool, List, [], all, ap, append-nil, append_assoc, arith, false, none, not, refl, some, suc, true,
  ℕ, ◌&&◌, ◌++◌, ◌==◌, ◌∙◌, ◌∷◌, ◌≡◌, nat_eq, string_eq,
}
use vscreen.Server.Vision.{
  Scan, backslash, close_brace, closes, next, open_brace, quote, scan, start, any_block,
  extract_json, fence, json_block,
}

-- A byte of a string, or an escaped one.
pub data Item : Type 0 where
  one : ℕ → Item
  escaped : ℕ → Item

-- What stands between the braces of an object: other bytes, strings, and objects in it.
pub data Body : Type 0 where
  done : Body
  plain : ℕ → Body → Body
  quoted : List Item → Body → Body
  braces : Body → Body → Body

abbrev pub show_items : List Item → Text
show_items [] = []
show_items (one c ∷ items) = c ∷ show_items items
show_items (escaped c ∷ items) = backslash ∷ c ∷ show_items items

abbrev pub show_body : Body → Text
show_body done = []
show_body (plain c b) = c ∷ show_body b
show_body (quoted items b) = quote ∷ (show_items items ++ quote ∷ show_body b)
show_body (braces a b) = open_brace ∷ (show_body a ++ close_brace ∷ show_body b)

abbrev pub show_object : Body → Text
show_object b = open_brace ∷ (show_body b ++ close_brace ∷ [])

abbrev pub is_item : Item → Bool
is_item (one c) = not (c == quote) && not (c == backslash)
is_item (escaped c) = true

-- Strings end at their quote, and other bytes are no quotes and no braces.
abbrev pub is_body : Body → Bool
is_body done = true
is_body (plain c b) =
    not (c == quote) && not (c == open_brace) && not (c == close_brace) && is_body b
is_body (quoted items b) = all is_item items && is_body b
is_body (braces a b) = is_body a && is_body b

-- The loop in an object, and in a string of it.
abbrev inside : ℕ → Text → Scan
inside d object = record {
  depth = pos (suc d);
  object = some object;
  in_string = false;
  escape = false;
}

abbrev in_quotes : ℕ → Text → Scan
in_quotes d object = record (inside d object) { in_string = true }

scan-items :
    (d : ℕ) (object t : Text) (items : List Item)
    → all is_item items ≡ true
    → scan (in_quotes d object) (show_items items ++ t)
      ≡ scan (in_quotes d (object ++ show_items items)) t
unfolding scan next closes
scan-items d object t [] h = rw (append-nil object) refl
scan-items d object t (one c ∷ items) h = ground (
  arith,
  scan-items d (object ++ c ∷ []) t items,
  append_assoc object (c ∷ []) (show_items items),
)
scan-items d object t (escaped c ∷ items) h = ground (
  arith,
  scan-items d ((object ++ backslash ∷ []) ++ c ∷ []) t items,
  append_assoc (object ++ backslash ∷ []) (c ∷ []) (show_items items),
  append_assoc object (backslash ∷ []) (c ∷ show_items items),
)

scan-prose :
    (p t : Text)
    → has open_brace p ≡ false
    → has close_brace p ≡ false
    → scan start (p ++ t) ≡ scan start t
unfolding scan next closes
scan-prose [] t h k = refl
scan-prose (c ∷ p) t h k = ground (arith, scan-prose p t)

scan-plain :
    (d c : ℕ) (object t : Text)
    → not (c == quote) && not (c == open_brace) && not (c == close_brace) ≡ true
    → scan (inside d object) (c ∷ t) ≡ scan (inside d (object ++ c ∷ [])) t
unfolding scan next closes
scan-plain d c object t h = ground arith

scan-quote :
    (d : ℕ) (object t : Text)
    → scan (inside d object) (quote ∷ t) ≡ scan (in_quotes d (object ++ quote ∷ [])) t
unfolding scan next closes
scan-quote d object t = refl

scan-end_quote :
    (d : ℕ) (object t : Text)
    → scan (in_quotes d object) (quote ∷ t) ≡ scan (inside d (object ++ quote ∷ [])) t
unfolding scan next closes
scan-end_quote d object t = refl

scan-open :
    (d : ℕ) (object t : Text)
    → scan (inside d object) (open_brace ∷ t) ≡ scan (inside (suc d) (object ++ open_brace ∷ [])) t
unfolding scan next closes
scan-open d object t = refl

scan-close :
    (d : ℕ) (object t : Text)
    → scan (inside (suc d) object) (close_brace ∷ t)
      ≡ scan (inside d (object ++ close_brace ∷ [])) t
unfolding scan next closes
scan-close d object t = refl

regroup :
    (o x y : Text) (p q : ℕ) → ((((o ++ p ∷ []) ++ x) ++ q ∷ []) ++ y) ≡ (o ++ p ∷ (x ++ q ∷ y))
regroup o x y p q =
    append_assoc ((o ++ p ∷ []) ++ x) (q ∷ []) y
    ∙ append_assoc (o ++ p ∷ []) x (q ∷ y)
    ∙ append_assoc o (p ∷ []) (x ++ q ∷ y)

scan-body :
    (d : ℕ) (object t : Text) (b : Body)
    → is_body b ≡ true
    → scan (inside d object) (show_body b ++ t) ≡ scan (inside d (object ++ show_body b)) t
scan-body d object t done h = rw (append-nil object) refl
scan-body d object t (plain c b) h =
    scan-plain d c object (show_body b ++ t) (ground arith)
    ∙ scan-body d (object ++ c ∷ []) t b (ground arith)
    ∙ ap (λ o. scan (inside d o) t) (append_assoc object (c ∷ []) (show_body b))
scan-body d object t (quoted items b) h =
    let o = object ++ quote ∷ [] in
    scan-quote d object ((show_items items ++ quote ∷ show_body b) ++ t)
    ∙ ap (scan (in_quotes d o)) (append_assoc (show_items items) (quote ∷ show_body b) t)
    ∙ scan-items d o (quote ∷ (show_body b ++ t)) items (ground arith)
    ∙ scan-end_quote d (o ++ show_items items) (show_body b ++ t)
    ∙ scan-body d ((o ++ show_items items) ++ quote ∷ []) t b (ground arith)
    ∙ ap (λ x. scan (inside d x) t) (regroup object (show_items items) (show_body b) quote quote)
scan-body d object t (braces a b) h =
    let o = object ++ open_brace ∷ [] in
    scan-open d object ((show_body a ++ close_brace ∷ show_body b) ++ t)
    ∙ ap (scan (inside (suc d) o)) (append_assoc (show_body a) (close_brace ∷ show_body b) t)
    ∙ scan-body (suc d) o (close_brace ∷ (show_body b ++ t)) a (ground arith)
    ∙ scan-close d (o ++ show_body a) (show_body b ++ t)
    ∙ scan-body d ((o ++ show_body a) ++ close_brace ∷ []) t b (ground arith)
    ∙ ap (λ x. scan (inside d x) t)
        (regroup object (show_body a) (show_body b) open_brace close_brace)

scan-object :
    (b : Body) (rest : Text)
    → is_body b ≡ true
    → scan start (show_object b ++ rest) ≡ some (show_object b)
unfolding scan next closes
scan-object b rest h =
    ap (scan (inside 0 (open_brace ∷ []))) (append_assoc (show_body b) (close_brace ∷ []) rest)
    ∙ scan-body 0 (open_brace ∷ []) (close_brace ∷ rest) b h

-- A text without a backtick has no code block.
extract_json-scan : (text : Text) → has 96 text ≡ false → extract_json text ≡ scan start text
unfolding extract_json json_block any_block
extract_json-scan text h =
    ground (
      arith,
      find_text_lacks 96 (codes "```json") text refl h,
      find_text_lacks 96 fence text refl h,
    )

-- In a text without backticks and after prose without braces, the answer is the first JSON object, to
-- its own closing brace: braces in strings and in nested objects do not end it, escaped quotes do
-- not end a string, and what follows does not matter.
pub extract_json-show_object :
    (p : Text) (b : Body) (rest : Text)
    → has open_brace p ≡ false
    → has close_brace p ≡ false
    → is_body b ≡ true
    → has 96 (p ++ (show_object b ++ rest)) ≡ false
    → extract_json (p ++ (show_object b ++ rest)) ≡ some (show_object b)
extract_json-show_object p b rest h k w t =
    extract_json-scan (p ++ (show_object b ++ rest)) t
    ∙ scan-prose p (show_object b ++ rest) h k
    ∙ scan-object b rest w

-- A closing brace before the object hides it: nothing is found in the text of a closing brace and
-- an object that has no braces and no backticks in it.
extract_json_hidden :
    (x : Text)
    → has open_brace x ≡ false
    → has close_brace x ≡ false
    → has 96 (close_brace ∷ open_brace ∷ (x ++ close_brace ∷ [])) ≡ false
    → extract_json (close_brace ∷ open_brace ∷ (x ++ close_brace ∷ [])) ≡ none
unfolding scan next closes
extract_json_hidden x h k t =
    extract_json-scan (close_brace ∷ open_brace ∷ (x ++ close_brace ∷ [])) t
    ∙ scan-prose x (close_brace ∷ []) h k
