-- ===== src/Server/Advisor.antt =====
-- crates/vscreen-server/src/mcp/advisor.rs: the hints to an agent about its calls of tools. The
-- arguments of a call are JSON values; a call has the parts of them that the advisor reads.
pub mod Tips
use vscreen.Base.Text.{Text, codes, contains, text_eq, to_lowercase}
use vscreen.Base.{
  Bool, List, Option, [], any, drop, false, if◌then◌else◌, leb, length, none, not, retain, some,
  suc, take, true, ℕ, ◌&&◌, ◌++◌, ◌==◌, ◌||◌, ◌∷◌, nat_eq, string_eq,
}

-- A JSON value: a string, or another one.
pub data Value : Type 0 where
  string : Text → Value
  other : Value

-- Whether the width is below 200, and the height; one that is not there is 0.
pub record Clip : Type 0 where
  pub is_narrow : Bool
  pub is_low : Bool

-- `full_page` is whether it is there as the value `true`.
pub record Args : Type 0 where
  pub condition : Option Value
  pub expression : Option Value
  pub clip : Option Clip
  pub full_page : Bool
  pub has_duration : Bool

pub record ToolCallRecord : Type 0 where
  pub tool_name : Text
  pub condition : Option Value
  pub clip : Option Clip

-- The oldest call comes first.
pub record ToolAdvisor : Type 0 where
  pub recent_calls : List ToolCallRecord
  pub layer1_tip_shown : Bool

-- The texts of the hints.
pub data Hint : Type 0 where
  layer1_tip one_call captcha_grid whole_page scroll_to : Hint
  scroll_to_found fixed_waits page_info extract_text synthesis : Hint

unfoldable pub new_advisor : ToolAdvisor
new_advisor = record { recent_calls = []; layer1_tip_shown = false }

abbrev wait_tool : Text
wait_tool = codes "vscreen_wait"

abbrev screenshot_tool : Text
screenshot_tool = codes "vscreen_screenshot"

abbrev scroll_tool : Text
scroll_tool = codes "vscreen_scroll"

abbrev pub is_layer1 : Text → Bool
is_layer1 name =
    any (λ tool. tool == name)
      (codes "vscreen_browse"
        ∷ codes "vscreen_observe"
        ∷ codes "vscreen_interact"
        ∷ codes "vscreen_extract"
        ∷ codes "vscreen_synthesize"
        ∷ codes "vscreen_solve_challenge"
        ∷ [])

abbrev pub is_click : Text → Bool
is_click name =
    any (λ tool. tool == name)
      (codes "vscreen_click"
        ∷ codes "vscreen_click_element"
        ∷ codes "vscreen_click_and_navigate"
        ∷ codes "vscreen_batch_click"
        ∷ [])

abbrev if_fixed : Bool → Option Value
if_fixed b = if b then some (string (codes "duration")) else none

abbrev or_fixed : Option Value → Bool → Option Value
or_fixed (some v) b = some v
or_fixed none b = if_fixed b

-- The record of a call with `build_args_snapshot`; its `expression` is never read.
unfoldable pub snapshot : Text → Args → ToolCallRecord
snapshot name args = record {
  tool_name = name;
  condition = if name == wait_tool then or_fixed args.condition args.has_duration else none;
  clip = if name == screenshot_tool then args.clip else none;
}

unfoldable pub record_call : ToolAdvisor → ToolCallRecord → ToolAdvisor
record_call a r =
    let kept = if leb 20 (length a.recent_calls) then drop 1 a.recent_calls else a.recent_calls in
    record a { recent_calls = kept ++ r ∷ [] }

abbrev reversed : List ToolCallRecord → List ToolCallRecord → List ToolCallRecord
reversed [] done = done
reversed (r ∷ rs) done = reversed rs (r ∷ done)

-- `iter().rev().take(n)`
unfoldable pub recent : ℕ → ToolAdvisor → List ToolCallRecord
recent n a = take n (reversed a.recent_calls [])

-- The tip, unless it was shown or a call rules it out, and where it is due.
unfoldable pub promote : ToolAdvisor → Bool → Bool → ToolAdvisor × Option Hint
promote a true is_due = (a, none)
promote a false true = (record a { layer1_tip_shown = true }, some layer1_tip)
promote a false false = (a, none)

unfoldable pub check_layer1_promotion : ToolAdvisor → Text → ToolAdvisor × Option Hint
unfolding promote
check_layer1_promotion a name =
    promote a (a.layer1_tip_shown || any (λ r. is_layer1 r.tool_name) a.recent_calls)
      (leb 5 (length a.recent_calls) && not (is_layer1 name))

abbrev pub hint_if : Bool → Hint → Option Hint
hint_if b hint = if b then some hint else none

unfoldable pub check_click_wait_screenshot_pattern : ToolAdvisor → Option Hint
unfolding recent
check_click_wait_screenshot_pattern a =
    let calls = recent 4 a in
    hint_if
      (leb 4 (length calls)
        && any (λ r. is_click r.tool_name) calls
        && any (λ r. r.tool_name == wait_tool) calls
        && any (λ r. r.tool_name == screenshot_tool) calls)
      one_call

abbrev is_small : Option Clip → Bool
is_small none = false
is_small (some clip) = clip.is_narrow || clip.is_low

unfoldable pub check_repeated_iframe_screenshots : ToolAdvisor → Option Hint
unfolding recent
check_repeated_iframe_screenshots a =
    hint_if
      (leb 3
        (length (retain (λ r. r.tool_name == screenshot_tool && is_small r.clip) (recent 6 a))))
      captcha_grid

-- The windows of two calls, of which the newer is a screenshot and the older a scroll.
unfoldable pub scroll_screenshot_pairs : List ToolCallRecord → ℕ
scroll_screenshot_pairs [] = 0
scroll_screenshot_pairs (r ∷ []) = 0
scroll_screenshot_pairs (r ∷ q ∷ rs) =
    let pairs = scroll_screenshot_pairs (q ∷ rs) in
    if r.tool_name == screenshot_tool && q.tool_name == scroll_tool then suc pairs else pairs

abbrev is_there : Option Clip → Bool
is_there none = false
is_there (some clip) = true

unfoldable pub check_screenshot_patterns : ToolAdvisor → Args → Option Hint
unfolding scroll_screenshot_pairs recent
check_screenshot_patterns a args =
    hint_if
      (not (is_there args.clip || args.full_page) && leb 2 (scroll_screenshot_pairs (recent 8 a)))
      whole_page

unfoldable pub check_scroll_patterns : ToolAdvisor → Option Hint
unfolding recent
check_scroll_patterns a =
    let calls = recent 6 a in
    if leb 2 (length (retain (λ r. r.tool_name == scroll_tool) calls))
    then some scroll_to
    else hint_if (any (λ r. r.tool_name == codes "vscreen_find") calls) scroll_to_found

-- The condition of an earlier wait; a value that is no string counts as a duration.
abbrev is_fixed : Option Value → Bool
is_fixed (some (string s)) = s == codes "duration"
is_fixed (some other) = true
is_fixed none = true

-- The condition of this wait.
abbrev waits_fixed : Args → Bool
waits_fixed args = elim args.condition [
  | some (string s) ↦ s == codes "duration"
  | some other ↦ args.has_duration
  | none ↦ args.has_duration
]

unfoldable pub check_wait_patterns : ToolAdvisor → Args → Option Hint
unfolding recent
check_wait_patterns a args =
    hint_if
      (waits_fixed args
        && leb 2
            (length (retain (λ r. r.tool_name == wait_tool && is_fixed r.condition) (recent 6 a))))
      fixed_waits

abbrev text_of : Option Value → Text
text_of (some (string s)) = s
text_of (some other) = []
text_of none = []

unfoldable pub check_js_patterns : Args → Option Hint
check_js_patterns args =
    let s = to_lowercase (text_of args.expression) in
    if contains (codes "document.title") s
      || contains (codes "document.url") s
      || contains (codes "location.href") s
      || contains (codes "window.location") s
    then some page_info
    else if contains (codes "innertext") s
        || contains (codes "textcontent") s
        || contains (codes "document.body") s
    then some extract_text
    else hint_if (contains (codes "fetch") s && contains (codes "/api/pages") s) synthesis

abbrev pub or_else : Option Hint → Option Hint → Option Hint
or_else (some h) o = some h
or_else none o = o

-- The arms of the `match` on the tool's name.
pub data Tool : Type 0 where
  screenshot scroll wait execute_js click another : Tool

unfoldable pub tool_of : Text → Tool
tool_of name =
    if name == screenshot_tool
    then screenshot
    else if name == scroll_tool
    then scroll
    else if name == wait_tool
    then wait
    else if name == codes "vscreen_execute_js"
    then execute_js
    else if is_click name
    then click
    else another

-- The hints about single tools.
unfoldable pub pattern_hint : ToolAdvisor → Tool → Args → Option Hint
unfolding check_click_wait_screenshot_pattern check_screenshot_patterns
    check_repeated_iframe_screenshots check_scroll_patterns check_wait_patterns check_js_patterns
pattern_hint a screenshot args =
    or_else (check_click_wait_screenshot_pattern a)
      (or_else (check_screenshot_patterns a args) (check_repeated_iframe_screenshots a))
pattern_hint a scroll args = check_scroll_patterns a
pattern_hint a wait args =
    or_else (check_click_wait_screenshot_pattern a) (check_wait_patterns a args)
pattern_hint a execute_js args = check_js_patterns args
pattern_hint a click args = check_click_wait_screenshot_pattern a
pattern_hint a another args = none

abbrev pub or_promote : Option Hint → ToolAdvisor → Text → ToolAdvisor × Option Hint
or_promote (some h) a name = (a, some h)
or_promote none a name = check_layer1_promotion a name

unfoldable pub check_anti_patterns : ToolAdvisor → Text → Args → ToolAdvisor × Option Hint
unfolding pattern_hint tool_of check_layer1_promotion
check_anti_patterns a name args = or_promote (pattern_hint a (tool_of name) args) a name

-- A call of a tool (crates/vscreen-server/src/mcp/mod.rs): the hint, then the record.
unfoldable pub advise : ToolAdvisor → Text × Args → ToolAdvisor × Option Hint
unfolding check_anti_patterns record_call snapshot
advise a call =
    let r = check_anti_patterns a call.0 call.1 in (record_call r.0 (snapshot call.0 call.1), r.1)

-- A session of calls: the advisor afterwards, and the hints.
unfoldable pub advise_all : ToolAdvisor → List (Text × Args) → ToolAdvisor × List (Option Hint)
unfolding advise
advise_all a [] = (a, [])
advise_all a (call ∷ calls) =
    let r = advise a call in let later = advise_all r.0 calls in (later.0, r.1 ∷ later.1)
