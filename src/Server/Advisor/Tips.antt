-- ===== src/Server/Advisor/Tips.antt =====
-- What the advisor keeps, and how often it gives its general tip.
use vscreen.Base.Text.{Text, text_eq}
use vscreen.Base.{
  Bool, List, Option, [], arith, false, if◌then◌else◌, length, none, refl, retain, some, true, ℕ,
  ◌+◌, ◌||◌, ◌∷◌, ◌≡◌, ◌≤◌, nat_eq, string_eq,
}
use vscreen.Server.Advisor.{
  Args, Hint, ToolAdvisor, advise, advise_all, check_anti_patterns,
  check_click_wait_screenshot_pattern, check_js_patterns, check_layer1_promotion,
  check_repeated_iframe_screenshots, check_screenshot_patterns, check_scroll_patterns,
  check_wait_patterns, layer1_tip, new_advisor, or_else, or_promote, pattern_hint, record_call,
  captcha_grid, hint_if, one_call, Tool, another, click, execute_js, promote, screenshot, scroll,
  tool_of, wait,
}

abbrev pub is_tip : Option Hint → Bool
is_tip (some layer1_tip) = true
is_tip (some hint) = false
is_tip none = false

abbrev pub tips : List (Option Hint) → ℕ
tips hints = length (retain is_tip hints)

hint_if-is_tip : (b : Bool) (h : Hint) → is_tip (some h) ≡ false → is_tip (hint_if b h) ≡ false
hint_if-is_tip true h e = e
hint_if-is_tip false h e = refl

or_else-is_tip :
    (o p : Option Hint) → is_tip o ≡ false → is_tip p ≡ false → is_tip (or_else o p) ≡ false
or_else-is_tip (some h) p e f = e
or_else-is_tip none p e f = f

module _ (a : ToolAdvisor) where
  click-is_tip : is_tip (check_click_wait_screenshot_pattern a) ≡ false
  unfolding check_click_wait_screenshot_pattern
  click-is_tip = hint_if-is_tip _ one_call refl

  iframe-is_tip : is_tip (check_repeated_iframe_screenshots a) ≡ false
  unfolding check_repeated_iframe_screenshots
  iframe-is_tip = hint_if-is_tip _ captcha_grid refl

  screenshot-is_tip : (args : Args) → is_tip (check_screenshot_patterns a args) ≡ false
  unfolding check_screenshot_patterns
  screenshot-is_tip args = ground arith

  scroll-is_tip : is_tip (check_scroll_patterns a) ≡ false
  unfolding check_scroll_patterns
  scroll-is_tip = ground arith

  wait-is_tip : (args : Args) → is_tip (check_wait_patterns a args) ≡ false
  unfolding check_wait_patterns
  wait-is_tip args = ground arith

js-is_tip : (args : Args) → is_tip (check_js_patterns args) ≡ false
unfolding check_js_patterns
js-is_tip args = ground arith

pattern_hint-is_tip :
    (a : ToolAdvisor) (tool : Tool) (args : Args) → is_tip (pattern_hint a tool args) ≡ false
unfolding pattern_hint
pattern_hint-is_tip a screenshot args =
    or_else-is_tip (check_click_wait_screenshot_pattern a) _ (click-is_tip a) (
      or_else-is_tip (check_screenshot_patterns a args) _ (screenshot-is_tip a args)
        (iframe-is_tip a))
pattern_hint-is_tip a scroll args = scroll-is_tip a
pattern_hint-is_tip a wait args =
    or_else-is_tip (check_click_wait_screenshot_pattern a) _ (click-is_tip a) (wait-is_tip a args)
pattern_hint-is_tip a execute_js args = js-is_tip args
pattern_hint-is_tip a click args = click-is_tip a
pattern_hint-is_tip a another args = refl

-- The tips that may still be given.
abbrev left : ToolAdvisor → ℕ
left a = if a.layer1_tip_shown then 0 else 1

abbrev one_if : Bool → ℕ
one_if b = if b then 1 else 0

promote-left :
    (a : ToolAdvisor) (x is_due : Bool)
    → one_if (is_tip (promote a (a.layer1_tip_shown || x) is_due).1)
        + left (promote a (a.layer1_tip_shown || x) is_due).0
      ≤ left a
unfolding promote
promote-left a x is_due = ground arith

or_promote-left :
    (o : Option Hint) (a : ToolAdvisor) (name : Text)
    → is_tip o ≡ false
    → one_if (is_tip (or_promote o a name).1) + left (or_promote o a name).0 ≤ left a
unfolding check_layer1_promotion
or_promote-left (some h) a name e = rw e (omega arith)
or_promote-left none a name e = promote-left a _ _

tips_cons :
    (o : Option Hint) (os : List (Option Hint)) → tips (o ∷ os) ≡ one_if (is_tip o) + tips os
tips_cons o os = ground arith

advise-left :
    (a : ToolAdvisor) (call : Text × Args)
    → one_if (is_tip (advise a call).1) + left (advise a call).0 ≤ left a
unfolding advise check_anti_patterns record_call
advise-left a call =
    or_promote-left (pattern_hint a (tool_of call.0) call.1) a call.0
      (pattern_hint-is_tip a (tool_of call.0) call.1)

advise_all-left :
    (a : ToolAdvisor) (calls : List (Text × Args)) → tips (advise_all a calls).1 ≤ left a
unfolding advise_all
advise_all-left a [] = omega arith
advise_all-left a (call ∷ calls) = omega (
  arith,
  tips_cons (advise a call).1 (advise_all (advise a call).0 calls).1,
  advise-left a call,
  advise_all-left (advise a call).0 calls,
)

-- In a session of calls the advisor gives its general tip once at most, whatever is called.
advise_all-tips : (calls : List (Text × Args)) → tips (advise_all new_advisor calls).1 ≤ 1
unfolding new_advisor
advise_all-tips calls = advise_all-left new_advisor calls
