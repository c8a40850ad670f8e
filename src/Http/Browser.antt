-- ===== src/Http/Browser.antt =====
-- What a supervisor does with its browser for the handlers of the API: `send_cdp_command`,
-- `dispatch_api_input` and `scroll_into_view_and_translate` of
-- crates/vscreen-server/src/supervisor.rs. The answers of the browser and the arithmetic of `f64`
-- are parameters. A request that is sent is queued in the channel to the task that writes to the
-- WebSocket: an answer without an error means that it is queued, not that it reached the browser,
-- since the task drops what is queued when the connection is lost.
use vscreen.Base.{
  Bool, List, Option, String, [], if◌then◌else◌, none, some, ℕ, ◌&&◌, ◌++◌, ◌∷◌, nat_eq, string_eq,
}
use vscreen.Base.Text.{Text, codes, text_eq}
use vscreen.Core.Errors.{CdpError, VScreenError}
use vscreen.Cdp.Input.{CdpRequest, InputEvent, input_to_cdp}
use vscreen.Cdp.Pages.{
  Json, null, Asked, Page, and_then, as_f64, as_str, evaluate_js, fails, get_key, gives, unwrap_or,
}
use vscreen.Http.State.{Supervisor}

pub record FloatOps (F : Type 0) : Type 0 where
  pub plus : F → F → F
  pub minus : F → F → F
  pub times : F → F → F
  pub over : F → F → F
  pub larger : F → F → F
  pub at_most : F → F → Bool
  pub of_nat : ℕ → F
  pub show_float : F → Text

-- The channel and the page: whether the channel takes a request, by those that it has taken (the error
-- is that its receiver is gone), and what the
-- page answers.
pub record Browser (F : Type 0) : Type 0 where
  pub send : List (CdpRequest F) → CdpRequest F → Option CdpError
  pub page : Page F

pub data Located (F : Type 0) : Type 0 where
  missing : VScreenError → Located F
  found : F → F → Located F

module _ {F : Type 0} (browser : Browser F) (ops : FloatOps F) where
  -- Requests one after the other, up to the first that the channel does not take.
  unfoldable pub send_each : Supervisor F → List (CdpRequest F) → Supervisor F × Option VScreenError
  send_each sup [] = (sup, none)
  send_each sup (r ∷ rs) = elim (browser.send sup.sent r) [
    | some e ↦ (sup, some (VScreenError.cdp e))
    | none ↦ send_each (record sup { sent = sup.sent ++ r ∷ [] }) rs
  ]

  unfoldable pub dispatch_api_input :
      Supervisor F → InputEvent F → Supervisor F × Option VScreenError
  dispatch_api_input sup event = send_each sup (input_to_cdp event ∷ [])

  abbrev margin : F
  margin = ops.of_nat 50

  unfoldable pub in_view : F → F → F → Bool
  in_view page scroll inner =
      ops.at_most (ops.plus scroll margin) page
      && ops.at_most page (ops.minus (ops.plus scroll inner) margin)

  abbrev pub target : Bool → F → F → F → F
  target seen page scroll inner =
      if seen
      then scroll
      else ops.larger (ops.minus page (ops.over inner (ops.of_nat 2))) (ops.of_nat 0)

  -- A number of an answer, or the default.
  abbrev pub number_at : String → F → Json F → F
  number_at key otherwise value = unwrap_or (and_then (get_key (codes key) value) as_f64) otherwise

  abbrev pub scroll_script : F → F → Text
  scroll_script x y =
      codes "window.scrollTo("
      ++ (ops.show_float x
          ++ (codes ", "
              ++ (ops.show_float y
                  ++ codes "); JSON.stringify({x:window.scrollX,y:window.scrollY})")))

  -- The part after the answer to the scroll.
  abbrev pub scrolled : Supervisor F → F → F → F → F → Asked F (Json F) → Supervisor F × Located F
  scrolled sup page_x page_y target_x target_y (asked, fails e) =
      (record sup { asked = asked }, missing (VScreenError.cdp e))
  scrolled sup page_x page_y target_x target_y (asked, gives result) =
      let place =
        unwrap_or (browser.page.from_json (unwrap_or (as_str result) (codes "{}"))) null in
      (
        record sup { asked = asked },
        found (ops.minus page_x (number_at "x" target_x place))
            (ops.minus page_y (number_at "y" target_y place)),
      )

  -- The part after the answer on the viewport.
  abbrev pub located : Supervisor F → F → F → F → F → F → F → Supervisor F × Located F
  located sup page_x page_y scroll_x scroll_y inner_w inner_h =
      let seen_x = in_view page_x scroll_x inner_w in
      let seen_y = in_view page_y scroll_y inner_h in
      let target_x = target seen_x page_x scroll_x inner_w in
      let target_y = target seen_y page_y scroll_y inner_h in
      if seen_x && seen_y
      then (sup, found (ops.minus page_x scroll_x) (ops.minus page_y scroll_y))
      else scrolled sup page_x page_y target_x target_y
          (evaluate_js browser.page sup.asked (scroll_script target_x target_y))

  abbrev pub with_viewport : Supervisor F → F → F → Option (Json F) → Supervisor F × Located F
  with_viewport sup page_x page_y none =
      (sup, missing (VScreenError.invalid_state (codes "viewport info parse failed: ")))
  with_viewport sup page_x page_y (some info) =
      located sup page_x page_y (number_at "scrollX" (ops.of_nat 0) info)
        (number_at "scrollY" (ops.of_nat 0) info) (number_at "innerW" (ops.of_nat 1920) info)
        (number_at "innerH" (ops.of_nat 940) info)

  abbrev pub after_viewport : Supervisor F → F → F → Asked F (Json F) → Supervisor F × Located F
  after_viewport sup page_x page_y (asked, fails e) =
      (record sup { asked = asked }, missing (VScreenError.cdp e))
  after_viewport sup page_x page_y (asked, gives info) =
      with_viewport (record sup { asked = asked }) page_x page_y
        (browser.page.from_json (unwrap_or (as_str info) (codes "{}")))

  -- The text of serde's error is left out of the reason.
  unfoldable pub scroll_into_view_and_translate : Supervisor F → F → F → Supervisor F × Located F
  unfolding in_view
  scroll_into_view_and_translate sup page_x page_y = after_viewport sup page_x page_y (
      evaluate_js browser.page sup.asked (
        codes
          "JSON.stringify({scrollX:window.scrollX,scrollY:window.scrollY,innerW:window.innerWidth,innerH:window.innerHeight})"))
