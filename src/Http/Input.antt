-- ===== src/Http/Input.antt =====
-- The handlers of crates/vscreen-server/src/handlers.rs that send input to the browser. The pauses
-- between the moves of a drag are left out.
pub mod Buttons
pub mod Drags
use vscreen.Base.{
  Bool, List, Option, String, [], false, if◌then◌else◌, max, none, some, suc, zero, ℕ, ◌++◌, ◌+◌,
  ◌==◌, ◌∷◌, nat_eq, string_eq,
}
use vscreen.Base.Text.{Text, text_eq}
use vscreen.Core.Errors.{VScreenError}
use vscreen.Cdp.Input.{
  ButtonName, CdpRequest, InputEvent, dispatch_mouse, input_to_cdp, key_down, key_up, left, middle,
  mouse_move, mouse_moved, mouse_pressed, mouse_released, paste, pressed_buttons, reload_page,
  right, wheel, mouse_params,
}
use vscreen.Http.State.{
  AppState, Response, Supervisor, answer, done, error_response, on_supervisor, put_supervisor,
  require_supervisor,
}
use vscreen.Cdp.Pages.{unwrap_or, next}
use vscreen.Http.Browser.{
  Browser, FloatOps, Located, dispatch_api_input, found, missing, scroll_into_view_and_translate,
  send_each,
}

pub record ClickRequest (F : Type 0) : Type 0 where
  pub x : F
  pub y : F
  pub button : Option ℕ
  pub double : Option Bool
  pub page_coords : Bool

pub record ModifierRequest : Type 0 where
  pub ctrl : Bool
  pub shift : Bool
  pub alt : Bool
  pub meta : Bool

-- The bits are distinct, so that setting one adds it.
unfoldable pub to_bitmask : ModifierRequest → ℕ
to_bitmask r =
    (if r.alt then 1 else 0)
    + (if r.ctrl then 2 else 0)
    + (if r.meta then 4 else 0)
    + (if r.shift then 8 else 0)

pub record KeyRequest : Type 0 where
  pub key : Text
  pub code : Option Text
  pub modifiers : Option ModifierRequest

pub record ScrollRequest (F : Type 0) : Type 0 where
  pub x : F
  pub y : F
  pub delta_x : F
  pub delta_y : F

pub record DragRequest (F : Type 0) : Type 0 where
  pub from_x : F
  pub from_y : F
  pub to_x : F
  pub to_y : F
  pub steps : ℕ

pub record HoverRequest (F : Type 0) : Type 0 where
  pub x : F
  pub y : F
  pub page_coords : Bool

-- `match btn { 1 => "middle", 2 => "right", _ => "left" }`
abbrev pub click_button : ℕ → ButtonName
click_button b = if b == 1 then middle else if b == 2 then right else left

abbrev pub moved : {F : Type 0} → F → F → CdpRequest F
moved x y = dispatch_mouse (mouse_params mouse_moved x y 0)

abbrev pub pressed : {F : Type 0} → F → F → ButtonName → ℕ → ℕ → CdpRequest F
pressed x y name buttons count = dispatch_mouse (record (mouse_params mouse_pressed x y 0) {
  button = some name;
  buttons = some buttons;
  click_count = some count;
})

abbrev pub released : {F : Type 0} → F → F → ButtonName → ℕ → CdpRequest F
released x y name count = dispatch_mouse (record (mouse_params mouse_released x y 0) {
  button = some name;
  buttons = some 0;
  click_count = some count;
})

-- The two rounds of the loop over `mousePressed` and `mouseReleased`.
abbrev pub press_and_release : {F : Type 0} → F → F → ℕ → ℕ → List (CdpRequest F)
press_and_release x y btn count =
    pressed x y (click_button btn) (pressed_buttons btn) count
    ∷ released x y (click_button btn) count
    ∷ []

unfoldable pub click_requests : {F : Type 0} → F → F → ℕ → Bool → List (CdpRequest F)
click_requests x y btn double =
    moved x y
    ∷ (press_and_release x y btn 1 ++ (if double then press_and_release x y btn 2 else []))

abbrev pub reply : Option VScreenError → Response
reply none = answer 200 done
reply (some e) = error_response e

module _ {F : Type 0} (browser : Browser F) (ops : FloatOps F) where
  abbrev pub finish :
      AppState F → String → Supervisor F × Option VScreenError → AppState F × Response
  finish state id (sup, e) = (put_supervisor state id sup, reply e)

  -- `if body.page_coords { match .. } else { (body.x, body.y) }`
  abbrev pub place : Supervisor F → Bool → F → F → Supervisor F × Located F
  place sup page_coords x y =
      if page_coords then scroll_into_view_and_translate browser ops sup x y else (sup, found x y)

  abbrev pub at_place :
      AppState F
      → String
      → Supervisor F × Located F
      → (Supervisor F → F → F → AppState F × Response)
      → AppState F × Response
  at_place state id (sup, missing e) next = (put_supervisor state id sup, error_response e)
  at_place state id (sup, found x y) next = next sup x y

  abbrev one_event : AppState F → String → InputEvent F → AppState F × Response
  one_event state id event =
      on_supervisor state (require_supervisor state id)
        (λ sup. finish state id (dispatch_api_input browser ops sup event))

  unfoldable pub input_dispatch : AppState F → String → InputEvent F → AppState F × Response
  input_dispatch state id event = one_event state id event

  unfoldable pub input_click : AppState F → String → ClickRequest F → AppState F × Response
  unfolding click_requests
  input_click state id body = on_supervisor state (require_supervisor state id) (λ sup.
      at_place state id (place sup body.page_coords body.x body.y) (λ sup' x y. finish state id (
        send_each browser ops sup'
          (click_requests x y (unwrap_or body.button 0) (unwrap_or body.double false)))))

  unfoldable pub input_type : AppState F → String → Text → AppState F × Response
  input_type state id text = one_event state id (paste text)

  abbrev mask_of : Option ModifierRequest → ℕ
  mask_of none = 0
  mask_of (some r) = to_bitmask r

  unfoldable pub key_requests : KeyRequest → List (CdpRequest F)
  unfolding to_bitmask
  key_requests body =
      let m = mask_of body.modifiers in
      let code = unwrap_or body.code body.key in
      input_to_cdp (key_down body.key code m) ∷ input_to_cdp (key_up body.key code m) ∷ []

  unfoldable pub input_key : AppState F → String → KeyRequest → AppState F × Response
  unfolding key_requests
  input_key state id body =
      on_supervisor state (require_supervisor state id)
        (λ sup. finish state id (send_each browser ops sup (key_requests body)))

  unfoldable pub input_scroll : AppState F → String → ScrollRequest F → AppState F × Response
  input_scroll state id body = one_event state id (wheel body.x body.y body.delta_x body.delta_y 0)

  -- The point after `i` of `steps`.
  unfoldable pub step_point : F → F → ℕ → ℕ → F
  step_point from to steps i =
      ops.plus from (ops.times (ops.minus to from) (ops.over (ops.of_nat i) (ops.of_nat steps)))

  abbrev pub dragged : F → F → CdpRequest F
  dragged x y =
      dispatch_mouse
        (record (mouse_params mouse_moved x y 0) { button = some left; buttons = some 1 })

  -- `for i in 1..=steps`, from round `i` on with so many rounds left.
  unfoldable pub drag_moves : DragRequest F → ℕ → ℕ → ℕ → List (CdpRequest F)
  unfolding step_point
  drag_moves body steps i zero = []
  drag_moves body steps i (suc rounds) =
      dragged (step_point body.from_x body.to_x steps i) (step_point body.from_y body.to_y steps i)
      ∷ drag_moves body steps (suc i) rounds

  unfoldable pub drag_requests : DragRequest F → List (CdpRequest F)
  unfolding drag_moves
  drag_requests body =
      let steps = max body.steps 1 in
      moved body.from_x body.from_y
      ∷ pressed body.from_x body.from_y left 1 1
      ∷ (drag_moves body steps 1 steps ++ released body.to_x body.to_y left 1 ∷ [])

  unfoldable pub input_drag : AppState F → String → DragRequest F → AppState F × Response
  unfolding drag_requests
  input_drag state id body =
      on_supervisor state (require_supervisor state id)
        (λ sup. finish state id (send_each browser ops sup (drag_requests body)))

  unfoldable pub input_hover : AppState F → String → HoverRequest F → AppState F × Response
  input_hover state id body = on_supervisor state (require_supervisor state id) (λ sup.
      at_place state id (place sup body.page_coords body.x body.y)
        (λ sup' x y. finish state id (dispatch_api_input browser ops sup' (mouse_move x y 0 0))))

  unfoldable pub reload : AppState F → String → AppState F × Response
  reload state id =
      on_supervisor state (require_supervisor state id)
        (λ sup. finish state id (send_each browser ops sup (reload_page false ∷ [])))
