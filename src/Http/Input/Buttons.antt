-- ===== src/Http/Input/Buttons.antt =====
-- Which buttons are held once the browser has got the requests that are queued for it.
use vscreen.Http.Input.{
  ClickRequest, click_button, finish, input_click, reply, at_place, click_requests, place,
}
use vscreen.Base.{
  Bool, List, Option, String, [], ap, append-nil, append_assoc, arith, false, if◌then◌else◌, none,
  not, refl, some, sym, true, ℕ, ◌&&◌, ◌++◌, ◌||◌, ◌∙◌, ◌∷◌, ◌≡◌, ◌≢◌, nat_eq, string_eq,
}
use vscreen.Base.Assoc.{get-insert, eq_refl, get}
use vscreen.Core.Errors.{CdpError, VScreenError, api_error}
use vscreen.Cdp.Input.{
  ButtonName, CdpRequest, MouseType, back, dispatch_key, dispatch_mouse, evaluate, forward,
  insert_text, left, middle, mouse_moved, mouse_pressed, mouse_released, mouse_wheel, no_button,
  reload_page, right,
}
use vscreen.Core.Errors.Api.{api_error-IsReport}
use vscreen.Cdp.Pages.{unwrap_or, Json, Asked, fails, gives, evaluate_js}
use vscreen.Http.State.{AppState, Supervisor, put_supervisor, present, require_supervisor, Response}
use vscreen.Http.Browser.{
  Browser, FloatOps, send_each, Located, found, missing, after_viewport,
  scroll_into_view_and_translate, scrolled, with_viewport, in_view, located, number_at,
  scroll_script, target,
}

abbrev pub same_button : ButtonName → ButtonName → Bool
same_button left left = true
same_button middle middle = true
same_button right right = true
same_button back back = true
same_button forward forward = true
same_button no_button no_button = true
same_button a b = false

abbrev is_button : ButtonName → Option ButtonName → Bool
is_button b none = false
is_button b (some c) = same_button b c

-- Whether a button is held after an event of the mouse.
abbrev after_event : ButtonName → Bool → MouseType → Option ButtonName → Bool
after_event b h mouse_pressed name = h || is_button b name
after_event b h mouse_released name = h && not (is_button b name)
after_event b h mouse_moved name = h
after_event b h mouse_wheel name = h

abbrev pub after_request : {F : Type 0} → ButtonName → Bool → CdpRequest F → Bool
after_request b h (dispatch_mouse p) = after_event b h p.event_type p.button
after_request b h (dispatch_key p) = h
after_request b h (insert_text text) = h
after_request b h (evaluate text) = h
after_request b h (reload_page ignore_cache) = h

-- Whether a button is held after the requests, in their order.
unfoldable pub held_after : {F : Type 0} → ButtonName → Bool → List (CdpRequest F) → Bool
held_after b h [] = h
held_after b h (r ∷ rs) = held_after b (after_request b h r) rs

pub held_after-append :
    {F : Type 0} (b : ButtonName) (h : Bool) (rs more : List (CdpRequest F))
    → held_after b h (rs ++ more) ≡ held_after b (held_after b h rs) more
unfolding held_after
held_after-append b h [] more = refl
held_after-append b h (r ∷ rs) more = held_after-append b (after_request b h r) rs more

abbrev sent_of : {F : Type 0} → Option (Supervisor F) → List (CdpRequest F)
sent_of none = []
sent_of (some sup) = sup.sent

-- The requests that were queued for the browser of an instance.
unfoldable pub sent_to : {F : Type 0} → AppState F → String → List (CdpRequest F)
sent_to state id = sent_of (get id state.supervisors)

pub sent_to-put_supervisor :
    {F : Type 0} (state : AppState F) (id : String) (sup : Supervisor F)
    → sent_to (put_supervisor state id sup) id ≡ sup.sent
unfolding sent_to
sent_to-put_supervisor state id sup =
    rw (get-insert id id sup state.supervisors, eq_refl {K = String} id) refl

-- An error is not answered with 200.
not_200 : (e : VScreenError) → (api_error e).status ≢ 200
not_200 e h = ground (arith, (api_error-IsReport e).is_error)

module _ {F : Type 0} (browser : Browser F) (ops : FloatOps F) where
  -- Requests that all pass were all queued, in their order.
  pub send_each-sent :
      (sup : Supervisor F) (rs : List (CdpRequest F))
      → (send_each browser ops sup rs).1 ≡ none
      → (send_each browser ops sup rs).0.sent ≡ sup.sent ++ rs
  unfolding send_each
  send_each-sent sup [] h = sym (append-nil sup.sent)
  send_each-sent sup (r ∷ rs) h =
      go (browser.send sup.sent r) (send_each-sent (record sup { sent = sup.sent ++ r ∷ [] }) rs) h
    where
      next : Option CdpError → Supervisor F × Option VScreenError
      next o = elim o [
        | some e ↦ (sup, some (VScreenError.cdp e))
        | none ↦ send_each browser ops (record sup { sent = sup.sent ++ r ∷ [] }) rs
      ]

      go :
          (o : Option CdpError)
          → ((next none).1 ≡ none → (next none).0.sent ≡ (sup.sent ++ r ∷ []) ++ rs)
          → (next o).1 ≡ none
          → (next o).0.sent ≡ sup.sent ++ (r ∷ rs)
      go none later k = later k ∙ append_assoc sup.sent (r ∷ []) rs
      go (some e) later k = ground arith

  -- What a handler leaves if its answer is 200.
  pub finish-sent :
      (state : AppState F) (id : String) (sup : Supervisor F) (rs : List (CdpRequest F))
      → let (state', response) = finish browser ops state id (send_each browser ops sup rs) in
        response.status ≡ 200 → sent_to state' id ≡ sup.sent ++ rs
  finish-sent state id sup rs h =
      sent_to-put_supervisor state id (send_each browser ops sup rs).0
      ∙ send_each-sent sup rs (passed (send_each browser ops sup rs).1 h)
    where
      passed : (e : Option VScreenError) → (reply e).status ≡ 200 → e ≡ none
      passed none k = refl
      passed (some e) k = absurd (not_200 e k)

  scrolled-sent :
      (sup : Supervisor F) (page_x page_y target_x target_y : F) (out : Asked F (Json F))
      → (scrolled browser ops sup page_x page_y target_x target_y out).0.sent ≡ sup.sent
  scrolled-sent sup page_x page_y target_x target_y (asked, fails e) = refl
  scrolled-sent sup page_x page_y target_x target_y (asked, gives result) = refl

  located-sent :
      (sup : Supervisor F) (page_x page_y scroll_x scroll_y inner_w inner_h : F)
      → (located browser ops sup page_x page_y scroll_x scroll_y inner_w inner_h).0.sent ≡ sup.sent
  located-sent sup page_x page_y scroll_x scroll_y inner_w inner_h =
      go
        (in_view browser ops page_x scroll_x inner_w && in_view browser ops page_y scroll_y inner_h)
    where
      target_x : F
      target_x =
          target browser ops (in_view browser ops page_x scroll_x inner_w) page_x scroll_x inner_w

      target_y : F
      target_y =
          target browser ops (in_view browser ops page_y scroll_y inner_h) page_y scroll_y inner_h

      go :
          (seen : Bool)
          → (if seen
              then (sup, found (ops.minus page_x scroll_x) (ops.minus page_y scroll_y))
              else scrolled browser ops sup page_x page_y target_x target_y (
                  evaluate_js browser.page sup.asked
                    (scroll_script browser ops target_x target_y))).0.sent
            ≡ sup.sent
      go true = refl
      go false =
          scrolled-sent sup page_x page_y target_x target_y
            (evaluate_js browser.page sup.asked (scroll_script browser ops target_x target_y))

  with_viewport-sent :
      (sup : Supervisor F) (page_x page_y : F) (info : Option (Json F))
      → (with_viewport browser ops sup page_x page_y info).0.sent ≡ sup.sent
  with_viewport-sent sup page_x page_y none = refl
  with_viewport-sent sup page_x page_y (some info) =
      located-sent sup page_x page_y (number_at browser ops "scrollX" (ops.of_nat 0) info)
        (number_at browser ops "scrollY" (ops.of_nat 0) info)
        (number_at browser ops "innerW" (ops.of_nat 1920) info)
        (number_at browser ops "innerH" (ops.of_nat 940) info)

  after_viewport-sent :
      (sup : Supervisor F) (page_x page_y : F) (out : Asked F (Json F))
      → (after_viewport browser ops sup page_x page_y out).0.sent ≡ sup.sent
  after_viewport-sent sup page_x page_y (asked, fails e) = refl
  after_viewport-sent sup page_x page_y (asked, gives info) =
      with_viewport-sent (record sup { asked = asked }) page_x page_y _

  -- Finding the place sends no input.
  place-sent :
      (sup : Supervisor F) (page_coords : Bool) (x y : F)
      → (place browser ops sup page_coords x y).0.sent ≡ sup.sent
  unfolding scroll_into_view_and_translate
  place-sent sup true x y = after_viewport-sent sup x y _
  place-sent sup false x y = refl

  clicked :
      (b : ButtonName) (h : Bool) (x y : F) (btn : ℕ) (double : Bool)
      → held_after b h (click_requests x y btn double)
        ≡ (h && not (same_button b (click_button btn)))
  unfolding held_after click_requests
  clicked b h x y btn double = ground arith

  -- A click that is answered with 200 has queued its requests for the browser after those queued
  -- before. Taken in that order, if none is lost, the requests leave the button that was clicked
  -- released, and any other button held exactly if it was held after the earlier ones.
  pub input_click-releases :
      (state : AppState F) (id : String) (body : ClickRequest F) (sup : Supervisor F)
      (b : ButtonName)
      → require_supervisor state id ≡ present sup
      → (input_click browser ops state id body).1.status ≡ 200
      → held_after b false (sent_to (input_click browser ops state id body).0 id) ≡ (
          held_after b false sup.sent
          && not (same_button b (click_button (unwrap_or body.button 0))))
  unfolding input_click
  input_click-releases state id body sup b e = rw e (
      go (place browser ops sup body.page_coords body.x body.y)
        (place-sent sup body.page_coords body.x body.y))
    where
      requests : F → F → List (CdpRequest F)
      requests x y = click_requests x y (unwrap_or body.button 0) (unwrap_or body.double false)

      next : Supervisor F × Located F → AppState F × Response
      next at =
          at_place browser ops state id at
            (λ sup' x y. finish browser ops state id (send_each browser ops sup' (requests x y)))

      go :
          (at : Supervisor F × Located F)
          → at.0.sent ≡ sup.sent
          → (next at).1.status ≡ 200
          → held_after b false (sent_to (next at).0 id) ≡ (
              held_after b false sup.sent
              && not (same_button b (click_button (unwrap_or body.button 0))))
      go (sup', missing error) same h = absurd (not_200 error h)
      go (sup', found x y) same h =
          ap (held_after b false)
            (finish-sent state id sup' (requests x y) h ∙ ap (λ s. s ++ requests x y) same)
          ∙ held_after-append b false sup.sent (requests x y)
          ∙ clicked b (held_after b false sup.sent) x y (unwrap_or body.button 0)
              (unwrap_or body.double false)
