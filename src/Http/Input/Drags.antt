-- ===== src/Http/Input/Drags.antt =====
-- What a drag does with the left button.
use vscreen.Core.Errors.{CdpError, VScreenError}
use vscreen.Base.{
  Bool, List, Option, String, [], ap, arith, false, is_some, max, none, not, refl, some, suc, true,
  zero, ℕ, ◌&&◌, ◌++◌, ◌||◌, ◌∙◌, ◌∷◌, ◌≡◌, ◌≢◌, nat_eq, string_eq,
}
use vscreen.Cdp.Input.{ButtonName, CdpRequest, left}
use vscreen.Http.State.{AppState, Supervisor, present, require_supervisor}
use vscreen.Http.Browser.{Browser, FloatOps, send_each}
use vscreen.Http.Input.{
  DragRequest, drag_moves, drag_requests, input_drag, released, dragged, moved, pressed, reply,
  step_point,
}
use vscreen.Http.Input.Buttons.{
  finish-sent, held_after, held_after-append, same_button, sent_to, sent_to-put_supervisor,
}

module _ {F : Type 0} (browser : Browser F) (ops : FloatOps F) where
  moves_keep :
      (b : ButtonName) (h : Bool) (body : DragRequest F) (steps i n : ℕ)
      → held_after b h (drag_moves browser ops body steps i n) ≡ h
  unfolding held_after drag_moves
  moves_keep b h body steps i zero = refl
  moves_keep b h body steps i (suc n) = moves_keep b h body steps (suc i) n

  dragged_lem :
      (b : ButtonName) (h : Bool) (body : DragRequest F)
      → held_after b h (drag_requests browser ops body) ≡ (h && not (same_button b left))
  unfolding drag_requests held_after
  dragged_lem b h body =
      let steps = max body.steps 1 in
      held_after-append b (h || same_button b left) (drag_moves browser ops body steps 1 steps)
        (released body.to_x body.to_y left 1 ∷ [])
      ∙ ap (λ k. k && not (same_button b left))
          (moves_keep b (h || same_button b left) body steps 1 steps)
      ∙ ground arith

  -- A drag that is answered with 200 has queued its requests for the browser after those queued
  -- before. Taken in that order, if none is lost, the requests leave the left button released, and
  -- any other button held exactly if it was held after the earlier ones.
  pub input_drag-releases :
      (state : AppState F) (id : String) (body : DragRequest F) (sup : Supervisor F)
      (b : ButtonName)
      → require_supervisor state id ≡ present sup
      → (input_drag browser ops state id body).1.status ≡ 200
      → held_after b false (sent_to (input_drag browser ops state id body).0 id)
        ≡ (held_after b false sup.sent && not (same_button b left))
  unfolding input_drag
  input_drag-releases state id body sup b e = rw e (λ h.
      ap (held_after b false)
        (finish-sent browser ops state id sup (drag_requests browser ops body) h)
      ∙ held_after-append b false sup.sent (drag_requests browser ops body)
      ∙ dragged_lem b (held_after b false sup.sent) body)

  -- Moves, and then a release that is not reached or fails.
  stuck :
      (sup : Supervisor F) (body : DragRequest F) (steps i n : ℕ) (last : CdpRequest F)
      → is_some (send_each browser ops sup (drag_moves browser ops body steps i n ++ last ∷ [])).1
        ≡ true
      → held_after left false sup.sent ≡ true
      → held_after left false
          (send_each browser ops sup (drag_moves browser ops body steps i n ++ last ∷ [])).0.sent
        ≡ true
  unfolding send_each drag_moves
  stuck sup body steps i zero last e h = go (browser.send sup.sent last) e
    where
      next : Option CdpError → Supervisor F × Option VScreenError
      next o = elim o [
        | some e ↦ (sup, some (VScreenError.cdp e))
        | none ↦ (record sup { sent = sup.sent ++ last ∷ [] }, none)
      ]

      go :
          (o : Option CdpError)
          → is_some (next o).1 ≡ true
          → held_after left false (next o).0.sent ≡ true
      go none k = ground arith
      go (some e) k = h
  stuck sup body steps i (suc n) last e h =
      go (browser.send sup.sent move)
        (λ k.
          stuck (record sup { sent = sup.sent ++ move ∷ [] }) body steps (suc i) n last k
            (held_after-append left false sup.sent (move ∷ []) ∙ (unfold held_after in h)))
        e
    where
      move : CdpRequest F
      move =
          dragged browser ops (step_point browser ops body.from_x body.to_x steps i)
            (step_point browser ops body.from_y body.to_y steps i)

      next : Option CdpError → Supervisor F × Option VScreenError
      next o = elim o [
        | some e ↦ (sup, some (VScreenError.cdp e))
        | none ↦
            send_each browser ops (record sup { sent = sup.sent ++ move ∷ [] })
              (drag_moves browser ops body steps (suc i) n ++ last ∷ [])
      ]

      go :
          (o : Option CdpError)
          → (is_some (next none).1 ≡ true → held_after left false (next none).0.sent ≡ true)
          → is_some (next o).1 ≡ true
          → held_after left false (next o).0.sent ≡ true
      go none later k = later k
      go (some e) later k = h

  failed : (e : Option VScreenError) → (reply e).status ≢ 200 → is_some e ≡ true
  failed none h = absurd (h refl)
  failed (some e) h = refl

  -- If the first move and the press of a drag are queued, and the answer is not 200, then the
  -- requests that are queued for the browser leave the left button held: no release is among them
  -- after the press.
  pub input_drag-stuck :
      (state : AppState F) (id : String) (body : DragRequest F) (sup : Supervisor F)
      → let start = moved body.from_x body.from_y in
        let press = pressed body.from_x body.from_y left 1 1 in
        require_supervisor state id ≡ present sup
        → browser.send sup.sent start ≡ none
        → browser.send (sup.sent ++ start ∷ []) press ≡ none
        → (input_drag browser ops state id body).1.status ≢ 200
        → held_after left false (sent_to (input_drag browser ops state id body).0 id) ≡ true
  unfolding input_drag drag_requests send_each
  input_drag-stuck state id body sup e first second = rw e (
      rw (first, second)
        (λ h.
          ap (held_after left false)
            (sent_to-put_supervisor state id (send_each browser ops held rest).0)
          ∙ stuck held body steps 1 steps (released body.to_x body.to_y left 1) (failed _ h) (
              held_after-append left false (sup.sent ++ moved body.from_x body.from_y ∷ [])
                (pressed body.from_x body.from_y left 1 1 ∷ [])
              ∙ now_held (held_after left false (sup.sent ++ moved body.from_x body.from_y ∷ [])))))
    where
      steps : ℕ
      steps = max body.steps 1

      rest : List (CdpRequest F)
      rest = drag_moves browser ops body steps 1 steps ++ released body.to_x body.to_y left 1 ∷ []

      held : Supervisor F
      held = record sup {
        sent =
            (sup.sent ++ moved body.from_x body.from_y ∷ [])
            ++ pressed body.from_x body.from_y left 1 1 ∷ [];
      }

      now_held :
          (h : Bool) → held_after left h (pressed body.from_x body.from_y left 1 1 ∷ []) ≡ true
      now_held h = unfold held_after in ground arith
