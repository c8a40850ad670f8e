-- ===== src/Cdp/Tests.antt =====
-- Delays of concrete attempts.
use vscreen.Base.{
  List, Option, [], arith, min, none, refl, some, true, ℕ, ◌*◌, ◌++◌, ◌+◌, ◌^◌, ◌∷◌, ◌≡◌, ◌≤◌,
  nat_eq, string_eq,
}
use vscreen.Cdp.Input.{character_vk, held_button, key_to_vk, middle, pressed_buttons}
use vscreen.Base.Text.{codes, text_eq, Text}
use vscreen.Cdp.Pages.{
  Json, object, field, end, text, Answer, Page, PageCommand, capture_full_page_screenshot,
  capture_overridden, captures, dimensions, evaluate_js, evaluated, fails, gives,
}
use vscreen.Cdp.Pages.Restores.{Restored, capture_full_page_screenshot-Restored, is_overridden}
use vscreen.Core.Errors.{CdpError}
use vscreen.Cdp.Pending.{is_in, new_client, registers, responds, run}
use vscreen.Cdp.Screencast.{Decoded, ScreencastFrameEvent, acks, bytes, malformed, new_cast}
use vscreen.Cdp.Screencast.Frames.{
  acknowledged, bring_all, delivered, reconnects, cast_run-new_cast, cast_run,
}
use vscreen.Cdp.Pending.Leaks.{run-pending}
use vscreen.Cdp.Backoff.Delays.{backoff_delay-bounds}
use vscreen.Cdp.Backoff.{default_config, from_millis, plain_delay, backoff_delay}

third : plain_delay 3 default_config ≡ from_millis 800
unfolding plain_delay
third = refl

backoff_delay-bounds_example :
    (backoff_delay 40 default_config ≤ 5 * 10 ^ 9)
    × (plain_delay 40 default_config ≤ 2 * backoff_delay 40 default_config + from_millis 2)
backoff_delay-bounds_example = backoff_delay-bounds 40 default_config (omega arith)

run-pending_example :
    is_in 2 (run new_client (registers ∷ registers ∷ responds 1 ∷ [])).callers ≡ true
unfolding run new_client
run-pending_example = run-pending (registers ∷ registers ∷ responds 1 ∷ []) 2 refl

-- The right button, number 2, whose mask a move would call the middle one.
right_pressed : held_button (pressed_buttons 2) ≡ some middle
unfolding held_button pressed_buttons
right_pressed = refl

semicolon : (key_to_vk (codes ";") ≡ some 186) × (key_to_vk (codes "q") ≡ some 81)
unfolding key_to_vk character_vk
semicolon = (refl, refl)

-- The result of an evaluation to a text, and of a capture.
abbrev text_result : Json ℕ
text_result = object (
    field (codes "result") (object (field (codes "value") (text (codes "{}")) end))
      (field (codes "data") (text (codes "aGk=")) end))

-- A page that answers all commands but captures.
abbrev no_captures : PageCommand ℕ → Answer (Option (Json ℕ))
no_captures (captures format quality clip) = fails (CdpError.timeout 15_000)
no_captures command = gives (some text_result)

abbrev page : Page ℕ
page = record {
  ask = λ asked command. no_captures command;
  from_json = λ s. some (object end);
  decode_base64 = λ s. some s;
  of_nat = λ n. n;
  smaller = min;
  to_u32 = λ n. n;
}

failed_capture :
    (capture_full_page_screenshot page [] (codes "png") none).1 ≡ fails (CdpError.timeout 15_000)
unfolding capture_full_page_screenshot evaluate_js evaluated dimensions capture_overridden
failed_capture = refl

capture_full_page_screenshot-Restored_example :
    Restored page (capture_full_page_screenshot page [] (codes "png") none)
capture_full_page_screenshot-Restored_example =
    capture_full_page_screenshot-Restored page [] (codes "png") none (unfold is_overridden in refl)

-- A library that decodes the texts of one byte, the empty text, and nothing else.
abbrev one_byte : Text → Decoded
one_byte [] = bytes []
one_byte (b ∷ []) = bytes (b ∷ [])
one_byte (b ∷ c ∷ t) = malformed t

abbrev frame_event : List ℕ → ℕ → ScreencastFrameEvent
frame_event body session = record { data_text = body; session_id = session }

abbrev three_events : List (ℕ × ScreencastFrameEvent)
three_events =
    (5, frame_event (65 ∷ []) 1) ∷ (6, frame_event [] 2) ∷ (7, frame_event (65 ∷ 66 ∷ []) 3) ∷ []

three_acknowledged : acknowledged one_byte three_events ≡ acks 1 ∷ acks 2 ∷ []
unfolding acknowledged
three_acknowledged = refl

cast_run-new_cast_example :
    ((cast_run one_byte
        (bring_all three_events)
        (cast_run one_byte (reconnects ∷ []) new_cast)).frames
      ≡ (cast_run one_byte (reconnects ∷ []) new_cast).frames ++ delivered one_byte three_events)
    × ((cast_run one_byte
          (bring_all three_events)
          (cast_run one_byte (reconnects ∷ []) new_cast)).requests
        ≡ (cast_run one_byte (reconnects ∷ []) new_cast).requests
          ++ acknowledged one_byte three_events)
cast_run-new_cast_example = cast_run-new_cast one_byte (reconnects ∷ []) three_events
