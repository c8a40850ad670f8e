-- ===== src/Http/Memories.antt =====
-- The handlers of crates/vscreen-server/src/handlers.rs for the cursor and for the buffers of a
-- supervisor, with the methods of memory.rs that only they use.
use vscreen.Base.{List, Option, String, [], none, some, suc, ℕ, ◌∷◌, nat_eq, string_eq}
use vscreen.Server.Memory.{
  ConsoleBuffer, ScreenshotEntry, ScreenshotHistory, filter_by_level, get_screenshot,
}
use vscreen.Http.State.{
  AppState, Response, ScreenshotEntryMeta, actions, answer, console, done, jpeg, metas,
  no_screenshot, on_supervisor, position, put_supervisor, require_supervisor, image,
}

abbrev metas_from : ℕ → List ScreenshotEntry → List ScreenshotEntryMeta
metas_from i [] = []
metas_from i (e ∷ es) =
    record {
      index = i;
      timestamp_ms = e.timestamp_ms;
      url = e.url;
      action_label = e.action_label;
      scroll_y = e.scroll_y;
      full_page = e.full_page;
    }
    ∷ metas_from (suc i) es

unfoldable pub list_screenshots : ScreenshotHistory → List ScreenshotEntryMeta
list_screenshots h = metas_from 0 h.entries

unfoldable pub clear_history : ScreenshotHistory → ScreenshotHistory
clear_history h = record h { entries = [] }

unfoldable pub clear_console : ConsoleBuffer → ConsoleBuffer
clear_console b = record b { entries = [] }

module _ {F : Type 0} (state : AppState F) (id : String) where
  unfoldable pub cursor_position : AppState F × Response
  cursor_position =
      on_supervisor state (require_supervisor state id)
        (λ sup. (state, answer 200 (position sup.cursor)))

  unfoldable pub history_list : AppState F × Response
  unfolding list_screenshots
  history_list =
      on_supervisor state (require_supervisor state id)
        (λ sup. (state, answer 200 (metas (list_screenshots sup.screenshot_history))))

  abbrev image_answer : Option ScreenshotEntry → Response
  image_answer (some entry) = answer 200 (image jpeg entry.bytes)
  image_answer none = answer 404 no_screenshot

  unfoldable pub history_get : ℕ → AppState F × Response
  history_get index =
      on_supervisor state (require_supervisor state id)
        (λ sup. (state, image_answer (get_screenshot sup.screenshot_history index)))

  unfoldable pub history_clear : AppState F × Response
  unfolding clear_history
  history_clear = on_supervisor state (require_supervisor state id) (λ sup. (
    put_supervisor state id
        (record sup { screenshot_history = clear_history sup.screenshot_history }),
    answer 200 done,
  ))

  unfoldable pub session_log : AppState F × Response
  session_log =
      on_supervisor state (require_supervisor state id)
        (λ sup. (state, answer 200 (actions sup.action_log.entries)))

  unfoldable pub console_log : Option String → AppState F × Response
  console_log level = on_supervisor state (require_supervisor state id) (λ sup. (
    state,
    answer 200 (
        console (elim level [
          | some l ↦ filter_by_level sup.console_buffer l
          | none ↦ sup.console_buffer.entries
        ])),
  ))

  unfoldable pub console_clear : AppState F × Response
  unfolding clear_console
  console_clear = on_supervisor state (require_supervisor state id) (λ sup. (
    put_supervisor state id (record sup { console_buffer = clear_console sup.console_buffer }),
    answer 200 done,
  ))
