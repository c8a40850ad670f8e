-- ===== src/Server/Memory/Pushes.antt =====
-- The three buffers over any number of pushes.
use vscreen.Base.{
  List, String, [], ap, arith, drop, get_elem?, length, length-drop, max, min, refl, retain, suc,
  zero, ℕ, ◌%◌, ◌+◌, ◌-◌, ◌==◌, ◌^◌, ◌∙◌, ◌∷◌, ◌≡◌, nat_eq, string_eq,
}
use vscreen.Server.Memory.{
  ActionEntry, ActionLog, ConsoleBuffer, ConsoleEntry, ScreenshotEntry, ScreenshotHistory,
  filter_by_level, get_screenshot, last_n, new_console, new_history, new_log, push_console,
  push_screenshot, record_action,
}
use vscreen.Server.Memory.Last.{last_of, push_all, push_all-empty, suc_add}

-- The console.
unfoldable pub push_lines : ConsoleBuffer → List ConsoleEntry → ConsoleBuffer
unfolding push_console
push_lines b [] = b
push_lines b (l ∷ lines) = push_lines (push_console l.timestamp_ms b l.level l.text) lines

push_lines-push_all :
    (b : ConsoleBuffer) (lines : List ConsoleEntry)
    → (push_lines b lines).entries ≡ push_all b.max_entries b.entries lines
unfolding push_lines push_console push_all
push_lines-push_all b [] = refl
push_lines-push_all b (l ∷ lines) =
    push_lines-push_all (push_console l.timestamp_ms b l.level l.text) lines

-- After any lines pushed to a new console buffer, the buffer holds the last of them, in order, as
-- many as its capacity (one, if that is 0), and the filter gives those of the level.
filter_by_level-push_lines :
    (n : ℕ) (lines : List ConsoleEntry) (level : String)
    → ((push_lines (new_console n) lines).entries ≡ last_of (max n 1) lines)
      × (filter_by_level (push_lines (new_console n) lines) level
          ≡ retain (λ e. e.level == level) (last_of (max n 1) lines))
unfolding new_console filter_by_level
filter_by_level-push_lines n lines level =
    let kept = push_lines-push_all (new_console n) lines ∙ push_all-empty n lines in
    (kept, ap (retain (λ e. e.level == level)) kept)

-- The screenshots.
unfoldable pub push_entries : ScreenshotHistory → List ScreenshotEntry → ScreenshotHistory
unfolding push_screenshot
push_entries h [] = h
push_entries h (e ∷ es) =
    push_entries
      (push_screenshot e.timestamp_ms h e.bytes e.url e.action_label e.scroll_y e.viewport_height
        e.full_page)
      es

push_entries-push_all :
    (h : ScreenshotHistory) (es : List ScreenshotEntry)
    → (push_entries h es).entries ≡ push_all h.max_entries h.entries es
unfolding push_entries push_screenshot push_all
push_entries-push_all h [] = refl
push_entries-push_all h (e ∷ es) =
    push_entries-push_all
      (push_screenshot e.timestamp_ms h e.bytes e.url e.action_label e.scroll_y e.viewport_height
        e.full_page)
      es

get_elem?-drop {ℓ} :
    {A : Type ℓ} (k i : ℕ) (xs : List A) → get_elem? (drop k xs) i ≡ get_elem? xs (k + i)
get_elem?-drop zero i xs = ap (get_elem? xs) (omega arith)
get_elem?-drop (suc k) i [] = refl
get_elem?-drop (suc k) i (x ∷ xs) = get_elem?-drop k i xs ∙ ap (get_elem? (x ∷ xs)) (suc_add k i)

-- After any screenshots pushed to a new history, the index `i` finds the screenshot pushed `i`
-- after the oldest that is kept, and there are as many as were pushed, up to the capacity (one, if
-- that is 0).
get_screenshot-push_entries :
    (n i : ℕ) (es : List ScreenshotEntry)
    → (get_screenshot (push_entries (new_history n) es) i ≡ get_elem? es (length es - max n 1 + i))
      × (length (push_entries (new_history n) es).entries ≡ min (length es) (max n 1))
unfolding new_history get_screenshot
get_screenshot-push_entries n i es =
    let kept = push_entries-push_all (new_history n) es ∙ push_all-empty n es in
    (
      ap (λ l. get_elem? l i) kept ∙ get_elem?-drop (length es - max n 1) i es,
      ap length kept ∙ omega (arith, length-drop (length es - max n 1) es),
    )

-- The actions. A call of `record` has all fields of the entry but the id, which is not read.
unfoldable pub record_all : ActionLog → List ActionEntry → ActionLog
unfolding record_action
record_all l [] = l
record_all l (c ∷ cs) =
    record_all
      (record_action c.timestamp_ms l c.tool_name c.params_summary c.result_summary c.url_before
        c.url_after c.screenshot_index).0
      cs

unfoldable pub numbered : ℕ → List ActionEntry → List ActionEntry
numbered i [] = []
numbered i (c ∷ cs) = record c { id = i } ∷ numbered ((i + 1) % 2 ^ 64) cs

record_all-push_all :
    (l : ActionLog) (cs : List ActionEntry)
    → (record_all l cs).entries ≡ push_all l.max_entries l.entries (numbered l.next_id cs)
unfolding record_all record_action push_all numbered
record_all-push_all l [] = refl
record_all-push_all l (c ∷ cs) =
    record_all-push_all
      (record_action c.timestamp_ms l c.tool_name c.params_summary c.result_summary c.url_before
        c.url_after c.screenshot_index).0
      cs

-- After any calls of `record` on a new action log, the entries are those of the last calls, as many
-- as the capacity (one, if that is 0), with the ids that count from 1 over all calls, modulo
-- 2 ^ 64; and `last_n` gives the last `k` of these.
pub last_n-record_all :
    (n k : ℕ) (cs : List ActionEntry)
    → ((record_all (new_log n) cs).entries ≡ last_of (max n 1) (numbered 1 cs))
      × (last_n (record_all (new_log n) cs) k ≡ last_of k (last_of (max n 1) (numbered 1 cs)))
unfolding new_log last_n
last_n-record_all n k cs =
    let kept = record_all-push_all (new_log n) cs ∙ push_all-empty n (numbered 1 cs) in
    (kept, ap (last_of k) kept)
