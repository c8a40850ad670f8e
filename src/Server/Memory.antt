-- ===== src/Server/Memory.antt =====
-- crates/vscreen-server/src/memory.rs: the bounded buffers of screenshots, actions and console
-- lines. A `VecDeque` is a list from the front to the back; the time is given; the id of an action
-- wraps as in a release build; the scroll position, an `f64`, is a number.
pub mod Last
pub mod Pushes
use mathlib.Core.Option
use vscreen.Base.{
  Bool, List, Option, String, [], drop, get_elem?, if◌then◌else◌, leb, length, none, retain, some,
  take, ℕ, ◌%◌, ◌++◌, ◌+◌, ◌-◌, ◌==◌, ◌^◌, ◌∷◌, nat_eq, string_eq,
}

-- `if entries.len() >= max_entries { entries.pop_front(); } entries.push_back(entry)`
unfoldable pub push_bounded {ℓ} : {A : Type ℓ} → ℕ → List A → A → List A
push_bounded max_entries entries entry =
    (if leb max_entries (length entries) then drop 1 entries else entries) ++ entry ∷ []

pub record ScreenshotEntry : Type 0 where
  pub timestamp_ms : ℕ
  pub url : String
  pub action_label : String
  pub scroll_y : ℕ
  pub viewport_height : ℕ
  pub full_page : Bool
  pub bytes : List ℕ

pub record ScreenshotHistory : Type 0 where
  pub entries : List ScreenshotEntry
  pub max_entries : ℕ

unfoldable pub new_history : ℕ → ScreenshotHistory
new_history max_entries = record { entries = []; max_entries = max_entries }

unfoldable pub push_screenshot :
    ℕ → ScreenshotHistory → List ℕ → String → String → ℕ → ℕ → Bool → ScreenshotHistory
unfolding push_bounded
push_screenshot now h bytes url action_label scroll_y viewport_height full_page = record h {
  entries = push_bounded h.max_entries h.entries (record {
    timestamp_ms = now;
    url = url;
    action_label = action_label;
    scroll_y = scroll_y;
    viewport_height = viewport_height;
    full_page = full_page;
    bytes = bytes;
  });
}

unfoldable pub get_screenshot : ScreenshotHistory → ℕ → Option ScreenshotEntry
get_screenshot h index = get_elem? h.entries index

unfoldable pub last {ℓ} : {A : Type ℓ} → List A → Option A
last [] = none
last (x ∷ []) = some x
last (x ∷ y ∷ xs) = last (y ∷ xs)

abbrev pub latest : ScreenshotHistory → Option ScreenshotEntry
latest h = last h.entries

abbrev pub get_range : ScreenshotHistory → ℕ → ℕ → List ScreenshotEntry
get_range h from count = take count (drop from h.entries)

pub record ActionEntry : Type 0 where
  pub id : ℕ
  pub timestamp_ms : ℕ
  pub tool_name : String
  pub params_summary : String
  pub result_summary : String
  pub url_before : String
  pub url_after : String
  pub screenshot_index : Option ℕ

pub record ActionLog : Type 0 where
  pub entries : List ActionEntry
  pub max_entries : ℕ
  pub next_id : ℕ

unfoldable pub new_log : ℕ → ActionLog
new_log max_entries = record { entries = []; max_entries = max_entries; next_id = 1 }

-- The log and the id of the new entry.
unfoldable pub record_action :
    ℕ → ActionLog → String → String → String → String → String → Option ℕ → ActionLog × ℕ
unfolding push_bounded
record_action now l tool_name params_summary result_summary url_before url_after index = (
  record l {
    next_id = (l.next_id + 1) % 2 ^ 64;
    entries = push_bounded l.max_entries l.entries (record {
      id = l.next_id;
      timestamp_ms = now;
      tool_name = tool_name;
      params_summary = params_summary;
      result_summary = result_summary;
      url_before = url_before;
      url_after = url_after;
      screenshot_index = index;
    });
  },
  l.next_id,
)

unfoldable pub last_n : ActionLog → ℕ → List ActionEntry
last_n l n = drop (length l.entries - n) l.entries

pub record ConsoleEntry : Type 0 where
  pub timestamp_ms : ℕ
  pub level : String
  pub text : String

pub record ConsoleBuffer : Type 0 where
  pub entries : List ConsoleEntry
  pub max_entries : ℕ

unfoldable pub new_console : ℕ → ConsoleBuffer
new_console max_entries = record { entries = []; max_entries = max_entries }

unfoldable pub push_console : ℕ → ConsoleBuffer → String → String → ConsoleBuffer
unfolding push_bounded
push_console now b level text = record b {
  entries =
      push_bounded b.max_entries b.entries
        (record { timestamp_ms = now; level = level; text = text });
}

unfoldable pub filter_by_level : ConsoleBuffer → String → List ConsoleEntry
filter_by_level b level = retain (λ e. e.level == level) b.entries
