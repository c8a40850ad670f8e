-- ===== src/Server/Tests.antt =====
-- The server's buffers on concrete inputs.
use vscreen.Base.{
  List, String, [], false, if◌then◌else◌, none, refl, ℕ, ◌==◌, ◌^◌, ◌∷◌, ◌≡◌, nat_eq, string_eq,
}
use vscreen.Core.Config.{h264}
use vscreen.Core.Instance.{InstanceConfig}
use vscreen.Base.Ints.{pos, negsuc}
use vscreen.Server.Cursor.{
  float_to_i32, get_cursor, i32_to_u32, new_cursor, pack, u64_to_i32, unpack, update,
}
use vscreen.Server.Memory.{
  ActionEntry, ConsoleEntry, ScreenshotEntry, last_n, new_console, new_log, record_action,
}
use vscreen.Server.Memory.Last.{last_of}
use vscreen.Server.Memory.Pushes.{last_n-record_all, numbered, push_lines, record_all}

abbrev line : String → ConsoleEntry
line text = record { timestamp_ms = 5; level = "log"; text = text }

abbrev shot : ℕ → ScreenshotEntry
shot t = record {
  timestamp_ms = t;
  url = "u";
  action_label = "a";
  scroll_y = 0;
  viewport_height = 600;
  full_page = false;
  bytes = t ∷ [];
}

abbrev action : ActionEntry
action = record {
  id = 0;
  timestamp_ms = 1;
  tool_name = "t";
  params_summary = "p";
  result_summary = "r";
  url_before = "b";
  url_after = "c";
  screenshot_index = none;
}

kept_two :
    (push_lines (new_console 2) (line "a" ∷ line "b" ∷ line "c" ∷ [])).entries
    ≡ line "b" ∷ line "c" ∷ []
unfolding push_lines new_console
kept_two = refl

second_id : (record_action 1 (record_all (new_log 3) (action ∷ [])) "t" "p" "r" "b" "c" none).1 ≡ 2
unfolding record_all record_action new_log
second_id = refl

last_n-record_all_example :
    last_n (record_all (new_log 2) (action ∷ action ∷ action ∷ [])) 1
    ≡ last_of 1 (last_of 2 (numbered 1 (action ∷ action ∷ action ∷ [])))
last_n-record_all_example = (last_n-record_all 2 1 (action ∷ action ∷ action ∷ [])).1

abbrev config : String → InstanceConfig
config id = record {
  instance_id = id;
  cdp_endpoint = "ws://localhost";
  pulse_source = "s";
  display = none;
  video = record {
    width = 1920;
    height = 1080;
    framerate = 30;
    bitrate_kbps = 6000;
    keyframe_interval = 60;
    cpu_used = 8;
    min_bitrate_kbps = 1000;
    max_bitrate_kbps = 10000;
    codec = h264;
  };
  audio = record { sample_rate = 48000; channels = 2; bitrate_kbps = 128; frame_duration_ms = 20 };
  rtp_output = none;
}

-- The bytes of the IDs of these tests.
abbrev bytes_of_id : String → List ℕ
bytes_of_id id = if id == "a" then 97 ∷ [] else if id == "b" then 98 ∷ [] else []

-- A place left of and below the start, and one that is out of range.
below : get_cursor (update (negsuc 49) (pos 7) new_cursor) ≡ (negsuc 49, pos 7)
unfolding get_cursor update pack unpack i32_to_u32 u64_to_i32 float_to_i32
below = refl

too_far :
    get_cursor (update (pos (10 ^ 12)) (negsuc (10 ^ 12)) new_cursor)
    ≡ (pos 2147483647, negsuc 2147483647)
unfolding get_cursor update pack unpack i32_to_u32 u64_to_i32 float_to_i32
too_far = refl
