-- ===== src/Http/Tests.antt =====
-- The handlers of the API on a small server.
use vscreen.Base.{
  List, String, [], arith, false, if◌then◌else◌, inr, leb, length, ltb, max, min, none, refl, some,
  true, ℕ, ◌*◌, ◌+◌, ◌-◌, ◌/◌, ◌∷◌, ◌≡◌, ◌≢◌, nat_eq, string_eq,
}
use vscreen.Base.Text.{show, codes, text_eq, starts_with, strip_prefix}
use vscreen.Base.Ints.{pos}
use vscreen.Core.Config.{h264}
use vscreen.Core.Errors.{CdpError, api_error}
use vscreen.Core.Instance.{InstanceConfig, created, running, is_url_safe}
use vscreen.Server.Registry.{create, admit, insert_vacant}
use vscreen.Cdp.Input.{left, right}
use vscreen.Rtsp.Quality.{standard}
use vscreen.Rtsp.Session.{RtspSession, ready}
use vscreen.Rtsp.Session.Manager.{RtspSessionManager}
use vscreen.Http.Auth.{HttpRequest, auth_middleware, runs_next, unauthorized}
use vscreen.Http.Auth.Admission.{auth_middleware_iff}
use vscreen.Http.State.{AppState, Supervisor, answer, done, instance_state, require_supervisor}
use vscreen.Cdp.Pages.{gives}
use vscreen.Http.Browser.{Browser, FloatOps, send_each}
use vscreen.Http.Instances.{create_instance, instance_health}
use vscreen.Http.Instances.Lookup.{create_instance-delete_instance}
use vscreen.Http.Streams.{audio_stream_teardown}
use vscreen.Http.Streams.Foreign.{audio_stream_teardown-foreign}
use vscreen.Http.Input.{
  ClickRequest, DragRequest, click_requests, drag_moves, drag_requests, input_click, input_drag,
}
use vscreen.Http.Input.Buttons.{held_after, input_click-releases, sent_to}
use vscreen.Http.Input.Drags.{input_drag-releases, input_drag-stuck}

abbrev config : String → InstanceConfig
config id = record {
  instance_id = id;
  cdp_endpoint = "ws://localhost";
  pulse_source = "s";
  display = none;
  video = record {
    width = 1920;
    height = 1080;
    framerate = 30;
    bitrate_kbps = 6000;
    keyframe_interval = 60;
    cpu_used = 8;
    min_bitrate_kbps = 1000;
    max_bitrate_kbps = 10000;
    codec = h264;
  };
  audio = record { sample_rate = 48000; channels = 2; bitrate_kbps = 128; frame_duration_ms = 20 };
  rtp_output = none;
}

abbrev no_requests : Supervisor ℕ
no_requests = record {
  sent = [];
  asked = [];
  cursor = (pos 0, pos 0);
  screenshot_history = record { entries = []; max_entries = 20 };
  action_log = record { entries = []; max_entries = 200; next_id = 1 };
  console_buffer = record { entries = []; max_entries = 200 };
}

abbrev session : RtspSession
session = record {
  id = codes "s";
  instance_id = codes "other";
  state = ready;
  client_addr = record { ip = "10.0.0.1"; port = 4000 };
  media_config = record { has_video = true; has_audio = false };
  quality = standard;
  tracks = [];
  created_at = 5;
  last_activity = 5;
  is_cancelled = false;
}

abbrev manager : RtspSessionManager
manager = record { sessions = (codes "s", session) ∷ []; timeout = 120_000; is_cancelled = false }

abbrev server : AppState ℕ
server = record {
  max_instances = 4;
  registry = ("dev", record { config = config "dev"; state = running }) ∷ [];
  supervisors = ("dev", no_requests) ∷ [];
  rtsp_session_manager = some manager;
  rtsp_port = 0;
}

abbrev whole : FloatOps ℕ
whole = record {
  plus = λ a b. a + b;
  minus = λ a b. a - b;
  times = λ a b. a * b;
  over = λ a b. a / b;
  larger = max;
  at_most = leb;
  of_nat = λ n. n;
  show_float = show;
}

-- A channel that takes so many requests, and a page that has no answers.
abbrev taking : ℕ → Browser ℕ
taking n = record {
  send = λ sent r. if ltb (length sent) n then none else some (CdpError.timeout 15_000);
  page = record {
    ask = λ asked command. gives none;
    from_json = λ s. none;
    decode_base64 = λ s. none;
    of_nat = λ k. k;
    smaller = min;
    to_u32 = λ k. k;
  };
}

abbrev bytes : String → List ℕ
bytes = codes

create_instance-delete_instance_example :
    instance_health (create_instance bytes server (config "new")).0 "new"
    ≡ answer 200 (instance_state "new" created false)
create_instance-delete_instance_example =
    (create_instance-delete_instance bytes server (config "new")
      (unfold create_instance create admit is_url_safe insert_vacant in refl)).0

other_instance : codes "other" ≢ codes "dev"
other_instance e = ground (arith, (text_eq.beq_iff (codes "other") (codes "dev")).1 e)

audio_stream_teardown-foreign_example :
    (audio_stream_teardown bytes server "dev" (codes "s")).1 ≡ answer 200 done
audio_stream_teardown-foreign_example =
    (audio_stream_teardown-foreign bytes server "dev" (codes "s") no_requests manager session
      (unfold require_supervisor in refl) refl refl other_instance).1

abbrev clicks : ClickRequest ℕ
clicks = record { x = 5; y = 6; button = some 2; double = some true; page_coords = false }

input_click-releases_example :
    held_after right false (sent_to (input_click (taking 9) whole server "dev" clicks).0 "dev")
    ≡ false
unfolding held_after
input_click-releases_example =
    input_click-releases (taking 9) whole server "dev" clicks no_requests right
      (unfold require_supervisor in refl)
      (unfold input_click click_requests send_each require_supervisor in refl)

abbrev drags : DragRequest ℕ
drags = record { from_x = 1; from_y = 1; to_x = 9; to_y = 5; steps = 2 }

input_drag-releases_example :
    held_after left false (sent_to (input_drag (taking 9) whole server "dev" drags).0 "dev") ≡ false
unfolding held_after
input_drag-releases_example =
    input_drag-releases (taking 9) whole server "dev" drags no_requests left
      (unfold require_supervisor in refl)
      (unfold input_drag drag_requests drag_moves send_each require_supervisor in refl)

input_drag-stuck_example :
    held_after left false (sent_to (input_drag (taking 3) whole server "dev" drags).0 "dev") ≡ true
input_drag-stuck_example =
    input_drag-stuck (taking 3) whole server "dev" drags no_requests
      (unfold require_supervisor in refl) refl refl
      (unfold input_drag drag_requests drag_moves send_each require_supervisor api_error in
        λ e. ground arith)

abbrev asks : HttpRequest
asks = record { path = codes "/instances"; query = none; authorization = some (codes "Bearer abc") }

auth_middleware_iff_example : auth_middleware (some (codes "abc")) asks ≡ runs_next
auth_middleware_iff_example =
    (auth_middleware_iff (codes "abc") asks).1 (inr (inr (λ b. ground (arith, b.1), refl)))

wrong_token : auth_middleware (some (codes "abd")) asks ≡ unauthorized
unfolding auth_middleware starts_with strip_prefix
wrong_token = refl
