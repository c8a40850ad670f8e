-- ===== src/Http/State.antt =====
-- What the handlers of crates/vscreen-server/src/handlers.rs share: the state of the server, the
-- answers, and `require_supervisor`. A supervisor is what the handlers see of it: the requests that
-- the browser took and the commands that its page was asked, oldest first, the position of the cursor and the three buffers. Of a body
-- in JSON the model keeps the values. `utf8` gives the bytes of a string.
use vscreen.Base.{
  Bool, List, Option, String, false, is_some, none, some, true, ℕ, nat_eq, string_eq,
}
use vscreen.Base.Assoc.{get, insert}
use vscreen.Base.Text.{Text, codes, text_eq}
use vscreen.Base.Ints.{ℤ}
use vscreen.Core.Errors.{ApiError, VScreenError, api_error}
use vscreen.Core.Instance.{InstanceState}
use vscreen.Server.Registry.{InstanceRegistry}
use vscreen.Server.Memory.{ActionEntry, ActionLog, ConsoleBuffer, ConsoleEntry, ScreenshotHistory}
use vscreen.Cdp.Pages.{PageCommand}
use vscreen.Cdp.Input.{CdpRequest}
use vscreen.Rtsp.Session.{RtspSession}
use vscreen.Rtsp.Session.Manager.{RtspSessionManager, AggregatedHealth}

pub record Supervisor (F : Type 0) : Type 0 where
  pub sent : List (CdpRequest F)
  pub asked : List (PageCommand F)
  pub cursor : ℤ × ℤ
  pub screenshot_history : ScreenshotHistory
  pub action_log : ActionLog
  pub console_buffer : ConsoleBuffer

pub record AppState (F : Type 0) : Type 0 where
  pub max_instances : ℕ
  pub registry : InstanceRegistry
  pub supervisors : List (String × Supervisor F)
  pub rtsp_session_manager : Option RtspSessionManager
  pub rtsp_port : ℕ

-- An entry of the list of the instances.
pub record Listing : Type 0 where
  pub instance_id : String
  pub state : InstanceState
  pub supervisor_running : Bool
  pub rtsp_url : Option Text

pub record ScreenshotEntryMeta : Type 0 where
  pub index : ℕ
  pub timestamp_ms : ℕ
  pub url : String
  pub action_label : String
  pub scroll_y : ℕ
  pub full_page : Bool

pub data ImageType : Type 0 where
  jpeg webp png : ImageType

pub data Body : Type 0 where
  empty done : Body
  failure : ApiError → Body
  instance_created applied : String → Body
  listed : List Listing → Body
  instance_state : String → InstanceState → Bool → Body
  server_status : ℕ → Body
  metas : List ScreenshotEntryMeta → Body
  image : ImageType → List ℕ → Body
  images : List (List ℕ) → Text → ℕ → Body
  no_screenshot : Body
  actions : List ActionEntry → Body
  console : List ConsoleEntry → Body
  position : ℤ × ℤ → Body
  rtsp_not_running : Body
  streams : List RtspSession → Body
  stream : RtspSession → Body
  stream_health : AggregatedHealth → Body
  rtsp_status : ℕ → ℕ → Body

pub record Response : Type 0 where
  pub status : ℕ
  pub body : Body

abbrev pub answer : ℕ → Body → Response
answer status body = record { status = status; body = body }

-- `error_response`: each status that `api_error` gives is one that `StatusCode` accepts.
abbrev pub error_response : VScreenError → Response
error_response e = answer (api_error e).status (failure (api_error e))

-- A lookup that may fail.
pub data Required (A : Type 0) : Type 0 where
  present : A → Required A
  refused : Response → Required A

abbrev after_registry : {F : Type 0} → AppState F → String → Bool → Required (Supervisor F)
after_registry state id false =
    refused (error_response (VScreenError.instance_not_found (codes id)))
after_registry state id true = elim (get id state.supervisors) [
  | some sup ↦ present sup
  | none ↦ refused (error_response (VScreenError.no_supervisor (codes id)))
]

unfoldable pub require_supervisor : {F : Type 0} → AppState F → String → Required (Supervisor F)
unfolding api_error
require_supervisor state id = after_registry state id (is_some (get id state.registry))

-- A handler of one instance: `match require_supervisor(..) { Ok(s) => s, Err(e) => return e }`.
abbrev pub on_supervisor :
    {F : Type 0}
    → AppState F
    → Required (Supervisor F)
    → (Supervisor F → AppState F × Response)
    → AppState F × Response
on_supervisor state (refused response) handler = (state, response)
on_supervisor state (present sup) handler = handler sup

-- The state with what a handler did to its supervisor, which is shared by reference.
abbrev pub put_supervisor : {F : Type 0} → AppState F → String → Supervisor F → AppState F
put_supervisor state id sup = record state { supervisors = insert id sup state.supervisors }
