-- ===== src/Cdp/Screencast.antt =====
-- crates/vscreen-cdp/src/screencast.rs, and what crates/vscreen-cdp/src/client.rs does with it: the
-- requests that start and stop a screencast, a new connection after the old one was lost, and the
-- event that brings a frame. The client's channels are lists of what they were sent; the decoding
-- of base64, with the text of its error, and the clock are parameters. The metadata of a frame,
-- which nothing reads, is left out.
pub mod Frames
use vscreen.Base.{
  Bool, List, Option, [], false, if◌then◌else◌, ltb, none, some, true, ℕ, ◌%◌, ◌+◌, ◌++◌, ◌^◌, ◌∷◌,
}
use vscreen.Base.Text.{Text, codes}
use vscreen.Core.Errors.{CdpError, screencast}

pub record StartScreencastParams : Type 0 where
  pub format : Text
  pub max_width : ℕ
  pub max_height : ℕ
  pub every_nth_frame : ℕ
  pub quality : ℕ

pub record ScreencastManager : Type 0 where
  pub generation : ℕ
  pub active : Bool

pub data CastRequest : Type 0 where
  starts : StartScreencastParams → CastRequest
  stops : CastRequest
  acks : ℕ → CastRequest

pub record ScreencastFrameEvent : Type 0 where
  pub data_text : Text
  pub session_id : ℕ

pub record RawFrame : Type 0 where
  pub data_bytes : List ℕ
  pub timestamp : ℕ
  pub session_id : ℕ

pub data Decoded : Type 0 where
  bytes : List ℕ → Decoded
  malformed : Text → Decoded

pub data FrameResult : Type 0 where
  ok : Option RawFrame → FrameResult
  err : CdpError → FrameResult

abbrev pub new_manager : ScreencastManager
new_manager = record { generation = 0; active = false }

unfoldable pub bump_generation : ScreencastManager → ScreencastManager × ℕ
bump_generation m =
    let g = (m.generation + 1) % 2 ^ 64 in (record { generation = g; active = m.active }, g)

unfoldable pub start_request :
    StartScreencastParams → ScreencastManager → ScreencastManager × CastRequest
start_request params m = (record { generation = m.generation; active = true }, starts params)

unfoldable pub stop_request : ScreencastManager → ScreencastManager × CastRequest
stop_request m = (record { generation = m.generation; active = false }, stops)

abbrev non_empty_frame : ℕ → ℕ → List ℕ → Option RawFrame
non_empty_frame now session [] = none
non_empty_frame now session (b ∷ body) =
    some (record { data_bytes = b ∷ body; timestamp = now; session_id = session })

abbrev pub decoded_frame : ℕ → ℕ → Decoded → FrameResult
decoded_frame now session (bytes body) = ok (non_empty_frame now session body)
decoded_frame now session (malformed e) = err (screencast (codes "base64 decode failed: " ++ e))

unfoldable pub decode_frame :
    (Text → Decoded) → ℕ → ScreencastFrameEvent → ℕ → ScreencastManager → FrameResult
decode_frame decode now event frame_generation m =
    if ltb frame_generation m.generation
    then ok none
    else decoded_frame now event.session_id (decode event.data_text)

-- The client: its screencast, the parameters it keeps for the next connection, the generation that
-- the read loop has in its variable, and what it sent to the browser and to the receivers of frames.
pub record CastClient : Type 0 where
  pub manager : ScreencastManager
  pub screencast_params : Option StartScreencastParams
  pub loop_generation : ℕ
  pub requests : List CastRequest
  pub frames : List RawFrame

abbrev pub new_cast : CastClient
new_cast = record {
  manager = new_manager;
  screencast_params = none;
  loop_generation = 0;
  requests = [];
  frames = [];
}

-- `screencast_params` set, and the request to start sent.
unfoldable pub start_screencast : StartScreencastParams → CastClient → CastClient
start_screencast config c = record {
  manager = (start_request config c.manager).0;
  screencast_params = some config;
  loop_generation = c.loop_generation;
  requests = c.requests ++ (start_request config c.manager).1 ∷ [];
  frames = c.frames;
}

unfoldable pub stop_screencast : CastClient → CastClient
stop_screencast c = record {
  manager = (stop_request c.manager).0;
  screencast_params = c.screencast_params;
  loop_generation = c.loop_generation;
  requests = c.requests ++ (stop_request c.manager).1 ∷ [];
  frames = c.frames;
}

-- The request to start again, when there are parameters to start with.
abbrev pub restart : Option StartScreencastParams → CastClient → CastClient
restart none c = c
restart (some params) c = record {
  manager = (start_request params c.manager).0;
  screencast_params = c.screencast_params;
  loop_generation = c.loop_generation;
  requests = c.requests ++ (start_request params c.manager).1 ∷ [];
  frames = c.frames;
}

-- The read loop after a new connection is there.
unfoldable pub reconnected : CastClient → CastClient
reconnected c = restart c.screencast_params (record {
  manager = (bump_generation c.manager).0;
  screencast_params = c.screencast_params;
  loop_generation = (bump_generation c.manager).1;
  requests = c.requests;
  frames = c.frames;
})

-- The event `Page.screencastFrame` in `handle_message`: the frame is handed on if there is one, and
-- acknowledged unless its decoding is an error.
abbrev pub after_decoding : ℕ → CastClient → FrameResult → CastClient × Option CdpError
after_decoding session c (err e) = (c, some e)
after_decoding session c (ok frame) = (
  record {
    manager = c.manager;
    screencast_params = c.screencast_params;
    loop_generation = c.loop_generation;
    requests = c.requests ++ acks session ∷ [];
    frames = c.frames ++ elim frame [ some f ↦ f ∷ [] | none ↦ [] ];
  },
  none,
)

unfoldable pub handle_frame :
    (Text → Decoded) → ℕ → ScreencastFrameEvent → CastClient → CastClient × Option CdpError
handle_frame decode now event c =
    after_decoding event.session_id c (decode_frame decode now event c.loop_generation c.manager)
