-- ===== src/Cdp/Screencast/Frames.antt =====
-- crates/vscreen-cdp/src/screencast.rs and client.rs: which frames reach the receivers, and which
-- are acknowledged.
use vscreen.Base.{
  List, Option, [], ap, append-nil, append_assoc, arith, none, refl, some, sym, true, ℕ, ◌++◌, ◌∙◌,
  ◌∷◌, ◌≡◌, nat_eq, string_eq,
}
use vscreen.Base.Text.{Text, text_eq}
use vscreen.Cdp.Screencast.{
  CastClient, CastRequest, Decoded, RawFrame, ScreencastFrameEvent, StartScreencastParams, acks,
  bump_generation, bytes, decode_frame, err, handle_frame, malformed, ok, reconnected,
  start_request, start_screencast, starts, stop_request, stop_screencast, stops, FrameResult,
  ScreencastManager, after_decoding, decoded_frame, restart, new_cast,
}

pub data CastStep : Type 0 where
  casts : StartScreencastParams → CastStep
  ends : CastStep
  reconnects : CastStep
  brings : ℕ → ScreencastFrameEvent → CastStep

abbrev step : (Text → Decoded) → CastStep → CastClient → CastClient
step decode (casts config) c = start_screencast config c
step decode ends c = stop_screencast c
step decode reconnects c = reconnected c
step decode (brings now event) c = (handle_frame decode now event c).0

unfoldable pub cast_run : (Text → Decoded) → List CastStep → CastClient → CastClient
cast_run decode [] c = c
cast_run decode (s ∷ steps) c = cast_run decode steps (step decode s c)

-- What the events of a connection deliver.
abbrev frame_of : ℕ → ScreencastFrameEvent → Decoded → List RawFrame
frame_of now event (malformed e) = []
frame_of now event (bytes []) = []
frame_of now event (bytes (b ∷ body)) =
    record { data_bytes = b ∷ body; timestamp = now; session_id = event.session_id } ∷ []

abbrev ack_of : ScreencastFrameEvent → Decoded → List CastRequest
ack_of event (malformed e) = []
ack_of event (bytes body) = acks event.session_id ∷ []

unfoldable pub delivered : (Text → Decoded) → List (ℕ × ScreencastFrameEvent) → List RawFrame
delivered decode [] = []
delivered decode ((now, event) ∷ events) =
    frame_of now event (decode event.data_text) ++ delivered decode events

unfoldable pub acknowledged : (Text → Decoded) → List (ℕ × ScreencastFrameEvent) → List CastRequest
acknowledged decode [] = []
acknowledged decode ((now, event) ∷ events) =
    ack_of event (decode event.data_text) ++ acknowledged decode events

abbrev pub bring_all : List (ℕ × ScreencastFrameEvent) → List CastStep
bring_all [] = []
bring_all ((now, event) ∷ events) = brings now event ∷ bring_all events

abbrev InStep : CastClient → Type 0
InStep c = c.loop_generation ≡ c.manager.generation

restart-InStep :
    (params : Option StartScreencastParams)
    → (c : CastClient) → InStep c
    → InStep (restart params c)
unfolding start_request
restart-InStep none c e = e
restart-InStep (some params) c e = e

reconnected-InStep : (c : CastClient) → InStep c → InStep (reconnected c)
unfolding reconnected bump_generation
reconnected-InStep c e = restart-InStep c.screencast_params _ refl

after_decoding-InStep :
    (session : ℕ)
    → (c : CastClient) → (r : FrameResult) → InStep c
    → InStep (after_decoding session c r).0
after_decoding-InStep session c (ok frame) e = e
after_decoding-InStep session c (err x) e = e

handle_frame-InStep :
    (decode : Text → Decoded)
    → (now : ℕ) → (event : ScreencastFrameEvent) → (c : CastClient) → InStep c
    → InStep (handle_frame decode now event c).0
unfolding handle_frame
handle_frame-InStep decode now event c e =
    after_decoding-InStep event.session_id c
      (decode_frame decode now event c.loop_generation c.manager) e

step-InStep :
    (decode : Text → Decoded)
    → (s : CastStep) → (c : CastClient) → InStep c
    → InStep (step decode s c)
unfolding start_screencast stop_screencast start_request stop_request
step-InStep decode (casts config) c e = e
step-InStep decode ends c e = e
step-InStep decode reconnects c e = reconnected-InStep c e
step-InStep decode (brings now event) c e = handle_frame-InStep decode now event c e

-- Whatever the client does, the read loop has the current generation, so that no frame is dropped
-- for its generation: each frame that comes after a new connection is of that connection.
cast_run-InStep :
    (decode : Text → Decoded)
    → (steps : List CastStep) → (c : CastClient) → InStep c
    → InStep (cast_run decode steps c)
unfolding cast_run
cast_run-InStep decode [] c e = e
cast_run-InStep decode (s ∷ steps) c e =
    cast_run-InStep decode steps (step decode s c) (step-InStep decode s c e)

decode_frame-current :
    (decode : Text → Decoded)
    → (now : ℕ) → (event : ScreencastFrameEvent) → (g : ℕ) → (m : ScreencastManager)
    → g ≡ m.generation
    → decode_frame decode now event g m
      ≡ decoded_frame now event.session_id (decode event.data_text)
unfolding decode_frame
decode_frame-current decode now event g m e = ground arith

after_decoding-delivers :
    (now : ℕ)
    → (event : ScreencastFrameEvent) → (d : Decoded) → (c : CastClient)
    → ((after_decoding event.session_id c (decoded_frame now event.session_id d)).0.frames
        ≡ c.frames ++ frame_of now event d)
      × ((after_decoding event.session_id c (decoded_frame now event.session_id d)).0.requests
          ≡ c.requests ++ ack_of event d)
after_decoding-delivers now event (malformed e) c =
    (sym (append-nil c.frames), sym (append-nil c.requests))
after_decoding-delivers now event (bytes []) c = (refl, refl)
after_decoding-delivers now event (bytes (b ∷ body)) c = (refl, refl)

handle_frame-delivers :
    (decode : Text → Decoded)
    → (now : ℕ) → (event : ScreencastFrameEvent) → (c : CastClient) → InStep c
    → ((handle_frame decode now event c).0.frames
        ≡ c.frames ++ frame_of now event (decode event.data_text))
      × ((handle_frame decode now event c).0.requests
          ≡ c.requests ++ ack_of event (decode event.data_text))
unfolding handle_frame
handle_frame-delivers decode now event c e =
    rw (decode_frame-current decode now event c.loop_generation c.manager e)
      (after_decoding-delivers now event (decode event.data_text) c)

-- In a client whose loop has the current generation, the events that a browser sends one after the
-- other reach the receivers as frames in their order, all but those that are empty or malformed;
-- and all but the malformed ones are acknowledged, in their order and once each.
cast_run-delivered :
    (decode : Text → Decoded)
    → (events : List (ℕ × ScreencastFrameEvent)) → (c : CastClient) → InStep c
    → ((cast_run decode (bring_all events) c).frames ≡ c.frames ++ delivered decode events)
      × ((cast_run decode (bring_all events) c).requests ≡ c.requests ++ acknowledged decode events)
unfolding cast_run delivered acknowledged
cast_run-delivered decode [] c e = (sym (append-nil c.frames), sym (append-nil c.requests))
cast_run-delivered decode ((now, event) ∷ events) c e =
    let here = handle_frame-delivers decode now event c e in
    let later =
      cast_run-delivered decode events (handle_frame decode now event c).0
        (handle_frame-InStep decode now event c e) in
    (
      later.0
          ∙ ap (λ f. f ++ delivered decode events) here.0
          ∙ append_assoc c.frames (frame_of now event (decode event.data_text))
              (delivered decode events),
      later.1
          ∙ ap (λ f. f ++ acknowledged decode events) here.1
          ∙ append_assoc c.requests (ack_of event (decode event.data_text))
              (acknowledged decode events),
    )

-- After any sequence of steps from the new client, the events that the browser then sends one
-- after the other reach the receivers as frames in their order, all but those that are empty or
-- malformed; and all but the malformed ones are acknowledged, in their order and once each. So a
-- new connection never makes the client drop the frames that come after it.
pub cast_run-new_cast :
    (decode : Text → Decoded)
    → (steps : List CastStep) → (events : List (ℕ × ScreencastFrameEvent))
    → ((cast_run decode (bring_all events) (cast_run decode steps new_cast)).frames
        ≡ (cast_run decode steps new_cast).frames ++ delivered decode events)
      × ((cast_run decode (bring_all events) (cast_run decode steps new_cast)).requests
          ≡ (cast_run decode steps new_cast).requests ++ acknowledged decode events)
cast_run-new_cast decode steps events =
    cast_run-delivered decode events (cast_run decode steps new_cast)
      (cast_run-InStep decode steps new_cast refl)

-- A screencast that was stopped is started again by the next new connection, with the parameters
-- that it was started with before.
reconnected-stopped :
    (config : StartScreencastParams)
    → (c : CastClient)
    → ((reconnected (stop_screencast (start_screencast config c))).manager.active ≡ true)
      × ((reconnected (stop_screencast (start_screencast config c))).requests
          ≡ c.requests ++ starts config ∷ stops ∷ starts config ∷ [])
unfolding reconnected stop_screencast start_screencast start_request stop_request bump_generation
reconnected-stopped config c = (
  refl,
  append_assoc (c.requests ++ starts config ∷ []) (stops ∷ []) (starts config ∷ [])
      ∙ append_assoc c.requests (starts config ∷ []) (stops ∷ starts config ∷ []),
)
