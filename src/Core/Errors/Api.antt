-- ===== src/Core/Errors/Api.antt =====
-- What the error of the HTTP API tells a client.
use vscreen.Base.{
  Bool, false, if◌then◌else◌, leb, ltb, max, none, refl, some, true, ◌&&◌, ◌==◌, ◌≡◌, nat_eq,
  string_eq,
}
use vscreen.Core.Errors.{ApiError, ApiErrorCode, CdpError, VScreenError, api_error, show_error}

-- The errors that the API does not explain to a client: those of the video, the sound and the
-- transport, and the closed channel.
abbrev pub is_internal : VScreenError → Bool
is_internal (VScreenError.video e) = true
is_internal (VScreenError.audio e) = true
is_internal (VScreenError.transport e) = true
is_internal VScreenError.channel_closed = true
is_internal _ = false

abbrev pub is_max_peers : ApiErrorCode → Bool
is_max_peers ApiErrorCode.max_peers_reached = true
is_max_peers _ = false

-- The status is that of an HTTP error; it is 500 exactly for an internal error, and exactly then
-- there are details, which are the text of the error; the code is not that of too many peers.
pub record IsReport (e : VScreenError) (a : ApiError) : Type 0 where
  pub is_error : (leb 400 a.status && ltb a.status 600) ≡ true
  pub internal : (a.status == 500) ≡ is_internal e
  pub explained : a.details ≡ (if is_internal e then some (show_error e) else none)
  pub peers : is_max_peers a.code ≡ false

-- Every error becomes an answer with a status from 400 to 599; it is 500 exactly if the error comes
-- from the video, the sound or the transport or is the closed channel, and exactly then the text of
-- the error is given as details. No error becomes the code MaxPeersReached.
pub api_error-IsReport : (e : VScreenError) → IsReport e (api_error e)
unfolding api_error
api_error-IsReport (VScreenError.cdp (CdpError.connection_failed s)) = record {
  is_error = refl;
  internal = refl;
  explained = refl;
  peers = refl;
}
api_error-IsReport (VScreenError.cdp CdpError.connection_lost) = record {
  is_error = refl;
  internal = refl;
  explained = refl;
  peers = refl;
}
api_error-IsReport (VScreenError.cdp (CdpError.reconnect_exhausted n)) = record {
  is_error = refl;
  internal = refl;
  explained = refl;
  peers = refl;
}
api_error-IsReport (VScreenError.cdp (CdpError.protocol s)) = record {
  is_error = refl;
  internal = refl;
  explained = refl;
  peers = refl;
}
api_error-IsReport (VScreenError.cdp (CdpError.screencast s)) = record {
  is_error = refl;
  internal = refl;
  explained = refl;
  peers = refl;
}
api_error-IsReport (VScreenError.cdp (CdpError.input_dispatch s)) = record {
  is_error = refl;
  internal = refl;
  explained = refl;
  peers = refl;
}
api_error-IsReport (VScreenError.cdp (CdpError.web_socket s)) = record {
  is_error = refl;
  internal = refl;
  explained = refl;
  peers = refl;
}
api_error-IsReport (VScreenError.cdp (CdpError.message_too_large n max)) = record {
  is_error = refl;
  internal = refl;
  explained = refl;
  peers = refl;
}
api_error-IsReport (VScreenError.cdp (CdpError.timeout ms)) = record {
  is_error = refl;
  internal = refl;
  explained = refl;
  peers = refl;
}
api_error-IsReport (VScreenError.video x) = record {
  is_error = refl;
  internal = refl;
  explained = refl;
  peers = refl;
}
api_error-IsReport (VScreenError.audio x) = record {
  is_error = refl;
  internal = refl;
  explained = refl;
  peers = refl;
}
api_error-IsReport (VScreenError.transport x) = record {
  is_error = refl;
  internal = refl;
  explained = refl;
  peers = refl;
}
api_error-IsReport (VScreenError.config x) = record {
  is_error = refl;
  internal = refl;
  explained = refl;
  peers = refl;
}
api_error-IsReport (VScreenError.instance_not_found s) = record {
  is_error = refl;
  internal = refl;
  explained = refl;
  peers = refl;
}
api_error-IsReport (VScreenError.instance_already_exists s) = record {
  is_error = refl;
  internal = refl;
  explained = refl;
  peers = refl;
}
api_error-IsReport (VScreenError.invalid_state s) = record {
  is_error = refl;
  internal = refl;
  explained = refl;
  peers = refl;
}
api_error-IsReport (VScreenError.invalid_config s) = record {
  is_error = refl;
  internal = refl;
  explained = refl;
  peers = refl;
}
api_error-IsReport (VScreenError.limit_exceeded s) = record {
  is_error = refl;
  internal = refl;
  explained = refl;
  peers = refl;
}
api_error-IsReport (VScreenError.no_supervisor s) = record {
  is_error = refl;
  internal = refl;
  explained = refl;
  peers = refl;
}
api_error-IsReport (VScreenError.instance_locked s) = record {
  is_error = refl;
  internal = refl;
  explained = refl;
  peers = refl;
}
api_error-IsReport (VScreenError.lock_not_held s) = record {
  is_error = refl;
  internal = refl;
  explained = refl;
  peers = refl;
}
api_error-IsReport (VScreenError.lock_timeout s) = record {
  is_error = refl;
  internal = refl;
  explained = refl;
  peers = refl;
}
api_error-IsReport VScreenError.shutting_down = record {
  is_error = refl;
  internal = refl;
  explained = refl;
  peers = refl;
}
api_error-IsReport VScreenError.channel_closed = record {
  is_error = refl;
  internal = refl;
  explained = refl;
  peers = refl;
}
