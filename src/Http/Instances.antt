-- ===== src/Http/Instances.antt =====
-- The handlers of crates/vscreen-server/src/handlers.rs for the instances and the server.
use vscreen.Base.{
  List, Option, String, [], if◌then◌else◌, is_some, length, ltb, max, none, not, some, ℕ, ◌++◌, ◌∷◌,
  nat_eq, string_eq,
}
pub mod Lookup
use vscreen.Base.Assoc
use vscreen.Base.Assoc.{get, keys, remove}
use vscreen.Base.Text.{Text, codes, show, text_eq}
use vscreen.Core.Errors.{
  VScreenError, instance_already_exists, instance_not_found, invalid_config, limit_exceeded,
}
use vscreen.Core.Instance.{InstanceConfig, is_running}
use vscreen.Server.Registry.{InstanceEntry, Outcome, create, remove_instance, ok}
use vscreen.Http.State.{
  AppState, Listing, Response, Supervisor, answer, applied, empty, error_response, instance_created,
  instance_state, listed, server_status,
}

-- The error that an outcome of the registry stands for.
abbrev pub registry_error : ℕ → String → Outcome → Option VScreenError
registry_error limit id (Outcome.ok entry) = none
registry_error limit id Outcome.invalid_config = some (
    VScreenError.invalid_config (
      codes "instance ID '"
      ++ (codes id
          ++ codes
              "' is not URL-safe (only alphanumeric, hyphens, underscores, dots allowed; 1-128 chars)")))
registry_error limit id Outcome.limit_exceeded =
    some
      (VScreenError.limit_exceeded (codes "max instances (" ++ (show limit ++ codes ") reached")))
registry_error limit id Outcome.instance_already_exists =
    some (VScreenError.instance_already_exists (codes id))
registry_error limit id Outcome.instance_not_found =
    some (VScreenError.instance_not_found (codes id))

abbrev pub or_error : Option VScreenError → Response → Response
or_error (some e) response = error_response e
or_error none response = response

unfoldable pub create_instance :
    {F : Type 0} → (String → List ℕ) → AppState F → InstanceConfig → AppState F × Response
create_instance utf8 state body =
    let (registry, outcome) = create utf8 state.registry body state.max_instances in
    (
      record state { registry = registry },
      or_error (registry_error state.max_instances body.instance_id outcome)
          (answer 201 (instance_created body.instance_id)),
    )

-- The entry that was removed, whose watchers are told that it is stopping, and the supervisor that
-- was removed and is stopped, are results.
unfoldable pub delete_instance :
    {F : Type 0}
    → AppState F
    → String
    → AppState F × Response × Option (InstanceEntry × Option (Supervisor F))
delete_instance state id = elim (get id state.registry) [
  | some entry ↦ (
    record state {
      registry = (remove_instance state.registry id).0;
      supervisors = Assoc.remove id state.supervisors;
    },
    answer 204 empty,
    some (entry, get id state.supervisors),
  )
  | none ↦ (state, error_response (VScreenError.instance_not_found (codes id)), none)
]

abbrev rtsp_url : ℕ → String → Option Text
rtsp_url port id =
    if ltb 0 port
    then some (codes "rtsp://{host}:" ++ (show port ++ (codes "/stream/" ++ codes id)))
    else none

-- The closure of the `filter_map`.
abbrev pub listing : {F : Type 0} → AppState F → String → Option Listing
listing state id = elim (get id state.registry) [
  | some entry ↦ some (record {
    instance_id = id;
    state = entry.state;
    supervisor_running = is_some (get id state.supervisors);
    rtsp_url = rtsp_url state.rtsp_port id;
  })
  | none ↦ none
]

abbrev pub filter_map {ℓ κ} : {A : Type ℓ} {B : Type κ} → (A → Option B) → List A → List B
filter_map f [] = []
filter_map f (x ∷ xs) = let rest = filter_map f xs in elim (f x) [ some y ↦ y ∷ rest | none ↦ rest ]

unfoldable pub list_instances : {F : Type 0} → AppState F → Response
list_instances state = answer 200 (listed (filter_map (listing state) (keys state.registry)))

unfoldable pub instance_health : {F : Type 0} → AppState F → String → Response
instance_health state id = elim (get id state.registry) [
  | some entry ↦ answer 200 (instance_state id entry.state (is_running entry.state))
  | none ↦ error_response (VScreenError.instance_not_found (codes id))
]

-- The handler logs the new configuration, and applies nothing.
unfoldable pub patch_video_config : {F : Type 0} → AppState F → String → Response
patch_video_config state id = elim (get id state.registry) [
  | some entry ↦ answer 200 (applied id)
  | none ↦ error_response (VScreenError.instance_not_found (codes id))
]

unfoldable pub server_health : {F : Type 0} → AppState F → Response
server_health state = answer 200 (server_status (length state.registry))
