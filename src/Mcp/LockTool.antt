-- ===== src/Mcp/LockTool.antt =====
-- The tool `vscreen_lock` of crates/vscreen-server/src/mcp/mod.rs. The text of a reply is left out:
-- a reply is what the text is made from. Parsing a UUID and the conversion of seconds to
-- chrono's duration, in milliseconds here, are parameters, and so is the last time that chrono has.
pub mod Status
pub mod Others
use vscreen.Locks.Release.{holds}
use vscreen.Base.{
  Bool, List, Option, String, [], any, false, if◌then◌else◌, ltb, map, max, none, some, suc, ℕ,
  ◌==◌, ◌∷◌, nat_eq, string_eq,
}
use vscreen.Base.Text.{Text, codes, to_lowercase, text_eq}
use vscreen.Locks.State.{
  InstanceId, LockError, LockInfo, LockStatus, LockToken, LockType, Result, SessionId, err,
  exclusive, observer, ok, panics, to_status,
}
use vscreen.Locks.Acquire.{Request, owned_by}
use vscreen.Locks.Manager.{InstanceLockManager, release_with_token, acquire}
use vscreen.Locks.Waits.{Wait, acquire_checked, acquire_or_wait, renew_checked}
use vscreen.Mcp.Gate.{status, Draw, release}

pub record ConsolidatedLockParam : Type 0 where
  pub action : Text
  pub instance_id : Option InstanceId
  pub lock_type : Text
  pub agent_name : Option String
  pub ttl_seconds : ℕ
  pub wait_timeout_seconds : ℕ
  pub lock_token : Option Text

pub data McpError : Type 0 where
  instance_id_required : McpError
  invalid_lock_type : Text → McpError
  invalid_action : Text → McpError
  lock_refused : LockError → McpError
  panicked : McpError

-- A status with what it says of the caller.
pub record EnrichedStatus : Type 0 where
  pub status : LockStatus
  pub you_hold_exclusive : Bool
  pub you_hold_observer : Bool
  pub your_queue_position : Option ℕ

pub data LockReply : Type 0 where
  acquired : LockInfo → LockReply
  released : Bool → LockReply
  renewed : LockInfo → LockReply
  statuses : List EnrichedStatus → LockReply
  fails : McpError → LockReply

unfoldable pub status_all : InstanceLockManager → List LockStatus
status_all m = map (λ entry. to_status entry.0 entry.1) m.locks

-- `Iterator::position`.
abbrev pub position {ℓ} : {A : Type ℓ} → (A → Bool) → List A → Option ℕ
position p [] = none
position p (x ∷ xs) =
    let rest = position p xs in
    if p x then some 0 else elim rest [ none ↦ none | some n ↦ some (suc n) ]

unfoldable pub enrich : SessionId → LockStatus → EnrichedStatus
enrich s st = record {
  status = st;
  you_hold_exclusive = holds (owned_by s) st.exclusive_holder;
  you_hold_observer = any (owned_by s) st.observers;
  your_queue_position = position (λ w. w.session_id == s) st.wait_queue;
}

abbrev pub parse_lock_type : Text → Option LockType
parse_lock_type s =
    if s == codes "exclusive"
    then some exclusive
    else if s == codes "observer"
    then some observer
    else none

pub data Action : Type 0 where
  acquires releases renews asks : Action

abbrev pub parse_action : Text → Option Action
parse_action s =
    if s == codes "acquire"
    then some acquires
    else if s == codes "release"
    then some releases
    else if s == codes "renew"
    then some renews
    else if s == codes "status"
    then some asks
    else none

abbrev acquire_reply : Result LockInfo → LockReply
acquire_reply (ok info) = acquired info
acquire_reply (err e) = fails (lock_refused e)
acquire_reply panics = fails panicked

abbrev release_reply : Result Bool → LockReply
release_reply (ok promoted) = released promoted
release_reply (err e) = fails (lock_refused e)
release_reply panics = fails panicked

abbrev renew_reply : Result LockInfo → LockReply
renew_reply (ok info) = renewed info
renew_reply (err e) = fails (lock_refused e)
renew_reply panics = fails panicked

module _ (parse_token : Text → Option LockToken) (from_std : ℕ → Option ℕ) (latest : ℕ) where
  -- `params.lock_token.as_deref().and_then(LockToken::parse)`
  abbrev token_of : Option Text → Option LockToken
  token_of none = none
  token_of (some s) = parse_token s

  abbrev pub request_of : SessionId → ConsolidatedLockParam → LockType → Request
  request_of s params t = record {
    session_id = s;
    agent_name = params.agent_name;
    lock_type = t;
    ttl = from_std (max params.ttl_seconds 1);
    auto_acquired = false;
  }

  unfoldable pub lock_acquire :
      InstanceLockManager
      → SessionId
      → ConsolidatedLockParam
      → InstanceId
      → Option LockType
      → Draw
      → Wait
      → InstanceLockManager × LockReply
  lock_acquire m s params id none draw wait = (m, fails (invalid_lock_type params.lock_type))
  lock_acquire m s params id (some t) draw wait =
      let r = request_of s params t in
      let (m', result) =
        if ltb 0 params.wait_timeout_seconds
        then acquire_or_wait latest m id r draw.now draw.token wait
        else acquire_checked latest m id r draw.now draw.token in
      (m', acquire_reply result)

  unfoldable pub lock_on :
      InstanceLockManager
      → SessionId
      → ConsolidatedLockParam
      → Draw
      → Wait
      → Action
      → Option InstanceId
      → InstanceLockManager × LockReply
  unfolding lock_acquire enrich status_all
  lock_on m s params draw wait acquires none = (m, fails instance_id_required)
  lock_on m s params draw wait acquires (some id) =
      lock_acquire m s params id (parse_lock_type params.lock_type) draw wait
  lock_on m s params draw wait releases none = (m, fails instance_id_required)
  lock_on m s params draw wait releases (some id) =
      let (m', notified, result) = release_with_token m id s (token_of params.lock_token) in
      (m', release_reply result)
  lock_on m s params draw wait renews none = (m, fails instance_id_required)
  lock_on m s params draw wait renews (some id) =
      let (m', result) =
        renew_checked latest m id s (token_of params.lock_token)
          (from_std (max params.ttl_seconds 1)) draw.now in
      (m', renew_reply result)
  lock_on m s params draw wait asks none = (m, statuses (map (enrich s) (status_all m)))
  lock_on m s params draw wait asks (some id) = (m, statuses (enrich s (status m id) ∷ []))

  unfoldable pub vscreen_lock :
      InstanceLockManager
      → SessionId
      → ConsolidatedLockParam
      → Draw
      → Wait
      → InstanceLockManager × LockReply
  unfolding lock_on
  vscreen_lock m s params draw wait = elim (parse_action (to_lowercase params.action)) [
    | some action ↦ lock_on m s params draw wait action params.instance_id
    | none ↦ (m, fails (invalid_action params.action))
  ]
