-- ===== src/Mcp/Gate.antt =====
-- The lock that a tool call needs: `require_lock` and `auto_acquire` of
-- crates/vscreen-server/src/mcp/mod.rs, and `status` of lock_manager.rs. A call is one sequence of
-- the manager's methods, with no other thread in between.
pub mod Access
pub mod Frees
pub mod Reclaim
pub mod Steals
use vscreen.Base.{
  Bool, List, Option, [], if◌then◌else◌, none, not, some, true, ℕ, ◌||◌, ◌∷◌, nat_eq, string_eq,
}
use vscreen.Base.Assoc.{get}
use vscreen.Locks.State.{
  InstanceId, InstanceLockState, LockInfo, LockStatus, LockToken, LockType, Result, SessionId, err,
  instance_locked, not_held, ok, panics, timeout, to_status,
}
use vscreen.Locks.Acquire.{Request}
use vscreen.Locks.Manager.{
  InstanceLockManager, acquire, check_access_with_token, is_auto_acquired, is_session_active,
  release_with_token,
}

-- `chrono::Utc::now()` and the token that the call draws.
pub record Draw : Type 0 where
  pub now : ℕ
  pub token : LockToken

unfoldable pub status_of : InstanceId → Option InstanceLockState → LockStatus
status_of id (some st) = to_status id st
status_of id none = record {
  instance_id = id;
  exclusive_holder = none;
  observers = [];
  wait_queue = [];
}

unfoldable pub status : InstanceLockManager → InstanceId → LockStatus
unfolding status_of
status m id = status_of id (get id m.locks)

abbrev pub check_access :
    InstanceLockManager → InstanceId → SessionId → LockType → Result (Unit {0})
check_access m id s required = check_access_with_token m id s none required

-- `let _ = self.state.lock_manager.release(&id, &session)`.
abbrev pub release : InstanceLockManager → InstanceId → SessionId → InstanceLockManager
release m id s = (release_with_token m id s none).0

-- What `acquire_auto` asks for, with the time to live of 120 s.
abbrev pub auto_request : SessionId → LockType → Request
auto_request s t = record {
  session_id = s;
  agent_name = none;
  lock_type = t;
  ttl = some 120_000;
  auto_acquired = true;
}

unfoldable pub auto_acquire :
    InstanceLockManager
    → InstanceId
    → SessionId
    → LockType
    → Draw
    → InstanceLockManager × Result LockInfo
auto_acquire m id s t draw = acquire m id (auto_request s t) draw.now draw.token

unfoldable pub release_exclusive :
    InstanceLockManager → InstanceId → Option LockInfo → InstanceLockManager
release_exclusive m id none = m
release_exclusive m id (some exc) = if exc.auto_acquired then release m id exc.session_id else m

unfoldable pub release_observer : InstanceLockManager → InstanceId → LockInfo → InstanceLockManager
release_observer m id o =
    if o.auto_acquired || not (is_session_active m o.session_id)
    then release m id o.session_id
    else m

unfoldable pub release_observers :
    InstanceLockManager → InstanceId → List LockInfo → InstanceLockManager
unfolding release_observer
release_observers m id [] = m
release_observers m id (o ∷ os) = release_observers (release_observer m id o) id os

unfoldable pub release_blockers : InstanceLockManager → InstanceId → InstanceLockManager
unfolding release_exclusive release_observers
release_blockers m id =
    let found = status m id in
    release_observers (release_exclusive m id found.exclusive_holder) id found.observers

-- `if self.auto_acquire(..).is_ok() { return Ok(()); }` and the code after it.
abbrev pub or_else :
    InstanceLockManager × Result LockInfo
    → (InstanceLockManager → InstanceLockManager × Result (Unit {0}))
    → InstanceLockManager × Result (Unit {0})
or_else (m, ok info) rest = (m, ok tt)
or_else (m, err e) rest = rest m
or_else (m, panics) rest = (m, panics)

abbrev pub check_again :
    InstanceId
    → SessionId
    → LockType
    → InstanceLockManager
    → InstanceLockManager × Result (Unit {0})
check_again id s required m = (m, check_access m id s required)

-- From `let should_reclaim` on.
unfoldable pub reclaim :
    InstanceId
    → SessionId
    → LockType
    → Draw
    → InstanceLockManager
    → InstanceLockManager × Result (Unit {0})
unfolding release_blockers auto_acquire
reclaim id s required draw m =
    if is_auto_acquired m id
    then or_else (auto_acquire (release_blockers m id) id s required draw)
        (check_again id s required)
    else check_again id s required m

abbrev pub after_check :
    InstanceLockManager
    → InstanceId
    → SessionId
    → LockType
    → Draw
    → Draw
    → Result (Unit {0})
    → InstanceLockManager × Result (Unit {0})
after_check m id s required first second (ok u) = (m, ok tt)
after_check m id s required first second (err not_held) =
    or_else (auto_acquire m id s required first) (reclaim id s required second)
after_check m id s required first second (err (instance_locked t agent until)) =
    reclaim id s required second m
after_check m id s required first second (err timeout) = reclaim id s required second m
after_check m id s required first second panics = (m, panics)

-- The two draws are those of the first and of the second attempt to acquire.
unfoldable pub require_lock :
    Bool
    → InstanceLockManager
    → InstanceId
    → SessionId
    → LockType
    → Draw
    → Draw
    → InstanceLockManager × Result (Unit {0})
unfolding reclaim auto_acquire
require_lock single_agent_mode m id s required first second =
    if single_agent_mode
    then (m, ok tt)
    else after_check m id s required first second (check_access m id s required)
