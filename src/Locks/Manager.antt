-- ===== src/Locks/Manager.antt =====
-- `InstanceLockManager` of lock_manager.rs: the locks of all instances, behind one concurrent map.
-- A method that works under one entry of the map is one step. `acquire_or_wait` is two or three
-- steps, with other threads in between: the attempt, the enqueuing, and the wake-up or timeout.
-- `release_with_token` is two: the entry is dropped before the empty state is removed.
-- The messages to waiters are a result of the step that sends them.
pub mod Invariant
pub mod Exclusion
pub mod Races
pub mod Cleanup
use vscreen.Base.{
  Bool, List, Option, [], any, false, if◌then◌else◌, none, not, retain, some, ℕ, ◌&&◌, ◌++◌, ◌==◌,
  ◌∷◌, nat_eq, string_eq,
}
use vscreen.Base.Assoc.{get, insert, remove, keys, map_values}
use vscreen.Locks.State.{
  InstanceId, InstanceLockState, LockInfo, LockToken, LockType, Result, SessionId, WaitEntry, err,
  is_empty_state, new, not_held, ok, panics, timeout, is_ok,
}
use vscreen.Locks.Acquire.{Request, acquire_inner}
use vscreen.Locks.Release.{reap_state, release_state, remove_from_queue}
use vscreen.Locks.Access.{auto_state, check_state, held_state, renew_state}

pub record InstanceLockManager : Type 0 where
  pub locks : List (InstanceId × InstanceLockState)
  pub active_sessions : List SessionId

abbrev pub new_manager : InstanceLockManager
new_manager = record { locks = []; active_sessions = [] }

abbrev pub or_new : Option InstanceLockState → InstanceLockState
or_new none = new
or_new (some st) = st

-- What an instance's lock state is; one without an entry has the state of a new one.
abbrev pub state_of : InstanceLockManager → InstanceId → InstanceLockState
state_of m id = or_new (get id m.locks)

abbrev pub put : InstanceLockManager → InstanceId → InstanceLockState → InstanceLockManager
put m id st = record m { locks = insert id st m.locks }

unfoldable pub register_session : InstanceLockManager → SessionId → InstanceLockManager
register_session m s =
    if any (λ t. t == s) m.active_sessions
    then m
    else record m { active_sessions = s ∷ m.active_sessions }

unfoldable pub is_session_active : InstanceLockManager → SessionId → Bool
is_session_active m s = any (λ t. t == s) m.active_sessions

unfoldable pub acquire :
    InstanceLockManager
    → InstanceId
    → Request
    → ℕ
    → LockToken
    → InstanceLockManager × Result LockInfo
acquire m id r now token =
    let (st, result) = acquire_inner (state_of m id) r now token in (put m id st, result)

-- The second step of `acquire_or_wait`, after an attempt that found the instance locked.
unfoldable pub enqueue : InstanceLockManager → InstanceId → Request → ℕ → InstanceLockManager
enqueue m id r now =
    let st = state_of m id in
    let waiter : WaitEntry = record {
      session_id = r.session_id;
      agent_name = r.agent_name;
      requested_lock_type = r.lock_type;
      queued_at = now;
    } in
    put m id (record st { wait_queue = st.wait_queue ++ waiter ∷ [] })

-- The last step of `acquire_or_wait` when the time is up or the sender was dropped; when it was
-- notified, the last step is `acquire` again.
unfoldable pub give_up :
    InstanceLockManager → InstanceId → SessionId → InstanceLockManager × Result LockInfo
give_up m id s = elim (get id m.locks) [
  | some st ↦ (put m id (remove_from_queue st s), err timeout)
  | none ↦ (m, err timeout)
]

-- The part of `release_with_token` that works under the entry.
unfoldable pub release_entry :
    InstanceLockManager
    → InstanceId
    → SessionId
    → Option LockToken
    → InstanceLockManager × List WaitEntry × Result Bool
release_entry m id s token =
    let (st, notified, result) = release_state (state_of m id) s token in
    (put m id st, notified, result)

-- `if entry.is_empty() { drop(entry); self.locks.remove(instance_id); }`: the removal, which
-- looks at the state no more.
unfoldable pub cleanup : InstanceLockManager → InstanceId → InstanceLockManager
cleanup m id = record m { locks = remove id m.locks }

-- The whole method, with nothing in between. Only a call that released something comes to the
-- test for the removal.
unfoldable pub release_with_token :
    InstanceLockManager
    → InstanceId
    → SessionId
    → Option LockToken
    → InstanceLockManager × List WaitEntry × Result Bool
unfolding release_entry cleanup
release_with_token m id s token =
    let (m', notified, result) = release_entry m id s token in
    (
      if is_ok result && is_empty_state (state_of m' id) then cleanup m' id else m',
      notified,
      result,
    )

unfoldable pub renew_with_token :
    InstanceLockManager
    → InstanceId
    → SessionId
    → Option LockToken
    → Option ℕ
    → ℕ
    → InstanceLockManager × Result LockInfo
renew_with_token m id s token ttl now = elim (get id m.locks) [
  | some st ↦ let (st', result) = renew_state st s token ttl now in (put m id st', result)
  | none ↦ (m, err not_held)
]

unfoldable pub check_access_with_token :
    InstanceLockManager → InstanceId → SessionId → Option LockToken → LockType → Result (Unit {0})
check_access_with_token m id s token required = elim (get id m.locks) [
  | some st ↦ check_state st s token required
  | none ↦ err not_held
]

unfoldable pub is_held_by : InstanceLockManager → InstanceId → SessionId → Bool
is_held_by m id s = elim (get id m.locks) [ some st ↦ held_state st s | none ↦ false ]

unfoldable pub is_auto_acquired : InstanceLockManager → InstanceId → Bool
is_auto_acquired m id = elim (get id m.locks) [ some st ↦ auto_state st | none ↦ false ]

-- `for id in &instance_ids { let _ = self.release(id, session_id); }`
unfoldable pub release_each :
    InstanceLockManager → List InstanceId → SessionId → InstanceLockManager
release_each m [] s = m
release_each m (id ∷ ids) s = release_each (release_with_token m id s none).0 ids s

unfoldable pub release_all_for_session : InstanceLockManager → SessionId → InstanceLockManager
unfolding release_each
release_all_for_session m s =
    let m' = release_each m (keys m.locks) s in
    record m' { locks = map_values (λ st. remove_from_queue st s) m'.locks }

unfoldable pub unregister_session : InstanceLockManager → SessionId → InstanceLockManager
unregister_session m s =
    release_all_for_session
      (record m { active_sessions = retain (λ t. not (t == s)) m.active_sessions }) s

-- The body of the loop of `reap_expired`, for one instance; then the loop.
unfoldable pub reap_one : InstanceLockManager → ℕ → InstanceId → InstanceLockManager
reap_one m now id = elim (get id m.locks) [
  | some st ↦
      let st' = (reap_state now st).0 in
      if is_empty_state st' then cleanup (put m id st') id else put m id st'
  | none ↦ m
]

unfoldable pub reap_each : InstanceLockManager → ℕ → List InstanceId → InstanceLockManager
unfolding reap_one
reap_each m now [] = m
reap_each m now (id ∷ ids) = reap_each (reap_one m now id) now ids

unfoldable pub reap_expired : InstanceLockManager → ℕ → InstanceLockManager
unfolding reap_each
reap_expired m now = reap_each m now (keys m.locks)
