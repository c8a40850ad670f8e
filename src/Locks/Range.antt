-- ===== src/Locks/Range.antt =====
-- `acquire_inner` of lock_manager.rs with the end of chrono's range. `Utc::now() + ttl` panics when the
-- sum is after the last time that a `DateTime<Utc>` holds, which is the parameter `latest`. The sum
-- is evaluated only where the call would be granted, and after the own observer lock was dropped for
-- the exclusive one. `acquire_inner` is the call within the range.
pub mod Decisions
use vscreen.Base.{
  Bool, [], false, if◌then◌else◌, is_some, ltb, not, true, ℕ, ◌&&◌, nat_eq, string_eq,
}
use vscreen.Locks.State.{
  InstanceLockState, LockInfo, LockToken, LockType, Result, exclusive, expiry, is_ok, observer,
  panics,
}
use vscreen.Locks.Acquire.{Request, acquire_inner, is_single_of}

abbrev wants_exclusive : LockType → Bool
wants_exclusive exclusive = true
wants_exclusive observer = false

-- The state at the panic.
unfoldable pub interrupted : InstanceLockState → Request → InstanceLockState
interrupted st r =
    if wants_exclusive r.lock_type
      && not (is_some st.exclusive)
      && is_single_of r.session_id st.observers
    then record st { observers = [] }
    else st

unfoldable pub acquire_inner_checked :
    ℕ → InstanceLockState → Request → ℕ → LockToken → InstanceLockState × Result LockInfo
unfolding interrupted
acquire_inner_checked latest st r now token =
    let out = acquire_inner st r now token in
    if is_ok out.1 && ltb latest (expiry now r.ttl) then (interrupted st r, panics) else out
