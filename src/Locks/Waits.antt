-- ===== src/Locks/Waits.antt =====
-- `acquire_or_wait` of lock_manager.rs, whole, and `acquire` and `renew_with_token` with the end of
-- chrono's range (Locks/Range). What other threads do to the manager between the steps of
-- `acquire_or_wait`, and whether its wait ends with a notification, are arguments.
use vscreen.Base.{Bool, Option, if◌then◌else◌, ltb, none, some, ℕ, nat_eq, string_eq}
use vscreen.Base.Assoc.{get}
use vscreen.Locks.State.{
  InstanceId, LockInfo, LockToken, Result, SessionId, err, expiry, instance_locked, not_held, ok,
  panics, timeout,
}
use vscreen.Locks.Acquire.{Request}
use vscreen.Locks.Range.{acquire_inner_checked}
use vscreen.Locks.Manager.{InstanceLockManager, enqueue, give_up, put, renew_with_token, state_of}

unfoldable pub acquire_checked :
    ℕ
    → InstanceLockManager
    → InstanceId
    → Request
    → ℕ
    → LockToken
    → InstanceLockManager × Result LockInfo
acquire_checked latest m id r now token =
    let (st, result) = acquire_inner_checked latest (state_of m id) r now token in
    (put m id st, result)

-- The sum is evaluated before the session's locks are looked for.
unfoldable pub renew_checked :
    ℕ
    → InstanceLockManager
    → InstanceId
    → SessionId
    → Option LockToken
    → Option ℕ
    → ℕ
    → InstanceLockManager × Result LockInfo
renew_checked latest m id s token ttl now = elim (get id m.locks) [
  | some st ↦
      if ltb latest (expiry now ttl) then (m, panics) else renew_with_token m id s token ttl now
  | none ↦ (m, err not_held)
]

-- The rest of a call that finds the instance locked: other threads before it has queued, the time
-- then, other threads while it waits, how the wait ends, and the draws of the second attempt.
pub record Wait : Type 0 where
  pub before : InstanceLockManager → InstanceLockManager
  pub queued_at : ℕ
  pub during : InstanceLockManager → InstanceLockManager
  pub notified : Bool
  pub again_at : ℕ
  pub again_token : LockToken

-- After the wait.
abbrev pub after_wait :
    ℕ → InstanceId → Request → Wait → InstanceLockManager → InstanceLockManager × Result LockInfo
after_wait latest id r wait m =
    if wait.notified
    then acquire_checked latest m id r wait.again_at wait.again_token
    else give_up m id r.session_id

abbrev pub after_attempt :
    ℕ
    → InstanceId
    → Request
    → Wait
    → InstanceLockManager × Result LockInfo
    → InstanceLockManager × Result LockInfo
after_attempt latest id r wait (m, ok info) = (m, ok info)
after_attempt latest id r wait (m, err (instance_locked holder agent expires)) =
    after_wait latest id r wait (wait.during (enqueue (wait.before m) id r wait.queued_at))
after_attempt latest id r wait (m, err not_held) = (m, err not_held)
after_attempt latest id r wait (m, err timeout) = (m, err timeout)
after_attempt latest id r wait (m, panics) = (m, panics)

unfoldable pub acquire_or_wait :
    ℕ
    → InstanceLockManager
    → InstanceId
    → Request
    → ℕ
    → LockToken
    → Wait
    → InstanceLockManager × Result LockInfo
acquire_or_wait latest m id r now token wait =
    after_attempt latest id r wait (acquire_checked latest m id r now token)
