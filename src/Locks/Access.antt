-- ===== src/Locks/Access.antt =====
-- `renew_with_token`, `check_access_with_token`, `is_held_by` and `is_auto_acquired` of
-- lock_manager.rs, on the state of one instance.
use vscreen.Base.{
  Bool, Option, all, any, find, if◌then◌else◌, is_empty, none, not, some, update_first, ℕ, ◌&&◌,
  ◌||◌,
}
use vscreen.Locks.State.{
  SessionId, LockToken, LockType, exclusive, observer, LockInfo, InstanceLockState, instance_locked,
  not_held, Result, ok, err, matches, expiry,
}
use vscreen.Locks.Acquire.{owned_by}

abbrev pub with_expiry : ℕ → LockInfo → LockInfo
with_expiry t l = record l { expires_at = t }

unfoldable pub renew_observer :
    InstanceLockState → SessionId → Option LockToken → ℕ → InstanceLockState × Result LockInfo
renew_observer st s token t = elim (find (matches s token) st.observers) [
  | some o ↦ (
    record st { observers = update_first (matches s token) (with_expiry t) st.observers },
    ok (with_expiry t o),
  )
  | none ↦ (st, err not_held)
]

unfoldable pub renew_state :
    InstanceLockState
    → SessionId
    → Option LockToken
    → Option ℕ
    → ℕ
    → InstanceLockState × Result LockInfo
unfolding renew_observer
renew_state st s token ttl now =
    let t = expiry now ttl in
    elim st.exclusive [
      | some exc ↦
          if matches s token exc
          then (record st { exclusive = some (with_expiry t exc) }, ok (with_expiry t exc))
          else renew_observer st s token t
      | none ↦ renew_observer st s token t
    ]

unfoldable pub check_state :
    InstanceLockState → SessionId → Option LockToken → LockType → Result (Unit {0})
check_state st s token required = elim st.exclusive [
  | some exc ↦
      if matches s token exc
      then ok tt
      else err (instance_locked exc.session_id exc.agent_name exc.expires_at)
  | none ↦ elim required [
    | exclusive ↦ err not_held
    | observer ↦ if any (matches s token) st.observers then ok tt else err not_held
  ]
]

unfoldable pub held_state : InstanceLockState → SessionId → Bool
held_state st s = elim st.exclusive [
  | some exc ↦ owned_by s exc || any (owned_by s) st.observers
  | none ↦ any (owned_by s) st.observers
]

unfoldable pub auto_state : InstanceLockState → Bool
auto_state st = elim st.exclusive [
  | some exc ↦ exc.auto_acquired
  | none ↦ all (λ o. o.auto_acquired) st.observers && not (is_empty st.observers)
]
