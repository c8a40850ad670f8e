-- ===== src/Locks/Release.antt =====
-- `release_with_token`, `remove_from_queue` and the body of `reap_expired` of lock_manager.rs, on
-- the state of one instance. Each gives the waiters that it notified.
pub mod Holders
use vscreen.Base.{
  Bool, List, Option, [], false, if◌then◌else◌, leb, length, ltb, none, not, retain, some, true, ℕ,
  ◌++◌, ◌==◌, ◌||◌, nat_eq, string_eq,
}
use vscreen.Locks.State.{
  SessionId, LockToken, LockInfo, WaitEntry, InstanceLockState, not_held, Result, ok, err, matches,
}
use vscreen.Locks.Promote.{try_promote}

-- `if let Some(ref exc) = exclusive { if hit(exc) { exclusive = None } }`
abbrev pub clear_if : (LockInfo → Bool) → Option LockInfo → Option LockInfo
clear_if hit none = none
clear_if hit (some l) = if hit l then none else some l

abbrev pub holds : (LockInfo → Bool) → Option LockInfo → Bool
holds hit none = false
holds hit (some l) = hit l

-- The state with the matching locks gone, before the promotion.
abbrev pub without : (LockInfo → Bool) → InstanceLockState → InstanceLockState
without hit st = record st {
  exclusive = clear_if hit st.exclusive;
  observers = retain (λ o. not (hit o)) st.observers;
}

unfoldable pub release_state :
    InstanceLockState
    → SessionId
    → Option LockToken
    → InstanceLockState × List WaitEntry × Result Bool
release_state st s token =
    let hit = matches s token in
    let left = without hit st in
    if holds hit st.exclusive || ltb (length left.observers) (length st.observers)
    then (let (st', notified, promoted) = try_promote left in (st', notified, ok promoted))
    else (left, [], err not_held)

unfoldable pub remove_from_queue : InstanceLockState → SessionId → InstanceLockState
remove_from_queue st s = record st {
  wait_queue = retain (λ w. not (w.session_id == s)) st.wait_queue;
}

abbrev pub expired : ℕ → LockInfo → Bool
expired now l = leb l.expires_at now

-- `if cond { self.try_promote(state); }`
abbrev pub promote_if : Bool → InstanceLockState → InstanceLockState × List WaitEntry
promote_if true st = let (st', notified, promoted) = try_promote st in (st', notified)
promote_if false st = (st, [])

unfoldable pub reap_exclusive : ℕ → InstanceLockState → InstanceLockState × List WaitEntry
reap_exclusive now st =
    promote_if (holds (expired now) st.exclusive)
      (record st { exclusive = clear_if (expired now) st.exclusive })

unfoldable pub reap_observers : ℕ → InstanceLockState → InstanceLockState × List WaitEntry
reap_observers now st =
    let kept = retain (λ o. not (expired now o)) st.observers in
    promote_if (ltb (length kept) (length st.observers)) (record st { observers = kept })

unfoldable pub reap_state : ℕ → InstanceLockState → InstanceLockState × List WaitEntry
unfolding reap_exclusive reap_observers
reap_state now st =
    let (st₁, first) = reap_exclusive now st in
    let (st₂, second) = reap_observers now st₁ in (st₂, first ++ second)
