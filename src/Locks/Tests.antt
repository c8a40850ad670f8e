-- ===== src/Locks/Tests.antt =====
-- The lock manager on concrete inputs, and the theorems at inputs that meet their hypotheses.
use vscreen.Base.{List, [], false, none, refl, some, true, ℕ, ◌∷◌, ◌≡◌, nat_eq, string_eq}
use vscreen.Locks.State.{
  InstanceLockState, LockInfo, LockType, WaitEntry, err, exclusive, instance_locked, new, not_held,
  observer, ok,
}
use vscreen.Locks.Acquire.{Request, acquire_inner, granted, owned_by}
use vscreen.Locks.Acquire.Rules.{refusal}
use vscreen.Locks.Promote.{try_promote}
use vscreen.Locks.Release.{release_state}
use vscreen.Locks.Release.Holders.{any_lock}
use vscreen.Locks.Access.{check_state}
use vscreen.Locks.WellFormed.{IsWellFormed}
use vscreen.Locks.Manager.{
  InstanceLockManager, acquire, check_access_with_token, cleanup, new_manager, release_entry,
  state_of, unregister_session,
}
use vscreen.Locks.Manager.Invariant.{Op, acquires, enqueues, reachable-IsWellFormed, releases, run}
use vscreen.Locks.Manager.Exclusion.{
  acquire-HasAccess, exclusive_access_unique, HasAccess, Entitles,
}
use vscreen.Locks.Manager.Cleanup.{unregister_session-frees}
use vscreen.Locks.Manager.Races.{
  acquire_or_wait-lost_wakeup, held_by, release-drops_new_lock, waiter_of,
}

abbrev wants : ℕ → LockType → Request
wants s t = record {
  session_id = s;
  agent_name = none;
  lock_type = t;
  ttl = some 60;
  auto_acquired = false;
}

abbrev lock_of_1 : LockInfo
lock_of_1 = granted (wants 1 exclusive) 10 77

abbrev held_by_1 : InstanceLockManager
held_by_1 = record { locks = ("dev", held_by lock_of_1) ∷ []; active_sessions = 1 ∷ [] }

abbrev history : List Op
history =
    acquires "dev" (wants 1 observer) 0 70
    ∷ acquires "dev" (wants 1 exclusive) 10 77
    ∷ enqueues "dev" (wants 2 observer) 11
    ∷ releases "dev" 1 none
    ∷ []

abbrev waiting : WaitEntry
waiting = waiter_of (wants 2 observer) 11

abbrev waiting_for_all : WaitEntry
waiting_for_all = waiter_of (wants 3 exclusive) 12

abbrev two_waiters : InstanceLockState
two_waiters = record {
  exclusive = none;
  observers = [];
  wait_queue = waiting ∷ waiting_for_all ∷ [];
}

abbrev two_observers : InstanceLockState
two_observers = record {
  exclusive = none;
  observers = granted (wants 1 observer) 0 70 ∷ granted (wants 2 observer) 1 71 ∷ [];
  wait_queue = [];
}

abbrev auto_lock : LockInfo
auto_lock = record lock_of_1 { auto_acquired = true }

upgrade :
    (acquire_inner (acquire_inner new (wants 1 observer) 0 70).0 (wants 1 exclusive) 10 77).1
    ≡ ok lock_of_1
unfolding acquire_inner
upgrade = refl

blocked :
    (acquire_inner (held_by lock_of_1) (wants 2 observer) 11 78).1 ≡ err (instance_locked 1 none 70)
unfolding acquire_inner
blocked = refl

released : (release_state (held_by lock_of_1) 9 (some 77)).2 ≡ ok false
unfolding release_state try_promote
released = refl

held_by_1-access : HasAccess held_by_1 "dev" 1 exclusive
unfolding check_access_with_token check_state
held_by_1-access = refl

-- Another session, with the lock's token.
token_access : check_access_with_token held_by_1 "dev" 2 (some 77) observer ≡ ok tt
unfolding check_access_with_token check_state
token_access = refl

exclusive_access_unique_example :
    (l : LockInfo) × ((state_of held_by_1 "dev").exclusive ≡ some l)
    × Entitles l 1 none
    × Entitles l 2 (some 77)
exclusive_access_unique_example =
    exclusive_access_unique held_by_1 "dev" 1 2 none (some 77) observer held_by_1-access
      token_access

reachable-IsWellFormed_example : IsWellFormed (state_of (run new_manager history) "dev")
reachable-IsWellFormed_example = reachable-IsWellFormed history "dev"

acquire-HasAccess_example :
    HasAccess (acquire (run new_manager []) "dev" (wants 1 exclusive) 10 77).0 "dev" 1 exclusive
acquire-HasAccess_example =
    acquire-HasAccess [] "dev" (wants 1 exclusive) 10 77 (unfold acquire acquire_inner run in refl)

unregister_session-frees_example :
    any_lock (owned_by 1) (state_of (unregister_session held_by_1 1) "dev") ≡ false
unregister_session-frees_example = (unregister_session-frees held_by_1 1 "dev").0

acquire_or_wait-lost_wakeup_example :
    (acquire held_by_1 "dev" (wants 2 observer) 11 78).1 ≡ refusal lock_of_1
acquire_or_wait-lost_wakeup_example =
    (acquire_or_wait-lost_wakeup held_by_1 "dev" lock_of_1 1 (wants 2 observer) 11 78 refl refl
      refl).0

release-drops_new_lock_example :
    check_access_with_token
      (cleanup
        (acquire (release_entry held_by_1 "dev" 1 none).0 "dev" (wants 2 observer) 11 78).0
        "dev")
      "dev"
      2
      none
      observer
    ≡ err not_held
release-drops_new_lock_example =
    (release-drops_new_lock held_by_1 "dev" lock_of_1 1 (wants 2 observer) 11 78 refl refl).2
