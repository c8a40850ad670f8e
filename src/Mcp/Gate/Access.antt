-- ===== src/Mcp/Gate/Access.antt =====
-- What a tool call that passes the gate may rely on.
use vscreen.Base.{
  List, Option, [], arith, at_if, false, none, refl, some, true, ◌∙◌, ◌∷◌, ◌≡◌, nat_eq, string_eq,
}
use vscreen.Locks.State.{
  InstanceId, LockInfo, LockType, Result, SessionId, err, instance_locked, is_ok, not_held, ok,
  panics, timeout,
}
use vscreen.Locks.Manager.{InstanceLockManager, acquire, is_auto_acquired, state_of}
use vscreen.Locks.Manager.Invariant.{
  IsSound, acquires, if-IsSound, release_with_token-IsSound, step-IsSound, step,
}
use vscreen.Locks.Manager.Exclusion.{HasAccess, acquired-access, check-put_self}
use vscreen.Locks.Acquire.Rules.{acquire_inner-Acquires}
use vscreen.Mcp.Gate.{
  Draw, after_check, auto_acquire, auto_request, check_access, check_again, or_else, reclaim,
  release_blockers, release_exclusive, release_observers, require_lock, release_observer, status,
}

release_observers-IsSound :
    (m : InstanceLockManager) (id : InstanceId) (os : List LockInfo)
    → IsSound m
    → IsSound (release_observers m id os)
unfolding release_observers release_observer
release_observers-IsSound m id [] h = h
release_observers-IsSound m id (o ∷ os) h =
    release_observers-IsSound (release_observer m id o) id os
      (if-IsSound _ _ _ (release_with_token-IsSound m id o.session_id none h) h)

release_exclusive-IsSound :
    (m : InstanceLockManager) (id : InstanceId) (exc : Option LockInfo)
    → IsSound m
    → IsSound (release_exclusive m id exc)
unfolding release_exclusive
release_exclusive-IsSound m id none h = h
release_exclusive-IsSound m id (some exc) h =
    if-IsSound _ _ _ (release_with_token-IsSound m id exc.session_id none h) h

release_blockers-IsSound :
    (m : InstanceLockManager) (id : InstanceId) → IsSound m → IsSound (release_blockers m id)
unfolding release_blockers
release_blockers-IsSound m id h =
    let found = status m id in
    release_observers-IsSound _ id found.observers
      (release_exclusive-IsSound m id found.exclusive_holder h)

auto_acquire-IsSound :
    (m : InstanceLockManager) (id : InstanceId) (s : SessionId) (t : LockType) (draw : Draw)
    → IsSound m
    → IsSound (auto_acquire m id s t draw).0
unfolding auto_acquire acquire step
auto_acquire-IsSound m id s t draw h =
    step-IsSound m (acquires id (auto_request s t) draw.now draw.token) h

-- What holds of the outcome of the gate: the manager is sound, and one who passes has access.
record Passes (id : InstanceId) (s : SessionId) (required : LockType)
    (out : InstanceLockManager × Result (Unit {0})) : Type 0 where
  pub sound : IsSound out.0
  pub access : is_ok out.1 ≡ true → HasAccess out.0 id s required

check_again-Passes :
    (id : InstanceId) (s : SessionId) (required : LockType) (m : InstanceLockManager)
    → IsSound m
    → Passes id s required (check_again id s required m)
check_again-Passes id s required m h = record { sound = h; access = ok_is _ }
  where
    ok_is : (r : Result (Unit {0})) → is_ok r ≡ true → r ≡ ok tt
    ok_is (ok tt) e = refl
    ok_is (err x) e = ground arith
    ok_is panics e = ground arith

auto_acquire-HasAccess :
    (m : InstanceLockManager) (id : InstanceId) (s : SessionId) (t : LockType) (draw : Draw)
    → IsSound m
    → is_ok (auto_acquire m id s t draw).1 ≡ true
    → HasAccess (auto_acquire m id s t draw).0 id s t
unfolding auto_acquire acquire
auto_acquire-HasAccess m id s t draw h e =
    check-put_self m id _ s none t
    ∙ acquired-access
        (acquire_inner-Acquires (state_of m id) (auto_request s t) draw.now draw.token) e (h.at id)

or_else-Passes :
    {id : InstanceId} {s : SessionId} {required : LockType}
    (out : InstanceLockManager × Result LockInfo)
    (rest : InstanceLockManager → InstanceLockManager × Result (Unit {0}))
    → IsSound out.0
    → (is_ok out.1 ≡ true → HasAccess out.0 id s required)
    → ((m : InstanceLockManager) → IsSound m → Passes id s required (rest m))
    → Passes id s required (or_else out rest)
or_else-Passes (m, ok info) rest h a k = record { sound = h; access = a }
or_else-Passes (m, err e) rest h a k = k m h
or_else-Passes (m, panics) rest h a k = record { sound = h; access = a }

acquires_or-Passes :
    (id : InstanceId) (s : SessionId) (required : LockType) (draw : Draw)
    (rest : InstanceLockManager → InstanceLockManager × Result (Unit {0})) (m : InstanceLockManager)
    → IsSound m
    → ((n : InstanceLockManager) → IsSound n → Passes id s required (rest n))
    → Passes id s required (or_else (auto_acquire m id s required draw) rest)
acquires_or-Passes id s required draw rest m h k =
    or_else-Passes _ rest (auto_acquire-IsSound m id s required draw h)
      (auto_acquire-HasAccess m id s required draw h) k

reclaim-Passes :
    (id : InstanceId) (s : SessionId) (required : LockType) (draw : Draw) (m : InstanceLockManager)
    → IsSound m
    → Passes id s required (reclaim id s required draw m)
unfolding reclaim
reclaim-Passes id s required draw m h =
    at_if (Passes id s required) (is_auto_acquired m id)
      (acquires_or-Passes id s required draw (check_again id s required) (release_blockers m id)
        (release_blockers-IsSound m id h) (check_again-Passes id s required))
      (check_again-Passes id s required m h)

after_check-Passes :
    (m : InstanceLockManager) (id : InstanceId) (s : SessionId) (required : LockType)
    (first second : Draw) (r : Result (Unit {0}))
    → IsSound m
    → check_access m id s required ≡ r
    → Passes id s required (after_check m id s required first second r)
after_check-Passes m id s required first second (ok tt) h e = record { sound = h; access = λ _. e }
after_check-Passes m id s required first second (err not_held) h e =
    acquires_or-Passes id s required first (reclaim id s required second) m h
      (reclaim-Passes id s required second)
after_check-Passes m id s required first second (err (instance_locked t agent until)) h e =
    reclaim-Passes id s required second m h
after_check-Passes m id s required first second (err timeout) h e =
    reclaim-Passes id s required second m h
after_check-Passes m id s required first second panics h e = record {
  sound = h;
  access = λ k. ground arith;
}

-- In a manager whose lock states are all well formed, and where the server is not in single-agent
-- mode, the call leaves such a manager; and if it is ok, then the session passes the check of
-- access for the lock type that was asked for, in the manager that the call leaves.
pub require_lock-Passes :
    (m : InstanceLockManager) (id : InstanceId) (s : SessionId) (required : LockType)
    (first second : Draw)
    → IsSound m
    → let (m', result) = require_lock false m id s required first second in
      IsSound m' × (is_ok result ≡ true → HasAccess m' id s required)
unfolding require_lock
require_lock-Passes m id s required first second h =
    let out =
      after_check-Passes m id s required first second (check_access m id s required) h refl in
    (out.sound, out.access)
