-- ===== src/Mcp/Gate/Reclaim.antt =====
-- Whose lock a tool call takes over, and whose it leaves.
use vscreen.Base.{
  Bool, ap, arith, false, if◌then◌else◌, refl, some, sym, true, ◌==◌, ◌||◌, ◌∙◌, ◌≡◌, nat_eq,
  string_eq,
}
use vscreen.Locks.State.{
  InstanceId, LockInfo, LockType, SessionId, err, instance_locked, ok, LockError, Result, is_ok,
  not_held, panics, timeout,
}
use vscreen.Locks.Access.{auto_state, check_state}
use vscreen.Locks.Manager.{
  InstanceLockManager, check_access_with_token, is_auto_acquired, state_of, acquire,
}
use vscreen.Mcp.Gate.Frees.{acquire_inner-free, release_blockers-Free, state_of-put}
use vscreen.Locks.Manager.Invariant.{IsSound, put-IsSound}
use vscreen.Locks.WellFormed.{acquire_inner-IsWellFormed}
use vscreen.Locks.Acquire.Refusal.{Decides, acquire_inner-Decides, is_granted, is_refused}
use vscreen.Locks.Acquire.{Request, acquire_inner}
use vscreen.Mcp.Gate.{
  Draw, check_access, require_lock, after_check, reclaim, auto_acquire, auto_request, check_again,
  or_else,
}

-- When a session holds an exclusive lock that was not acquired automatically, a tool call changes
-- nothing: it is ok for the holder, and for any other session it is the error that names the
-- holder, whatever type of lock it needs.
pub require_lock-explicit :
    (m : InstanceLockManager) (id : InstanceId) (l : LockInfo) (s : SessionId) (required : LockType)
    (first second : Draw)
    → (state_of m id).exclusive ≡ some l
    → l.auto_acquired ≡ false
    → require_lock false m id s required first second ≡ (
      m,
      if l.session_id == s
          then ok tt
          else err (instance_locked l.session_id l.agent_name l.expires_at),
    )
require_lock-explicit m id l s required first second e auto =
    unfold require_lock reclaim in rw held (decide (l.session_id == s) held)
  where
    refusal : LockError
    refusal = instance_locked l.session_id l.agent_name l.expires_at

    held : check_access m id s required ≡ (if l.session_id == s then ok tt else err refusal)
    held = unfold check_access_with_token check_state in ground arith

    kept : is_auto_acquired m id ≡ false
    kept = unfold is_auto_acquired auto_state in ground arith

    decide :
        (b : Bool)
        → check_access m id s required ≡ (if b then ok tt else err refusal)
        → after_check m id s required first second (if b then ok tt else err refusal)
          ≡ (m, (if b then ok tt else err refusal))
    decide true h = refl
    decide false h = unfold reclaim in rw kept (rw h refl)

or_else-ok :
    (out : InstanceLockManager × Result LockInfo)
    (rest : InstanceLockManager → InstanceLockManager × Result (Unit {0}))
    → is_ok out.1 ≡ true
    → is_ok (or_else out rest).1 ≡ true
or_else-ok (m, ok info) rest h = refl
or_else-ok (m, err e) rest h = ground arith
or_else-ok (m, panics) rest h = ground arith

pub is_auto_acquired-eq-auto_state :
    (m : InstanceLockManager) (id : InstanceId) → is_auto_acquired m id ≡ auto_state (state_of m id)
unfolding is_auto_acquired auto_state
is_auto_acquired-eq-auto_state m id = ground arith

reclaim-ok :
    (id : InstanceId) (s : SessionId) (required : LockType) (draw : Draw) (m : InstanceLockManager)
    → IsSound m
    → auto_state (state_of m id) ≡ true
    → is_ok (reclaim id s required draw m).1 ≡ true
unfolding reclaim auto_acquire acquire
reclaim-ok id s required draw m h a =
    let freed = release_blockers-Free m id h a in
    rw (is_auto_acquired-eq-auto_state m id, a)
      (or_else-ok _ (check_again id s required)
        (acquire_inner-free _ (auto_request s required) draw.now draw.token freed.0 freed.1))

or_else-retries :
    (out : InstanceLockManager × Result LockInfo)
    (rest : InstanceLockManager → InstanceLockManager × Result (Unit {0}))
    → (is_refused out.1 || is_granted out.1) ≡ true
    → (is_refused out.1 ≡ true → is_ok (rest out.0).1 ≡ true)
    → is_ok (or_else out rest).1 ≡ true
or_else-retries (m, ok info) rest d k = refl
or_else-retries (m, err (instance_locked t agent until)) rest d k = k refl
or_else-retries (m, err not_held) rest d k = ground arith
or_else-retries (m, err timeout) rest d k = ground arith
or_else-retries (m, panics) rest d k = ground arith

first_attempt :
    (m : InstanceLockManager) (id : InstanceId) (s : SessionId) (required : LockType)
    (first second : Draw)
    → IsSound m
    → auto_state (state_of m id) ≡ true
    → is_ok (or_else (auto_acquire m id s required first) (reclaim id s required second)).1 ≡ true
unfolding auto_acquire acquire
first_attempt m id s required first second h a =
    or_else-retries _ (reclaim id s required second) (ground (arith, decided.0, decided.1))
      (λ refused.
        let same = decided.2 (sym decided.0 ∙ refused) in
        reclaim-ok id s required second _
          (put-IsSound m id _ h
            (acquire_inner-IsWellFormed _ request first.now first.token (h.at id)))
          (ap auto_state (state_of-put m id _ ∙ same) ∙ a))
  where
    request : Request
    request = auto_request s required

    decided :
        Decides
          (state_of m id)
          request
          (acquire_inner (state_of m id) request first.now first.token)
    decided = acquire_inner-Decides (state_of m id) request first.now first.token (h.at id)

after_check-ok :
    (m : InstanceLockManager) (id : InstanceId) (s : SessionId) (required : LockType)
    (first second : Draw) (r : Result (Unit {0}))
    → IsSound m
    → auto_state (state_of m id) ≡ true
    → check_access m id s required ≡ r
    → is_ok (after_check m id s required first second r).1 ≡ true
after_check-ok m id s required first second (ok tt) h a e = refl
after_check-ok m id s required first second (err not_held) h a e =
    first_attempt m id s required first second h a
after_check-ok m id s required first second (err (instance_locked t agent until)) h a e =
    reclaim-ok id s required second m h a
after_check-ok m id s required first second (err timeout) h a e =
    reclaim-ok id s required second m h a
after_check-ok m id s required first second panics h a e =
    unfold check_access_with_token check_state in ground arith

-- In a manager whose lock states are all well formed, and where the server is not in single-agent
-- mode, locks that were acquired automatically never stop a tool call: if an instance is locked,
-- and all of its locks are such, then the call is ok, whatever session makes it and whatever type
-- of lock it needs.
pub require_lock-reclaims :
    (m : InstanceLockManager) (id : InstanceId) (s : SessionId) (required : LockType)
    (first second : Draw)
    → IsSound m
    → is_auto_acquired m id ≡ true
    → is_ok (require_lock false m id s required first second).1 ≡ true
unfolding require_lock
require_lock-reclaims m id s required first second h a =
    after_check-ok m id s required first second (check_access m id s required) h
      (sym (is_auto_acquired-eq-auto_state m id) ∙ a) refl
