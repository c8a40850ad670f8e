-- ===== src/Locks/Manager/Exclusion.antt =====
-- What access means: who passes `check_access`, and when `acquire` refuses.
use vscreen.Base.{
  Bool-cases, List, Option, Option-cases, [], any-append, any-update_first, arith, find-some, inl,
  inr, none, refl, some, true, ℕ, ◌==◌, ◌∙◌, ◌∷◌, ◌≡◌, ◌⊎◌, nat_eq, string_eq,
}
use vscreen.Base.Assoc.{get-insert, eq_refl}
use vscreen.Locks.State.{
  InstanceId, InstanceLockState, LockInfo, LockType, Result, SessionId, exclusive, ok, LockToken,
  matches,
}
use vscreen.Locks.Acquire.{Request, owned_by, extended, granted}
use vscreen.Locks.Acquire.Rules.{
  Acquires, held, observed, observes, renews_exclusive, renews_observer, takes,
  acquire_inner-Acquires,
}
use vscreen.Locks.Access.{check_state}
use vscreen.Locks.WellFormed.{IsWellFormed, observed_free}
use vscreen.Locks.Manager.{
  InstanceLockManager, check_access_with_token, is_ok, acquire, new_manager, put, state_of,
}
use vscreen.Locks.Manager.Invariant.{Op, run, reachable-IsWellFormed}

-- `check_access` of the program: without a token.
abbrev pub HasAccess : InstanceLockManager → InstanceId → SessionId → LockType → Type 0
HasAccess m id s required = check_access_with_token m id s none required ≡ ok tt

-- A lock lets a session pass: the session holds it, or it presents the lock's token.
abbrev pub Entitles : LockInfo → SessionId → Option LockToken → Type 0
Entitles l s token = (l.session_id ≡ s) ⊎ (token ≡ some l.lock_token)

matches-Entitles :
    (l : LockInfo) (s : SessionId) (token : Option LockToken)
    → matches s token l ≡ true
    → Entitles l s token
matches-Entitles l s none h = inl (ground arith)
matches-Entitles l s (some k) h = elim (Bool-cases (l.session_id == s)) [
  | inl mine ↦ inl (ground arith)
  | inr other ↦ inr (ground arith)
]

holder_of :
    (m : InstanceLockManager) (id : InstanceId) (s : SessionId) (token : Option LockToken)
    → check_access_with_token m id s token exclusive ≡ ok tt
    → (l : LockInfo) × ((state_of m id).exclusive ≡ some l)
unfolding check_access_with_token check_state
holder_of m id s token h = elim (Option-cases (state_of m id).exclusive) [
  | inl free ↦ absurd (ground arith)
  | inr found ↦ found
]

entitled :
    (m : InstanceLockManager) (id : InstanceId) (s : SessionId) (token : Option LockToken)
    (required : LockType) (l : LockInfo)
    → (state_of m id).exclusive ≡ some l
    → check_access_with_token m id s token required ≡ ok tt
    → Entitles l s token
unfolding check_access_with_token check_state
entitled m id s token required l e h = matches-Entitles l s token (ground arith)

-- At one time, if a session passes the check for exclusive access to an instance, with or without a
-- lock token, then the instance has an exclusive lock, and every session that passes any check on
-- the instance, this one and all others, holds that lock or presents its token.
pub exclusive_access_unique :
    (m : InstanceLockManager) (id : InstanceId) (s t : SessionId) (token other : Option LockToken)
    (required : LockType)
    → check_access_with_token m id s token exclusive ≡ ok tt
    → check_access_with_token m id t other required ≡ ok tt
    → (l : LockInfo) × ((state_of m id).exclusive ≡ some l)
      × Entitles l s token
      × Entitles l t other
exclusive_access_unique m id s t token other required hs ht =
    let found = holder_of m id s token hs in
    (
      found.0,
      found.1,
      entitled m id s token exclusive found.0 found.1 hs,
      entitled m id t other required found.0 found.1 ht,
    )

-- Without tokens, only one session passes.
pub HasAccess-unique :
    (m : InstanceLockManager) (id : InstanceId) (s t : SessionId) (required : LockType)
    → HasAccess m id s exclusive
    → HasAccess m id t required
    → s ≡ t
unfolding check_access_with_token check_state
HasAccess-unique m id s t required hs ht = ground arith

pub acquired-access :
    {st : InstanceLockState} {r : Request} {now token : ℕ}
    {out : InstanceLockState × Result LockInfo}
    → Acquires st r now token out
    → is_ok out.1 ≡ true
    → IsWellFormed st
    → check_state out.0 r.session_id none r.lock_type ≡ ok tt
unfolding check_state
acquired-access (renews_exclusive l e mine o) h w = ground arith
acquired-access (held l e other miss o) h w = ground arith
acquired-access {st} {r} {now} (renews_observer l t hit o) h w = ground (
  arith,
  observed_free (owned_by r.session_id) l w hit,
  find-some (owned_by r.session_id) st.observers l hit,
  any-update_first (owned_by r.session_id) (owned_by r.session_id) (extended r now) (λ k. refl)
      st.observers,
)
acquired-access {st} {r} {now} {token} (observes t free miss o) h w =
    ground (arith, any-append (owned_by r.session_id) st.observers (granted r now token ∷ []))
acquired-access (takes t free who o) h w = ground arith
acquired-access (observed l ls t free os who o) h w = ground arith

pub check-put_self :
    (m : InstanceLockManager) (id : InstanceId) (st : InstanceLockState) (s : SessionId)
    (token : Option LockToken) (required : LockType)
    → check_access_with_token (put m id st) id s token required ≡ check_state st s token required
unfolding check_access_with_token
check-put_self m id st s token required =
    ground (arith, get-insert id id st m.locks, eq_refl {K = InstanceId} id)

-- In any reachable manager, a session whose `acquire` succeeds passes the check for the lock type
-- that it asked for, in the manager that the call leaves.
pub acquire-HasAccess :
    (ops : List Op) (id : InstanceId) (r : Request) (now token : ℕ)
    → let m = run new_manager ops in
      is_ok (acquire m id r now token).1 ≡ true
      → HasAccess (acquire m id r now token).0 id r.session_id r.lock_type
unfolding acquire
acquire-HasAccess ops id r now token h =
    check-put_self m id _ r.session_id none r.lock_type
    ∙ acquired-access (acquire_inner-Acquires (state_of m id) r now token) h
        (reachable-IsWellFormed ops id)
  where
    m : InstanceLockManager
    m = run new_manager ops
