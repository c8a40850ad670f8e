-- ===== src/Locks/Acquire/Refusal.antt =====
-- When `acquire_inner` refuses: exactly on a conflict with another session, leaving the state.
use vscreen.Base.{
  Bool, List, Option, [], any, arith, false, is_empty, none, not, refl, some, true, ℕ, ◌&&◌, ◌||◌,
  ◌∷◌, ◌≡◌, nat_eq, string_eq,
}
use vscreen.Locks.State.{
  InstanceLockState, LockInfo, LockType, Result, SessionId, err, exclusive, instance_locked,
  observer, ok,
}
use vscreen.Locks.Acquire.{Request, acquire_inner, owned_by, is_single_of}
use vscreen.Locks.Acquire.Rules.{
  Acquires, acquire_inner-Acquires, held, observed, observes, renews_exclusive, renews_observer,
  takes,
}
use vscreen.Locks.WellFormed.{Distinct, IsWellFormed, held_alone, observed_free}

abbrev pub foreign : SessionId → LockInfo → Bool
foreign s l = not (owned_by s l)

abbrev foreign_holder : SessionId → Option LockInfo → Bool
foreign_holder s none = false
foreign_holder s (some l) = foreign s l

abbrev wants_all : LockType → Bool
wants_all exclusive = true
wants_all observer = false

-- A request conflicts with an exclusive lock of another session, and a request for the exclusive
-- lock with any lock of another session.
abbrev pub conflicts : InstanceLockState → Request → Bool
conflicts st r =
    foreign_holder r.session_id st.exclusive
    || (wants_all r.lock_type && any (foreign r.session_id) st.observers)

abbrev pub is_refused {ℓ} : {A : Type ℓ} → Result A → Bool
is_refused (err (instance_locked s a t)) = true
is_refused _ = false

abbrev pub is_granted {ℓ} : {A : Type ℓ} → Result A → Bool
is_granted (ok a) = true
is_granted _ = false

single-foreign :
    (s : SessionId) (ls : List LockInfo)
    → Distinct ls
    → any (foreign s) ls ≡ not (is_empty ls || is_single_of s ls)
single-foreign s [] d = refl
single-foreign s (l ∷ []) d = ground arith
single-foreign s (l ∷ k ∷ ls) d = ground arith

-- What a call does, given whether it conflicts: it is refused and changes nothing, or it is granted.
abbrev pub Decides : InstanceLockState → Request → InstanceLockState × Result LockInfo → Type 0
Decides st r out =
    (is_refused out.1 ≡ conflicts st r)
    × (is_granted out.1 ≡ not (conflicts st r))
    × (conflicts st r ≡ true → out.0 ≡ st)

Acquires-Decides :
    {st : InstanceLockState} {r : Request} {now token : ℕ}
    {out : InstanceLockState × Result LockInfo}
    → Acquires st r now token out
    → IsWellFormed st
    → Decides st r out
Acquires-Decides {st} {r} (renews_exclusive l e mine o) h =
    ground (arith, held_alone {st = st} l h e)
Acquires-Decides (held l e other miss o) h = ground arith
Acquires-Decides {st} {r} (renews_observer l t hit o) h =
    ground (arith, observed_free {st = st} (owned_by r.session_id) l h hit)
Acquires-Decides (observes t free miss o) h = ground arith
Acquires-Decides (takes t free who o) h = ground arith
Acquires-Decides {st} {r} (observed l ls t free os who o) h =
    ground (arith, single-foreign r.session_id st.observers h.distinct)

-- On a state that meets the invariant, and where chrono has the new expiry, `acquire_inner` is refused
-- with `InstanceLocked` exactly if the request conflicts with a lock of another session, and then
-- changes nothing; otherwise it is granted.
pub acquire_inner-Decides :
    (st : InstanceLockState) (r : Request) (now token : ℕ)
    → IsWellFormed st
    → Decides st r (acquire_inner st r now token)
acquire_inner-Decides st r now token h = Acquires-Decides (acquire_inner-Acquires st r now token) h
