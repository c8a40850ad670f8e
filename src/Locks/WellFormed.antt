-- ===== src/Locks/WellFormed.antt =====
-- The invariant of the state of one instance, and that the operations on it keep the invariant.
use vscreen.Base.{
  All, All-append, All-update_first, Bool, List, Option, [], any, any-append, any-retain,
  any-update_first, ap, arith, false, find, inl, inr, none, refl, retain, some, subst, update_first,
  ℕ, ◌++◌, ◌∷◌, ◌≡◌, ◌⊎◌,
}
use vscreen.Locks.State.{LockType, exclusive, observer, LockInfo, InstanceLockState, new, Result}
use vscreen.Locks.Acquire.Rules.{
  Acquires, held, observed, observes, renews_exclusive, renews_observer, takes,
  acquire_inner-Acquires,
}
use vscreen.Locks.Acquire.{Request, extended, granted, owned_by, acquire_inner}

abbrev pub Distinct : List LockInfo → Type 0
Distinct [] = Unit
Distinct (l ∷ ls) = (any (owned_by l.session_id) ls ≡ false) × Distinct ls

abbrev pub IsOf : LockType → Option LockInfo → Type 0
IsOf t none = Unit
IsOf t (some l) = l.lock_type ≡ t

-- An exclusive holder has no observers beside it, no session observes twice, and every lock is of
-- the type of its place.
pub record IsWellFormed (st : InstanceLockState) : Type 0 where
  pub apart : (st.exclusive ≡ none) ⊎ (st.observers ≡ [])
  pub distinct : Distinct st.observers
  pub exclusive_kind : IsOf exclusive st.exclusive
  pub observer_kinds : All (λ o. o.lock_type ≡ observer) st.observers

pub new-IsWellFormed : IsWellFormed new
new-IsWellFormed = record {
  apart = inl refl;
  distinct = tt;
  exclusive_kind = tt;
  observer_kinds = tt;
}

pub Distinct-retain :
    (q : LockInfo → Bool) (ls : List LockInfo) → Distinct ls → Distinct (retain q ls)
Distinct-retain q [] h = tt
Distinct-retain q (l ∷ ls) h =
    ground (arith, Distinct-retain q ls h.1, any-retain (owned_by l.session_id) q ls h.0)

-- A change that keeps the sessions.
pub Distinct-update_first :
    (q : LockInfo → Bool) (f : LockInfo → LockInfo)
    → ((l : LockInfo) → (f l).session_id ≡ l.session_id)
    → (ls : List LockInfo) → Distinct ls
    → Distinct (update_first q f ls)
Distinct-update_first q f h [] d = tt
Distinct-update_first q f h (l ∷ ls) d = ground (
  arith,
  h l,
  Distinct-update_first q f h ls d.1,
  any-update_first (owned_by l.session_id) q f (λ x. ground (arith, h x)) ls,
)

Distinct-push :
    (ls : List LockInfo) (l : LockInfo)
    → any (owned_by l.session_id) ls ≡ false
    → Distinct ls
    → Distinct (ls ++ l ∷ [])
Distinct-push [] l h d = (refl, tt)
Distinct-push (k ∷ ls) l h d =
    ground
      (arith, any-append (owned_by k.session_id) ls (l ∷ []), Distinct-push ls l (ground arith) d.1)

pub held_alone :
    {st : InstanceLockState} (l : LockInfo)
    → IsWellFormed st
    → st.exclusive ≡ some l
    → st.observers ≡ []
held_alone l h e = elim h.apart [ inl free ↦ cc | inr alone ↦ alone ]

pub observed_free :
    {st : InstanceLockState} (p : LockInfo → Bool) (l : LockInfo)
    → IsWellFormed st
    → find p st.observers ≡ some l
    → st.exclusive ≡ none
observed_free p l h e = elim h.apart [ inl free ↦ free | inr alone ↦ cc (ap (find p) alone) ]

-- Acquiring keeps the invariant, by the rules.
Acquires-IsWellFormed :
    {st : InstanceLockState} {r : Request} {now token : ℕ}
    {out : InstanceLockState × Result LockInfo}
    → Acquires st r now token out
    → IsWellFormed st
    → IsWellFormed out.0
Acquires-IsWellFormed (renews_exclusive l e mine o) h = rw o record {
  apart = inr (held_alone l h e);
  distinct = h.distinct;
  exclusive_kind = subst (IsOf exclusive) e h.exclusive_kind;
  observer_kinds = h.observer_kinds;
}
Acquires-IsWellFormed (held l e other miss o) h = rw o h
Acquires-IsWellFormed {st} {r} {now} (renews_observer l t hit o) h = rw o record {
  apart = inl (observed_free (owned_by r.session_id) l h hit);
  distinct =
      Distinct-update_first (owned_by r.session_id) (extended r now) (λ k. refl) st.observers
        h.distinct;
  exclusive_kind = h.exclusive_kind;
  observer_kinds =
      All-update_first (λ k. k.lock_type ≡ observer) (owned_by r.session_id) (extended r now)
        (λ k e. e) st.observers h.observer_kinds;
}
Acquires-IsWellFormed {st} {r} {now} {token} (observes t free miss o) h = rw o record {
  apart = inl free;
  distinct = Distinct-push st.observers (granted r now token) miss h.distinct;
  exclusive_kind = h.exclusive_kind;
  observer_kinds =
      All-append (λ k. k.lock_type ≡ observer) st.observers (granted r now token ∷ [])
        h.observer_kinds (t, tt);
}
Acquires-IsWellFormed (takes t free who o) h =
    rw o record { apart = inr refl; distinct = tt; exclusive_kind = t; observer_kinds = tt }
Acquires-IsWellFormed (observed l ls t free os who o) h = rw o h

pub acquire_inner-IsWellFormed :
    (st : InstanceLockState) (r : Request) (now token : ℕ)
    → IsWellFormed st
    → IsWellFormed (acquire_inner st r now token).0
acquire_inner-IsWellFormed st r now token =
    Acquires-IsWellFormed (acquire_inner-Acquires st r now token)
