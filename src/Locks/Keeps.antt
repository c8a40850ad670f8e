-- ===== src/Locks/Keeps.antt =====
-- Releasing, renewing, expiring and promoting keep the invariant of the state of one instance.
use vscreen.Base.{
  All-retain, All-update_first, Bool, Bool-cases, Option, Option-cases, arith, false, find, inl,
  inr, length, ltb, none, not, refl, retain, some, subst, true, ℕ, ◌||◌, ◌≡◌,
}
use vscreen.Locks.State.{
  InstanceLockState, LockInfo, LockToken, LockType, SessionId, exclusive, expiry, matches, observer,
}
use vscreen.Locks.Promote.{try_promote}
use vscreen.Locks.Acquire.{}
use vscreen.Locks.Release.{
  clear_if, expired, holds, promote_if, reap_exclusive, reap_observers, reap_state, release_state,
  remove_from_queue, without,
}
use vscreen.Locks.Access.{renew_observer, renew_state, with_expiry}
use vscreen.Locks.WellFormed.{
  Distinct-retain, Distinct-update_first, IsOf, IsWellFormed, observed_free, held_alone,
}

-- The invariant speaks of the holders only.
pub same_holders :
    {st st' : InstanceLockState}
    → st'.exclusive ≡ st.exclusive
    → st'.observers ≡ st.observers
    → IsWellFormed st
    → IsWellFormed st'
same_holders {st} {st'} e o h = record {
  apart = rw (e, o) h.apart;
  distinct = rw o h.distinct;
  exclusive_kind = rw e h.exclusive_kind;
  observer_kinds = rw o h.observer_kinds;
}

pub exclusive-try_promote : (st : InstanceLockState) → (try_promote st).0.exclusive ≡ st.exclusive
unfolding try_promote
exclusive-try_promote st = ground arith

pub observers-try_promote : (st : InstanceLockState) → (try_promote st).0.observers ≡ st.observers
unfolding try_promote
observers-try_promote st = ground arith

pub try_promote-IsWellFormed :
    (st : InstanceLockState) → IsWellFormed st → IsWellFormed (try_promote st).0
try_promote-IsWellFormed st = same_holders (exclusive-try_promote st) (observers-try_promote st)

clear_if-apart : (hit : LockInfo → Bool) (e : Option LockInfo) → e ≡ none → clear_if hit e ≡ none
clear_if-apart hit e h = rw h

clear_if-IsOf :
    (hit : LockInfo → Bool) (t : LockType) (e : Option LockInfo)
    → IsOf t e
    → IsOf t (clear_if hit e)
clear_if-IsOf hit t none h = tt
clear_if-IsOf hit t (some l) h = ground arith

pub without-IsWellFormed :
    (hit : LockInfo → Bool) (st : InstanceLockState)
    → IsWellFormed st
    → IsWellFormed (without hit st)
without-IsWellFormed hit st h = record {
  apart = elim h.apart [
    | inl free ↦ inl (clear_if-apart hit st.exclusive free)
    | inr alone ↦ inr (rw alone)
  ];
  distinct = Distinct-retain (λ o. not (hit o)) st.observers h.distinct;
  exclusive_kind = clear_if-IsOf hit exclusive st.exclusive h.exclusive_kind;
  observer_kinds =
      All-retain (λ o. o.lock_type ≡ observer) (λ o. not (hit o)) st.observers h.observer_kinds;
}

pub release_state-IsWellFormed :
    (st : InstanceLockState) (s : SessionId) (token : Option LockToken)
    → IsWellFormed st
    → IsWellFormed (release_state st s token).0
release_state-IsWellFormed st s token h = elim (Bool-cases test) [
  | inl hit ↦ unfold release_state in rw hit (try_promote-IsWellFormed left kept)
  | inr miss ↦ unfold release_state in rw miss kept
]
  where
    left : InstanceLockState
    left = without (matches s token) st

    test : Bool
    test = holds (matches s token) st.exclusive || ltb (length left.observers) (length st.observers)

    kept : IsWellFormed left
    kept = without-IsWellFormed (matches s token) st h

promote_if-IsWellFormed :
    (b : Bool) (st : InstanceLockState) → IsWellFormed st → IsWellFormed (promote_if b st).0
promote_if-IsWellFormed true st h = try_promote-IsWellFormed st h
promote_if-IsWellFormed false st h = h

pub remove_from_queue-IsWellFormed :
    (st : InstanceLockState) (s : SessionId)
    → IsWellFormed st
    → IsWellFormed (remove_from_queue st s)
unfolding remove_from_queue
remove_from_queue-IsWellFormed st s = same_holders refl refl

-- Expiry clears the exclusive lock first and the observers next; each half is a `without`.
reap_exclusive-IsWellFormed :
    (now : ℕ) (st : InstanceLockState) → IsWellFormed st → IsWellFormed (reap_exclusive now st).0
unfolding reap_exclusive
reap_exclusive-IsWellFormed now st h =
    promote_if-IsWellFormed (holds (expired now) st.exclusive) _ (record {
      apart = elim h.apart [
        | inl free ↦ inl (clear_if-apart (expired now) st.exclusive free)
        | inr alone ↦ inr alone
      ];
      distinct = h.distinct;
      exclusive_kind = clear_if-IsOf (expired now) exclusive st.exclusive h.exclusive_kind;
      observer_kinds = h.observer_kinds;
    })

reap_observers-IsWellFormed :
    (now : ℕ) (st : InstanceLockState) → IsWellFormed st → IsWellFormed (reap_observers now st).0
unfolding reap_observers
reap_observers-IsWellFormed now st h =
    promote_if-IsWellFormed
      (ltb (length (retain (λ o. not (expired now o)) st.observers)) (length st.observers)) _
      (record {
        apart = elim h.apart [ inl free ↦ inl free | inr alone ↦ inr (rw alone) ];
        distinct = Distinct-retain (λ o. not (expired now o)) st.observers h.distinct;
        exclusive_kind = h.exclusive_kind;
        observer_kinds =
            All-retain (λ o. o.lock_type ≡ observer) (λ o. not (expired now o)) st.observers
              h.observer_kinds;
      })

pub reap_state-IsWellFormed :
    (now : ℕ) (st : InstanceLockState) → IsWellFormed st → IsWellFormed (reap_state now st).0
unfolding reap_state
reap_state-IsWellFormed now st h =
    reap_observers-IsWellFormed now _ (reap_exclusive-IsWellFormed now st h)

renew_observer-IsWellFormed :
    (st : InstanceLockState) (s : SessionId) (token : Option LockToken) (t : ℕ)
    → IsWellFormed st
    → IsWellFormed (renew_observer st s token t).0
unfolding renew_observer
renew_observer-IsWellFormed st s token t h =
    elim (Option-cases (find (matches s token) st.observers)) [
      | inl miss ↦ simp (miss, renew_observer) h
      | inr (l, hit) ↦
          simp (hit, renew_observer)
            (record {
              apart = inl (observed_free (matches s token) l h hit);
              distinct =
                  Distinct-update_first (matches s token) (with_expiry t) (λ k. refl) st.observers
                    h.distinct;
              exclusive_kind = h.exclusive_kind;
              observer_kinds =
                  All-update_first (λ k. k.lock_type ≡ observer) (matches s token) (with_expiry t)
                    (λ k e. e) st.observers h.observer_kinds;
            })
    ]

pub renew_state-IsWellFormed :
    (st : InstanceLockState) (s : SessionId) (token : Option LockToken) (ttl : Option ℕ) (now : ℕ)
    → IsWellFormed st
    → IsWellFormed (renew_state st s token ttl now).0
unfolding renew_state
renew_state-IsWellFormed st s token ttl now h = go st.exclusive refl
  where
    rest : IsWellFormed (renew_observer st s token (expiry now ttl)).0
    rest = renew_observer-IsWellFormed st s token (expiry now ttl) h

    go : (e : Option LockInfo) → st.exclusive ≡ e → IsWellFormed (renew_state st s token ttl now).0
    go none free = simp (free, renew_state) rest
    go (some l) held = elim (Bool-cases (matches s token l)) [
      | inl mine ↦
          simp (held, mine, renew_state)
            (record {
              apart = inr (held_alone l h held);
              distinct = h.distinct;
              exclusive_kind = subst (IsOf exclusive) held h.exclusive_kind;
              observer_kinds = h.observer_kinds;
            })
      | inr other ↦ simp (held, other, renew_state) rest
    ]
