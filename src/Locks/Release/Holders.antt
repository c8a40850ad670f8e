-- ===== src/Locks/Release/Holders.antt =====
-- Who holds a lock after a release or an expiry.
use vscreen.Base.{
  Bool, Bool-cases, List, Option, [], any, any-retain-not, ap, arith, false, inl, inr, length,
  length-retain-any, ltb, none, not, refl, retain, some, true, ℕ, ◌&&◌, ◌||◌, ◌∙◌, ◌∷◌, ◌≡◌, ◌≢◌,
  ◌⊎◌, nat_eq, string_eq,
}
use vscreen.Locks.State.{
  InstanceLockState, LockInfo, LockToken, SessionId, err, matches, not_held, ok, is_ok,
}
use vscreen.Locks.Promote.{try_promote}
use vscreen.Locks.Acquire.{owned_by}
use vscreen.Locks.Access.{held_state}
use vscreen.Locks.Keeps.{exclusive-try_promote, observers-try_promote}
use vscreen.Locks.Release.{
  clear_if, holds, release_state, without, expired, promote_if, reap_exclusive, reap_observers,
  reap_state,
}

-- Some lock of the instance passes the test.
abbrev pub any_lock : (LockInfo → Bool) → InstanceLockState → Bool
any_lock p st = holds p st.exclusive || any p st.observers

pub any_lock-without :
    (p : LockInfo → Bool) (st : InstanceLockState) → any_lock p (without p st) ≡ false
any_lock-without p st = ground (arith, any-retain-not p st.observers)

any-retain-other :
    (p hit : LockInfo → Bool)
    → ((l : LockInfo) → p l ≡ true → hit l ≡ false)
    → (ls : List LockInfo) → any p (retain (λ o. not (hit o)) ls) ≡ any p ls
any-retain-other p hit h [] = refl
any-retain-other p hit h (l ∷ ls) = ground (arith, h l, any-retain-other p hit h ls)

any_lock-without_other :
    (p hit : LockInfo → Bool) (st : InstanceLockState)
    → ((l : LockInfo) → p l ≡ true → hit l ≡ false)
    → any_lock p (without hit st) ≡ any_lock p st
any_lock-without_other p hit st h = go st.exclusive
  where
    go :
        (e : Option LockInfo)
        → (holds p (clear_if hit e) || any p (retain (λ o. not (hit o)) st.observers))
          ≡ (holds p e || any p st.observers)
    go none = any-retain-other p hit h st.observers
    go (some l) = ground (arith, h l, any-retain-other p hit h st.observers)

pub any_lock-try_promote :
    (p : LockInfo → Bool) (st : InstanceLockState) → any_lock p (try_promote st).0 ≡ any_lock p st
any_lock-try_promote p st = rw (exclusive-try_promote st, observers-try_promote st) refl

-- A release either promotes after taking the locks away, or has found none.
pub release_state-cases :
    (st : InstanceLockState) (s : SessionId) (token : Option LockToken)
    → ((any_lock (matches s token) st ≡ true)
        × ((release_state st s token).0 ≡ (try_promote (without (matches s token) st)).0)
        × ((release_state st s token).2 ≡ ok (try_promote (without (matches s token) st)).2))
      ⊎ ((any_lock (matches s token) st ≡ false)
          × ((release_state st s token).0 ≡ without (matches s token) st)
          × ((release_state st s token).2 ≡ err not_held))
unfolding release_state
release_state-cases st s token = elim (Bool-cases (any_lock (matches s token) st)) [
  | inl hit ↦ inl (hit, rw test (rw hit refl), rw test (rw hit refl))
  | inr miss ↦ inr (miss, rw test (rw miss refl), rw test (rw miss refl))
]
  where
    test :
        ltb (length (retain (λ o. not (matches s token o)) st.observers)) (length st.observers)
        ≡ any (matches s token) st.observers
    test = length-retain-any (matches s token) st.observers

not_owned_other :
    (s t : SessionId) → s ≢ t → (l : LockInfo) → owned_by t l ≡ true → matches s none l ≡ false
not_owned_other s t h l e = ground arith

any_lock-release_state :
    (p : LockInfo → Bool) (st : InstanceLockState) (s : SessionId) (token : Option LockToken)
    → any_lock p (release_state st s token).0 ≡ any_lock p (without (matches s token) st)
any_lock-release_state p st s token = elim (release_state-cases st s token) [
  | inl c ↦ rw c.1 (any_lock-try_promote p (without (matches s token) st))
  | inr c ↦ rw c.1 refl
]

-- `release` by session and token succeeds exactly if a lock of the instance matches the session or
-- the token; whether it succeeds or not, no lock matches afterwards; and, where it is asked with no
-- token, another session holds a lock afterwards exactly if it held one before.
pub release_state-holders :
    (st : InstanceLockState) (s : SessionId) (token : Option LockToken)
    → (is_ok (release_state st s token).2 ≡ any_lock (matches s token) st)
      × (any_lock (matches s token) (release_state st s token).0 ≡ false)
      × ((t : SessionId)
          → s ≢ t
          → any_lock (owned_by t) (release_state st s none).0 ≡ any_lock (owned_by t) st)
release_state-holders st s token = (
  elim (release_state-cases st s token) [
    | inl c ↦ ground (arith, c.0, c.2)
    | inr c ↦ ground (arith, c.0, c.2)
  ],
  any_lock-release_state (matches s token) st s token ∙ any_lock-without (matches s token) st,
  λ t h.
      any_lock-release_state (owned_by t) st s none
      ∙ any_lock-without_other (owned_by t) (matches s none) st (not_owned_other s t h),
)

-- `is_held_by` is the test for a lock of the session.
pub held_state-eq-any_lock :
    (st : InstanceLockState) (s : SessionId) → held_state st s ≡ any_lock (owned_by s) st
unfolding held_state
held_state-eq-any_lock st s = ground arith

promote_if-holders :
    (b : Bool) (st : InstanceLockState)
    → ((promote_if b st).0.exclusive ≡ st.exclusive)
      × ((promote_if b st).0.observers ≡ st.observers)
promote_if-holders true st = (exclusive-try_promote st, observers-try_promote st)
promote_if-holders false st = (refl, refl)

observed :
    (now : ℕ) (st : InstanceLockState)
    → ((reap_observers now st).0.exclusive ≡ st.exclusive)
      × ((reap_observers now st).0.observers ≡ retain (λ o. not (expired now o)) st.observers)
unfolding reap_observers
observed now st =
    promote_if-holders
      (ltb (length (retain (λ o. not (expired now o)) st.observers)) (length st.observers)) _

-- What expiry leaves: the holders that have not expired.
reap_state_lem :
    (now : ℕ) (st : InstanceLockState)
    → ((reap_state now st).0.exclusive ≡ clear_if (expired now) st.exclusive)
      × ((reap_state now st).0.observers ≡ retain (λ o. not (expired now o)) st.observers)
unfolding reap_state reap_exclusive reap_observers
reap_state_lem now st = (
  (observed now first).0 ∙ (promote_if-holders (holds (expired now) st.exclusive) _).0,
  (observed now first).1
      ∙ ap (retain (λ o. not (expired now o)))
          (promote_if-holders (holds (expired now) st.exclusive) _).1,
)
  where
    first : InstanceLockState
    first = (reap_exclusive now st).0

-- After `reap_expired` has been at an instance, none of its locks has expired, and a session holds
-- a lock that has not expired exactly if it held one before.
pub reap_state-holders :
    (now : ℕ) (st : InstanceLockState)
    → (any_lock (expired now) (reap_state now st).0 ≡ false)
      × ((s : SessionId)
          → any_lock (λ l. owned_by s l && not (expired now l)) (reap_state now st).0
            ≡ any_lock (λ l. owned_by s l && not (expired now l)) st)
reap_state-holders now st = (
  rw ((reap_state_lem now st).0, (reap_state_lem now st).1) (any_lock-without (expired now) st),
  λ s.
      rw ((reap_state_lem now st).0, (reap_state_lem now st).1)
        (any_lock-without_other (λ l. owned_by s l && not (expired now l)) (expired now) st
          (λ l e. ground arith)),
)
