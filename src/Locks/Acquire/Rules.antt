-- ===== src/Locks/Acquire/Rules.antt =====
-- `acquire_inner` as rules: every way in which a call can end, and when.
use vscreen.Base.{
  Bool-cases, List, Option, Option-cases, [], any, arith, false, find, find-none, inl, inr, none,
  refl, some, true, update_first, ℕ, ◌++◌, ◌∷◌, ◌≡◌, ◌⊎◌,
}
use vscreen.Locks.State.{
  exclusive, observer, LockInfo, WaitEntry, InstanceLockState, instance_locked, Result, ok, err,
  LockType,
}
use vscreen.Locks.Acquire.{Request, extended, granted, owned_by, is_single_of, acquire_inner}

abbrev pub refusal : LockInfo → Result LockInfo
refusal b = err (instance_locked b.session_id b.agent_name b.expires_at)

-- `Acquires st r now token out`: the call may end in `out`.
pub data Acquires (st : InstanceLockState) (r : Request) (now token : ℕ)
    (out : InstanceLockState × Result LockInfo) : Type 0 where
  -- the session holds the exclusive lock: renewed, whatever the type that is asked for
  renews_exclusive :
      (l : LockInfo)
      → st.exclusive ≡ some l
      → owned_by r.session_id l ≡ true
      → out ≡ (record st { exclusive = some (extended r now l) }, ok (extended r now l))
      → Acquires st r now token out
  -- another session holds it
  held :
      (l : LockInfo)
      → st.exclusive ≡ some l
      → owned_by r.session_id l ≡ false
      → (r.lock_type ≡ observer → find (owned_by r.session_id) st.observers ≡ none)
      → out ≡ (st, refusal l)
      → Acquires st r now token out
  renews_observer :
      (l : LockInfo)
      → r.lock_type ≡ observer
      → find (owned_by r.session_id) st.observers ≡ some l
      → out ≡ (
        record st {
          observers = update_first (owned_by r.session_id) (extended r now) st.observers;
        },
        ok (extended r now l),
      )
      → Acquires st r now token out
  observes :
      r.lock_type ≡ observer
      → st.exclusive ≡ none
      → any (owned_by r.session_id) st.observers ≡ false
      → out ≡ (
        record st { observers = st.observers ++ granted r now token ∷ [] },
        ok (granted r now token),
      )
      → Acquires st r now token out
  -- nobody holds anything, or the session is the one observer
  takes :
      r.lock_type ≡ exclusive
      → st.exclusive ≡ none
      → (st.observers ≡ [])
        ⊎ ((l : LockInfo) × (st.observers ≡ l ∷ []) × (owned_by r.session_id l ≡ true))
      → out ≡ (
        record st { exclusive = some (granted r now token); observers = [] },
        ok (granted r now token),
      )
      → Acquires st r now token out
  observed :
      (l : LockInfo) (ls : List LockInfo)
      → r.lock_type ≡ exclusive
      → st.exclusive ≡ none
      → st.observers ≡ l ∷ ls
      → is_single_of r.session_id st.observers ≡ false
      → out ≡ (st, refusal l)
      → Acquires st r now token out

abbrev Outcome : Option LockInfo → List LockInfo → List WaitEntry → Request → ℕ → ℕ → Type 0
Outcome ex os q r now token =
    let st : InstanceLockState = record { exclusive = ex; observers = os; wait_queue = q } in
    Acquires st r now token (acquire_inner st r now token)

free-exclusive :
    (os : List LockInfo) (q : List WaitEntry) (r : Request) (now token : ℕ)
    → r.lock_type ≡ exclusive
    → Outcome none os q r now token
unfolding acquire_inner
free-exclusive [] q r now token e = takes e refl (inl refl) (ground arith)
free-exclusive (l ∷ []) q r now token e = elim (Bool-cases (owned_by r.session_id l)) [
  | inl mine ↦ takes e refl (inr (l, refl, mine)) (ground arith)
  | inr other ↦ observed l [] e refl refl other (ground arith)
]
free-exclusive (l ∷ k ∷ ls) q r now token e = observed l (k ∷ ls) e refl refl refl (ground arith)

free-observer :
    (os : List LockInfo) (q : List WaitEntry) (r : Request) (now token : ℕ)
    → r.lock_type ≡ observer
    → Outcome none os q r now token
unfolding acquire_inner
free-observer os q r now token e = elim (Option-cases (find (owned_by r.session_id) os)) [
  | inl miss ↦ observes e refl (find-none (owned_by r.session_id) os miss) (ground arith)
  | inr (l, hit) ↦ renews_observer l e hit (ground arith)
]

LockType-cases : (t : LockType) → (t ≡ exclusive) ⊎ (t ≡ observer)
LockType-cases exclusive = inl refl
LockType-cases observer = inr refl

held_by_other :
    (exc : LockInfo) (os : List LockInfo) (q : List WaitEntry) (r : Request) (now token : ℕ)
    → owned_by r.session_id exc ≡ false
    → Outcome (some exc) os q r now token
unfolding acquire_inner
held_by_other exc os q r now token other = elim (Option-cases (find (owned_by r.session_id) os)) [
  | inl miss ↦ held exc refl other (λ _. miss) (ground arith)
  | inr (l, hit) ↦ elim (LockType-cases r.lock_type) [
    | inl e ↦ held exc refl other (λ o. cc) (ground arith)
    | inr o ↦ renews_observer l o hit (ground arith)
  ]
]

outcome_lem :
    (ex : Option LockInfo) (os : List LockInfo) (q : List WaitEntry) (r : Request) (now token : ℕ)
    → Outcome ex os q r now token
unfolding acquire_inner
outcome_lem none os q r now token = elim (LockType-cases r.lock_type) [
  | inl e ↦ free-exclusive os q r now token e
  | inr o ↦ free-observer os q r now token o
]
outcome_lem (some exc) os q r now token = elim (Bool-cases (owned_by r.session_id exc)) [
  | inl mine ↦ renews_exclusive exc refl mine (ground arith)
  | inr other ↦ held_by_other exc os q r now token other
]

-- The code follows the rules: every call ends in one of them.
pub acquire_inner-Acquires :
    (st : InstanceLockState) (r : Request) (now token : ℕ)
    → Acquires st r now token (acquire_inner st r now token)
acquire_inner-Acquires st r now token =
    outcome_lem st.exclusive st.observers st.wait_queue r now token
