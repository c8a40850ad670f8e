-- ===== src/Mcp/Gate/Frees.antt =====
-- What releasing the blockers of an instance leaves.
use vscreen.Locks.Manager.Invariant.{IsSound}
use vscreen.Locks.WellFormed.{held_alone}
use vscreen.Base.{
  Bool, List, Option, [], all, any, ap, arith, false, if◌then◌else◌, inl, inr, none, not, refl,
  retain, some, sym, true, ℕ, ◌&&◌, ◌∙◌, ◌∷◌, ◌≡◌, nat_eq, string_eq,
}
use vscreen.Base.Assoc.{get-insert, get-remove, eq_refl, get}
use vscreen.Locks.State.{
  InstanceId, InstanceLockState, LockInfo, SessionId, is_empty_state, is_ok, matches, new,
  to_status,
}
use vscreen.Locks.Acquire.{Request, acquire_inner, owned_by}
use vscreen.Locks.Access.{auto_state}
use vscreen.Locks.Release.{clear_if, release_state, without}
use vscreen.Locks.Release.Holders.{release_state-cases}
use vscreen.Locks.Keeps.{exclusive-try_promote, observers-try_promote}
use vscreen.Locks.Manager.{
  InstanceLockManager, cleanup, put, release_entry, release_with_token, state_of, or_new,
}
use vscreen.Mcp.Gate.{
  release, release_observer, release_observers, release_blockers, release_exclusive, status,
  status_of,
}

holders-release_state :
    (st : InstanceLockState) (s : SessionId)
    → ((release_state st s none).0.exclusive ≡ clear_if (matches s none) st.exclusive)
      × ((release_state st s none).0.observers ≡ retain (λ o. not (matches s none o)) st.observers)
holders-release_state st s = elim (release_state-cases st s none) [
  | inl c ↦ rw c.1 (exclusive-try_promote left, observers-try_promote left)
  | inr c ↦ rw c.1 (refl, refl)
]
  where
    left : InstanceLockState
    left = without (matches s none) st

pub state_of-put :
    (m : InstanceLockManager) (id : InstanceId) (st : InstanceLockState)
    → state_of (put m id st) id ≡ st
state_of-put m id st = rw (get-insert id id st m.locks, eq_refl {K = InstanceId} id) refl

state_of-cleanup : (m : InstanceLockManager) (id : InstanceId) → state_of (cleanup m id) id ≡ new
unfolding cleanup
state_of-cleanup m id = rw (get-remove id id m.locks, eq_refl {K = InstanceId} id) refl

-- An empty state is as good as none.
cleaned-holders :
    (b : Bool) (m : InstanceLockManager) (id : InstanceId) (st : InstanceLockState)
    → (b ≡ true → is_empty_state st ≡ true)
    → state_of m id ≡ st
    → ((state_of (if b then cleanup m id else m) id).exclusive ≡ st.exclusive)
      × ((state_of (if b then cleanup m id else m) id).observers ≡ st.observers)
unfolding is_empty_state
cleaned-holders true m id st h e =
    rw (state_of-cleanup m id) (ground (arith, h refl), ground (arith, h refl))
cleaned-holders false m id st h e = rw e (refl, refl)

pub and_right : (a b : Bool) → (a && b) ≡ true → b ≡ true
and_right a b h = ground arith

holders-release :
    (m : InstanceLockManager) (id : InstanceId) (s : SessionId)
    → ((state_of (release m id s) id).exclusive
        ≡ clear_if (matches s none) (state_of m id).exclusive)
      × ((state_of (release m id s) id).observers
          ≡ retain (λ o. not (matches s none o)) (state_of m id).observers)
unfolding release_with_token release_entry
holders-release m id s =
    let after = release_state (state_of m id) s none in
    let kept =
      cleaned-holders (is_ok after.2 && is_empty_state (state_of (put m id after.0) id))
        (put m id after.0) id after.0
        (λ e. ap is_empty_state (sym (state_of-put m id after.0)) ∙ and_right _ _ e)
        (state_of-put m id after.0) in
    let left = holders-release_state (state_of m id) s in (kept.0 ∙ left.0, kept.1 ∙ left.1)

pub acquire_inner-free :
    (st : InstanceLockState) (r : Request) (now token : ℕ)
    → st.exclusive ≡ none
    → st.observers ≡ []
    → is_ok (acquire_inner st r now token).1 ≡ true
unfolding acquire_inner
acquire_inner-free st r now token e o = ground arith

-- Nobody holds a lock.
abbrev pub Free : InstanceLockState → Type 0
Free st = (st.exclusive ≡ none) × (st.observers ≡ [])

-- Each observer is one of the given ones, or of the same session.
abbrev covered : List LockInfo → List LockInfo → Bool
covered os = all (λ o. any (owned_by o.session_id) os)

covered_more :
    (x : LockInfo) (os ls : List LockInfo) → covered os ls ≡ true → covered (x ∷ os) ls ≡ true
covered_more x os [] h = refl
covered_more x os (l ∷ ls) h = ground (arith, covered_more x os ls)

covered_self : (ls : List LockInfo) → covered ls ls ≡ true
covered_self [] = refl
covered_self (l ∷ ls) = ground (arith, covered_more l ls ls (covered_self ls))

covered_fewer :
    (x : LockInfo) (os ls : List LockInfo)
    → covered (x ∷ os) ls ≡ true
    → covered os (retain (λ o. not (matches x.session_id none o)) ls) ≡ true
covered_fewer x os [] h = refl
covered_fewer x os (l ∷ ls) h = ground (arith, covered_fewer x os ls)

covered_none : (ls : List LockInfo) → covered [] ls ≡ true → ls ≡ []
covered_none [] h = refl
covered_none (l ∷ ls) h = ground arith

release_observer-auto :
    (m : InstanceLockManager) (id : InstanceId) (o : LockInfo)
    → o.auto_acquired ≡ true
    → release_observer m id o ≡ release m id o.session_id
unfolding release_observer
release_observer-auto m id o a = rw a refl

clear_none : (hit : LockInfo → Bool) (e : Option LockInfo) → e ≡ none → clear_if hit e ≡ none
clear_none hit e h = rw h refl

release_observers-Free :
    (m : InstanceLockManager) (id : InstanceId) (os : List LockInfo)
    → all (λ o. o.auto_acquired) os ≡ true
    → (state_of m id).exclusive ≡ none
    → covered os (state_of m id).observers ≡ true
    → Free (state_of (release_observers m id os) id)
unfolding release_observers
release_observers-Free m id [] a e c = (e, covered_none _ c)
release_observers-Free m id (o ∷ os) a e c =
    release_observers-Free (release_observer m id o) id os (and_right _ _ a)
      (rw same (left.0 ∙ clear_none _ _ e))
      (rw same (ap (covered os) left.1 ∙ covered_fewer o os _ c))
  where
    same : release_observer m id o ≡ release m id o.session_id
    same = release_observer-auto m id o (ground arith)

    left :
        ((state_of (release m id o.session_id) id).exclusive
          ≡ clear_if (matches o.session_id none) (state_of m id).exclusive)
        × ((state_of (release m id o.session_id) id).observers
            ≡ retain (λ l. not (matches o.session_id none l)) (state_of m id).observers)
    left = holders-release m id o.session_id

pub status-holders :
    (m : InstanceLockManager) (id : InstanceId)
    → ((status m id).exclusive_holder ≡ (state_of m id).exclusive)
      × ((status m id).observers ≡ (state_of m id).observers)
unfolding status status_of to_status
status-holders m id = go (get id m.locks)
  where
    go :
        (o : Option InstanceLockState)
        → ((status_of id o).exclusive_holder ≡ (or_new o).exclusive)
          × ((status_of id o).observers ≡ (or_new o).observers)
    go none = (refl, refl)
    go (some st) = (refl, refl)

release_exclusive-Free :
    (m : InstanceLockManager) (id : InstanceId) (l : LockInfo)
    → l.auto_acquired ≡ true
    → (state_of m id).exclusive ≡ some l
    → (state_of m id).observers ≡ []
    → Free (state_of (release_exclusive m id (some l)) id)
unfolding release_exclusive
release_exclusive-Free m id l a e o =
    let left = holders-release m id l.session_id in
    rw a (
      left.0 ∙ ap (clear_if (matches l.session_id none)) e ∙ ground arith,
      left.1 ∙ ap (retain (λ o. not (matches l.session_id none o))) o,
    )

-- If all the locks of an instance were acquired automatically, then releasing the blockers leaves
-- nobody with a lock.
pub release_blockers-Free :
    (m : InstanceLockManager) (id : InstanceId)
    → IsSound m
    → auto_state (state_of m id) ≡ true
    → Free (state_of (release_blockers m id) id)
unfolding release_blockers auto_state
release_blockers-Free m id h a =
    rw ((status-holders m id).0, (status-holders m id).1) (go (state_of m id).exclusive refl)
  where
    st : InstanceLockState
    st = state_of m id

    go :
        (e : Option LockInfo)
        → st.exclusive ≡ e
        → Free (state_of (release_observers (release_exclusive m id e) id st.observers) id)
    go none e =
        unfold release_exclusive in
        release_observers-Free m id st.observers (ground arith) e (covered_self st.observers)
    go (some l) e =
        let alone = held_alone l (h.at id) e in
        rw alone (unfold release_observers in release_exclusive-Free m id l (ground arith) e alone)
