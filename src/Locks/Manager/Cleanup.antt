-- ===== src/Locks/Manager/Cleanup.antt =====
-- The sweeps over all instances: `release_all_for_session` and `reap_expired`.
use vscreen.Base.{
  Bool, Bool-cases, List, Option, [], any, any-retain-not, arith, false, if◌then◌else◌, inl, inr,
  none, not, refl, retain, some, string_eq, subst, true, ℕ, ◌==◌, ◌∷◌, ◌≡◌, ◌⊎◌, nat_eq,
}
use vscreen.Base.Assoc.{get, keys, get-insert, get-remove, get-map_values}
use vscreen.Locks.State.{InstanceId, InstanceLockState, LockInfo, SessionId}
use vscreen.Locks.Acquire.{owned_by}
use vscreen.Locks.Release.{release_state, expired, reap_state, remove_from_queue}
use vscreen.Locks.Release.Holders.{any_lock, release_state-holders, reap_state-holders}
use vscreen.Locks.Manager.{
  InstanceLockManager, cleanup, or_new, put, release_each, release_with_token, state_of, reap_each,
  reap_expired, reap_one, release_all_for_session, unregister_session,
}

-- A state that a lock with the tested property is not in.
abbrev pub FreeOf : (LockInfo → Bool) → InstanceLockState → Type 0
FreeOf p st = any_lock p st ≡ false

keys_cover :
    (j : InstanceId) (m : List (InstanceId × InstanceLockState))
    → (get j m ≡ none) ⊎ (any (λ k. k == j) (keys m) ≡ true)
keys_cover j [] = inl refl
keys_cover j ((k, v) ∷ m) = ground (arith, keys_cover j m)

pick :
    (p : LockInfo → Bool) (b : Bool) (st : InstanceLockState) (o : Option InstanceLockState)
    → (b ≡ true → FreeOf p st)
    → (b ≡ false → FreeOf p (or_new o))
    → FreeOf p (or_new (if b then some st else o))
pick p true st o h k = h refl
pick p false st o h k = k refl

drop_entry :
    (p : LockInfo → Bool) (b : Bool) (o : Option InstanceLockState)
    → (b ≡ false → FreeOf p (or_new o))
    → FreeOf p (or_new (if b then none else o))
drop_entry p true o k = refl
drop_entry p false o k = k refl

put-FreeOf :
    (p : LockInfo → Bool) (m : InstanceLockManager) (id j : InstanceId) (st : InstanceLockState)
    → ((id == j) ≡ true → FreeOf p st)
    → ((id == j) ≡ false → FreeOf p (state_of m j))
    → FreeOf p (state_of (put m id st) j)
put-FreeOf p m id j st h k =
    rw (get-insert id j st m.locks) (pick p (id == j) st (get j m.locks) h k)

cleanup-FreeOf :
    (p : LockInfo → Bool) (m : InstanceLockManager) (id j : InstanceId)
    → ((id == j) ≡ false → FreeOf p (state_of m j))
    → FreeOf p (state_of (cleanup m id) j)
unfolding cleanup
cleanup-FreeOf p m id j k = rw (get-remove id j m.locks) (drop_entry p (id == j) (get j m.locks) k)

if-FreeOf :
    (p : LockInfo → Bool) (b : Bool) (m n : InstanceLockManager) (j : InstanceId)
    → FreeOf p (state_of m j)
    → FreeOf p (state_of n j)
    → FreeOf p (state_of (if b then m else n) j)
if-FreeOf p true m n j hm hn = hm
if-FreeOf p false m n j hm hn = hn

-- One release frees its instance of the session, and keeps the others free.
release-FreeOf :
    (m : InstanceLockManager) (id j : InstanceId) (s : SessionId)
    → ((id == j) ≡ true) ⊎ FreeOf (owned_by s) (state_of m j)
    → FreeOf (owned_by s) (state_of (release_with_token m id s none).0 j)
unfolding release_with_token
release-FreeOf m id j s h =
    if-FreeOf (owned_by s) _ (cleanup next id) next j
      (cleanup-FreeOf (owned_by s) next id j (λ _. kept)) kept
  where
    next : InstanceLockManager
    next = put m id (release_state (state_of m id) s none).0

    kept : FreeOf (owned_by s) (state_of next j)
    kept =
        put-FreeOf (owned_by s) m id j (release_state (state_of m id) s none).0
          (λ _. (release_state-holders (state_of m id) s none).1)
          (λ e. elim h [ inl f ↦ cc | inr k ↦ k ])

release_each-FreeOf :
    (m : InstanceLockManager) (ids : List InstanceId) (j : InstanceId) (s : SessionId)
    → (any (λ k. k == j) ids ≡ true) ⊎ FreeOf (owned_by s) (state_of m j)
    → FreeOf (owned_by s) (state_of (release_each m ids s) j)
unfolding release_each
release_each-FreeOf m [] j s (inl e) = cc
release_each-FreeOf m [] j s (inr k) = k
release_each-FreeOf m (id ∷ ids) j s h =
    release_each-FreeOf (release_with_token m id s none).0 ids j s (elim (Bool-cases (id == j)) [
      | inl e ↦ inr (release-FreeOf m id j s (inl e))
      | inr e ↦ elim h [
        | inl later ↦ inl (ground arith)
        | inr k ↦ inr (release-FreeOf m id j s (inr k))
      ]
    ])

covered :
    (p : LockInfo → Bool) (m : InstanceLockManager) (j : InstanceId)
    → (any (λ k. k == j) (keys m.locks) ≡ true) ⊎ FreeOf p (state_of m j)
covered p m j = elim (keys_cover j m.locks) [ inl e ↦ inr (rw e refl) | inr e ↦ inl e ]

-- No waiter of the session is left.
abbrev pub waits : SessionId → InstanceLockState → Bool
waits s st = any (λ w. w.session_id == s) st.wait_queue

abbrev without_waits : SessionId → Option InstanceLockState → Option InstanceLockState
without_waits s none = none
without_waits s (some st) = some (remove_from_queue st s)

purged :
    (s : SessionId) (o : Option InstanceLockState)
    → FreeOf (owned_by s) (or_new o)
    → FreeOf (owned_by s) (or_new (without_waits s o))
      × (waits s (or_new (without_waits s o)) ≡ false)
unfolding remove_from_queue
purged s none h = (h, refl)
purged s (some st) h = (h, any-retain-not (λ w. w.session_id == s) st.wait_queue)

-- When a session ends (`unregister_session`), it holds no lock on any instance and waits for none.
pub unregister_session-frees :
    (m : InstanceLockManager) (s : SessionId) (j : InstanceId)
    → (any_lock (owned_by s) (state_of (unregister_session m s) j) ≡ false)
      × (waits s (state_of (unregister_session m s) j) ≡ false)
unfolding unregister_session release_all_for_session
unregister_session-frees m s j = rw (get-map_values (λ st. remove_from_queue st s) j left.locks) (
    purged s (get j left.locks)
      (release_each-FreeOf m' (keys m.locks) j s (covered (owned_by s) m' j)))
  where
    m' : InstanceLockManager
    m' = record m { active_sessions = retain (λ t. not (t == s)) m.active_sessions }

    left : InstanceLockManager
    left = release_each m' (keys m.locks) s

absent :
    (id j : InstanceId) (m : List (InstanceId × InstanceLockState))
    → get id m ≡ none
    → (id == j) ≡ true
    → get j m ≡ none
absent id j m e f = subst (λ k. get k m ≡ none) ((string_eq.beq_iff id j).0 f) e

-- One round of the reaper frees its instance of expired locks, and keeps the others free of them.
reap_one-FreeOf :
    (m : InstanceLockManager) (now : ℕ) (id j : InstanceId)
    → ((id == j) ≡ true) ⊎ FreeOf (expired now) (state_of m j)
    → FreeOf (expired now) (state_of (reap_one m now id) j)
unfolding reap_one
reap_one-FreeOf m now id j h = go (get id m.locks) refl
  where
    go :
        (o : Option InstanceLockState)
        → get id m.locks ≡ o
        → FreeOf (expired now) (state_of (reap_one m now id) j)
    go none e =
        simp (e, reap_one) (elim h [ inl f ↦ rw (absent id j m.locks e f) refl | inr k ↦ k ])
    go (some st) e =
        simp (e, reap_one)
          (if-FreeOf (expired now) _ (cleanup next id) next j
            (cleanup-FreeOf (expired now) next id j (λ _. kept)) kept)
      where
        next : InstanceLockManager
        next = put m id (reap_state now st).0

        kept : FreeOf (expired now) (state_of next j)
        kept =
            put-FreeOf (expired now) m id j (reap_state now st).0
              (λ _. (reap_state-holders now st).0) (λ d. elim h [ inl f ↦ cc | inr k ↦ k ])

reap_each-FreeOf :
    (m : InstanceLockManager) (now : ℕ) (ids : List InstanceId) (j : InstanceId)
    → (any (λ k. k == j) ids ≡ true) ⊎ FreeOf (expired now) (state_of m j)
    → FreeOf (expired now) (state_of (reap_each m now ids) j)
unfolding reap_each
reap_each-FreeOf m now [] j (inl e) = cc
reap_each-FreeOf m now [] j (inr k) = k
reap_each-FreeOf m now (id ∷ ids) j h =
    reap_each-FreeOf (reap_one m now id) now ids j (elim (Bool-cases (id == j)) [
      | inl e ↦ inr (reap_one-FreeOf m now id j (inl e))
      | inr e ↦ elim h [
        | inl later ↦ inl (ground arith)
        | inr k ↦ inr (reap_one-FreeOf m now id j (inr k))
      ]
    ])

-- After `reap_expired`, no instance has a lock whose time has come.
reap_expired-frees :
    (m : InstanceLockManager) (now : ℕ) (j : InstanceId)
    → any_lock (expired now) (state_of (reap_expired m now) j) ≡ false
unfolding reap_expired
reap_expired-frees m now j = reap_each-FreeOf m now (keys m.locks) j (covered (expired now) m j)
