-- ===== src/Locks/Manager/Invariant.antt =====
-- Every reachable manager keeps the invariant of each instance's state, whatever the interleaving
-- of the steps.
use vscreen.Base.{
  Bool, List, Option, [], false, if◌then◌else◌, none, refl, some, subst, true, ℕ, ◌==◌, ◌∷◌, ◌≡◌,
  nat_eq, string_eq,
}
use vscreen.Base.Assoc.{get-insert, get-remove, get, get-map_values, keys}
use vscreen.Locks.State.{InstanceId, InstanceLockState, LockToken, SessionId}
use vscreen.Locks.Acquire.{Request}
use vscreen.Locks.Release.{remove_from_queue, reap_state}
use vscreen.Locks.WellFormed.{IsWellFormed, acquire_inner-IsWellFormed, new-IsWellFormed}
use vscreen.Locks.Keeps.{
  remove_from_queue-IsWellFormed, reap_state-IsWellFormed, release_state-IsWellFormed,
  renew_state-IsWellFormed, same_holders,
}
use vscreen.Locks.Manager.{
  InstanceLockManager, acquire, cleanup, enqueue, give_up, put, reap_one, register_session,
  release_entry, renew_with_token, state_of, unregister_session, new_manager,
  release_all_for_session, release_each, or_new, release_with_token,
}

-- The atomic steps, as the threads of the server make them.
pub data Op : Type 0 where
  registers : SessionId → Op
  acquires : InstanceId → Request → ℕ → LockToken → Op
  enqueues : InstanceId → Request → ℕ → Op
  gives_up : InstanceId → SessionId → Op
  releases : InstanceId → SessionId → Option LockToken → Op
  cleans : InstanceId → Op
  renews : InstanceId → SessionId → Option LockToken → Option ℕ → ℕ → Op
  reaps : InstanceId → ℕ → Op
  unregisters : SessionId → Op

unfoldable pub step : InstanceLockManager → Op → InstanceLockManager
step m (registers s) = register_session m s
step m (acquires id r now token) = (acquire m id r now token).0
step m (enqueues id r now) = enqueue m id r now
step m (gives_up id s) = (give_up m id s).0
step m (releases id s token) = (release_entry m id s token).0
step m (cleans id) = cleanup m id
step m (renews id s token ttl now) = (renew_with_token m id s token ttl now).0
step m (reaps id now) = reap_one m now id
step m (unregisters s) = unregister_session m s

unfoldable pub run : InstanceLockManager → List Op → InstanceLockManager
unfolding step
run m [] = m
run m (op ∷ ops) = run (step m op) ops

pub record IsSound (m : InstanceLockManager) : Type 0 where
  pub at : (id : InstanceId) → IsWellFormed (state_of m id)

pick :
    (b : Bool) (st : InstanceLockState) (o : Option InstanceLockState)
    → IsWellFormed st
    → IsWellFormed (or_new o)
    → IsWellFormed (or_new (if b then some st else o))
pick true st o w h = w
pick false st o w h = h

pick_none :
    (b : Bool) (o : Option InstanceLockState)
    → IsWellFormed (or_new o)
    → IsWellFormed (or_new (if b then none else o))
pick_none true o h = new-IsWellFormed
pick_none false o h = h

pub put-IsSound :
    (m : InstanceLockManager) (id : InstanceId) (st : InstanceLockState)
    → IsSound m
    → IsWellFormed st
    → IsSound (put m id st)
put-IsSound m id st h w = record {
  at = λ j. rw (get-insert id j st m.locks) (pick (id == j) st (get j m.locks) w (h.at j));
}

cleanup-IsSound : (m : InstanceLockManager) (id : InstanceId) → IsSound m → IsSound (cleanup m id)
unfolding cleanup
cleanup-IsSound m id h = record {
  at = λ j. rw (get-remove id j m.locks) (pick_none (id == j) (get j m.locks) (h.at j));
}

pub if-IsSound :
    (b : Bool) (m n : InstanceLockManager) → IsSound m → IsSound n → IsSound (if b then m else n)
if-IsSound true m n hm hn = hm
if-IsSound false m n hm hn = hn

-- The entry under a key that is there is the state of that instance.
entry-IsWellFormed :
    (m : InstanceLockManager) (id : InstanceId) (st : InstanceLockState)
    → IsSound m
    → get id m.locks ≡ some st
    → IsWellFormed st
entry-IsWellFormed m id st h e = subst (λ o. IsWellFormed (or_new o)) e (h.at id)

release_entry-IsSound :
    (m : InstanceLockManager) (id : InstanceId) (s : SessionId) (token : Option LockToken)
    → IsSound m
    → IsSound (release_entry m id s token).0
unfolding release_entry
release_entry-IsSound m id s token h =
    put-IsSound m id _ h (release_state-IsWellFormed (state_of m id) s token (h.at id))

pub release_with_token-IsSound :
    (m : InstanceLockManager) (id : InstanceId) (s : SessionId) (token : Option LockToken)
    → IsSound m
    → IsSound (release_with_token m id s token).0
unfolding release_with_token
release_with_token-IsSound m id s token h =
    let kept = release_entry-IsSound m id s token h in
    if-IsSound _ _ _ (cleanup-IsSound _ id kept) kept

release_each-IsSound :
    (m : InstanceLockManager) (ids : List InstanceId) (s : SessionId)
    → IsSound m
    → IsSound (release_each m ids s)
unfolding release_each
release_each-IsSound m [] s h = h
release_each-IsSound m (id ∷ ids) s h =
    release_each-IsSound (release_with_token m id s none).0 ids s
      (release_with_token-IsSound m id s none h)

purge :
    (s : SessionId) (o : Option InstanceLockState)
    → IsWellFormed (or_new o)
    → IsWellFormed (or_new (elim o [ none ↦ none | some st ↦ some (remove_from_queue st s) ]))
purge s none h = h
purge s (some st) h = remove_from_queue-IsWellFormed st s h

release_all_for_session-IsSound :
    (m : InstanceLockManager) (s : SessionId) → IsSound m → IsSound (release_all_for_session m s)
unfolding release_all_for_session
release_all_for_session-IsSound m s h = record {
  at = λ j.
      rw (get-map_values (λ st. remove_from_queue st s) j (release_each m (keys m.locks) s).locks)
        (purge s _ ((release_each-IsSound m (keys m.locks) s h).at j));
}

reap_one-IsSound :
    (m : InstanceLockManager) (now : ℕ) (id : InstanceId) → IsSound m → IsSound (reap_one m now id)
unfolding reap_one
reap_one-IsSound m now id h = go (get id m.locks) refl
  where
    go : (o : Option InstanceLockState) → get id m.locks ≡ o → IsSound (reap_one m now id)
    go none e = simp (e, reap_one) h
    go (some st) e = simp (e, reap_one) (if-IsSound _ _ _ (cleanup-IsSound _ id kept) kept)
      where
        kept : IsSound (put m id (reap_state now st).0)
        kept =
            put-IsSound m id _ h (reap_state-IsWellFormed now st (entry-IsWellFormed m id st h e))

give_up-IsSound :
    (m : InstanceLockManager) (id : InstanceId) (s : SessionId)
    → IsSound m
    → IsSound (give_up m id s).0
unfolding give_up
give_up-IsSound m id s h = go (get id m.locks) refl
  where
    go : (o : Option InstanceLockState) → get id m.locks ≡ o → IsSound (give_up m id s).0
    go none e = simp (e, give_up) h
    go (some st) e =
        simp (e, give_up)
          (put-IsSound m id _ h
            (remove_from_queue-IsWellFormed st s (entry-IsWellFormed m id st h e)))

renew-IsSound :
    (m : InstanceLockManager) (id : InstanceId) (s : SessionId) (token : Option LockToken)
    (ttl : Option ℕ) (now : ℕ)
    → IsSound m
    → IsSound (renew_with_token m id s token ttl now).0
unfolding renew_with_token
renew-IsSound m id s token ttl now h = go (get id m.locks) refl
  where
    go :
        (o : Option InstanceLockState)
        → get id m.locks ≡ o
        → IsSound (renew_with_token m id s token ttl now).0
    go none e = simp (e, renew_with_token) h
    go (some st) e =
        simp (e, renew_with_token)
          (put-IsSound m id _ h
            (renew_state-IsWellFormed st s token ttl now (entry-IsWellFormed m id st h e)))

-- Every step keeps the invariant of every instance.
pub step-IsSound : (m : InstanceLockManager) (op : Op) → IsSound m → IsSound (step m op)
unfolding step acquire enqueue register_session unregister_session
step-IsSound m (registers s) h = if-IsSound _ _ _ h (record { at = h.at })
step-IsSound m (acquires id r now token) h =
    put-IsSound m id _ h (acquire_inner-IsWellFormed (state_of m id) r now token (h.at id))
step-IsSound m (enqueues id r now) h = put-IsSound m id _ h (same_holders refl refl (h.at id))
step-IsSound m (gives_up id s) h = give_up-IsSound m id s h
step-IsSound m (releases id s token) h = release_entry-IsSound m id s token h
step-IsSound m (cleans id) h = cleanup-IsSound m id h
step-IsSound m (renews id s token ttl now) h = renew-IsSound m id s token ttl now h
step-IsSound m (reaps id now) h = reap_one-IsSound m now id h
step-IsSound m (unregisters s) h = release_all_for_session-IsSound _ s (record { at = h.at })

pub run-IsSound : (m : InstanceLockManager) (ops : List Op) → IsSound m → IsSound (run m ops)
unfolding run
run-IsSound m [] h = h
run-IsSound m (op ∷ ops) h = run-IsSound (step m op) ops (step-IsSound m op h)

pub new_manager-IsSound : IsSound new_manager
new_manager-IsSound = record { at = λ id. new-IsWellFormed }

-- After any sequence of steps from the new manager, each instance has an exclusive holder with no
-- observers, or no exclusive holder; no session observes twice, and each lock has the type of its
-- place.
pub reachable-IsWellFormed :
    (ops : List Op) (id : InstanceId) → IsWellFormed (state_of (run new_manager ops) id)
reachable-IsWellFormed ops id = (run-IsSound new_manager ops new_manager-IsSound).at id
