-- ===== src/Locks/Manager/Races.antt =====
-- What can go wrong between the atomic steps of the lock manager.
use vscreen.Base.{
  List, [], arith, false, none, refl, some, true, ℕ, ◌++◌, ◌∙◌, ◌∷◌, ◌≡◌, ◌≢◌, nat_eq, string_eq,
}
use vscreen.Base.Assoc.{get-insert, get-remove, eq_refl}
use vscreen.Locks.State.{
  InstanceId, InstanceLockState, LockInfo, SessionId, WaitEntry, err, exclusive, instance_locked,
  is_empty_state, is_ok, new, not_held, observer, ok, LockType,
}
use vscreen.Locks.Promote.{promote_loop, try_promote}
use vscreen.Locks.Acquire.{Request, acquire_inner, granted, owned_by}
use vscreen.Locks.Acquire.Rules.{refusal}
use vscreen.Locks.Release.{release_state}
use vscreen.Locks.Access.{auto_state}
use vscreen.Locks.Manager.{
  InstanceLockManager, acquire, check_access_with_token, cleanup, enqueue, put, release_entry,
  release_with_token, state_of,
}

state_of-put :
    (m : InstanceLockManager) (id : InstanceId) (st : InstanceLockState)
    → state_of (put m id st) id ≡ st
state_of-put m id st = rw (get-insert id id st m.locks, eq_refl {K = InstanceId} id) refl

-- One exclusive holder, nobody else.
abbrev pub held_by : LockInfo → InstanceLockState
held_by l = record { exclusive = some l; observers = []; wait_queue = [] }

abbrev pub waiter_of : Request → ℕ → WaitEntry
waiter_of r now = record {
  session_id = r.session_id;
  agent_name = r.agent_name;
  requested_lock_type = r.lock_type;
  queued_at = now;
}

refused_by_holder :
    (l : LockInfo) (r : Request) (now token : ℕ)
    → owned_by r.session_id l ≡ false
    → acquire_inner (held_by l) r now token ≡ (held_by l, refusal l)
unfolding acquire_inner
refused_by_holder l r now token other = ground arith

released_by_holder :
    (l : LockInfo) (s : SessionId)
    → owned_by s l ≡ true
    → release_state (held_by l) s none ≡ (new, [], ok false)
unfolding release_state try_promote
released_by_holder l s mine = ground arith

-- The steps, as they are seen in the state of their instance.
module _ (m : InstanceLockManager) (id : InstanceId) where
  state_of-acquire :
      (r : Request) (now token : ℕ)
      → state_of (acquire m id r now token).0 id ≡ (acquire_inner (state_of m id) r now token).0
  unfolding acquire
  state_of-acquire r now token = state_of-put m id (acquire_inner (state_of m id) r now token).0

  acquire-result :
      (r : Request) (now token : ℕ)
      → (acquire m id r now token).1 ≡ (acquire_inner (state_of m id) r now token).1
  unfolding acquire
  acquire-result r now token = refl

  state_of-release_entry :
      (s : SessionId)
      → state_of (release_entry m id s none).0 id ≡ (release_state (state_of m id) s none).0
  unfolding release_entry
  state_of-release_entry s = state_of-put m id (release_state (state_of m id) s none).0

  state_of-enqueue :
      (r : Request) (now : ℕ)
      → state_of (enqueue m id r now) id ≡ record {
        exclusive = (state_of m id).exclusive;
        observers = (state_of m id).observers;
        wait_queue = (state_of m id).wait_queue ++ waiter_of r now ∷ [];
      }
  unfolding enqueue
  state_of-enqueue r now = state_of-put m id _

  -- After the last holder's release the state is that of a new instance.
  released-new :
      (l : LockInfo) (s : SessionId)
      → state_of m id ≡ held_by l
      → owned_by s l ≡ true
      → state_of (release_entry m id s none).0 id ≡ new
  released-new l s e mine = state_of-release_entry s ∙ rw (e, released_by_holder l s mine) refl

  cleanup-new : state_of (cleanup m id) id ≡ new
  unfolding cleanup
  cleanup-new = ground (arith, get-remove id id m.locks, eq_refl {K = InstanceId} id)

  acquire-new :
      (r : Request) (now token : ℕ)
      → state_of m id ≡ new
      → (acquire m id r now token).1 ≡ ok (granted r now token)
  acquire-new r now token e =
      acquire-result r now token ∙ rw e (unfold acquire_inner in ground arith)

  cleanup-no_access :
      (s : SessionId) (t : LockType)
      → check_access_with_token (cleanup m id) id s none t ≡ err not_held
  unfolding check_access_with_token cleanup
  cleanup-no_access s t = ground (arith, get-remove id id m.locks, eq_refl {K = InstanceId} id)

-- The whole release by the only holder.
release_with_token-new :
    (m : InstanceLockManager) (id : InstanceId) (l : LockInfo) (s : SessionId)
    → state_of m id ≡ held_by l
    → owned_by s l ≡ true
    → ((release_with_token m id s none).1 ≡ [])
      × ((release_with_token m id s none).2 ≡ ok false)
      × (state_of (release_with_token m id s none).0 id ≡ new)
unfolding release_with_token release_entry is_empty_state
release_with_token-new m id l s e mine =
    rw (e, released_by_holder l s mine, state_of-put m id new)
      (refl, refl, cleanup-new (put m id new) id)

-- A wake-up can be lost. A session's attempt in `acquire_or_wait` finds the instance held by
-- another; the holder's whole release, the removal of the empty entry included, runs before the
-- session has queued: the session is refused, the release is ok and notifies nobody, and the
-- session ends up in the queue of an instance that nobody holds.
pub acquire_or_wait-lost_wakeup :
    (m : InstanceLockManager) (id : InstanceId) (l : LockInfo) (s : SessionId) (r : Request)
    (now token : ℕ)
    → state_of m id ≡ held_by l
    → owned_by s l ≡ true
    → owned_by r.session_id l ≡ false
    → let tried = acquire m id r now token in
      let released = release_with_token tried.0 id s none in
      let queued = enqueue released.0 id r now in
      (tried.1 ≡ refusal l)
      × (released.1 ≡ [])
      × (released.2 ≡ ok false)
      × (state_of queued id ≡ record new { wait_queue = waiter_of r now ∷ [] })
acquire_or_wait-lost_wakeup m id l s r now token e mine other = (
  acquire-result m id r now token ∙ rw (e, refused_by_holder l r now token other) refl,
  (release_with_token-new tried id l s kept mine).0,
  (release_with_token-new tried id l s kept mine).1,
  state_of-enqueue (release_with_token tried id s none).0 id r now
      ∙ rw ((release_with_token-new tried id l s kept mine).2) refl,
)
  where
    tried : InstanceLockManager
    tried = (acquire m id r now token).0

    kept : state_of tried id ≡ held_by l
    kept = state_of-acquire m id r now token ∙ rw (e, refused_by_holder l r now token other) refl

-- A fresh lock can be lost. A session releases the only lock of an instance, which leaves its state
-- empty; before the entry is removed another session acquires the instance; after the removal that
-- session, which was granted its lock, is told that it holds none.
pub release-drops_new_lock :
    (m : InstanceLockManager) (id : InstanceId) (l : LockInfo) (s : SessionId) (r : Request)
    (now token : ℕ)
    → state_of m id ≡ held_by l
    → owned_by s l ≡ true
    → let released = release_entry m id s none in
      let acquired = acquire released.0 id r now token in
      (is_empty_state (state_of released.0 id) ≡ true)
      × (acquired.1 ≡ ok (granted r now token))
      × (check_access_with_token (cleanup acquired.0 id) id r.session_id none r.lock_type
          ≡ err not_held)
release-drops_new_lock m id l s r now token e mine = (
  rw (released-new m id l s e mine) (unfold is_empty_state in refl),
  acquire-new (release_entry m id s none).0 id r now token (released-new m id l s e mine),
  cleanup-no_access (acquire (release_entry m id s none).0 id r now token).0 id r.session_id
      r.lock_type,
)

-- On an instance that nobody holds, with a waiter for an observer lock before one of another
-- session for the exclusive lock, `try_promote` notifies both and takes both out of the queue;
-- when the first has acquired its lock, the second is refused.
try_promote-wakes_both :
    (st : InstanceLockState) (v w : WaitEntry) (rest : List WaitEntry) (now token later : ℕ)
    (r q : Request)
    → st.exclusive ≡ none
    → st.observers ≡ []
    → st.wait_queue ≡ v ∷ w ∷ rest
    → v.requested_lock_type ≡ observer
    → w.requested_lock_type ≡ exclusive
    → r.session_id ≢ q.session_id
    → r.lock_type ≡ observer
    → q.lock_type ≡ exclusive
    → let st' = (try_promote st).0 in
      let first = acquire_inner st' r now token in
      ((try_promote st).1 ≡ v ∷ w ∷ [])
      × (st'.wait_queue ≡ rest)
      × (first.1 ≡ ok (granted r now token))
      × ((acquire_inner first.0 q now later).1 ≡ refusal (granted r now token))
unfolding try_promote promote_loop acquire_inner
try_promote-wakes_both st v w rest now token later r q f o e vo we d ro qe = ground arith

-- A session that is one of two or more observers, and the first of them, and asks for the exclusive
-- lock, is refused with an error that names the session itself as the holder.
acquire_inner-names_itself :
    (st : InstanceLockState) (l k : LockInfo) (ls : List LockInfo) (r : Request) (now token : ℕ)
    → st.exclusive ≡ none
    → st.observers ≡ l ∷ k ∷ ls
    → owned_by r.session_id l ≡ true
    → r.lock_type ≡ exclusive
    → (acquire_inner st r now token).1
      ≡ err (instance_locked r.session_id l.agent_name l.expires_at)
unfolding acquire_inner
acquire_inner-names_itself st l k ls r now token f o mine e = ground arith

-- A session that holds an exclusive lock which it got automatically, and then acquires the instance
-- explicitly, succeeds, and its lock still counts as automatically acquired.
acquire_inner-keeps_auto :
    (st : InstanceLockState) (l : LockInfo) (r : Request) (now token : ℕ)
    → st.exclusive ≡ some l
    → owned_by r.session_id l ≡ true
    → l.auto_acquired ≡ true
    → r.auto_acquired ≡ false
    → (is_ok (acquire_inner st r now token).1 ≡ true)
      × (auto_state (acquire_inner st r now token).0 ≡ true)
unfolding acquire_inner auto_state
acquire_inner-keeps_auto st l r now token e mine auto explicit = ground arith
