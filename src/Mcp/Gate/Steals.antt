-- ===== src/Mcp/Gate/Steals.antt =====
-- An explicit lock that a tool call of another session takes.
use vscreen.Base.{ap, arith, false, some, sym, true, ℕ, ◌∙◌, ◌≡◌, ◌≢◌, nat_eq, string_eq}
use vscreen.Locks.State.{
  InstanceId, InstanceLockState, LockInfo, LockType, SessionId, exclusive, is_ok,
}
use vscreen.Locks.Acquire.{Request, acquire_inner}
use vscreen.Locks.Access.{auto_state}
use vscreen.Locks.Manager.{InstanceLockManager, acquire, state_of}
use vscreen.Locks.WellFormed.{acquire_inner-IsWellFormed}
use vscreen.Locks.Manager.Invariant.{IsSound, put-IsSound}
use vscreen.Locks.Manager.Exclusion.{HasAccess, HasAccess-unique}
use vscreen.Mcp.Gate.{Draw, require_lock}
use vscreen.Mcp.Gate.Frees.{state_of-put}
use vscreen.Mcp.Gate.Access.{require_lock-Passes}
use vscreen.Mcp.Gate.Reclaim.{is_auto_acquired-eq-auto_state, require_lock-reclaims}

acquire-own :
    (st : InstanceLockState) (l : LockInfo) (r : Request) (now token : ℕ)
    → st.exclusive ≡ some l
    → r.session_id ≡ l.session_id
    → (is_ok (acquire_inner st r now token).1 ≡ true)
      × (auto_state (acquire_inner st r now token).0 ≡ l.auto_acquired)
unfolding acquire_inner auto_state
acquire-own st l r now token e mine = (ground arith, ground arith)

-- In a manager whose lock states are all well formed, let a session hold an exclusive lock that
-- was acquired automatically by a tool call. If it then acquires the lock explicitly, the call is
-- ok; but a tool call of another session that needs the exclusive lock is ok as well, and after it
-- the first session passes the check of access for neither lock type.
pub explicit_lock_stolen :
    (m : InstanceLockManager) (id : InstanceId) (l : LockInfo) (r : Request) (now token : ℕ)
    (t : SessionId) (first second : Draw)
    → IsSound m
    → (state_of m id).exclusive ≡ some l
    → l.auto_acquired ≡ true
    → r.session_id ≡ l.session_id
    → r.session_id ≢ t
    → let (m₁, result) = acquire m id r now token in
      let (m₂, taken) = require_lock false m₁ id t exclusive first second in
      (is_ok result ≡ true)
      × (is_ok taken ≡ true)
      × ((required : LockType) → ¬ HasAccess m₂ id r.session_id required)
explicit_lock_stolen m id l r now token t first second h e a mine other = (
  unfold acquire in own.0,
  taken,
  λ required seen.
      other (sym (HasAccess-unique _ id t r.session_id required (passes.1 taken) seen)),
)
  where
    own :
        (is_ok (acquire_inner (state_of m id) r now token).1 ≡ true)
        × (auto_state (acquire_inner (state_of m id) r now token).0 ≡ l.auto_acquired)
    own = acquire-own (state_of m id) l r now token e mine

    after : InstanceLockManager
    after = (acquire m id r now token).0

    sound : IsSound after
    sound =
        unfold acquire in
        put-IsSound m id _ h (acquire_inner-IsWellFormed (state_of m id) r now token (h.at id))

    kept : auto_state (state_of after id) ≡ auto_state (acquire_inner (state_of m id) r now token).0
    kept = unfold acquire in ap auto_state (state_of-put m id _)

    taken : is_ok (require_lock false after id t exclusive first second).1 ≡ true
    taken =
        require_lock-reclaims after id t exclusive first second sound
          (is_auto_acquired-eq-auto_state after id ∙ kept ∙ own.1 ∙ a)

    passes :
        IsSound (require_lock false after id t exclusive first second).0
        × (is_ok (require_lock false after id t exclusive first second).1 ≡ true
            → HasAccess (require_lock false after id t exclusive first second).0 id t exclusive)
    passes = require_lock-Passes after id t exclusive first second sound
