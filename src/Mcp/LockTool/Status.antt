-- ===== src/Mcp/LockTool/Status.antt =====
-- What the status says of the caller.
use vscreen.Locks.Release.{holds}
use vscreen.Base.{
  List, Option, [], any, arith, none, refl, some, sym, ◌||◌, ◌∷◌, ◌≡◌, nat_eq, string_eq,
}
use vscreen.Locks.State.{
  InstanceId, InstanceLockState, LockInfo, LockType, SessionId, exclusive, is_ok, matches, observer,
}
use vscreen.Locks.Acquire.{owned_by}
use vscreen.Locks.Access.{check_state}
use vscreen.Locks.WellFormed.{IsWellFormed, held_alone}
use vscreen.Locks.Manager.{InstanceLockManager, check_access_with_token, state_of}
use vscreen.Locks.Manager.Invariant.{IsSound}
use vscreen.Mcp.Gate.{check_access, status}
use vscreen.Mcp.LockTool.{enrich}
use vscreen.Mcp.Gate.Frees.{status-holders}

any-matches : (s : SessionId) (ls : List LockInfo) → any (matches s none) ls ≡ any (owned_by s) ls
any-matches s [] = refl
any-matches s (l ∷ ls) = ground (arith, any-matches s ls)

check_state-flags :
    (st : InstanceLockState) (s : SessionId)
    → IsWellFormed st
    → (is_ok (check_state st s none exclusive) ≡ holds (owned_by s) st.exclusive)
      × (is_ok (check_state st s none observer)
          ≡ (holds (owned_by s) st.exclusive || any (owned_by s) st.observers))
unfolding check_state
check_state-flags st s h = go st.exclusive refl
  where
    go :
        (e : Option LockInfo)
        → st.exclusive ≡ e
        → (is_ok (check_state st s none exclusive) ≡ holds (owned_by s) e)
          × (is_ok (check_state st s none observer)
              ≡ (holds (owned_by s) e || any (owned_by s) st.observers))
    go none e = ground (arith, any-matches s st.observers)
    go (some l) e = ground (arith, held_alone l h e)

check_access-eq-check_state :
    (m : InstanceLockManager) (id : InstanceId) (s : SessionId) (required : LockType)
    → is_ok (check_access m id s required) ≡ is_ok (check_state (state_of m id) s none required)
unfolding check_access_with_token check_state
check_access-eq-check_state m id s required = ground arith

-- In a manager whose lock states are all well formed, what the status tells a caller is what the
-- check of access decides: it says that the caller holds the exclusive lock exactly if the caller
-- passes the check for exclusive access, and that it holds some lock exactly if it passes the check
-- for an observer's access.
pub enrich-check_access :
    (m : InstanceLockManager) (id : InstanceId) (s : SessionId)
    → IsSound m
    → let told = enrich s (status m id) in
      (told.you_hold_exclusive ≡ is_ok (check_access m id s exclusive))
      × ((told.you_hold_exclusive || told.you_hold_observer) ≡ is_ok (check_access m id s observer))
unfolding enrich
enrich-check_access m id s h =
    rw
      (
        (status-holders m id).0,
        (status-holders m id).1,
        check_access-eq-check_state m id s exclusive,
        check_access-eq-check_state m id s observer,
      )
      (sym flags.0, sym flags.1)
  where
    flags :
        (is_ok (check_state (state_of m id) s none exclusive)
          ≡ holds (owned_by s) (state_of m id).exclusive)
        × (is_ok (check_state (state_of m id) s none observer) ≡ (
            holds (owned_by s) (state_of m id).exclusive
            || any (owned_by s) (state_of m id).observers))
    flags = check_state-flags (state_of m id) s (h.at id)
