-- ===== src/Locks/Promote.antt =====
-- `try_promote` of lock_manager.rs: which waiters are notified. The first result is the queue that
-- is left, the second the waiters that were sent a notification, in order.
pub mod Fifo
use vscreen.Base.{Bool, List, [], false, if◌then◌else◌, is_empty, none, not, some, true, ◌∷◌}
use vscreen.Locks.State.{exclusive, observer, LockInfo, WaitEntry, InstanceLockState}

-- The `while let Some(front)` loop, with its variable `promoted`.
unfoldable pub promote_loop :
    List LockInfo → Bool → List WaitEntry → List WaitEntry × List WaitEntry × Bool
promote_loop observers promoted [] = ([], [], promoted)
promote_loop observers promoted (front ∷ queue) = elim front.requested_lock_type [
  | exclusive ↦
      if not (is_empty observers) then (front ∷ queue, [], promoted) else (queue, front ∷ [], true)
  | observer ↦
      let (left, notified, done) = promote_loop observers true queue in
      (left, front ∷ notified, done)
]

unfoldable pub try_promote : InstanceLockState → InstanceLockState × List WaitEntry × Bool
unfolding promote_loop
try_promote st = elim st.exclusive [
  | some l ↦ (st, [], false)
  | none ↦
      let (left, notified, promoted) = promote_loop st.observers false st.wait_queue in
      (record st { wait_queue = left }, notified, promoted)
]
