-- ===== src/Locks/Promote/Fifo.antt =====
-- Which waiters `try_promote` notifies.
use vscreen.Base.{
  Bool, List, [], arith, false, if◌then◌else◌, is_empty, is_some, not, refl, true, ◌++◌, ◌||◌, ◌∷◌,
  ◌≡◌, nat_eq, string_eq,
}
use vscreen.Locks.State.{InstanceLockState, LockInfo, LockType, WaitEntry, exclusive, observer}
use vscreen.Locks.Promote.{promote_loop, try_promote}

abbrev pub is_observer : LockType → Bool
is_observer observer = true
is_observer exclusive = false

abbrev pub wants_observer : WaitEntry → Bool
wants_observer w = is_observer w.requested_lock_type

-- The waiters for an observer lock at the front of the queue, and what comes after them.
abbrev pub leading : List WaitEntry → List WaitEntry
leading [] = []
leading (w ∷ q) = let rest = leading q in if wants_observer w then w ∷ rest else []

abbrev pub after_leading : List WaitEntry → List WaitEntry
after_leading [] = []
after_leading (w ∷ q) = let rest = after_leading q in if wants_observer w then rest else w ∷ q

abbrev pub first : List WaitEntry → List WaitEntry
first [] = []
first (w ∷ q) = w ∷ []

promote_loop-notified :
    (os : List LockInfo) (b : Bool) (q : List WaitEntry)
    → (promote_loop os b q).1 ≡ leading q ++ (if is_empty os then first (after_leading q) else [])
unfolding promote_loop
promote_loop-notified os b [] = ground arith
promote_loop-notified os b (w ∷ q) = ground (arith, promote_loop-notified os true q)

promote_loop-fifo :
    (os : List LockInfo) (b : Bool) (q : List WaitEntry)
    → (promote_loop os b q).1 ++ (promote_loop os b q).0 ≡ q
unfolding promote_loop
promote_loop-fifo os b [] = refl
promote_loop-fifo os b (w ∷ q) = ground (arith, promote_loop-fifo os true q)

promote_loop-flag :
    (os : List LockInfo) (b : Bool) (q : List WaitEntry)
    → (promote_loop os b q).2 ≡ (b || not (is_empty (promote_loop os b q).1))
unfolding promote_loop
promote_loop-flag os b [] = ground arith
promote_loop-flag os b (w ∷ q) = ground (arith, promote_loop-flag os true q)

-- While somebody holds the exclusive lock, nobody is notified. Otherwise the waiters at the front
-- that want an observer lock are notified, and with them, if there are no observers, the next one,
-- which wants the exclusive lock.
try_promote-notified :
    (st : InstanceLockState)
    → (try_promote st).1 ≡ (
        if is_some st.exclusive
        then []
        else leading st.wait_queue
          ++ (if is_empty st.observers then first (after_leading st.wait_queue) else []))
unfolding try_promote
try_promote-notified st = ground (arith, promote_loop-notified st.observers false st.wait_queue)

-- The notified waiters, followed by those that stay in the queue, are the queue as it was; the
-- flag tells whether anybody was notified; and the holders are not touched.
try_promote-fifo :
    (st : InstanceLockState)
    → ((try_promote st).1 ++ (try_promote st).0.wait_queue ≡ st.wait_queue)
      × ((try_promote st).2 ≡ not (is_empty (try_promote st).1))
      × ((try_promote st).0.exclusive ≡ st.exclusive)
      × ((try_promote st).0.observers ≡ st.observers)
unfolding try_promote
try_promote-fifo st = ground (
  arith,
  promote_loop-fifo st.observers false st.wait_queue,
  promote_loop-flag st.observers false st.wait_queue,
)
