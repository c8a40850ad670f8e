-- ===== src/Cdp/Pending/Leaks.antt =====
-- Entries of the table belong to callers.
use vscreen.Base.{List, [], arith, not, true, ℕ, ◌&&◌, ◌==◌, ◌∷◌, ◌≡◌, nat_eq, string_eq}
use vscreen.Cdp.Pending.{
  Client, Step, disconnect, disconnects, give_up, handle_response, is_in, new_client, register,
  registers, responds, resume, resumes, run, send_fails, step, times_out, without,
}

is_in-without :
    (id j : ℕ) (ids : List ℕ) → is_in id (without j ids) ≡ (not (j == id) && is_in id ids)
is_in-without id j [] = ground arith
is_in-without id j (x ∷ ids) = ground (arith, is_in-without id j ids)

-- An entry of the table has a caller.
abbrev IsOwned : Client → Type 0
IsOwned c = (id : ℕ) → is_in id c.pending ≡ true → is_in id c.callers ≡ true

step-IsOwned : (c : Client) (s : Step) → IsOwned c → IsOwned (step c s)
unfolding step register give_up handle_response disconnect resume
step-IsOwned c registers h id e = ground (arith, h id)
step-IsOwned c (send_fails j) h id e =
    ground (arith, h id, is_in-without id j c.pending, is_in-without id j c.callers)
step-IsOwned c (responds j) h id e = ground (arith, h id, is_in-without id j c.pending)
step-IsOwned c disconnects h id e = ground arith
step-IsOwned c (resumes j) h id e = ground (arith, h id, is_in-without id j c.callers)
step-IsOwned c (times_out j) h id e =
    ground (arith, h id, is_in-without id j c.pending, is_in-without id j c.callers)

run-IsOwned : (c : Client) (ss : List Step) → IsOwned c → IsOwned (run c ss)
unfolding run
run-IsOwned c [] h = h
run-IsOwned c (s ∷ ss) h = run-IsOwned (step c s) ss (step-IsOwned c s h)

-- However calls, responses, failures, timeouts and lost connections follow one another, an entry of
-- the table of pending requests belongs to a caller that still waits: a call that has returned
-- leaves no entry behind.
pub run-pending :
    (ss : List Step) (id : ℕ)
    → is_in id (run new_client ss).pending ≡ true
    → is_in id (run new_client ss).callers ≡ true
unfolding new_client
run-pending ss id h = run-IsOwned new_client ss (λ j e. ground arith) id h
