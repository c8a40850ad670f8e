-- ===== src/Cdp/Pending.antt =====
-- crates/vscreen-cdp/src/client.rs: the table of the requests that wait for a response, in the steps
-- of the callers of `send_command_and_wait` and of the reading task that other steps can come
-- between. A sender stands in the table under the id of its request. Ids come from a counter, of
-- which the wrap at 2^64 is not modelled.
pub mod Leaks
use vscreen.Base.{
  Bool, List, [], any, if◌then◌else◌, not, retain, ℕ, ◌&&◌, ◌+◌, ◌==◌, ◌∷◌, nat_eq, string_eq,
}

-- The table, the callers that have not returned, and the calls whose response has been sent to them.
pub record Client : Type 0 where
  pub next_id : ℕ
  pub pending : List ℕ
  pub callers : List ℕ
  pub delivered : List ℕ

unfoldable pub new_client : Client
new_client = record { next_id = 1; pending = []; callers = []; delivered = [] }

abbrev pub is_in : ℕ → List ℕ → Bool
is_in id ids = any (λ x. x == id) ids

abbrev pub without : ℕ → List ℕ → List ℕ
without id ids = retain (λ x. not (x == id)) ids

-- `send_command_and_wait`, up to the send.
unfoldable pub register : Client → Client
register c = record c {
  next_id = c.next_id + 1;
  pending = c.next_id ∷ c.pending;
  callers = c.next_id ∷ c.callers;
}

-- A caller whose send failed, or whose timeout went by, takes its entry out and returns.
unfoldable pub give_up : Client → ℕ → Client
give_up c id =
    if is_in id c.callers
    then record c { pending = without id c.pending; callers = without id c.callers }
    else c

-- `handle_message` for a response.
unfoldable pub handle_response : Client → ℕ → Client
handle_response c id =
    if is_in id c.pending
    then record c { pending = without id c.pending; delivered = id ∷ c.delivered }
    else c

-- The connection is lost: `pending_requests.clear()`.
unfoldable pub disconnect : Client → Client
disconnect c = record c { pending = [] }

-- A caller returns when its channel has a message, or its sender is gone from the table.
unfoldable pub resume : Client → ℕ → Client
resume c id =
    if is_in id c.callers && not (is_in id c.pending)
    then record c { callers = without id c.callers }
    else c

pub data Step : Type 0 where
  registers : Step
  send_fails : ℕ → Step
  responds : ℕ → Step
  disconnects : Step
  resumes : ℕ → Step
  times_out : ℕ → Step

unfoldable pub step : Client → Step → Client
unfolding register give_up handle_response disconnect resume
step c registers = register c
step c (send_fails id) = give_up c id
step c (responds id) = handle_response c id
step c disconnects = disconnect c
step c (resumes id) = resume c id
step c (times_out id) = give_up c id

unfoldable pub run : Client → List Step → Client
unfolding step
run c [] = c
run c (s ∷ ss) = run (step c s) ss
