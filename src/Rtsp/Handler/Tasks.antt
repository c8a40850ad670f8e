-- ===== src/Rtsp/Handler/Tasks.antt =====
-- Which sender tasks run after PLAY, PAUSE and TEARDOWN.
use vscreen.Base.Assoc.{eq_refl, get}
use vscreen.Base.Text.{Text, text_eq}
use vscreen.Base.{
  Bool, List, Option, [], all, ap, arith, false, inl, inr, none, not, refl, some, subst, true, ℕ,
  ◌&&◌, ◌++◌, ◌+◌, ◌||◌, ◌↔◌, ◌∙◌, ◌∷◌, ◌≡◌, ◌≢◌, ◌⊎◌, nat_eq, string_eq,
}
use vscreen.Rtsp.Reply.{Environment, InstanceLookup}
use vscreen.Rtsp.Handler.{
  dispatch, handle_request, handle_teardown, pause_session, play_session, start_tasks,
  teardown_named, pause_reply, play_reply, subscribes,
}
use vscreen.Rtsp.Handler.Tracks.{tasks_of-without_task}
use vscreen.Rtsp.Handler.Updates.{
  Updates, play_session-Updates, played, pause_session-Updates, stopped, teardown_named-Updates,
}
use vscreen.Rtsp.Parser.{play, pause, teardown, RtspRequest}
use vscreen.Rtsp.Response.{new, with_session}
use vscreen.Rtsp.Session
use vscreen.Rtsp.Session.Manager.{RtspSessionManager, remove_found, remove_session}
use vscreen.Rtsp.Session.{
  RtspSession, SessionState, TrackInfo, is_some_task, playing, tasks_of, ready, touch_session,
}
use vscreen.Rtsp.Transport.Output.{SocketAddr}

-- A track whose media the instance has is sent.
abbrev pub is_served : InstanceLookup → Text → TrackInfo → Bool
is_served lookup id t = is_some_task t.rtp_task || not (subscribes lookup id t.media_type)

all-start_tasks :
    (lookup : InstanceLookup) (id : Text) (next : ℕ) (ts : List TrackInfo)
    → all (is_served lookup id) (start_tasks lookup id next ts) ≡ true
unfolding start_tasks
all-start_tasks lookup id next [] = refl
all-start_tasks lookup id next (t ∷ ts) =
    ground (arith, all-start_tasks lookup id next ts, all-start_tasks lookup id (next + 1) ts)

-- A lookup passes a test.
abbrev pub holds : (RtspSession → Bool) → Option RtspSession → Bool
holds p none = false
holds p (some s) = p s

-- Some track has the task as its sender task.
abbrev pub Runs : ℕ → List TrackInfo → Type 0
Runs task [] = ⊥
Runs task (t ∷ ts) = (t.rtp_task ≡ some task) ⊎ Runs task ts

-- The same of the session that a lookup gives.
abbrev pub RunsAt : ℕ → Option RtspSession → Type 0
RunsAt task none = ⊥
RunsAt task (some s) = Runs task s.tracks

abbrev pub Mem : ℕ → List ℕ → Type 0
Mem task [] = ⊥
Mem task (x ∷ xs) = (x ≡ task) ⊎ Mem task xs

task_of_iff :
    (task : ℕ) (o : Option ℕ) (ys : List ℕ) {Q : Type 0}
    → Mem task ys ↔ Q
    → Mem task ((elim o [ none ↦ [] | some x ↦ x ∷ [] ]) ++ ys) ↔ ((o ≡ some task) ⊎ Q)
task_of_iff task none ys f =
    (λ h. inr (f.0 h), λ h. elim h [ inl e ↦ absurd (ground arith) | inr later ↦ f.1 later ])
task_of_iff task (some x) ys f = (
  λ h. elim h [ inl e ↦ inl (ap some e) | inr later ↦ inr (f.0 later) ],
  λ h. elim h [ inl e ↦ inl (ground arith) | inr later ↦ inr (f.1 later) ],
)

tasks_of_iff : (task : ℕ) (ts : List TrackInfo) → Mem task (tasks_of ts) ↔ Runs task ts
unfolding tasks_of
tasks_of_iff task [] = (λ h. h, λ h. h)
tasks_of_iff task (t ∷ ts) = task_of_iff task t.rtp_task (tasks_of ts) (tasks_of_iff task ts)

-- The tasks of the session that a lookup gives.
abbrev tasks_at : Option RtspSession → List ℕ
tasks_at none = []
tasks_at (some s) = tasks_of s.tracks

tasks_at_none : (o : Option RtspSession) (task : ℕ) → tasks_at o ≡ [] → ¬ RunsAt task o
tasks_at_none none task h r = r
tasks_at_none (some s) task h r = subst (Mem task) h ((tasks_of_iff task s.tracks).1 r)

aborts_iff :
    (task : ℕ) (ts : List TrackInfo) (xs : List ℕ) → xs ≡ tasks_of ts → Mem task xs ↔ Runs task ts
aborts_iff task ts xs h = rw h (tasks_of_iff task ts)

abbrev pub is_playing : SessionState → Bool
is_playing playing = true
is_playing state = false

holds-played :
    (lookup : InstanceLookup) (env : Environment) (s : RtspSession)
    → holds
        (λ s'. is_playing s'.state && all (is_served lookup s.instance_id) s'.tracks)
        (some (played lookup env s (Session.play env.now s)))
      ≡ true
unfolding Session.play touch_session
holds-played lookup env s =
    ground (arith, all-start_tasks lookup s.instance_id env.next_task s.tracks)

tasks_of-stopped :
    (m : RtspSessionManager) (now : ℕ) (s : RtspSession)
    → s.state ≢ ready
    → tasks_of (stopped m s (Session.pause now s)).tracks ≡ []
unfolding Session.pause Session.teardown touch_session
tasks_of-stopped m now s started = ground (arith, tasks_of-without_task s.tracks)

updated :
    (old new : List (Text × RtspSession)) (id : Text) (o : Option RtspSession)
    → Updates old id o new
    → get id new ≡ o
updated old new id o u = u id ∙ rw (eq_refl id) refl

module _ (lookup : InstanceLookup) (env : Environment) (m : RtspSessionManager)
    (request : RtspRequest) (client_addr : SocketAddr) (id : Text) (s : RtspSession)
    (named : request.session ≡ some id) (found : get id m.sessions ≡ some s) where
  reply_to_play :
      request.method ≡ play
      → handle_request lookup env m request client_addr
        ≡ play_session lookup env m request.cseq id s
  unfolding handle_request dispatch
  reply_to_play e = rw (e, named, found) refl

  reply_to_pause :
      request.method ≡ pause
      → handle_request lookup env m request client_addr ≡ pause_session env m request.cseq id s
  unfolding handle_request dispatch
  reply_to_pause e = rw (e, named, found) refl

  reply_to_teardown :
      request.method ≡ teardown
      → handle_request lookup env m request client_addr ≡ teardown_named m request.cseq id
  unfolding handle_request dispatch handle_teardown
  reply_to_teardown e = rw (e, named) refl

  -- A PLAY for a session that is there succeeds, whatever its state. Afterwards the session is
  -- playing and each of its tracks has a sender task, except one whose media the instance does not
  -- have and that had none.
  handle_request-play :
      request.method ≡ play
      → ((handle_request lookup env m request client_addr).response.status ≡ 200)
        × (holds
              (λ s'. is_playing s'.state && all (is_served lookup s.instance_id) s'.tracks)
              (get id (handle_request lookup env m request client_addr).manager.sessions)
            ≡ true)
  unfolding play_session play_reply Session.play touch_session with_session
  handle_request-play e =
      let after =
        updated m.sessions _ id _ (play_session-Updates m request.cseq id s found lookup env) in
      rw (reply_to_play e) (ground arith, ap (holds _) after ∙ holds-played lookup env s)

  -- A PAUSE for a session that has been played and a TEARDOWN for any session succeed. A task is
  -- aborted exactly if some track of the session has it as its sender task; and afterwards no track
  -- of the session has a sender task, or the session is not there.
  pub handle_request_stops :
      ((request.method ≡ pause) × (s.state ≢ ready)) ⊎ (request.method ≡ teardown)
      → ((handle_request lookup env m request client_addr).response.status ≡ 200)
        × ((task : ℕ)
            → Mem task (handle_request lookup env m request client_addr).aborted
              ↔ Runs task s.tracks)
        × ((task : ℕ)
            → ¬ RunsAt task
                (get id (handle_request lookup env m request client_addr).manager.sessions))
  unfolding pause_session pause_reply Session.pause Session.teardown touch_session with_session
      teardown_named remove_session remove_found
  handle_request_stops (inl (e, started)) =
      let after = updated m.sessions _ id _ (pause_session-Updates m request.cseq id s found env) in
      rw (reply_to_pause e) (
        ground arith,
        λ task. aborts_iff task s.tracks _ (ground arith),
        λ task. tasks_at_none _ task (ap tasks_at after ∙ tasks_of-stopped m env.now s started),
      )
  handle_request_stops (inr e) =
      let after = updated m.sessions _ id _ (teardown_named-Updates m request.cseq id) in
      rw (reply_to_teardown e) (
        ground arith,
        λ task. aborts_iff task s.tracks _ (ground arith),
        λ task. tasks_at_none _ task (ap tasks_at after),
      )
