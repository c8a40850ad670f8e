-- ===== src/Rtsp/Handler/Tracks.antt =====
-- What the handlers keep true of the tracks of a session.
use vscreen.Base.Text.{Text, text_eq}
use vscreen.Base.{
  List, [], append_assoc, arith, find, inl, inr, map, none, refl, subst, sym, ℕ, ◌++◌, ◌+◌, ◌==◌,
  ◌∙◌, ◌∷◌, ◌≡◌, ◌≢◌, ◌⊎◌, nat_eq, string_eq,
}
use vscreen.Rtsp.Reply.{InstanceLookup, Environment}
use vscreen.Rtsp.Handler.{start_tasks}
use vscreen.Rtsp.Setup.{add_for}
use vscreen.Rtsp.Handler.Cases.{IsKnown}
use vscreen.Rtsp.Session
use vscreen.Rtsp.Transport.Output.{SocketAddr}
use vscreen.Rtsp.Parser.{RtspRequest}
use vscreen.Rtsp.Session.Manager.{RtspSessionManager}
use vscreen.Rtsp.Parser.TransportHeader.{TransportMode, tcp_interleaved, udp_unicast}
use vscreen.Rtsp.Handler.Updates.{new_session, played, stopped}
use vscreen.Rtsp.Session.{
  MediaType, RtspSession, TrackInfo, playing, task_of, tasks_of, without_task,
  add_interleaved_track, add_track, pause, play, teardown, touch_session, track, SessionState,
}

abbrev pub names_of : List TrackInfo → List (ℕ × MediaType)
names_of [] = []
names_of (t ∷ ts) = (t.track_id, t.media_type) ∷ names_of ts

abbrev pub IsAbsent : ℕ → List (ℕ × MediaType) → Type 0
IsAbsent id [] = Unit
IsAbsent id (n ∷ ns) = (n.0 ≢ id) × IsAbsent id ns

-- Different tracks, each of them track 0 with video or track 1 with audio.
abbrev pub AreTracks : List (ℕ × MediaType) → Type 0
AreTracks [] = Unit
AreTracks (n ∷ ns) = IsKnown n × IsAbsent n.0 ns × AreTracks ns

-- The tracks are different, and only a session that plays has tasks.
unfoldable pub IsSound : RtspSession → Type 0
unfolding tasks_of
IsSound s = AreTracks (names_of s.tracks) × ((s.state ≡ playing) ⊎ (tasks_of s.tracks ≡ []))

names_of-start_tasks :
    (lookup : InstanceLookup) (id : Text) (next : ℕ) (ts : List TrackInfo)
    → names_of (start_tasks lookup id next ts) ≡ names_of ts
unfolding start_tasks
names_of-start_tasks lookup id next [] = refl
names_of-start_tasks lookup id next (t ∷ ts) =
    ground
      (arith, names_of-start_tasks lookup id next ts, names_of-start_tasks lookup id (next + 1) ts)

names_of-without_task : (ts : List TrackInfo) → names_of (map without_task ts) ≡ names_of ts
names_of-without_task [] = refl
names_of-without_task (t ∷ ts) = rw (names_of-without_task ts) refl

pub tasks_of-without_task : (ts : List TrackInfo) → tasks_of (map without_task ts) ≡ []
unfolding tasks_of
tasks_of-without_task [] = refl
tasks_of-without_task (t ∷ ts) = tasks_of-without_task ts

names_of-append : (ts us : List TrackInfo) → names_of (ts ++ us) ≡ (names_of ts ++ names_of us)
names_of-append [] us = refl
names_of-append (t ∷ ts) us = rw (names_of-append ts us) refl

tasks_of-append : (ts us : List TrackInfo) → tasks_of (ts ++ us) ≡ (tasks_of ts ++ tasks_of us)
unfolding tasks_of
tasks_of-append [] us = refl
tasks_of-append (t ∷ ts) us =
    rw (tasks_of-append ts us, append_assoc (task_of t) (tasks_of ts) (tasks_of us)) refl

IsAbsent-append :
    (id : ℕ) (ns : List (ℕ × MediaType)) (n : ℕ × MediaType)
    → n.0 ≢ id
    → IsAbsent id ns
    → IsAbsent id (ns ++ n ∷ [])
IsAbsent-append id [] n h hs = (h, tt)
IsAbsent-append id (m ∷ ns) n h hs = (hs.0, IsAbsent-append id ns n h hs.1)

AreTracks-append :
    (ns : List (ℕ × MediaType)) (n : ℕ × MediaType)
    → IsKnown n
    → IsAbsent n.0 ns
    → AreTracks ns
    → AreTracks (ns ++ n ∷ [])
AreTracks-append [] n k a h = (k, tt, tt)
AreTracks-append (m ∷ ns) n k a h =
    (h.0, IsAbsent-append m.0 ns n (λ e. a.0 (sym e)) h.1, AreTracks-append ns n k a.1 h.2)

track-IsAbsent :
    (id : ℕ) (ts : List TrackInfo)
    → find (λ t. t.track_id == id) ts ≡ none
    → IsAbsent id (names_of ts)
track-IsAbsent id [] h = tt
track-IsAbsent id (t ∷ ts) h = ground (arith, track-IsAbsent id ts)

pub new_session-IsSound :
    (env : Environment) (m : RtspSessionManager) (request : RtspRequest) (client_addr : SocketAddr)
    (instance_id : Text)
    → IsSound (new_session env m request client_addr instance_id)
unfolding IsSound tasks_of
new_session-IsSound env m request client_addr instance_id = (tt, inr refl)

pub track-new_session :
    (env : Environment) (m : RtspSessionManager) (request : RtspRequest) (client_addr : SocketAddr)
    (instance_id : Text) (id : ℕ)
    → Session.track (new_session env m request client_addr instance_id) id ≡ none
unfolding Session.track
track-new_session env m request client_addr instance_id id = refl

module _ (s : RtspSession) (t : TrackInfo) (known : IsKnown (t.track_id, t.media_type))
    (fresh : Session.track s t.track_id ≡ none) where
  appended_tracks : AreTracks (names_of s.tracks) → AreTracks (names_of (s.tracks ++ t ∷ []))
  unfolding Session.track
  appended_tracks h =
      subst AreTracks (sym (names_of-append s.tracks (t ∷ [])))
        (AreTracks-append (names_of s.tracks) _ known (track-IsAbsent t.track_id s.tracks fresh) h)

  appended_tasks :
      (state : SessionState)
      → t.rtp_task ≡ none
      → (state ≡ playing) ⊎ (tasks_of s.tracks ≡ [])
      → (state ≡ playing) ⊎ (tasks_of (s.tracks ++ t ∷ []) ≡ [])
  unfolding tasks_of
  appended_tasks state none_yet (inl p) = inl p
  appended_tasks state none_yet (inr h) =
      inr (tasks_of-append s.tracks (t ∷ []) ∙ rw (h, none_yet) refl)

pub add_for-IsSound :
    (now : ℕ) (mode : TransportMode) (t : ℕ × MediaType) (ports : ℕ × ℕ) (s : RtspSession)
    → IsKnown t
    → Session.track s t.0 ≡ none
    → IsSound s
    → IsSound (add_for now mode t ports s)
unfolding IsSound tasks_of add_for add_track add_interleaved_track touch_session Session.track
add_for-IsSound now (udp_unicast rtp rtcp) t ports s k fresh (tracks, tasks) =
    (appended_tracks s _ k fresh tracks, appended_tasks s _ k fresh s.state refl tasks)
add_for-IsSound now (tcp_interleaved rtp rtcp) t ports s k fresh (tracks, tasks) =
    (appended_tracks s _ k fresh tracks, appended_tasks s _ k fresh s.state refl tasks)

pub played-IsSound :
    (lookup : InstanceLookup) (env : Environment) (s : RtspSession)
    → IsSound s
    → IsSound (played lookup env s (Session.play env.now s))
unfolding IsSound Session.play touch_session
played-IsSound lookup env s (tracks, tasks) =
    let names : names_of (played lookup env s (Session.play env.now s)).tracks ≡ names_of s.tracks =
      ground (arith, names_of-start_tasks lookup s.instance_id env.next_task s.tracks) in
    (subst AreTracks (sym names) tracks, inl (ground arith))

pub stopped-IsSound :
    (m : RtspSessionManager) (now : ℕ) (s : RtspSession)
    → IsSound s
    → IsSound (stopped m s (Session.pause now s))
unfolding IsSound Session.pause touch_session Session.teardown
stopped-IsSound m now s (tracks, tasks) =
    let names : names_of (stopped m s (Session.pause now s)).tracks ≡ names_of s.tracks =
      ground (arith, names_of-without_task s.tracks) in
    (subst AreTracks (sym names) tracks, ground (arith, tasks_of-without_task s.tracks))

pub touch_session-IsSound : (now : ℕ) (s : RtspSession) → IsSound s → IsSound (touch_session now s)
unfolding IsSound touch_session
touch_session-IsSound now s h = h
