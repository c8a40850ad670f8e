-- ===== src/Rtsp/Session/Manager/Reaping.antt =====
-- What the reaper and the shutdown leave.
use vscreen.Base.Assoc.{get, keys, get-remove}
use vscreen.Base.Text.{Text, text_eq}
use vscreen.Base.{
  Bool, Bool-cases, List, Option, [], any, ap, arith, false, inl, inr, none, refl, retain, some,
  sym, true, ℕ, ◌==◌, ◌||◌, ◌∙◌, ◌∷◌, ◌≡◌, nat_eq, string_eq,
}
use vscreen.Rtsp.Session.{RtspSession, is_expired}
use vscreen.Rtsp.Session.Manager.{
  RtspSessionManager, reap_expired, remove_each, teardown_all, remove_session, remove_found,
}

-- Each session has an entry of its own, as in the program's map.
unfoldable pub IsMap : List (Text × RtspSession) → Type 0
IsMap [] = Unit
IsMap ((id, s) ∷ m) = (get id m ≡ none) × IsMap m

abbrev pub unless : Bool → Option RtspSession → Option RtspSession
unless true o = none
unless false o = o

get-remove_found :
    (m : RtspSessionManager) (id k : Text) (o : Option RtspSession)
    → get id m.sessions ≡ o
    → get k (remove_found m id o).manager.sessions ≡ unless (id == k) (get k m.sessions)
unfolding remove_found
get-remove_found m id k none e = elim (Bool-cases (id == k)) [
  | inl hit ↦ rw hit (ap (λ x. get x m.sessions) (sym ((text_eq.beq_iff id k).0 hit)) ∙ e)
  | inr miss ↦ rw miss refl
]
get-remove_found m id k (some s) e = ground (arith, get-remove id k m.sessions)

get-remove_one :
    (m : RtspSessionManager) (id k : Text)
    → get k (remove_session m id).manager.sessions ≡ unless (id == k) (get k m.sessions)
unfolding remove_session
get-remove_one m id k = get-remove_found m id k (get id m.sessions) refl

unless-or : (a b : Bool) (o : Option RtspSession) → unless a (unless b o) ≡ unless (b || a) o
unless-or true true o = refl
unless-or true false o = refl
unless-or false true o = refl
unless-or false false o = refl

pub get-remove_each :
    (m : RtspSessionManager) (ids : List Text) (k : Text)
    → get k (remove_each m ids).0.sessions ≡ unless (any (λ id. id == k) ids) (get k m.sessions)
unfolding remove_each
get-remove_each m [] k = refl
get-remove_each m (id ∷ ids) k =
    get-remove_each (remove_session m id).manager ids k
    ∙ ap (unless (any (λ x. x == k) ids)) (get-remove_one m id k)
    ∙ unless-or (any (λ x. x == k) ids) (id == k) (get k m.sessions)

-- Whether the map has an entry for the key that passes a test.
abbrev pub holds_for : (RtspSession → Bool) → Option RtspSession → Bool
holds_for p none = false
holds_for p (some s) = p s

any-keys-retain :
    (p : RtspSession → Bool) (k : Text) (m : List (Text × RtspSession))
    → IsMap m
    → any (λ id. id == k) (keys (retain (λ e. p e.1) m)) ≡ holds_for p (get k m)
unfolding IsMap
any-keys-retain p k [] h = refl
any-keys-retain p k ((j, s) ∷ m) h = elim (Bool-cases (j == k)) [
  | inl hit ↦
      let absent : get k m ≡ none = ap (λ x. get x m) (sym ((text_eq.beq_iff j k).0 hit)) ∙ h.0 in
      let rest = any-keys-retain p k m h.1 ∙ ap (holds_for p) absent in
      elim (Bool-cases (p s)) [ inl t ↦ rw (t, hit) (sym t) | inr f ↦ rw (f, hit) (rest ∙ sym f) ]
  | inr miss ↦ elim (Bool-cases (p s)) [
    | inl t ↦ rw (t, miss) (any-keys-retain p k m h.1)
    | inr f ↦ rw (f, miss) (any-keys-retain p k m h.1)
  ]
]

-- Where each session has one entry, the reaper takes out the sessions that have been idle for longer
-- than the timeout and no others: looking a session up afterwards gives what it gave before, except
-- that an expired session is not found.
pub get-reap_expired :
    (now : ℕ) (m : RtspSessionManager) (k : Text)
    → IsMap m.sessions
    → get k (reap_expired now m).0.sessions
      ≡ unless (holds_for (is_expired now m.timeout) (get k m.sessions)) (get k m.sessions)
unfolding reap_expired
get-reap_expired now m k h =
    get-remove_each m _ k
    ∙ ap (λ b. unless b (get k m.sessions))
        (any-keys-retain (is_expired now m.timeout) k m.sessions h)

none_left :
    (k : Text) (m : List (Text × RtspSession))
    → unless (any (λ id. id == k) (keys m)) (get k m) ≡ none
none_left k [] = refl
none_left k ((j, s) ∷ m) = ground (arith, none_left k m)

-- After `teardown_all`, as at the shutdown, no session is found.
get-teardown_all : (m : RtspSessionManager) (k : Text) → get k (teardown_all m).0.sessions ≡ none
unfolding teardown_all
get-teardown_all m k = get-remove_each m (keys m.sessions) k ∙ none_left k m.sessions
