-- ===== src/Mcp/LockTool/Others.antt =====
-- What a call of the tool does to the locks of other sessions.
use vscreen.Locks.Release.{release_state}
use vscreen.Mcp.LockTool.{
  Action, ConsolidatedLockParam, LockReply, acquires, asks, lock_acquire, lock_on, parse_action,
  parse_lock_type, releases, renews, vscreen_lock, request_of,
}
use vscreen.Mcp.Gate.{Draw}
use vscreen.Mcp.Gate.Frees.{and_right}
use vscreen.Base.Text.{Text, text_eq, to_lowercase}
use vscreen.Base.{
  Bool, Bool-cases, List, Option, [], any, any-append, any-update_first, ap, arith, at_if,
  at_option, false, if◌then◌else◌, inl, inr, ltb, max, none, refl, some, string_eq, sym, true,
  update_first, ℕ, ◌&&◌, ◌==◌, ◌∙◌, ◌∷◌, ◌≡◌, ◌≢◌, nat_eq,
}
use vscreen.Base.Assoc.{get, get-insert, get-remove}
use vscreen.Locks.State.{
  InstanceId, InstanceLockState, LockInfo, Result, SessionId, expiry, matches, WaitEntry,
  is_empty_state, is_ok, LockToken, LockType, err, instance_locked, not_held, ok, panics, timeout,
}
use vscreen.Locks.Range.{acquire_inner_checked, interrupted}
use vscreen.Locks.Waits.{
  Wait, acquire_checked, acquire_or_wait, after_attempt, after_wait, renew_checked,
}
use vscreen.Locks.Release.{remove_from_queue}
use vscreen.Locks.Acquire.{acquire_inner, Request, extended, granted, owned_by}
use vscreen.Locks.Acquire.Rules.{
  Acquires, held, observed, observes, renews_exclusive, renews_observer, takes,
  acquire_inner-Acquires,
}
use vscreen.Locks.Access.{renew_observer, renew_state, with_expiry}
use vscreen.Locks.Release.Holders.{any_lock, release_state-holders}
use vscreen.Locks.Manager.{
  InstanceLockManager, or_new, put, state_of, cleanup, release_entry, release_with_token, enqueue,
  give_up, renew_with_token,
}

any-extended :
    (t : SessionId) (r : Request) (now : ℕ) (ls : List LockInfo)
    → any (owned_by t) (update_first (owned_by r.session_id) (extended r now) ls)
      ≡ any (owned_by t) ls
any-extended t r now =
    any-update_first (owned_by t) (owned_by r.session_id) (extended r now) (λ l. refl)

Acquires-others :
    {st : InstanceLockState} {r : Request} {now token : ℕ}
    {out : InstanceLockState × Result LockInfo} (t : SessionId)
    → r.session_id ≢ t
    → Acquires st r now token out
    → any_lock (owned_by t) out.0 ≡ any_lock (owned_by t) st
Acquires-others t n (renews_exclusive l e mine o) = ground arith
Acquires-others t n (held l e other miss o) = ground arith
Acquires-others {st} {r} {now} t n (renews_observer l k hit o) =
    ground (arith, any-extended t r now st.observers)
Acquires-others {st} {r} {now} {token} t n (observes k free miss o) =
    ground (arith, any-append (owned_by t) st.observers (granted r now token ∷ []))
Acquires-others t n (takes k free who o) = elim who [
  | inl alone ↦ ground arith
  | inr own ↦ ground (arith, own.1, own.2)
]
Acquires-others t n (observed l ls k free os who o) = ground arith

holds-renew_state :
    (st : InstanceLockState) (s t : SessionId) (ttl : Option ℕ) (now : ℕ)
    → any_lock (owned_by t) (renew_state st s none ttl now).0 ≡ any_lock (owned_by t) st
unfolding renew_state renew_observer
holds-renew_state st s t ttl now = ground (
  arith,
  any-update_first (owned_by t) (matches s none) (with_expiry (expiry now ttl)) (λ l. refl)
      st.observers,
)

-- Whether a session holds some lock of an instance.
abbrev pub holds_some : InstanceLockManager → InstanceId → SessionId → Bool
holds_some m id t = any_lock (owned_by t) (state_of m id)

at_key :
    (t : SessionId) (b : Bool) (st : InstanceLockState) (o : Option InstanceLockState)
    → (b ≡ true → any_lock (owned_by t) st ≡ any_lock (owned_by t) (or_new o))
    → any_lock (owned_by t) (or_new (if b then some st else o)) ≡ any_lock (owned_by t) (or_new o)
at_key t true st o h = h refl
at_key t false st o h = refl

holds_some-put :
    (m : InstanceLockManager) (id j : InstanceId) (st : InstanceLockState) (t : SessionId)
    → any_lock (owned_by t) st ≡ any_lock (owned_by t) (state_of m id)
    → holds_some (put m id st) j t ≡ holds_some m j t
holds_some-put m id j st t h = rw (get-insert id j st m.locks) (
    at_key t (id == j) st (get j m.locks)
      (λ e. h ∙ ap (λ k. holds_some m k t) ((string_eq.beq_iff id j).0 e)))

holds_some-cleanup :
    (m : InstanceLockManager) (id j : InstanceId) (t : SessionId)
    → is_empty_state (state_of m id) ≡ true
    → holds_some (cleanup m id) j t ≡ holds_some m j t
unfolding cleanup is_empty_state
holds_some-cleanup m id j t h = rw (get-remove id j m.locks) (
    dropped (id == j) (get j m.locks)
      (λ e. ap (λ k. holds_some m k t) (sym ((string_eq.beq_iff id j).0 e)) ∙ ground arith))
  where
    dropped :
        (b : Bool) (o : Option InstanceLockState)
        → (b ≡ true → any_lock (owned_by t) (or_new o) ≡ false)
        → any_lock (owned_by t) (or_new (if b then none else o)) ≡ any_lock (owned_by t) (or_new o)
    dropped true o k = sym (k refl)
    dropped false o k = refl

-- A call by session or by no token.
holds_some-release :
    (m : InstanceLockManager) (id j : InstanceId) (s t : SessionId)
    → s ≢ t
    → holds_some (release_with_token m id s none).0 j t ≡ holds_some m j t
unfolding release_with_token release_entry
holds_some-release m id j s t n =
    elim (Bool-cases (is_ok after.2 && is_empty_state (state_of (put m id after.0) id))) [
      | inl gone ↦
          rw gone (holds_some-cleanup (put m id after.0) id j t (and_right _ _ gone) ∙ kept)
      | inr stays ↦ rw stays kept
    ]
  where
    after : InstanceLockState × List WaitEntry × Result Bool
    after = release_state (state_of m id) s none

    kept : holds_some (put m id after.0) j t ≡ holds_some m j t
    kept = holds_some-put m id j after.0 t ((release_state-holders (state_of m id) s none).2 t n)

holds_some-renew :
    (m : InstanceLockManager) (id j : InstanceId) (s t : SessionId) (ttl : Option ℕ) (now : ℕ)
    → holds_some (renew_with_token m id s none ttl now).0 j t ≡ holds_some m j t
unfolding renew_with_token
holds_some-renew m id j s t ttl now = go (get id m.locks) refl
  where
    go :
        (o : Option InstanceLockState)
        → get id m.locks ≡ o
        → holds_some (renew_with_token m id s none ttl now).0 j t ≡ holds_some m j t
    go none e = simp (e, renew_with_token) refl
    go (some st) e =
        simp (e, renew_with_token)
          (holds_some-put m id j _ t
            (holds-renew_state st s t ttl now ∙ ap (λ o. any_lock (owned_by t) (or_new o)) (sym e)))

holds-interrupted :
    (st : InstanceLockState) (r : Request) (t : SessionId)
    → r.session_id ≢ t
    → any_lock (owned_by t) (interrupted st r) ≡ any_lock (owned_by t) st
unfolding interrupted
holds-interrupted st r t n = go st.observers
  where
    go :
        (os : List LockInfo)
        → any_lock (owned_by t) (interrupted (record st { observers = os }) r)
          ≡ any_lock (owned_by t) (record st { observers = os })
    go [] = ground arith
    go (l ∷ []) = ground arith
    go (l ∷ k ∷ ls) = ground arith

holds-checked :
    (latest : ℕ) (st : InstanceLockState) (r : Request) (t : SessionId) (now token : ℕ)
    → r.session_id ≢ t
    → any_lock (owned_by t) (acquire_inner_checked latest st r now token).0
      ≡ any_lock (owned_by t) st
unfolding acquire_inner_checked
holds-checked latest st r t now token n =
    at_if
      (λ (out : InstanceLockState × Result LockInfo).
        any_lock (owned_by t) out.0 ≡ any_lock (owned_by t) st)
      (is_ok (acquire_inner st r now token).1 && ltb latest (expiry now r.ttl))
      (holds-interrupted st r t n) (Acquires-others t n (acquire_inner-Acquires st r now token))

holds_some-acquire_checked :
    (latest : ℕ) (m : InstanceLockManager) (id j : InstanceId) (r : Request) (t : SessionId)
    (now token : ℕ)
    → r.session_id ≢ t
    → holds_some (acquire_checked latest m id r now token).0 j t ≡ holds_some m j t
unfolding acquire_checked
holds_some-acquire_checked latest m id j r t now token n =
    holds_some-put m id j _ t (holds-checked latest (state_of m id) r t now token n)

holds_some-enqueue :
    (m : InstanceLockManager) (id j : InstanceId) (r : Request) (t : SessionId) (now : ℕ)
    → holds_some (enqueue m id r now) j t ≡ holds_some m j t
unfolding enqueue
holds_some-enqueue m id j r t now = holds_some-put m id j _ t refl

holds_some-give_up :
    (m : InstanceLockManager) (id j : InstanceId) (s t : SessionId)
    → holds_some (give_up m id s).0 j t ≡ holds_some m j t
unfolding give_up remove_from_queue
holds_some-give_up m id j s t = go (get id m.locks) refl
  where
    go :
        (o : Option InstanceLockState)
        → get id m.locks ≡ o
        → holds_some (give_up m id s).0 j t ≡ holds_some m j t
    go none e = simp (e, give_up) refl
    go (some st) e =
        simp (e, give_up)
          (holds_some-put m id j _ t (ap (λ o. any_lock (owned_by t) (or_new o)) (sym e)))

holds_some-renew_checked :
    (latest : ℕ) (m : InstanceLockManager) (id j : InstanceId) (s t : SessionId) (ttl : Option ℕ)
    (now : ℕ)
    → holds_some (renew_checked latest m id s none ttl now).0 j t ≡ holds_some m j t
unfolding renew_checked
holds_some-renew_checked latest m id j s t ttl now =
    at_option
      (λ (out : InstanceLockManager × Result LockInfo). holds_some out.0 j t ≡ holds_some m j t)
      (get id m.locks) (λ _. refl)
      (λ st _.
        at_if
          (λ (out : InstanceLockManager × Result LockInfo). holds_some out.0 j t ≡ holds_some m j t)
          (ltb latest (expiry now ttl)) refl (holds_some-renew m id j s t ttl now))

-- What other threads do leaves a session as it is: it holds some lock of the instance if it did.
abbrev pub Keeps : (InstanceLockManager → InstanceLockManager) → InstanceId → SessionId → Type 0
Keeps threads j t = (m : InstanceLockManager) → holds_some (threads m) j t ≡ holds_some m j t

module _ (latest : ℕ) (id j : InstanceId) (r : Request) (t : SessionId) (wait : Wait)
    (n : r.session_id ≢ t) (before : Keeps wait.before j t) (during : Keeps wait.during j t) where
  after_wait-others :
      (m : InstanceLockManager)
      → holds_some (after_wait latest id r wait m).0 j t ≡ holds_some m j t
  after_wait-others m =
      at_if
        (λ (out : InstanceLockManager × Result LockInfo). holds_some out.0 j t ≡ holds_some m j t)
        wait.notified
        (holds_some-acquire_checked latest m id j r t wait.again_at wait.again_token n)
        (holds_some-give_up m id j r.session_id t)

  after_attempt-others :
      (out : InstanceLockManager × Result LockInfo)
      → holds_some (after_attempt latest id r wait out).0 j t ≡ holds_some out.0 j t
  after_attempt-others (m, ok info) = refl
  after_attempt-others (m, err (instance_locked holder agent expires)) =
      after_wait-others (wait.during (enqueue (wait.before m) id r wait.queued_at))
      ∙ during (enqueue (wait.before m) id r wait.queued_at)
      ∙ holds_some-enqueue (wait.before m) id j r t wait.queued_at
      ∙ before m
  after_attempt-others (m, err not_held) = refl
  after_attempt-others (m, err timeout) = refl
  after_attempt-others (m, panics) = refl

  acquire_or_wait-others :
      (m : InstanceLockManager) (now token : ℕ)
      → holds_some (acquire_or_wait latest m id r now token wait).0 j t ≡ holds_some m j t
  unfolding acquire_or_wait
  acquire_or_wait-others m now token =
      after_attempt-others (acquire_checked latest m id r now token)
      ∙ holds_some-acquire_checked latest m id j r t now token n

module _ (parse_token : Text → Option LockToken) (from_std : ℕ → Option ℕ) (latest : ℕ) where
  lock_acquire-others :
      (m : InstanceLockManager) (s t : SessionId) (params : ConsolidatedLockParam) (id : InstanceId)
      (j : InstanceId) (kind : Option LockType) (draw : Draw) (wait : Wait)
      → s ≢ t
      → Keeps wait.before j t
      → Keeps wait.during j t
      → holds_some (lock_acquire parse_token from_std latest m s params id kind draw wait).0 j t
        ≡ holds_some m j t
  unfolding lock_acquire
  lock_acquire-others m s t params id j none draw wait n before during = refl
  lock_acquire-others m s t params id j (some k) draw wait n before during =
      at_if
        (λ (out : InstanceLockManager × Result LockInfo). holds_some out.0 j t ≡ holds_some m j t)
        (ltb 0 params.wait_timeout_seconds)
        (acquire_or_wait-others latest id j (request_of parse_token from_std latest s params k) t
          wait n before during m draw.now draw.token)
        (holds_some-acquire_checked latest m id j _ t draw.now draw.token n)

  lock_on-others :
      (m : InstanceLockManager) (s t : SessionId) (params : ConsolidatedLockParam) (draw : Draw)
      (wait : Wait) (action : Action) (at : Option InstanceId) (j : InstanceId)
      → params.lock_token ≡ none
      → s ≢ t
      → Keeps wait.before j t
      → Keeps wait.during j t
      → holds_some (lock_on parse_token from_std latest m s params draw wait action at).0 j t
        ≡ holds_some m j t
  unfolding lock_on
  lock_on-others m s t params draw wait acquires none j e n before during = refl
  lock_on-others m s t params draw wait acquires (some id) j e n before during =
      lock_acquire-others m s t params id j (parse_lock_type params.lock_type) draw wait n before
        during
  lock_on-others m s t params draw wait releases none j e n before during = refl
  lock_on-others m s t params draw wait releases (some id) j e n before during =
      rw e (holds_some-release m id j s t n)
  lock_on-others m s t params draw wait renews none j e n before during = refl
  lock_on-others m s t params draw wait renews (some id) j e n before during =
      rw e
        (holds_some-renew_checked latest m id j s t (from_std (max params.ttl_seconds 1)) draw.now)
  lock_on-others m s t params draw wait asks none j e n before during = refl
  lock_on-others m s t params draw wait asks (some id) j e n before during = refl

  -- A call of the tool that gives no lock token, whatever its action and its parameters, and also
  -- when it waits for the lock, neither takes a lock from another session nor gives it one: if what
  -- other threads do while it waits leaves alone whether the other session holds some lock of an
  -- instance, then that session holds some lock of it after the call exactly if it did before.
  pub vscreen_lock-others :
      (m : InstanceLockManager) (s t : SessionId) (params : ConsolidatedLockParam) (draw : Draw)
      (wait : Wait) (j : InstanceId)
      → params.lock_token ≡ none
      → s ≢ t
      → Keeps wait.before j t
      → Keeps wait.during j t
      → holds_some (vscreen_lock parse_token from_std latest m s params draw wait).0 j t
        ≡ holds_some m j t
  unfolding vscreen_lock
  vscreen_lock-others m s t params draw wait j e n before during =
      at_option (λ (out : InstanceLockManager × LockReply). holds_some out.0 j t ≡ holds_some m j t)
        (parse_action (to_lowercase params.action)) (λ _. refl)
        (λ action _.
          lock_on-others m s t params draw wait action params.instance_id j e n before during)
