-- ===== src/Locks/Acquire.antt =====
-- `acquire_inner` of lock_manager.rs, on the state of one instance.
pub mod Rules
pub mod Refusal
use vscreen.Base.{
  is_some, Bool, List, Option, String, [], false, find, if◌then◌else◌, is_empty, none, not, some,
  update_first, ℕ, ◌&&◌, ◌++◌, ◌==◌, ◌||◌, ◌∷◌, nat_eq, string_eq,
}
use vscreen.Locks.State.{
  SessionId, LockToken, LockType, exclusive, observer, LockInfo, InstanceLockState, instance_locked,
  Result, ok, err, panics, expiry,
}

-- The arguments of a call. `ttl` is what `chrono::Duration::from_std` made of the argument.
pub record Request : Type 0 where
  pub session_id : SessionId
  pub agent_name : Option String
  pub lock_type : LockType
  pub ttl : Option ℕ
  pub auto_acquired : Bool

abbrev or_else {ℓ} : {A : Type ℓ} → Option A → Option A → Option A
or_else (some a) b = some a
or_else none b = b

abbrev head? {ℓ} : {A : Type ℓ} → List A → Option A
head? [] = none
head? (x ∷ xs) = some x

-- A holder's own lock: a later expiry, and the new name if there is one.
abbrev pub extended : Request → ℕ → LockInfo → LockInfo
extended r now l = record l {
  expires_at = expiry now r.ttl;
  agent_name = or_else r.agent_name l.agent_name;
}

-- A lock of its own for the request, with a fresh token.
abbrev pub granted : Request → ℕ → LockToken → LockInfo
granted r now token = record {
  session_id = r.session_id;
  agent_name = r.agent_name;
  lock_type = r.lock_type;
  lock_token = token;
  acquired_at = now;
  expires_at = expiry now r.ttl;
  auto_acquired = r.auto_acquired;
}

abbrev pub owned_by : SessionId → LockInfo → Bool
owned_by s l = l.session_id == s

abbrev locked_by : Option LockInfo → Result LockInfo
locked_by none = panics
locked_by (some b) = err (instance_locked b.session_id b.agent_name b.expires_at)

abbrev pub is_single_of : SessionId → List LockInfo → Bool
is_single_of s [] = false
is_single_of s (l ∷ []) = owned_by s l
is_single_of s (l ∷ k ∷ ls) = false

grant_exclusive : InstanceLockState → Request → ℕ → LockToken → InstanceLockState × Result LockInfo
grant_exclusive st r now token =
    let info = granted r now token in
    if is_some st.exclusive || not (is_empty st.observers)
    then (if not (is_some st.exclusive) && is_single_of r.session_id st.observers
        then (record st { observers = []; exclusive = some info }, ok info)
        else (st, locked_by (or_else st.exclusive (head? st.observers))))
    else (record st { exclusive = some info }, ok info)

grant_observer : InstanceLockState → Request → ℕ → LockToken → InstanceLockState × Result LockInfo
grant_observer st r now token =
    let info = granted r now token in
    if is_some st.exclusive
    then (st, locked_by st.exclusive)
    else (record st { observers = st.observers ++ info ∷ [] }, ok info)

-- The part after the test of the exclusive holder.
acquire_other : InstanceLockState → Request → ℕ → LockToken → InstanceLockState × Result LockInfo
unfolding grant_exclusive grant_observer
acquire_other st r now token = elim r.lock_type [
  | exclusive ↦ grant_exclusive st r now token
  | observer ↦ elim (find (owned_by r.session_id) st.observers) [
    | some o ↦ (
      record st { observers = update_first (owned_by r.session_id) (extended r now) st.observers },
      ok (extended r now o),
    )
    | none ↦ grant_observer st r now token
  ]
]

unfoldable pub acquire_inner :
    InstanceLockState → Request → ℕ → LockToken → InstanceLockState × Result LockInfo
unfolding acquire_other
acquire_inner st r now token = elim st.exclusive [
  | some exc ↦
      if owned_by r.session_id exc
      then (record st { exclusive = some (extended r now exc) }, ok (extended r now exc))
      else acquire_other st r now token
  | none ↦ acquire_other st r now token
]
