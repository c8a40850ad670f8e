-- ===== src/Locks/State.antt =====
-- The lock state of one instance: `InstanceLockState` and `LockError` of lock_manager.rs, with the
-- lock types of crates/vscreen-core/src/instance.rs. A UUID is the number that it stands for; a
-- time is in milliseconds. The sender half of a waiter's one-shot channel is the waiter's entry.
use vscreen.Base.{
  is_some, Bool, List, Option, String, [], false, is_empty, none, not, some, true, ℕ, ◌&&◌, ◌+◌,
  ◌==◌, ◌||◌, nat_eq, string_eq,
}

abbrev pub SessionId : Type 0
SessionId = ℕ

abbrev pub LockToken : Type 0
LockToken = ℕ

abbrev pub InstanceId : Type 0
InstanceId = String

pub data LockType : Type 0 where
  exclusive observer : LockType

pub record LockInfo : Type 0 where
  pub session_id : SessionId
  pub agent_name : Option String
  pub lock_type : LockType
  pub lock_token : LockToken
  pub acquired_at : ℕ
  pub expires_at : ℕ
  pub auto_acquired : Bool

pub record WaitEntry : Type 0 where
  pub session_id : SessionId
  pub agent_name : Option String
  pub requested_lock_type : LockType
  pub queued_at : ℕ

pub record InstanceLockState : Type 0 where
  pub exclusive : Option LockInfo
  pub observers : List LockInfo
  pub wait_queue : List WaitEntry

pub record LockStatus : Type 0 where
  pub instance_id : InstanceId
  pub exclusive_holder : Option LockInfo
  pub observers : List LockInfo
  pub wait_queue : List WaitEntry

pub data LockError : Type 0 where
  instance_locked : SessionId → Option String → ℕ → LockError
  not_held : LockError
  timeout : LockError

-- What a method returns; `panics` is a failed `unwrap`. The instance that `NotHeld` and `Timeout`
-- name is the one of the call, and is not repeated.
pub data Result {ℓ} (A : Type ℓ) : Type ℓ where
  ok : A → Result A
  err : LockError → Result A
  panics : Result A

abbrev pub is_ok {ℓ} : {A : Type ℓ} → Result A → Bool
is_ok (ok a) = true
is_ok (err e) = false
is_ok panics = false

abbrev pub new : InstanceLockState
new = record { exclusive = none; observers = []; wait_queue = [] }

unfoldable pub is_empty_state : InstanceLockState → Bool
is_empty_state st = not (is_some st.exclusive) && is_empty st.observers && is_empty st.wait_queue

unfoldable pub to_status : InstanceId → InstanceLockState → LockStatus
to_status id st = record {
  instance_id = id;
  exclusive_holder = st.exclusive;
  observers = st.observers;
  wait_queue = st.wait_queue;
}

-- The closure `matches`: by session, or by token where one is given.
abbrev pub matches : SessionId → Option LockToken → LockInfo → Bool
matches s none info = info.session_id == s
matches s (some t) info = info.session_id == s || info.lock_token == t

-- `Utc::now() + Duration::from_std(ttl).unwrap_or(120 s)`, where `ttl` is what the conversion gave.
-- This is the sum where chrono has the time; beyond, it panics, as Locks/Range and Locks/Waits model.
abbrev pub expiry : ℕ → Option ℕ → ℕ
expiry now none = now + 120_000
expiry now (some ttl) = now + ttl
