-- ===== src/Locks/Range/Decisions.antt =====
-- When a call of `acquire_inner` is refused, granted or panics.
use vscreen.Base.{Bool, Option, false, none, some, true, ℕ, ◌+◌, ◌<◌, ◌≡◌, ◌≤◌, nat_eq, string_eq}
use vscreen.Locks.State.{InstanceLockState, LockInfo, Result, ok, panics}
use vscreen.Locks.Acquire.{Request}
use vscreen.Locks.Acquire.Refusal.{conflicts, is_refused}

abbrev is_panic {ℓ} : {A : Type ℓ} → Result A → Bool
is_panic panics = true
is_panic _ = false

-- The time until which a lock is asked for: two minutes where the argument was no duration.
abbrev pub until : ℕ → Option ℕ → ℕ
until now none = now + 120_000
until now (some ttl) = now + ttl

-- The call gives the session a lock until a time.
abbrev pub Grants : ℕ → Request → InstanceLockState × Result LockInfo → Type 0
Grants time r out =
    (l : LockInfo) × (out.1 ≡ ok l) × (l.session_id ≡ r.session_id) × (l.expires_at ≡ time)

-- What a call does, by whether it conflicts and by the time until which the lock would be held.
abbrev pub DecidesWithin :
    ℕ → ℕ → InstanceLockState → Request → InstanceLockState × Result LockInfo → Type 0
DecidesWithin latest time st r out =
    (conflicts st r ≡ true → (is_refused out.1 ≡ true) × (out.0 ≡ st))
    × (conflicts st r ≡ false → time ≤ latest → Grants time r out)
    × (conflicts st r ≡ false → latest < time → is_panic out.1 ≡ true)
