-- ===== src/Mcp/Tests.antt =====
-- The lock gate and the lock tool on small managers.
use vscreen.Locks.Access.{auto_state, check_state}
use vscreen.Locks.Release.{release_state}
use vscreen.Locks.Promote.{try_promote}
use vscreen.Locks.Waits.{Wait, acquire_checked, acquire_or_wait}
use vscreen.Locks.Range.{acquire_inner_checked, interrupted}
use vscreen.Base.{
  Bool, [], arith, false, none, refl, some, subst, true, ℕ, ◌*◌, ◌^◌, ◌∷◌, ◌≡◌, nat_eq, string_eq,
}
use vscreen.Base.Text.{codes, text_eq}
use vscreen.Locks.State.{
  LockInfo, SessionId, err, exclusive, instance_locked, is_ok, observer, ok, is_empty_state,
  to_status,
}
use vscreen.Locks.Acquire.{Request, acquire_inner, granted}
use vscreen.Locks.Manager.{
  InstanceLockManager, acquire, is_auto_acquired, new_manager, check_access_with_token,
  release_with_token,
}
use vscreen.Locks.Manager.Invariant.{IsSound, acquires, new_manager-IsSound, run, run-IsSound, step}
use vscreen.Mcp.Gate.{Draw, auto_request, check_access, require_lock, status}
use vscreen.Mcp.Gate.Access.{require_lock-Passes}
use vscreen.Mcp.Gate.Reclaim.{require_lock-explicit, require_lock-reclaims}
use vscreen.Mcp.Gate.Steals.{explicit_lock_stolen}
use vscreen.Mcp.LockTool.{ConsolidatedLockParam, enrich, released, vscreen_lock, fails, panicked}
use vscreen.Mcp.LockTool.Others.{holds_some, vscreen_lock-others}
use vscreen.Mcp.LockTool.Status.{enrich-check_access}

abbrev drawn : ℕ → Draw
drawn n = record { now = n; token = n }

abbrev lock_of : SessionId → Bool → LockInfo
lock_of s auto = record {
  session_id = s;
  agent_name = none;
  lock_type = exclusive;
  lock_token = 70;
  acquired_at = 0;
  expires_at = 120_000;
  auto_acquired = auto;
}

abbrev locked : LockInfo → InstanceLockManager
locked l = record {
  locks = ("dev", record { exclusive = some l; observers = []; wait_queue = [] }) ∷ [];
  active_sessions = [];
}

abbrev wants : SessionId → Request
wants s = record {
  session_id = s;
  agent_name = none;
  lock_type = exclusive;
  ttl = some 1_000;
  auto_acquired = false;
}

-- The manager after one step from the new one.
abbrev after_auto : InstanceLockManager
after_auto = run new_manager (acquires "dev" (auto_request 1 exclusive) 0 70 ∷ [])

after_auto-IsSound : IsSound after_auto
after_auto-IsSound = run-IsSound new_manager _ new_manager-IsSound

after_auto_lem : after_auto ≡ locked (lock_of 1 true)
unfolding run step acquire acquire_inner
after_auto_lem = refl

locked-IsSound : IsSound (locked (lock_of 1 true))
locked-IsSound = subst IsSound after_auto_lem after_auto-IsSound

taken_over : require_lock false (locked (lock_of 1 true)) "dev" 2 observer (drawn 5) (drawn 6) ≡ (
  record {
    locks =
        (
          "dev",
          record {
            exclusive = none;
            observers = granted (auto_request 2 observer) 6 6 ∷ [];
            wait_queue = [];
          },
        )
        ∷ [];
    active_sessions = [];
  },
  ok tt,
)
unfolding require_lock check_access_with_token check_state is_auto_acquired auto_state acquire
    acquire_inner status to_status release_with_token release_state is_empty_state try_promote
taken_over = refl

require_lock-Passes_example :
    IsSound (require_lock false (locked (lock_of 1 true)) "dev" 2 observer (drawn 5) (drawn 6)).0
require_lock-Passes_example =
    (require_lock-Passes (locked (lock_of 1 true)) "dev" 2 observer (drawn 5) (drawn 6)
      locked-IsSound).0

require_lock-explicit_example :
    require_lock false (locked (lock_of 1 false)) "dev" 2 observer (drawn 5) (drawn 6)
    ≡ (locked (lock_of 1 false), err (instance_locked 1 none 120_000))
require_lock-explicit_example =
    require_lock-explicit (locked (lock_of 1 false)) "dev" (lock_of 1 false) 2 observer (drawn 5)
      (drawn 6) refl refl

require_lock-reclaims_example :
    is_ok (require_lock false (locked (lock_of 1 true)) "dev" 2 exclusive (drawn 5) (drawn 6)).1
    ≡ true
require_lock-reclaims_example =
    require_lock-reclaims (locked (lock_of 1 true)) "dev" 2 exclusive (drawn 5) (drawn 6)
      locked-IsSound (unfold is_auto_acquired auto_state in refl)

explicit_lock_stolen_example :
    is_ok (acquire (locked (lock_of 1 true)) "dev" (wants 1) 8 80).1 ≡ true
explicit_lock_stolen_example =
    (explicit_lock_stolen (locked (lock_of 1 true)) "dev" (lock_of 1 true) (wants 1) 8 80 2
      (drawn 9) (drawn 10) locked-IsSound refl refl refl (λ e. absurd (omega arith))).0

enrich-check_access_example :
    (enrich 1 (status (locked (lock_of 1 true)) "dev")).you_hold_exclusive
    ≡ is_ok (check_access (locked (lock_of 1 true)) "dev" 1 exclusive)
enrich-check_access_example =
    (enrich-check_access (locked (lock_of 1 true)) "dev" 1 locked-IsSound).0

abbrev asked : ConsolidatedLockParam
asked = record {
  action = codes "Release";
  instance_id = some "dev";
  lock_type = codes "exclusive";
  agent_name = none;
  ttl_seconds = 0;
  wait_timeout_seconds = 0;
  lock_token = none;
}

-- The last time, in milliseconds, of these tests; and a wait in which nothing else happens.
abbrev last_time : ℕ
last_time = 10 ^ 12

abbrev alone : Wait
alone = record {
  before = λ m. m;
  queued_at = 5;
  during = λ m. m;
  notified = false;
  again_at = 6;
  again_token = 90;
}

abbrev waits : ConsolidatedLockParam
waits = record asked { action = codes "acquire"; wait_timeout_seconds = 3 }

released_own :
    vscreen_lock
      (λ s. none)
      (λ n. some (1_000 * n))
      last_time
      (locked (lock_of 1 true))
      1
      asked
      (drawn 4)
      alone
    ≡ (new_manager, released false)
unfolding vscreen_lock release_with_token release_state is_empty_state try_promote
released_own = refl

-- A time to live that leads out of chrono's range.
too_long :
    (vscreen_lock
      (λ s. none)
      (λ n. some (1_000 * n))
      last_time
      new_manager
      1
      (record waits { ttl_seconds = 10 ^ 13 })
      (drawn 4)
      alone).1
    ≡ fails panicked
unfolding vscreen_lock acquire_or_wait acquire_checked acquire_inner_checked acquire_inner
    interrupted
too_long = refl

vscreen_lock-others_example :
    holds_some
      (vscreen_lock
        (λ s. none)
        (λ n. some (1_000 * n))
        last_time
        (locked (lock_of 1 true))
        2
        waits
        (drawn 4)
        alone).0
      "dev"
      1
    ≡ true
vscreen_lock-others_example =
    vscreen_lock-others (λ s. none) (λ n. some (1_000 * n)) last_time (locked (lock_of 1 true)) 2 1
      waits (drawn 4) alone "dev" refl (λ e. absurd (omega arith)) (λ m. refl) (λ m. refl)
