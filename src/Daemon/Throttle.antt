-- ===== src/Daemon/Throttle.antt =====
-- `ThrottleControl`, `DecodeRegistration` and `ThrottleConfig` of
-- crates/vidcull-daemon/src/throttle.rs. An atomic is a field; a mutex is a field that one
-- operation reads and writes at a time (Throttle/Removal has the operations that hold two).
pub mod Covered
pub mod Removal
pub mod Levels
use package.vidcull.Prelude.{
  ℕ, ◌+◌, ◌*◌, ◌/◌, ◌≤◌, min, max, Bool, true, false, ◌||◌, not, Option, none, some, List, [], ◌∷◌,
  ◌++◌, any, retain, ◌==◌, if◌then◌else◌, length, get_elem?, set,
}
use package.vidcull.Prelude.Word.{sat_mul}
use package.vidcull.Prelude.Int.{ℤ}
use package.vidcull.Daemon.Paths.{FilePath, path_under_root}
use package.vidcull.Daemon.RateLimiter.{RateLimiter, new}

pub data CpuThrottle : Type 0 where
  full balanced eco : CpuThrottle

-- Durations are nanoseconds.
abbrev pub Duration : Type 0
Duration = ℕ

abbrev pub millis : ℕ → Duration
millis n = n * 1_000_000

-- `Arc<AtomicBool>`: an index into `flags`, which has one entry for each token ever made.
abbrev pub Token : Type 0
Token = ℕ

pub record ThrottleControl : Type 0 where
  pub cooldown_floor_ns : ℕ
  pub max_performance : Bool
  pub level_code : ℕ
  pub idle_workers : ℕ
  pub io_budget_cap : ℕ
  pub partial_clips : Bool
  pub indexing_paused : Bool
  pub removed_roots : List FilePath
  pub cleanup_pending : Bool
  pub active_decodes : List (FilePath × Token)
  pub flags : List Bool

-- `ThrottleControl::default()`.
abbrev pub default : ThrottleControl
default = record {
  cooldown_floor_ns = 0;
  max_performance = false;
  level_code = 0;
  idle_workers = 0;
  io_budget_cap = 0;
  partial_clips = false;
  indexing_paused = false;
  removed_roots = [];
  cleanup_pending = false;
  active_decodes = [];
  flags = [];
}

unfoldable pub cpu_throttle_cooldown : CpuThrottle → Duration
cpu_throttle_cooldown full = 0
cpu_throttle_cooldown balanced = millis 50
cpu_throttle_cooldown eco = millis 200

unfoldable pub cpu_throttle_to_u8 : CpuThrottle → ℕ
cpu_throttle_to_u8 full = 0
cpu_throttle_to_u8 balanced = 1
cpu_throttle_to_u8 eco = 2

unfoldable pub cpu_throttle_from_u8 : ℕ → CpuThrottle
cpu_throttle_from_u8 value =
    if value == 1
    then CpuThrottle.balanced
    else if value == 2
    then CpuThrottle.eco
    else CpuThrottle.full

abbrev pub is_full : CpuThrottle → Bool
is_full full = true
is_full balanced = false
is_full eco = false

unfoldable pub set_level : CpuThrottle → ThrottleControl → ThrottleControl
unfolding cpu_throttle_cooldown cpu_throttle_to_u8
set_level level c = record c {
  cooldown_floor_ns = cpu_throttle_cooldown level;
  max_performance = is_full level;
  level_code = cpu_throttle_to_u8 level;
}

unfoldable pub level : ThrottleControl → CpuThrottle
unfolding cpu_throttle_from_u8
level c = cpu_throttle_from_u8 c.level_code

unfoldable pub set_idle_workers : Option ℕ → ThrottleControl → ThrottleControl
set_idle_workers none c = record c { idle_workers = 0 }
set_idle_workers (some n) c = record c { idle_workers = n }

-- 0 stands for "not set".
abbrev pub nonzero : ℕ → Option ℕ
nonzero n = if n == 0 then none else some n

unfoldable pub idle_workers_override : ThrottleControl → Option ℕ
idle_workers_override c = nonzero c.idle_workers

unfoldable pub set_io_budget_cap : ℕ → ThrottleControl → ThrottleControl
set_io_budget_cap cap c = record c { io_budget_cap = cap }

unfoldable pub io_budget_cap : ThrottleControl → Option ℕ
io_budget_cap c = nonzero c.io_budget_cap

unfoldable pub set_partial_clips : Bool → ThrottleControl → ThrottleControl
set_partial_clips enabled c = record c { partial_clips = enabled }

unfoldable pub set_indexing_enabled : Bool → ThrottleControl → ThrottleControl
set_indexing_enabled enabled c = record c { indexing_paused = not enabled }

unfoldable pub indexing_enabled : ThrottleControl → Bool
indexing_enabled c = not c.indexing_paused

unfoldable pub effective_cooldown : Duration → ThrottleControl → Duration
effective_cooldown activity_cooldown c =
    if c.max_performance then 0 else max activity_cooldown c.cooldown_floor_ns

abbrev pub under_any : FilePath → List FilePath → Bool
under_any path roots = any (λ root. path_under_root path root) roots

unfoldable pub is_path_removed : FilePath → ThrottleControl → Bool
is_path_removed path c = under_any path c.removed_roots

-- The first half of `register_decode`: a fresh token, set at once if the path is removed.
unfoldable pub register_begin : FilePath → ThrottleControl → ThrottleControl
unfolding is_path_removed
register_begin path c = record c { flags = c.flags ++ is_path_removed path c ∷ [] }

-- The second half, under the same lock on `active_decodes`.
unfoldable pub register_push : FilePath → Token → ThrottleControl → ThrottleControl
register_push path token c = record c { active_decodes = c.active_decodes ++ (path, token) ∷ [] }

unfoldable pub register_decode : FilePath → ThrottleControl → ThrottleControl × Token
unfolding register_begin register_push
register_decode path c =
    let token = length c.flags in (register_push path token (register_begin path c), token)

-- `Drop for DecodeRegistration`.
unfoldable pub deregister_decode : Token → ThrottleControl → ThrottleControl
deregister_decode token c = record c {
  active_decodes = retain (λ e. not (e.1 == token)) c.active_decodes;
}

-- The first block of `mark_roots_removed`, under the lock on `removed_roots`.
unfoldable pub mark_extend : List FilePath → ThrottleControl → ThrottleControl
mark_extend roots c = record c { removed_roots = c.removed_roots ++ roots; cleanup_pending = true }

unfoldable pub mark_loop : List FilePath → List (FilePath × Token) → List Bool → List Bool
mark_loop roots [] flags = flags
mark_loop roots ((path, token) ∷ rest) flags =
    mark_loop roots rest (if under_any path roots then set flags token true else flags)

-- Its second block, under the lock on `active_decodes`.
unfoldable pub mark_tokens : List FilePath → ThrottleControl → ThrottleControl
unfolding mark_loop
mark_tokens roots c = record c { flags = mark_loop roots c.active_decodes c.flags }

unfoldable pub mark_roots_removed : List FilePath → ThrottleControl → ThrottleControl
unfolding mark_extend mark_tokens
mark_roots_removed [] c = c
mark_roots_removed (root ∷ roots) c = mark_tokens (root ∷ roots) (mark_extend (root ∷ roots) c)

unfoldable pub clear_removed_cleanup_pending : ThrottleControl → ThrottleControl
clear_removed_cleanup_pending c = record c { cleanup_pending = false }

unfoldable pub clear_removed_root_overlap : FilePath → ThrottleControl → ThrottleControl
clear_removed_root_overlap added c = record c {
  removed_roots =
      retain (λ root. not (path_under_root added root || path_under_root root added))
        c.removed_roots;
}

unfoldable pub cpu_throttle_idle_budget : CpuThrottle → ℕ → ℕ → ℕ
cpu_throttle_idle_budget full base_idle cores = min (sat_mul (max base_idle 1) 2) (max cores 1)
cpu_throttle_idle_budget balanced base_idle cores = max base_idle 1
cpu_throttle_idle_budget eco base_idle cores = max (max base_idle 1 / 2) 1

pub data Activity : Type 0 where
  idle user_active : Activity

pub record ThrottleConfig : Type 0 where
  pub idle_workers : ℕ
  pub active_workers : ℕ
  pub idle_disk_bytes_per_sec : ℕ
  pub active_disk_bytes_per_sec : ℕ
  pub disk_burst_bytes : ℕ
  pub active_cooldown : Duration

unfoldable pub worker_budget : ThrottleConfig → Activity → ℕ
worker_budget c idle = max c.idle_workers 1
worker_budget c user_active = max c.active_workers 1

unfoldable pub cooldown : ThrottleConfig → Activity → Duration
cooldown c idle = 0
cooldown c user_active = c.active_cooldown

unfoldable pub disk_rate : ThrottleConfig → Activity → ℕ
disk_rate c idle = c.idle_disk_bytes_per_sec
disk_rate c user_active = c.active_disk_bytes_per_sec

abbrev pub disk_limiter : ThrottleConfig → Activity → ℤ → RateLimiter
disk_limiter c activity now_ns = new (disk_rate c activity) c.disk_burst_bytes now_ns
