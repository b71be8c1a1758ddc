-- ===== src/Api/RateLimit.antt =====
-- internal/api/ratelimit.go: sliding-window limits per key. Times and windows are nanoseconds; a
-- time is a number, so the cutoff of a window that reaches before 0 is negative, and every
-- timestamp is after it.
pub mod Bounds
pub mod Window
pub mod Isolation
pub mod Endpoints
use shuosc_network_server_ba.Common.{
  ℕ, ◌+◌, ◌*◌, ◌^◌, String, Bool, true, false, ◌||◌, Option, none, some, List, [], ◌∷◌, ◌++◌, ltb,
  leb, if◌then◌else◌, str_eq, length, select,
}

-- rateLimitBucket; the mutex makes each call of `allow` one step.
pub record Bucket : Type 0 where
  pub timestamps : List ℕ
  pub limit : ℕ
  pub window : ℕ

-- `ts.After(now.Add(-window))`, with the window on the other side.
abbrev pub after_cutoff : ℕ → ℕ → ℕ → Bool
after_cutoff now window ts = ltb now (ts + window)

-- rateLimitBucket.allow at the time that time.Now() returns.
pub allow_bucket : ℕ → Bucket → Bool × Bucket
allow_bucket now b =
    let valid = select (after_cutoff now b.window) b.timestamps in
    if leb b.limit (length valid)
    then (false, record b { timestamps = valid })
    else (true, record b { timestamps = valid ++ (now ∷ []) })

-- rateLimiter: the map from keys to buckets.
pub record Entry : Type 0 where
  pub key : String
  pub bucket : Bucket

abbrev pub Limiter : Type 0
Limiter = List Entry

pub new_rate_limiter : Limiter
new_rate_limiter = []

unfoldable pub lookup : String → Limiter → Option Bucket
lookup key [] = none
lookup key (e ∷ es) = if str_eq e.key key then some e.bucket else lookup key es

-- The map holds pointers, so a bucket that changes changes in the map.
unfoldable pub put : String → Bucket → Limiter → Limiter
put key b [] = record { key = key; bucket = b } ∷ []
put key b (e ∷ es) =
    let rest = put key b es in if str_eq e.key key then record e { bucket = b } ∷ es else e ∷ rest

abbrev pub new_bucket : ℕ → ℕ → Bucket
new_bucket limit window = record { timestamps = []; limit = limit; window = window }

-- getOrCreate: a bucket that exists keeps its own limit and window.
pub get_or_create : String → ℕ → ℕ → Limiter → Bucket × Limiter
get_or_create key limit window rl = elim (lookup key rl) [
  | some b ↦ (b, rl)
  | none ↦ (new_bucket limit window, put key (new_bucket limit window) rl)
]

-- rateLimiter.allow.
pub allow : ℕ → String → ℕ → ℕ → Limiter → Bool × Limiter
unfolding get_or_create
allow now key limit window rl =
    let (b, rl') = get_or_create key limit window rl in
    let (passed, b') = allow_bucket now b in (passed, put key b' rl')
