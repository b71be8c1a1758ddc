-- ===== src/Api/RateLimit/Bounds.antt =====
-- One bucket over time: a run of calls at the times of a list.
use shuosc_network_server_ba.Common.{
  ℕ, ◌≤◌, ◌≡◌, [], ◌∷◌, arith, ltb, length, select, length-append, length-select-le,
}
use shuosc_network_server_ba.Api.RateLimit.{Bucket, allow_bucket, after_cutoff}

-- A call changes neither the limit nor the window, and it passes exactly when fewer than `limit`
-- timestamps lie in the window that ends now.
pub allow_bucket-config :
    (now : ℕ) (b : Bucket)
    → ((allow_bucket now b).1.limit ≡ b.limit) × ((allow_bucket now b).1.window ≡ b.window)
unfolding allow_bucket
allow_bucket-config now b = ground arith

pub allow_bucket-passes :
    (now : ℕ) (b : Bucket)
    → (allow_bucket now b).0
      ≡ ltb (length (select (after_cutoff now b.window) b.timestamps)) b.limit
unfolding allow_bucket
allow_bucket-passes now b = ground arith

-- A bucket never holds more timestamps than its limit.
pub allow_bucket-bounded :
    (now : ℕ) (b : Bucket)
    → length b.timestamps ≤ b.limit
    → length (allow_bucket now b).1.timestamps ≤ b.limit
unfolding allow_bucket
allow_bucket-bounded now b h =
    let kept = select (after_cutoff now b.window) b.timestamps in
    ground (
      arith,
      length-append kept (now ∷ []),
      length-select-le (after_cutoff now b.window) b.timestamps,
    )
