-- ===== src/Api/RateLimit/Isolation.antt =====
-- The keys of a rateLimiter do not disturb one another.
use shuosc_network_server_ba.Common.{
  ℕ, String, ◌≤◌, ◌≡◌, ◌≢◌, refl, ◌∙◌, ap, inl, inr, Bool, true, false, ◌&&◌, All, count, Option,
  none, some, List, [], ◌∷◌, arith, if◌then◌else◌, str_eq, eq_iff, Bool-cases,
}
use shuosc_network_server_ba.Api.RateLimit.Window.{passed, in_window, Ordered, allow-le-limit}
use shuosc_network_server_ba.Api.RateLimit.{
  Bucket, Limiter, allow_bucket, lookup, put, get_or_create, new_bucket, allow, new_rate_limiter,
}

pub lookup-put :
    (k j : String) (b : Bucket) (rl : Limiter)
    → lookup j (put k b rl) ≡ (if str_eq k j then some b else lookup j rl)
unfolding lookup put
lookup-put k j b [] = refl
lookup-put k j b (e ∷ es) =
    ground (arith, lookup-put k j b es, eq_iff k j, eq_iff e.key k, eq_iff e.key j)

-- The bucket of a key, or the one that the next call would make.
abbrev pub bucket_or : Bucket → Option Bucket → Bucket
bucket_or b none = b
bucket_or b (some c) = c

unfoldable pub bucket_of : String → ℕ → ℕ → Limiter → Bucket
bucket_of key limit window rl = bucket_or (new_bucket limit window) (lookup key rl)

get_or_create-bucket :
    (key : String) (limit window : ℕ) (rl : Limiter)
    → (get_or_create key limit window rl).0 ≡ bucket_of key limit window rl
unfolding get_or_create bucket_of
get_or_create-bucket key limit window rl = ground arith

get_or_create-other :
    (key other : String) (limit window : ℕ) (rl : Limiter)
    → key ≢ other
    → lookup other (get_or_create key limit window rl).1 ≡ lookup other rl
unfolding get_or_create
get_or_create-other key other limit window rl ne =
    ground (arith, lookup-put key other (new_bucket limit window) rl, eq_iff key other)

-- A call under a key answers as the bucket of the key does, leaves this bucket as that call on it
-- does, and touches no other key.
pub allow-isolated :
    (now : ℕ) (key : String) (limit window : ℕ) (rl : Limiter)
    → ((allow now key limit window rl).0 ≡ (allow_bucket now (bucket_of key limit window rl)).0)
      × (lookup key (allow now key limit window rl).1
          ≡ some (allow_bucket now (bucket_of key limit window rl)).1)
      × ((other : String)
          → key ≢ other
          → lookup other (allow now key limit window rl).1 ≡ lookup other rl)
unfolding allow
allow-isolated now key limit window rl =
    let b = get_or_create-bucket key limit window rl in
    (
      ap (λ c. (allow_bucket now c).0) b,
      rw (lookup-put, (eq_iff key key).1 refl) (ap (λ c. some (allow_bucket now c).1) b),
      λ other ne.
          rw lookup-put
            (ground (arith, eq_iff key other, get_or_create-other key other limit window rl ne)),
    )

bucket_of-same :
    (now : ℕ) (key : String) (limit window : ℕ) (rl : Limiter)
    → bucket_of key limit window (allow now key limit window rl).1
      ≡ (allow_bucket now (bucket_of key limit window rl)).1
bucket_of-same now key limit window rl =
    let own = (allow-isolated now key limit window rl).1 in
    unfold bucket_of in ap (bucket_or (new_bucket limit window)) own

bucket_of-other :
    (now : ℕ) (k key : String) (l w limit window : ℕ) (rl : Limiter)
    → str_eq k key ≡ false
    → bucket_of key limit window (allow now k l w rl).1 ≡ bucket_of key limit window rl
bucket_of-other now k key l w limit window rl differ =
    let same = (allow-isolated now k l w rl).2 key (λ e. cc ((eq_iff k key).1 e)) in
    unfold bucket_of in ap (bucket_or (new_bucket limit window)) same

pub and_false : (b : Bool) → (b && false) ≡ false
and_false true = refl
and_false false = refl

pub and_true : (b : Bool) → (b && true) ≡ b
and_true true = refl
and_true false = refl

-- A call of rateLimiter.allow at a time.
pub record Call : Type 0 where
  pub at : ℕ
  pub key : String
  pub limit : ℕ
  pub window : ℕ

-- The times at which calls under a key passed, the last one first, after any calls on the limiter.
unfoldable pub passed_under : String → List ℕ → List Call → Limiter → List ℕ
passed_under key history [] rl = history
passed_under key history (c ∷ cs) rl =
    let (ok, rl') = allow c.at c.key c.limit c.window rl in
    passed_under key (if ok && str_eq c.key key then c.at ∷ history else history) cs rl'

-- The times of the calls under a key.
abbrev pub times : String → List Call → List ℕ
times key [] = []
times key (c ∷ cs) = let rest = times key cs in if str_eq c.key key then c.at ∷ rest else rest

-- All calls under the key have this limit and this window.
abbrev pub Uniform : String → ℕ → ℕ → List Call → Type 0
Uniform key limit window cs = All (λ c. c.key ≡ key → (c.limit ≡ limit) × (c.window ≡ window)) cs

module _ (key : String) (limit window : ℕ) where
  abbrev SeesKey : List ℕ → List Call → Limiter → Type 0
  SeesKey history cs rl =
      passed_under key history cs rl ≡ passed history (times key cs) (bucket_of key limit window rl)

  -- What is left after a call, with the parts of the call on their own.
  abbrev after_call : List ℕ → ℕ → String → ℕ → ℕ → List Call → Limiter → List ℕ
  after_call history at k l w cs rl =
      let (ok, rl') = allow at k l w rl in
      passed_under key (if ok && str_eq k key then at ∷ history else history) cs rl'

  under_key :
      (history : List ℕ) (at : ℕ) (k : String) (l w : ℕ) (cs : List Call) (rl : Limiter)
      → k ≡ key
      → l ≡ limit
      → w ≡ window
      → ((h : List ℕ) → SeesKey h cs (allow at k l w rl).1)
      → after_call history at k l w cs rl
        ≡ passed history (at ∷ times key cs) (bucket_of key limit window rl)
  unfolding passed
  under_key history at k l w cs rl ek el ew rest =
      rest _
      ∙ rw (ek, el, ew, (eq_iff key key).1 refl, and_true)
          (rw (bucket_of-same at key limit window rl, (allow-isolated at key limit window rl).0))

  other_key :
      (history : List ℕ) (c : Call) (cs : List Call) (rl : Limiter)
      → str_eq c.key key ≡ false
      → ((h : List ℕ) → SeesKey h cs (allow c.at c.key c.limit c.window rl).1)
      → SeesKey history (c ∷ cs) rl
  unfolding passed_under
  other_key history c cs rl differ rest =
      rw (differ, and_false)
        (rest history
          ∙ ap (passed history (times key cs))
              (bucket_of-other c.at c.key key c.limit c.window limit window rl differ))

  same_key :
      (history : List ℕ) (c : Call) (cs : List Call) (rl : Limiter)
      → str_eq c.key key ≡ true
      → (c.limit ≡ limit) × (c.window ≡ window)
      → ((h : List ℕ) → SeesKey h cs (allow c.at c.key c.limit c.window rl).1)
      → SeesKey history (c ∷ cs) rl
  unfolding passed_under
  same_key history c cs rl same uniform rest =
      under_key history c.at c.key c.limit c.window cs rl ((eq_iff c.key key).0 same) uniform.0
        uniform.1 rest
      ∙ rw same

  passed_under-times :
      (history : List ℕ) (cs : List Call) (rl : Limiter)
      → Uniform key limit window cs
      → SeesKey history cs rl
  passed_under-times history [] rl uniform = unfold passed_under passed in refl
  passed_under-times history (c ∷ cs) rl uniform = elim (Bool-cases (str_eq c.key key)) [
    | inl same ↦
        same_key history c cs rl same (uniform.0 ((eq_iff c.key key).0 same))
          (λ h. passed_under-times h cs (allow c.at c.key c.limit c.window rl).1 uniform.1)
    | inr differ ↦
        other_key history c cs rl differ
          (λ h. passed_under-times h cs (allow c.at c.key c.limit c.window rl).1 uniform.1)
  ]

-- On a new limiter, under calls at times that do not go back and whatever calls are made under other
-- keys, at most `limit` calls under a key pass in any time span of the length of the window, if all
-- calls under this key are made with this limit and this window.
pub passed_under-le-limit :
    (key : String) (limit window : ℕ) (cs : List Call) (a : ℕ)
    → Uniform key limit window cs
    → Ordered 0 (times key cs)
    → count (in_window a window) (passed_under key [] cs new_rate_limiter) ≤ limit
unfolding lookup
passed_under-le-limit key limit window cs a uniform ordered =
    rw (passed_under-times key limit window [] cs new_rate_limiter uniform)
      (unfold bucket_of new_rate_limiter in allow-le-limit limit window (times key cs) a ordered)
