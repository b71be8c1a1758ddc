-- ===== src/Api/RateLimit/Window.antt =====
-- The sliding window of rateLimitBucket.allow, seen over any run of calls on one bucket.
use shuosc_network_server_ba.Common.{
  ℕ, ◌+◌, ◌≤◌, ◌<◌, ◌≡◌, refl, sym, ◌∙◌, inl, inr, Bool, true, false, ◌&&◌, List, [], ◌∷◌, ◌++◌,
  arith, ltb, leb, if◌then◌else◌, length, select, count, All, length-select, Bool-cases,
}
use shuosc_network_server_ba.Api.RateLimit.{Bucket, allow_bucket, after_cutoff, new_bucket}

-- The times at which calls passed, the last one first, after calls at the given times.
unfoldable pub passed : List ℕ → List ℕ → Bucket → List ℕ
passed history [] b = history
passed history (now ∷ later) b =
    let (ok, b') = allow_bucket now b in passed (if ok then now ∷ history else history) later b'

-- A time lies in the window that ends at `a`.
abbrev pub in_window : ℕ → ℕ → ℕ → Bool
in_window a window t = leb t a && ltb a (t + window)

-- The limit as a rule over the whole history, with nothing forgotten.
pub passed_by_rule : ℕ → ℕ → List ℕ → List ℕ → List ℕ
passed_by_rule limit window history [] = history
passed_by_rule limit window history (now ∷ later) =
    passed_by_rule limit window
      (if ltb (count (in_window now window) history) limit then now ∷ history else history) later

-- The clock does not go back.
abbrev pub Ordered : ℕ → List ℕ → Type 0
Ordered last [] = Unit
Ordered last (now ∷ later) = (last ≤ now) × Ordered now later

count-append :
    (p : ℕ → Bool) (xs : List ℕ) (t : ℕ)
    → count p (xs ++ (t ∷ [])) ≡ count p xs + (if p t then 1 else 0)
count-append p [] t = ground arith
count-append p (x ∷ xs) t = ground (arith, count-append p xs t)

-- What the cutoff of an earlier time drops, a later one drops too.
count-select :
    (now a window : ℕ) (xs : List ℕ)
    → now ≤ a
    → count (after_cutoff a window) (select (after_cutoff now window) xs)
      ≡ count (after_cutoff a window) xs
count-select now a window [] h = refl
count-select now a window (x ∷ xs) h = ground (arith, count-select now a window xs)

count-cutoff-le :
    (now a window : ℕ) (xs : List ℕ)
    → now ≤ a
    → count (after_cutoff a window) xs ≤ count (after_cutoff now window) xs
count-cutoff-le now a window [] h = omega arith
count-cutoff-le now a window (x ∷ xs) h = ground (arith, count-cutoff-le now a window xs)

count-in_window :
    (last a window : ℕ) (xs : List ℕ)
    → All (λ t. t ≤ last) xs
    → last ≤ a
    → count (in_window a window) xs ≡ count (after_cutoff a window) xs
count-in_window last a window [] past h = refl
count-in_window last a window (x ∷ xs) past h =
    ground (arith, count-in_window last a window xs past.1)

All-le : (last now : ℕ) (xs : List ℕ) → last ≤ now → All (λ t. t ≤ last) xs → All (λ t. t ≤ now) xs
All-le last now [] h past = tt
All-le last now (x ∷ xs) h past = (omega arith, All-le last now xs h past.1)

-- The bucket remembers of the history what any later window can see, and every window of the history
-- respects the limit.
record Tracks (history : List ℕ) (last : ℕ) (b : Bucket) : Type 0 where
  past : All (λ t. t ≤ last) history
  counts :
      (a : ℕ)
      → last ≤ a
      → count (after_cutoff a b.window) b.timestamps ≡ count (after_cutoff a b.window) history
  bounded : (a : ℕ) → count (in_window a b.window) history ≤ b.limit

module _ (history : List ℕ) (last now : ℕ) (b : Bucket) (h : last ≤ now)
    (tracks : Tracks history last b) where
  -- The test of the code is the test of the rule.
  test_by_rule :
      length (select (after_cutoff now b.window) b.timestamps)
      ≡ count (in_window now b.window) history
  test_by_rule =
      length-select (after_cutoff now b.window) b.timestamps
      ∙ tracks.counts now h
      ∙ sym (count-in_window last now b.window history tracks.past h)

  abbrev valid : List ℕ
  valid = select (after_cutoff now b.window) b.timestamps

  Tracks-refused : Tracks history now (record b { timestamps = valid })
  Tracks-refused = record {
    past = All-le last now history h tracks.past;
    counts = λ a ha. count-select now a b.window b.timestamps ha ∙ tracks.counts a (omega arith);
    bounded = tracks.bounded;
  }

  Tracks-passed :
      count (in_window now b.window) history < b.limit
      → Tracks (now ∷ history) now (record b { timestamps = valid ++ (now ∷ []) })
  Tracks-passed room = record {
    past = (omega arith, All-le last now history h tracks.past);
    counts = λ a ha. ground (
      arith,
      count-append (after_cutoff a b.window) valid now,
      count-select now a b.window b.timestamps ha,
      tracks.counts a (omega arith),
    );
    bounded = λ a. ground (
      arith,
      tracks.bounded a,
      count-in_window last a b.window history tracks.past,
      count-in_window last now b.window history tracks.past h,
      count-cutoff-le now a b.window history,
    );
  }

Tracks-new : (limit window last : ℕ) → Tracks [] last (new_bucket limit window)
Tracks-new limit window last = record {
  past = tt;
  counts = λ a h. refl;
  bounded = λ a. omega arith;
}

allow_bucket-full :
    (now : ℕ) (b : Bucket)
    → leb b.limit (length (select (after_cutoff now b.window) b.timestamps)) ≡ true
    → allow_bucket now b
      ≡ (false, record b { timestamps = select (after_cutoff now b.window) b.timestamps })
unfolding allow_bucket
allow_bucket-full now b e = rw e

allow_bucket-room :
    (now : ℕ) (b : Bucket)
    → leb b.limit (length (select (after_cutoff now b.window) b.timestamps)) ≡ false
    → allow_bucket now b ≡ (
      true,
      record b { timestamps = select (after_cutoff now b.window) b.timestamps ++ (now ∷ []) },
    )
unfolding allow_bucket
allow_bucket-room now b e = rw e

-- The code and the rule agree, and the limit holds, for the calls at the given times.
abbrev Agrees : List ℕ → List ℕ → Bucket → Type 0
Agrees history times b =
    (passed history times b ≡ passed_by_rule b.limit b.window history times)
    × ((a : ℕ) → count (in_window a b.window) (passed history times b) ≤ b.limit)

passed-refused :
    (history : List ℕ) (now : ℕ) (later : List ℕ) (b : Bucket)
    → leb b.limit (length (select (after_cutoff now b.window) b.timestamps)) ≡ true
    → ltb (count (in_window now b.window) history) b.limit ≡ false
    → Agrees history later
        (record b { timestamps = select (after_cutoff now b.window) b.timestamps })
    → Agrees history (now ∷ later) b
unfolding passed passed_by_rule
passed-refused history now later b full rule rest = rw (allow_bucket-full now b full, rule) rest

passed-room :
    (history : List ℕ) (now : ℕ) (later : List ℕ) (b : Bucket)
    → leb b.limit (length (select (after_cutoff now b.window) b.timestamps)) ≡ false
    → ltb (count (in_window now b.window) history) b.limit ≡ true
    → Agrees
        (now ∷ history)
        later
        (record b { timestamps = select (after_cutoff now b.window) b.timestamps ++ (now ∷ []) })
    → Agrees history (now ∷ later) b
unfolding passed passed_by_rule
passed-room history now later b room rule rest = rw (allow_bucket-room now b room, rule) rest

passed-by-rule :
    (history : List ℕ) (last : ℕ) (times : List ℕ) (b : Bucket)
    → Ordered last times
    → Tracks history last b
    → Agrees history times b
passed-by-rule history last [] b o tracks = unfold passed passed_by_rule in (refl, tracks.bounded)
passed-by-rule history last (now ∷ later) b o tracks =
    let same = test_by_rule history last now b o.0 tracks in
    elim (Bool-cases (leb b.limit (length (valid history last now b o.0 tracks)))) [
      | inl full ↦
          passed-refused history now later b full (ground arith)
            (passed-by-rule history now later _ o.1 (Tracks-refused history last now b o.0 tracks))
      | inr room ↦ passed-room history now later b room (ground arith) (
          passed-by-rule (now ∷ history) now later _ o.1
            (Tracks-passed history last now b o.0 tracks (ground arith)))
    ]

-- On a new bucket, at times that do not go back, the calls that pass are those that the rule over the
-- whole history lets pass: what the bucket forgets never matters.
pub allow-by-rule :
    (limit window : ℕ) (times : List ℕ)
    → Ordered 0 times
    → passed [] times (new_bucket limit window) ≡ passed_by_rule limit window [] times
allow-by-rule limit window times o =
    (passed-by-rule [] 0 times (new_bucket limit window) o (Tracks-new limit window 0)).0

-- On a new bucket, at times that do not go back, at most `limit` calls pass in any time span of the
-- length of the window, wherever it ends.
pub allow-le-limit :
    (limit window : ℕ) (times : List ℕ) (a : ℕ)
    → Ordered 0 times
    → count (in_window a window) (passed [] times (new_bucket limit window)) ≤ limit
allow-le-limit limit window times a o =
    (passed-by-rule [] 0 times (new_bucket limit window) o (Tracks-new limit window 0)).1 a
