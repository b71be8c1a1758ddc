-- ===== src/Store/Migrations/Steps.antt =====
-- The steps of the migrations of internal/store/db.go, where they return.
use shuosc_network_server_ba.Common.{
  ◌≡◌, refl, ap, ◌∙◌, String, Bool, true, false, not, ◌||◌, Option, none, some, List, [], ◌∷◌, ◌++◌,
  arith, str_eq, eq_iff,
}
use shuosc_network_server_ba.Store.Migrations.{
  Engine, Schema, Problem, Migrated, migrated, stopped, Step, return, stop_or, read, write, go_on,
  ◌>>=◌, next_call, call_database, is_in, with_name, record_migration, write_tables, execute,
  unless_stopped, apply_migration,
}

-- The tables and the recorded names are as before.
pub record Unchanged {S : Type 0} (d d' : Schema S) : Type 0 where
  pub tables : d'.tables ≡ d.tables
  pub recorded : d'.recorded ≡ d.recorded

is_in-append :
    (n m : String) (names : List String)
    → is_in n (names ++ (m ∷ [])) ≡ (is_in n names || str_eq m n)
is_in-append n m [] = ground arith
is_in-append n m (x ∷ xs) = ground (arith, is_in-append n m xs)

is_in_same : (m n : String) (names : List String) → m ≡ n → is_in m names ≡ is_in n names
is_in_same m n names e = ap (λ x. is_in x names) e

is_in-with_name :
    (n m : String) (names : List String)
    → is_in n (with_name m names) ≡ (is_in n names || str_eq m n)
is_in-with_name n m names = ground (arith, is_in-append n m names, eq_iff m n, is_in_same m n names)

pub skipped : (m a : Bool) → (m ≡ true → a ≡ true) → (not m || a) ≡ true
skipped true a h = ground (arith, h)
skipped false a h = refl

pub unskipped : (m a : Bool) → m ≡ true → (not m || a) ≡ true → a ≡ true
unskipped m a e h = ground arith

pub in_with_name :
    (n m : String) (names : List String) → is_in n names ≡ true → is_in n (with_name m names) ≡ true
in_with_name n m names h = is_in-with_name n m names ∙ ground arith

pub in_with_itself : (m : String) (names : List String) → is_in m (with_name m names) ≡ true
in_with_itself m names = is_in-with_name m m names ∙ ground (arith, eq_iff m m)

pub known_more :
    (n m : String) (applied names : List String)
    → (is_in n applied ≡ true → is_in n names ≡ true)
    → is_in n (m ∷ applied) ≡ true
    → is_in n (with_name m names) ≡ true
known_more n m applied names k h = is_in-with_name n m names ∙ ground (arith, k)

module _ {S : Type 0} where
  module _ {A B : Type 0} where
    -- A chain of steps that returned, taken apart.
    pub step-ok :
        (m : Step S A) (f : A → Step S B) (d d' : Schema S) (b : B)
        → (m >>= f) d ≡ (migrated b, d')
        → (a : A) × (u : Schema S) × (m d ≡ (migrated a, u)) × (f a u ≡ (migrated b, d'))
    step-ok m f d d' b e = go (m d).0 (m d).1 refl (unfold ◌>>=◌ in e)
      where
        go :
            (r : Migrated A) (u : Schema S)
            → m d ≡ (r, u)
            → go_on r f u ≡ (migrated b, d')
            → (a : A) × (u : Schema S) × (m d ≡ (migrated a, u)) × (f a u ≡ (migrated b, d'))
        go (migrated a) u same rest = (a, u, same, rest)
        go (stopped p) u same rest = cc

  pub call-ok :
      (d d' : Schema S) (t : Unit {0}) → call_database d ≡ (migrated t, d') → Unchanged d d'
  unfolding call_database next_call
  call-ok d d' t e = ground arith

  pub record_migration-ok :
      (name : String) (d d' : Schema S) (t : Unit {0})
      → record_migration name d ≡ (migrated t, d')
      → d'.recorded ≡ with_name name d.recorded
  unfolding record_migration call_database next_call ◌>>=◌ write
  record_migration-ok name d d' t e = ground arith

  execute-ok :
      (engine : Engine S) (sql : String) (d d' : Schema S) (t : Unit {0})
      → execute engine sql d ≡ (migrated t, d')
      → d'.recorded ≡ d.recorded
  unfolding execute call_database next_call ◌>>=◌ write_tables
  execute-ok engine sql d d' t e = ground arith

  kept_or_back-ok :
      (old : Schema S) (r : Migrated (Unit {0})) (u d' : Schema S) (t : Unit {0})
      → unless_stopped old r u ≡ (migrated t, d')
      → ◌≡◌ {A = Migrated (Unit {0}) × Schema S} (r, u) (migrated t, d')
  unfolding unless_stopped
  kept_or_back-ok old (migrated t) u d' t' e = e
  kept_or_back-ok old (stopped p) u d' t' e = cc

  pub apply_migration-ok :
      (engine : Engine S) (name sql : String) (d d' : Schema S) (t : Unit {0})
      → apply_migration engine name sql d ≡ (migrated t, d')
      → d'.recorded ≡ with_name name d.recorded
  unfolding apply_migration
  apply_migration-ok engine name sql d d' t e =
      let (t₁, c, begun, rest₁) = step-ok _ _ d d' t (kept_or_back-ok d _ _ d' t e) in
      let (t₂, u, ran, rest₂) = step-ok _ _ c d' t rest₁ in
      let (t₃, v, noted, committed) = step-ok _ _ u d' t rest₂ in
      (call-ok v d' t committed).recorded
      ∙ record_migration-ok name u v t₃ noted
      ∙ ap (with_name name) (execute-ok engine sql c u t₂ ran ∙ (call-ok d c t₁ begun).recorded)

  pub stop_or-ok :
      {A : Type 0} (p : Problem) (o : Option A) (d d' : Schema S) (a : A)
      → stop_or p o d ≡ (migrated a, d')
      → (o ≡ some a) × (d' ≡ d)
  unfolding stop_or
  stop_or-ok p none d d' a e = ground arith
  stop_or-ok p (some x) d d' a e = ground arith

  pub return-ok :
      {A : Type 0} (a b : A) (d d' : Schema S) → return a d ≡ (migrated b, d') → (b ≡ a) × (d' ≡ d)
  unfolding return
  return-ok a b d d' e = ground arith

  pub read-ok :
      {A : Type 0} (f : Schema S → A) (d d' : Schema S) (a : A)
      → read f d ≡ (migrated a, d')
      → (a ≡ f d) × (d' ≡ d)
  unfolding read
  read-ok f d d' a e = ground arith
