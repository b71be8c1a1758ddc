-- ===== src/Store/Migrations/Again.antt =====
-- What RunMigrations of internal/store/db.go does where it has run before.
use shuosc_network_server_ba.Common.{
  ◌≡◌, refl, sym, ap, subst, ◌∙◌, String, Bool, true, false, Option, none, some, List, [], ◌∷◌, All,
  arith,
}
use shuosc_network_server_ba.Store.Migrations.{
  DirEntry, Disk, Engine, Schema, Problem, Migrated, migrated, stopped, Step, stop_or, read, go_on,
  ◌>>=◌, next_call, call_database, is_in, is_migration, resolve_migrations_dir, sort_entries,
  ensure_schema_migrations_table, list_applied_migrations, run_entries, run_in, run_migrations,
  unreadable, no_directory,
}
use shuosc_network_server_ba.Store.Migrations.Steps.{Unchanged, step-ok, stop_or-ok, read-ok}
use shuosc_network_server_ba.Store.Migrations.Recorded.{run_entries-ok, run_entries-idle}

-- A step that changes no table and no record where the recorded names are as given.
abbrev Quiet : {S A : Type 0} → List String → (A → Type 0) → Step S A → Type 0
Quiet {S} {A} names Q m =
    (d : Schema S)
    → d.recorded ≡ names
    → Unchanged d (m d).1 × ((a : A) → (m d).0 ≡ migrated a → Q a)

module _ {S : Type 0} (names : List String) where
  module _ {A B : Type 0} (Q : A → Type 0) (R : B → Type 0) where
    Quiet-on :
        (d u : Schema S) (r : Migrated A) (f : A → Step S B)
        → d.recorded ≡ names
        → Unchanged d u
        → ((a : A) → r ≡ migrated a → Q a)
        → ((a : A) → Q a → Quiet names R (f a))
        → Unchanged d (go_on r f u).1 × ((b : B) → (go_on r f u).0 ≡ migrated b → R b)
    Quiet-on d u (migrated a) f h same q k =
        let (after, r) = k a (q a refl) u (same.recorded ∙ h) in
        (
          record { tables = after.tables ∙ same.tables; recorded = after.recorded ∙ same.recorded },
          r,
        )
    Quiet-on d u (stopped p) f h same q k = (same, λ b e. cc)

    Quiet-bind :
        (m : Step S A) (f : A → Step S B)
        → Quiet names Q m
        → ((a : A) → Q a → Quiet names R (f a))
        → Quiet names R (m >>= f)
    unfolding ◌>>=◌
    Quiet-bind m f k l d h = Quiet-on d _ _ f h (k d h).0 (k d h).1 l

  called : (faults : List Bool) (d : Schema S) → Unchanged d (next_call faults d).1
  unfolding next_call
  called [] d = record { tables = refl; recorded = refl }
  called (true ∷ later) d = record { tables = refl; recorded = refl }
  called (false ∷ later) d = record { tables = refl; recorded = refl }

  Quiet-call : Quiet {S = S} names (λ (t : Unit {0}). Unit {0}) call_database
  unfolding call_database
  Quiet-call d h = (called d.faults d, λ t e. tt)

  Quiet-stop_or :
      {A : Type 0} (p : Problem) (o : Option A)
      → Quiet {S = S} names (λ a. o ≡ some a) (stop_or p o)
  unfolding stop_or
  Quiet-stop_or p none d h = (record { tables = refl; recorded = refl }, λ a e. cc)
  Quiet-stop_or p (some a) d h = (record { tables = refl; recorded = refl }, λ b e. ground arith)

  Quiet-applied : Quiet {S = S} names (λ applied. applied ≡ names) list_applied_migrations
  unfolding list_applied_migrations read
  Quiet-applied =
      Quiet-bind (λ _. Unit {0}) _ call_database _ Quiet-call
        λ t q d h. (record { tables = refl; recorded = refl }, λ a e. ground arith)

same_text : (s t : String) → some s ≡ some t → s ≡ t
same_text s t e = ground arith

-- What a run that has returned has found and left.
record RanIn {S : Type 0} (disk : Disk) (dir : String) (d' : Schema S) : Type 0 where
  entries : List DirEntry
  listed : disk.read_dir dir ≡ some entries
  recorded :
      All (λ e. is_migration e ≡ true → is_in e.name d'.recorded ≡ true) (sort_entries entries)

module _ {S : Type 0} (disk : Disk) (engine : Engine S) (dir : String) where
  run_in-ok : (d d' : Schema S) → run_in disk engine dir d ≡ (migrated tt, d') → RanIn disk dir d'
  unfolding run_in list_applied_migrations
  run_in-ok d d' e =
      let (t₁, c, ensured, rest₁) = step-ok _ _ d d' tt e in
      let (applied, u, was_applied, rest₂) = step-ok _ _ c d' tt rest₁ in
      let (entries, v, was_listed, looped) = step-ok _ _ u d' tt rest₂ in
      let (t₂, b, called_, was_read) = step-ok _ _ c u applied was_applied in
      let (is_listed, is_u) = stop_or-ok unreadable _ u v entries was_listed in
      let (is_applied, is_b) = read-ok (λ x. x.recorded) b u applied was_read in
      record {
        entries = entries;
        listed = is_listed;
        recorded =
            (run_entries-ok disk engine dir (sort_entries entries) applied v d' tt
              (λ n h.
                subst (λ names. is_in n names ≡ true)
                  (is_applied ∙ sym (ap (λ x. x.recorded) (is_u ∙ is_b))) h)
              looped).1;
      }

  same_entries : (es es' : List DirEntry) → some es ≡ some es' → es ≡ es'
  same_entries es es' e = ground arith

  idle :
      (d' : Schema S) (r : RanIn disk dir d') (es : List DirEntry) (applied : List String)
      (d : Schema S)
      → applied ≡ d'.recorded
      → disk.read_dir dir ≡ some es
      → Unchanged d (run_entries disk engine dir (sort_entries es) applied d).1
        × ((t : Unit {0})
            → (run_entries disk engine dir (sort_entries es) applied d).0 ≡ migrated t
            → Unit {0})
  idle d' r es applied d is_applied found =
      let done = run_entries-idle disk engine dir (sort_entries es) applied d (
        subst
          (λ (xs : List DirEntry).
            All (λ e. is_migration e ≡ true → is_in e.name applied ≡ true) (sort_entries xs))
          (same_entries r.entries es (sym r.listed ∙ found))
          (subst
            (λ names.
              All (λ e. is_migration e ≡ true → is_in e.name names ≡ true) (sort_entries r.entries))
            (sym is_applied) r.recorded)) in
      (
        record { tables = ap (λ x. x.1.tables) done; recorded = ap (λ x. x.1.recorded) done },
        λ t e. tt,
      )

  run_in-Quiet :
      (d' : Schema S)
      → RanIn disk dir d'
      → Quiet d'.recorded (λ t. Unit {0}) (run_in disk engine dir)
  unfolding run_in ensure_schema_migrations_table
  run_in-Quiet d' r =
      Quiet-bind d'.recorded (λ _. Unit {0}) _ call_database _ (Quiet-call d'.recorded)
        λ t q.
          Quiet-bind d'.recorded (λ applied. applied ≡ d'.recorded) _ list_applied_migrations _
            (Quiet-applied d'.recorded)
            λ applied is_applied.
              Quiet-bind d'.recorded (λ es. disk.read_dir dir ≡ some es) _
                (stop_or unreadable (disk.read_dir dir)) _
                (Quiet-stop_or d'.recorded unreadable (disk.read_dir dir))
                λ es found d h. idle d' r es applied d is_applied found

again :
    {S : Type 0} (disk : Disk) (engine : Engine S) (dir : String) (d d' : Schema S)
    → run_migrations disk engine dir d ≡ (migrated tt, d')
    → Unchanged d' (run_migrations disk engine dir d').1
unfolding run_migrations
again disk engine dir d d' e =
    let (path, c, resolved, ran) = step-ok _ _ d d' tt e in
    let (is_path, is_c) = stop_or-ok no_directory _ d c path resolved in
    (Quiet-bind d'.recorded (λ p. resolve_migrations_dir disk dir ≡ some p) (λ _. Unit {0})
      (stop_or no_directory (resolve_migrations_dir disk dir)) _
      (Quiet-stop_or d'.recorded no_directory (resolve_migrations_dir disk dir))
      (λ p found. run_in-Quiet disk engine p d' (
        subst (λ x. RanIn disk x d') (same_text path p (sym is_path ∙ found))
          (run_in-ok disk engine path c d' ran)))
      d' refl).0

-- If RunMigrations has returned, then another run on the same files changes neither the tables nor the
-- recorded names, whichever of its calls fail: each migration of the directory was recorded together
-- with its effect, and is not run again.
pub run_migrations-again :
    {S : Type 0} (disk : Disk) (engine : Engine S) (dir : String) (d : Schema S)
    → (run_migrations disk engine dir d).0 ≡ migrated tt
    → Unchanged
        (run_migrations disk engine dir d).1
        (run_migrations disk engine dir (run_migrations disk engine dir d).1).1
run_migrations-again disk engine dir d e =
    again disk engine dir d _ (ap (λ r. (r, (run_migrations disk engine dir d).1)) e)
