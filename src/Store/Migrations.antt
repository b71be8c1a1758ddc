-- ===== src/Store/Migrations.antt =====
-- internal/store/db.go: the migrations. The files and what PostgreSQL does with a text of SQL are
-- parameters; NewPool opens the connection. Which calls of the database fail is the list `faults`.
pub mod Steps
pub mod Recorded
pub mod Again
use Prim.Native.Char.{code}
use shuosc_network_server_ba.Common.{
  ℕ, ltb, ◌==◌, String, Bool, true, false, not, ◌&&◌, ◌||◌, Option, none, some, List, [], ◌∷◌, ◌++◌,
  first, str_eq, if◌then◌else◌,
}
use shuosc_network_server_ba.Common.Words.{trim_space, is_empty}
use shuosc_network_server_ba.Store.UpSection.{extract_up_migration_sql}

pub record DirEntry : Type 0 where
  pub name : String
  pub is_dir : Bool

-- os and filepath: the directory "migrations" beside the executable, and what directories hold.
pub record Disk : Type 0 where
  pub beside_executable : Option String
  pub has_dir : String → Bool
  pub read_dir : String → Option (List DirEntry)
  pub read_file : String → String → Option String

-- PostgreSQL: what a text of SQL makes of the tables, if it runs, and to_regclass.
pub record Engine (S : Type 0) : Type 0 where
  pub run_sql : String → S → Option S
  pub has_table : String → S → Bool

-- The tables, and the filenames in schema_migrations (none where that does not exist yet).
pub record Schema (S : Type 0) : Type 0 where
  pub tables : S
  pub recorded : List String
  pub faults : List Bool

pub data Problem : Type 0 where
  no_directory unreadable empty_migration database_error : Problem

pub data Migrated (A : Type 0) : Type 0 where
  migrated : A → Migrated A
  stopped : Problem → Migrated A

abbrev pub Step : Type 0 → Type 0 → Type 0
Step S A = Schema S → Migrated A × Schema S

module _ {S A : Type 0} where
  unfoldable pub return : A → Step S A
  return a d = (migrated a, d)

  unfoldable pub stop_or : Problem → Option A → Step S A
  stop_or p none d = (stopped p, d)
  stop_or p (some a) d = (migrated a, d)

  unfoldable pub read : (Schema S → A) → Step S A
  read f d = (migrated (f d), d)

unfoldable pub write : {S : Type 0} → (Schema S → Schema S) → Step S (Unit {0})
write f d = (migrated tt, f d)

module _ {S A B : Type 0} where
  abbrev pub go_on : Migrated A → (A → Step S B) → Step S B
  go_on (migrated a) f d = f a d
  go_on (stopped p) f d = (stopped p, d)

  infixl 5 ◌>>=◌ ◌>>◌
  unfoldable pub ◌>>=◌ : Step S A → (A → Step S B) → Step S B
  ◌>>=◌ m f d = let (r, d') = m d in go_on r f d'

  abbrev pub ◌>>◌ : Step S A → Step S B → Step S B
  m >> n = m >>= λ _. n

module _ {S : Type 0} where
  unfoldable pub next_call : List Bool → Step S (Unit {0})
  next_call [] d = (migrated tt, d)
  next_call (true ∷ later) d = (stopped database_error, record d { faults = later })
  next_call (false ∷ later) d = (migrated tt, record d { faults = later })

  unfoldable pub call_database : Step S (Unit {0})
  unfolding next_call
  call_database d = next_call d.faults d

abbrev pub is_in : String → List String → Bool
is_in t [] = false
is_in t (u ∷ us) = if str_eq u t then true else is_in t us

-- `addCandidate`
abbrev pub add_candidate : String → List String → List String
add_candidate path found =
    let t = trim_space path in if is_empty t || is_in t found then found else found ++ (t ∷ [])

abbrev pub add_beside : Option String → List String → List String
add_beside none found = found
add_beside (some path) found = add_candidate path found

-- ResolveMigrationsDir.
unfoldable pub resolve_migrations_dir : Disk → String → Option String
resolve_migrations_dir disk dir = first disk.has_dir (
    add_beside disk.beside_executable
      (add_candidate "/etc/scnet/migrations" (add_candidate dir [])))

-- `<` on strings.
unfoldable pub before : String → String → Bool
before String.[] String.[] = false
before String.[] (String.◌∷◌ d t) = true
before (String.◌∷◌ c s) String.[] = false
before (String.◌∷◌ c s) (String.◌∷◌ d t) =
    let rest = before s t in
    if ltb (code c) (code d) then true else if code c == code d then rest else false

unfoldable pub insert_entry : DirEntry → List DirEntry → List DirEntry
insert_entry e [] = e ∷ []
insert_entry e (x ∷ xs) =
    let rest = insert_entry e xs in if before x.name e.name then x ∷ rest else e ∷ x ∷ xs

-- sort.Slice by name.
unfoldable pub sort_entries : List DirEntry → List DirEntry
sort_entries [] = []
sort_entries (e ∷ es) = insert_entry e (sort_entries es)

-- filepath.Ext of a name without a slash: from the last dot on.
unfoldable pub extension : String → String
extension String.[] = ""
extension (String.◌∷◌ c s) =
    let rest = extension s in if is_empty rest && (code c == 46) then String.◌∷◌ c s else rest

abbrev pub with_name : String → List String → List String
with_name name names = if is_in name names then names else names ++ (name ∷ [])

-- What the loop skips: directories, other files, and files that are applied.
abbrev pub is_migration : DirEntry → Bool
is_migration e = not e.is_dir && str_eq (extension e.name) ".sql"

module _ {S : Type 0} where
  -- ensureSchemaMigrationsTable; a table that does not exist holds no name.
  unfoldable pub ensure_schema_migrations_table : Step S (Unit {0})
  ensure_schema_migrations_table = call_database

  -- listAppliedMigrations.
  unfoldable pub list_applied_migrations : Step S (List String)
  list_applied_migrations = do call_database; read (λ d. d.recorded)

  -- recordMigration: ON CONFLICT DO NOTHING.
  unfoldable pub record_migration : String → Step S (Unit {0})
  record_migration name = do
    call_database
    write (λ d. record d { recorded = with_name name d.recorded })

  -- A text of SQL that does not run changes nothing.
  unfoldable pub write_tables : Option S → Step S (Unit {0})
  write_tables none d = (stopped database_error, d)
  write_tables (some s) d = (migrated tt, record d { tables = s })

  unfoldable pub execute : Engine S → String → Step S (Unit {0})
  unfolding write_tables
  execute engine sql = do call_database; λ d. write_tables (engine.run_sql sql d.tables) d

  -- The deferred Rollback.
  unfoldable pub unless_stopped : Schema S → Migrated (Unit {0}) → Step S (Unit {0})
  unless_stopped old (migrated t) d = (migrated t, d)
  unless_stopped old (stopped p) d =
      (stopped p, record d { tables = old.tables; recorded = old.recorded })

  -- applyMigration; a commit that fails leaves the database as it was.
  unfoldable pub apply_migration : Engine S → String → String → Step S (Unit {0})
  unfolding unless_stopped
  apply_migration engine name sql d =
      let (r, d') =
        (do call_database; execute engine sql; record_migration name; call_database) d in
      unless_stopped d r d'

  unfoldable pub legacy_tables : Engine S → S → Bool
  legacy_tables engine s =
      engine.has_table "public.users" s
      && engine.has_table "public.invite_codes" s
      && engine.has_table "public.peers" s

  abbrev pub mark_if : Bool → String → Step S Bool
  mark_if false name = return false
  mark_if true name = do record_migration name; return true

  -- maybeMarkLegacyInitApplied.
  unfoldable pub maybe_mark_legacy_init_applied : Engine S → String → Step S Bool
  maybe_mark_legacy_init_applied engine name = do
    call_database
    legacy ← read (λ d. legacy_tables engine d.tables)
    mark_if legacy name

  -- The rest of the loop's body: the file is read, and its section is run.
  unfoldable pub apply_file : Disk → Engine S → String → String → Step S (Unit {0})
  apply_file disk engine dir name = do
    data_ ← stop_or unreadable (disk.read_file dir name)
    sql ← stop_or empty_migration (extract_up_migration_sql data_)
    apply_migration engine name sql

  abbrev pub unless_marked : Bool → Step S (Unit {0}) → Step S (Unit {0})
  unless_marked true m = return tt
  unless_marked false m = m

  unfoldable pub migrate_file : Disk → Engine S → String → String → Step S (Unit {0})
  migrate_file disk engine dir name =
      if str_eq name "001_init.sql"
      then (do
        marked ← maybe_mark_legacy_init_applied engine name
        unless_marked marked (apply_file disk engine dir name))
      else apply_file disk engine dir name

  unfoldable pub run_entries :
      Disk → Engine S → String → List DirEntry → List String → Step S (Unit {0})
  run_entries disk engine dir [] applied = return tt
  run_entries disk engine dir (e ∷ es) applied =
      let rest = run_entries disk engine dir es in
      if not (is_migration e) || is_in e.name applied
      then rest applied
      else (do migrate_file disk engine dir e.name; rest (e.name ∷ applied))

  unfoldable pub run_in : Disk → Engine S → String → Step S (Unit {0})
  run_in disk engine dir = do
    ensure_schema_migrations_table
    applied ← list_applied_migrations
    entries ← stop_or unreadable (disk.read_dir dir)
    run_entries disk engine dir (sort_entries entries) applied

  -- RunMigrations.
  unfoldable pub run_migrations : Disk → Engine S → String → Step S (Unit {0})
  run_migrations disk engine migrations_dir = do
    dir ← stop_or no_directory (resolve_migrations_dir disk migrations_dir)
    run_in disk engine dir
