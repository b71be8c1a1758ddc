-- ===== src/Examples/Files.antt =====
-- The theorems on the migrations at concrete files.
use shuosc_network_server_ba.Common.{
  ◌≡◌, refl, ap, String, false, none, some, List, [], ◌∷◌, ◌++◌, str_eq, if◌then◌else◌,
}
use shuosc_network_server_ba.Common.Words.{trim_space, trim_left, trim_right, is_space, any_rune}
use shuosc_network_server_ba.Store.UpSection.{
  extract_up_migration_sql, join_lines, split_lines, line_kind, up_lines, from_up, unless_empty,
}
use shuosc_network_server_ba.Store.UpSection.Sections.{extract_up_migration_sql-section}
use shuosc_network_server_ba.Store.Migrations.{
  Disk, Engine, Schema, migrated, return, stop_or, read, write, ◌>>=◌, next_call, call_database,
  resolve_migrations_dir, before, insert_entry, sort_entries, extension,
  ensure_schema_migrations_table, list_applied_migrations, record_migration, write_tables, execute,
  unless_stopped, apply_migration, legacy_tables, maybe_mark_legacy_init_applied, apply_file,
  migrate_file, run_entries, run_in, run_migrations,
}
use shuosc_network_server_ba.Store.Migrations.Steps.{Unchanged}
use shuosc_network_server_ba.Store.Migrations.Again.{run_migrations-again}

abbrev init_file : String
init_file =
    join_lines ([] ++ ("-- +migrate Up" ∷ ("A;" ∷ []) ++ (" -- +migrate Down" ∷ ("B;" ∷ []))))

extract_up_migration_sql-section_example :
    extract_up_migration_sql init_file ≡ unless_empty (trim_space (join_lines ("A;" ∷ [])))
unfolding line_kind trim_space trim_left trim_right is_space any_rune
extract_up_migration_sql-section_example =
    extract_up_migration_sql-section [] ("A;" ∷ []) ("B;" ∷ []) "-- +migrate Up" " -- +migrate Down"
      tt (refl, tt) refl refl (refl, (refl, (refl, (refl, tt))))

-- A directory with a later migration before the first one, and a file of another kind.
abbrev example_disk : Disk
example_disk = record {
  beside_executable = none;
  has_dir = λ d. str_eq d "/etc/scnet/migrations";
  read_dir = λ d. some (
      record { name = "002.sql"; is_dir = false }
      ∷ record { name = "001_init.sql"; is_dir = false }
      ∷ record { name = "README"; is_dir = false }
      ∷ []);
  read_file = λ d n. if str_eq n "001_init.sql" then some init_file else some "C;";
}

-- Tables that are the texts that were run.
abbrev example_engine : Engine (List String)
example_engine = record { run_sql = λ sql s. some (s ++ (sql ∷ [])); has_table = λ name s. false }

abbrev no_schema : Schema (List String)
no_schema = record { tables = []; recorded = []; faults = [] }

run-returns : run_migrations example_disk example_engine "db" no_schema ≡ (
  migrated tt,
  record no_schema { tables = "A;" ∷ "C;" ∷ []; recorded = "001_init.sql" ∷ "002.sql" ∷ [] },
)
unfolding run_migrations run_in resolve_migrations_dir before insert_entry sort_entries extension
    ensure_schema_migrations_table list_applied_migrations record_migration write_tables execute
    unless_stopped apply_migration legacy_tables maybe_mark_legacy_init_applied apply_file
    migrate_file run_entries return stop_or read write ◌>>=◌ next_call call_database trim_space
    trim_left trim_right is_space extract_up_migration_sql join_lines split_lines line_kind up_lines
    from_up unless_empty
run-returns = refl

run_migrations-again_example :
    Unchanged
      (run_migrations example_disk example_engine "db" no_schema).1
      (run_migrations example_disk example_engine "db"
        (run_migrations example_disk example_engine "db" no_schema).1).1
run_migrations-again_example =
    run_migrations-again example_disk example_engine "db" no_schema (ap (λ r. r.0) run-returns)
