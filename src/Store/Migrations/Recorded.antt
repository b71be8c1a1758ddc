-- ===== src/Store/Migrations/Recorded.antt =====
-- RunMigrations of internal/store/db.go has recorded each migration where it returns.
use shuosc_network_server_ba.Common.{
  ◌≡◌, refl, sym, ap, subst, ◌∙◌, String, Bool, true, false, not, ◌||◌, List, [], ◌∷◌, All, str_eq,
  if◌then◌else◌,
}
use shuosc_network_server_ba.Store.Migrations.{
  DirEntry, Disk, Engine, Schema, migrated, return, read, ◌>>=◌, ◌>>◌, is_in, with_name,
  is_migration, legacy_tables, mark_if, maybe_mark_legacy_init_applied, apply_file, unless_marked,
  migrate_file, run_entries, unreadable, empty_migration,
}
use shuosc_network_server_ba.Store.Migrations.Steps.{
  skipped, unskipped, in_with_name, in_with_itself, known_more, step-ok, call-ok,
  record_migration-ok, apply_migration-ok, stop_or-ok, return-ok, read-ok,
}

module _ {S : Type 0} where
  module _ (disk : Disk) (engine : Engine S) (dir : String) where
    -- A file that the loop is done with is recorded.
    Records : String → Schema S → Schema S → Type 0
    Records name d d' = d'.recorded ≡ with_name name d.recorded

    apply_file-Records :
        (name : String) (d d' : Schema S) (t : Unit {0})
        → apply_file disk engine dir name d ≡ (migrated t, d')
        → Records name d d'
    unfolding apply_file Records
    apply_file-Records name d d' t e =
        let (text, c, is_read, rest₁) = step-ok _ _ d d' t e in
        let (sql, u, extracted, applied) = step-ok _ _ c d' t rest₁ in
        apply_migration-ok engine name sql u d' t applied
        ∙ ap (λ x. with_name name x.recorded)
            ((stop_or-ok empty_migration _ c u sql extracted).1
              ∙ (stop_or-ok unreadable _ d c text is_read).1)

    mark-Records :
        (found : Bool) (name : String) (d c d' : Schema S) (marked : Bool) (t : Unit {0})
        → mark_if found name d ≡ (migrated marked, c)
        → unless_marked marked (apply_file disk engine dir name) c ≡ (migrated t, d')
        → Records name d d'
    unfolding Records
    mark-Records false name d c d' marked t e rest =
        let (is_marked, is_c) = return-ok false marked d c e in
        apply_file-Records name c d' t (
          subst (λ m. unless_marked m (apply_file disk engine dir name) c ≡ (migrated t, d'))
            is_marked rest)
        ∙ ap (λ x. with_name name x.recorded) is_c
    mark-Records true name d c d' marked t e rest =
        let (t', u, noted, given) = step-ok _ _ d c marked e in
        let (is_marked, is_c) = return-ok true marked u c given in
        let (is_t, is_d') = return-ok tt t c d' (
          subst (λ m. unless_marked m (apply_file disk engine dir name) c ≡ (migrated t, d'))
            is_marked rest) in
        ap (λ x. x.recorded) (is_d' ∙ is_c) ∙ record_migration-ok name d u t' noted

    chosen-Records :
        (is_first : Bool) (name : String) (d d' : Schema S) (t : Unit {0})
        → (if is_first
              then (do
                marked ← maybe_mark_legacy_init_applied engine name
                unless_marked marked (apply_file disk engine dir name))
              else apply_file disk engine dir name)
            d
          ≡ (migrated t, d')
        → Records name d d'
    unfolding maybe_mark_legacy_init_applied Records read
    chosen-Records false name d d' t e = apply_file-Records name d d' t e
    chosen-Records true name d d' t e =
        let (marked, c, asked, rest) = step-ok _ _ d d' t e in
        let (t', u, called, more) = step-ok _ _ d c marked asked in
        let (legacy, v, was_read, marks) = step-ok _ _ u c marked more in
        mark-Records legacy name v c d' marked t marks rest
        ∙ ap (λ x. with_name name x.recorded)
            (read-ok (λ x. legacy_tables engine x.tables) u v legacy was_read).1
        ∙ ap (with_name name) (call-ok d u t' called).recorded

    migrate_file-Records :
        (name : String) (d d' : Schema S) (t : Unit {0})
        → migrate_file disk engine dir name d ≡ (migrated t, d')
        → Records name d d'
    unfolding migrate_file
    migrate_file-Records name d d' t e = chosen-Records (str_eq name "001_init.sql") name d d' t e

    abbrev Done : List DirEntry → Schema S → Schema S → Type 0
    Done es d d' =
        ((n : String) → is_in n d.recorded ≡ true → is_in n d'.recorded ≡ true)
        × All (λ e. is_migration e ≡ true → is_in e.name d'.recorded ≡ true) es

    abbrev Known : List String → Schema S → Type 0
    Known applied d = (n : String) → is_in n applied ≡ true → is_in n d.recorded ≡ true

    loop_step :
        (x : DirEntry) (es : List DirEntry) (applied : List String) (d d' : Schema S) (t : Unit {0})
        (skip : Bool)
        → (not (is_migration x) || is_in x.name applied) ≡ skip
        → Known applied d
        → ((names : List String) (c : Schema S)
            → Known names c
            → run_entries disk engine dir es names c ≡ (migrated t, d')
            → Done es c d')
        → (if skip then run_entries disk engine dir es applied else (do
          migrate_file disk engine dir x.name
          run_entries disk engine dir es (x.name ∷ applied)))
            d
          ≡ (migrated t, d')
        → Done (x ∷ es) d d'
    unfolding Records
    loop_step x es applied d d' t true s known ih e =
        let (grows, all) = ih applied d known e in
        (grows, (λ m. grows x.name (known x.name (unskipped _ _ m s)), all))
    loop_step x es applied d d' t false s known ih e =
        let (t', c, filed, rest) = step-ok _ _ d d' t e in
        let is_c = migrate_file-Records x.name d c t' filed in
        let (grows, all) =
          ih (x.name ∷ applied) c
            (λ n h. rw is_c (known_more n x.name applied d.recorded (known n) h)) rest in
        (
          λ n h. grows n (rw is_c (in_with_name n x.name d.recorded h)),
          (λ m. grows x.name (rw is_c (in_with_itself x.name d.recorded)), all),
        )

    -- After the loop has returned, each migration is recorded, and what was recorded still is.
    pub run_entries-ok :
        (es : List DirEntry) (applied : List String) (d d' : Schema S) (t : Unit {0})
        → Known applied d
        → run_entries disk engine dir es applied d ≡ (migrated t, d')
        → Done es d d'
    unfolding run_entries
    run_entries-ok [] applied d d' t known e =
        let (is_t, same) = return-ok tt t d d' e in
        (λ n h. subst (λ x. is_in n x.recorded ≡ true) (sym same) h, tt)
    run_entries-ok (x ∷ es) applied d d' t known e =
        loop_step x es applied d d' t (not (is_migration x) || is_in x.name applied) refl known
          (λ names c. run_entries-ok es names c d' t) e

    -- Where each migration is applied, the loop does nothing.
    pub run_entries-idle :
        (es : List DirEntry) (applied : List String) (d : Schema S)
        → All (λ e. is_migration e ≡ true → is_in e.name applied ≡ true) es
        → run_entries disk engine dir es applied d ≡ (migrated tt, d)
    unfolding run_entries return
    run_entries-idle [] applied d h = refl
    run_entries-idle (e ∷ es) applied d h =
        rw (skipped (is_migration e) (is_in e.name applied) h.0) (run_entries-idle es applied d h.1)
