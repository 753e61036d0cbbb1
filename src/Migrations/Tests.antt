-- ===== src/Migrations/Tests.antt =====
-- Runs of migrate.ts over a directory of two files, where a schema is the list of texts that ran.
use whatsapp_auto_send.Prelude.{
  String, false, List, [], ◌∷◌, ◌++◌, Result, ok, err, ◌≡◌, refl, ◌==◌, string_eq, if◌then◌else◌,
  text_runs,
}
use whatsapp_auto_send.Migrations.{
  ErrnoException, Store, list_migration_files, run_migrations, sql_files, sorted, ends_with,
  apply_all, apply_file, migration_failed,
}
use whatsapp_auto_send.Migrations.Applied.{missing, present, Ending, AppliedBy}
use whatsapp_auto_send.Migrations.Runs.{
  nothing_yet, taken, run_migrations-Ending, run_migrations-again,
}

abbrev read_file : String → Result String String
read_file name = ok name

abbrev execute_sql : String → List String → Result String (List String)
execute_sql sql schema =
    if sql == "003_bad.sql" then err "syntax error" else ok (schema ++ (sql ∷ []))

abbrev entries : Result ErrnoException (List String)
entries = ok ("002_keys.sql" ∷ "README.md" ∷ "001_init.sql" ∷ [])

abbrev files : List String
files = "001_init.sql" ∷ "002_keys.sql" ∷ []

abbrev first_applied : Store (List String)
first_applied = record {
  schema = "001_init.sql" ∷ [];
  versions = "001_init.sql" ∷ [];
  locked = false;
  clients = 0;
}

migration_runs : Unit {0}
unfolding list_migration_files run_migrations sql_files sorted ends_with apply_all apply_file
    missing present text_runs
migration_runs = tt

listed : list_migration_files entries ≡ ok files
unfolding migration_runs
listed = refl

ran :
    (run_migrations read_file execute_sql entries first_applied).0
    ≡ ok (record { applied = "002_keys.sql" ∷ []; already_applied = "001_init.sql" ∷ [] })
unfolding migration_runs
ran = refl

bad_file :
    (run_migrations read_file execute_sql (ok ("003_bad.sql" ∷ [])) first_applied).0
    ≡ err (migration_failed "migration 003_bad.sql failed: syntax error")
unfolding migration_runs
bad_file = refl

run_migrations-Ending_example :
    (x : Store (List String)) × Ending read_file execute_sql
      (missing first_applied.versions files)
      (present first_applied.versions files)
      nothing_yet
      (taken first_applied)
      ((run_migrations read_file execute_sql entries first_applied).0, x)
    × ((run_migrations read_file execute_sql entries first_applied).1
        ≡ record x { locked = false; clients = 0 })
run_migrations-Ending_example =
    run_migrations-Ending read_file execute_sql entries files listed first_applied

abbrev both_applied : Store (List String)
both_applied = record (taken first_applied) {
  schema = "001_init.sql" ∷ "002_keys.sql" ∷ [];
  versions = "001_init.sql" ∷ "002_keys.sql" ∷ [];
}

second_applies :
    AppliedBy read_file execute_sql
      (missing first_applied.versions files)
      (taken first_applied)
      both_applied
unfolding migration_runs
second_applies = ("002_keys.sql", both_applied, refl, refl, refl)

run_migrations-again_example :
    run_migrations read_file execute_sql entries
      (run_migrations read_file execute_sql entries first_applied).1
    ≡ (
      ok (record { applied = []; already_applied = files }),
      (run_migrations read_file execute_sql entries first_applied).1,
    )
run_migrations-again_example =
    run_migrations-again read_file execute_sql entries files first_applied _ listed ran
