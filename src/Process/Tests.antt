-- ===== src/Process/Tests.antt =====
-- A start of index.ts with one migration and one session, and the theorems there.
use whatsapp_auto_send.Prelude.{
  String, Bool, true, false, List, [], ◌∷◌, ◌++◌, Result, ok, ◌≡◌, refl, string_eq, text_runs,
}
use whatsapp_auto_send.Config.Samples.{is_http, good_env, good_config, config_runs}
use whatsapp_auto_send.Config.Laws.{IsSound}
use whatsapp_auto_send.Migrations.{ErrnoException, Store, run_migrations, list_migration_files}
use whatsapp_auto_send.Migrations.Done.{AllDone}
use whatsapp_auto_send.Sessions.Events.{SessionEvent}
use whatsapp_auto_send.Sessions.Manager.Samples.{db_one}
use whatsapp_auto_send.Process.{Gateway, listens, start, assembled, in_use}
use whatsapp_auto_send.Process.Starting.{start-ready}

abbrev no_digest : String → String → String
no_digest secret text = text

abbrev event_id : SessionEvent → String
event_id event = event.session_id

abbrev read_file : String → Result String String
read_file name = ok name

abbrev execute_sql : String → List String → Result String (List String)
execute_sql sql schema = ok (schema ++ (sql ∷ []))

abbrev entries : Result ErrnoException (List String)
entries = ok ("001_init.sql" ∷ [])

abbrev empty_store : Store (List String)
empty_store = record { schema = []; versions = []; locked = false; clients = 0 }

abbrev migrated : Store (List String)
migrated = record {
  schema = "001_init.sql" ∷ [];
  versions = "001_init.sql" ∷ [];
  locked = false;
  clients = 0;
}

abbrev gateway : Gateway
gateway = assembled no_digest event_id good_config (db_one []) 1_000

started :
    start no_digest event_id is_http read_file execute_sql good_env entries true
      (db_one [])
      1_000
      empty_store
    ≡ listens gateway migrated
unfolding start run_migrations list_migration_files config_runs text_runs
started = refl

listed : list_migration_files entries ≡ ok ("001_init.sql" ∷ [])
unfolding list_migration_files text_runs
listed = refl

start-ready_example :
    IsSound good_config
    × AllDone ("001_init.sql" ∷ []) ("001_init.sql" ∷ [])
    × (◌≡◌ {A = Bool} false false)
    × (gateway.pool ≡ in_use)
start-ready_example =
    start-ready no_digest event_id is_http read_file execute_sql good_env entries true (db_one [])
      1_000 empty_store gateway migrated ("001_init.sql" ∷ []) started listed
