-- ===== src/Migrations.antt =====
-- baileys/src/migrate.ts: the SQL files of a directory, each applied once.
--
-- What the files hold and what their statements do to the schema are parameters: `read` gives the
-- text of a file and `execute` the schema after a text, or an error's message. The lock of Postgres
-- and the pool's clients are part of the state. A run that has to wait for the lock goes on once it is
-- given, so its state is the database as it is then, with the lock free; a connection that breaks is
-- not modelled.
pub mod Applied
pub mod Done
pub mod Runs
mod Tests
use Prim.Native.Char.{code}
use whatsapp_auto_send.Prelude.{
  ℕ, suc, ◌-◌, String, Bool, true, false, not, ◌||◌, Option, none, some, List, [], ◌∷◌, ◌++◌,
  Result, ok, err, ◌==◌, nat_eq, string_eq, ltb, ◌+◌, ◌/◌, ◌%◌, contains, if◌then◌else◌, template,
}

-- What `readdir` throws, by its `code`.
pub record ErrnoException : Type 0 where
  pub code : String

-- `name.endsWith(suffix)`
unfoldable pub ends_with : String → String → Bool
ends_with String.[] suffix = String.[] == suffix
ends_with (String.◌∷◌ c s) suffix = String.◌∷◌ c s == suffix || ends_with s suffix

-- The UTF-16 code units of a text, which `sort` compares.
unfoldable units : String → List ℕ
units String.[] = []
units (String.◌∷◌ c s) =
    let rest = units s in
    if ltb (code c) 65_536
    then code c ∷ rest
    else (55_296 + (code c - 65_536) / 1_024) ∷ ((56_320 + (code c - 65_536) % 1_024) ∷ rest)

unfoldable before_units : List ℕ → List ℕ → Bool
before_units [] ys = true
before_units (x ∷ xs) [] = false
before_units (x ∷ xs) (y ∷ ys) = let rest = before_units xs ys in if x == y then rest else ltb x y

before : String → String → Bool
unfolding units before_units
before s t = before_units (units s) (units t)

insert_sorted : String → List String → List String
unfolding before
insert_sorted k [] = k ∷ []
insert_sorted k (j ∷ js) = if before k j then k ∷ j ∷ js else j ∷ insert_sorted k js

unfoldable pub sorted : List String → List String
unfolding insert_sorted
sorted [] = []
sorted (k ∷ ks) = insert_sorted k (sorted ks)

unfoldable pub sql_files : List String → List String
unfolding ends_with
sql_files [] = []
sql_files (name ∷ names) = if ends_with name ".sql" then name ∷ sql_files names else sql_files names

-- A directory that is not there has no files.
unfoldable pub list_migration_files :
    Result ErrnoException (List String) → Result ErrnoException (List String)
unfolding sql_files sorted
list_migration_files (ok entries) = ok (sorted (sql_files entries))
list_migration_files (err e) = if e.code == "ENOENT" then ok [] else err e

pub data Failure : Type 0 where
  listing : ErrnoException → Failure
  reading : String → Failure
  migration_failed : String → Failure

pub record MigrationResult : Type 0 where
  pub applied : List String
  pub already_applied : List String

abbrev pub message_of : String → String → String
message_of file message = template ("migration " ∷ file ∷ " failed: " ∷ message ∷ [])

-- The database as the command sees it. `clients` are those taken from the pool.
pub record Store (S : Type 0) : Type 0 where
  pub schema : S
  pub versions : List String
  pub locked : Bool
  pub clients : ℕ

-- The two `finally` blocks run whatever the loop answers.
abbrev pub released :
    {S : Type 0}
    → Result Failure MigrationResult × Store S
    → Result Failure MigrationResult × Store S
released (r, db) = (r, record db { locked = false; clients = db.clients - 1 })

module _ {S : Type 0} (execute : String → S → Result String S) where
  -- The transaction of one file. The version is the key of its table, so it is not taken twice.
  unfoldable pub apply_file : String → String → Store S → Result String (Store S)
  apply_file file sql db = elim (execute sql db.schema) [
    | err message ↦ err message
    | ok schema ↦
        if contains db.versions file
        then err "duplicate key"
        else ok (record db { schema = schema; versions = db.versions ++ (file ∷ []) })
  ]

module _ {S : Type 0} (read : String → Result String String)
    (execute : String → S → Result String S) where
  -- The loop over the files; `done` are the versions that were there before it.
  unfoldable pub apply_all :
      List String
      → List String
      → MigrationResult
      → Store S
      → Result Failure MigrationResult × Store S
  unfolding apply_file
  apply_all done [] result db = (ok result, db)
  apply_all done (file ∷ files) result db = elim (contains done file) [
    | true ↦
        apply_all done files
          (record result { already_applied = result.already_applied ++ (file ∷ []) }) db
    | false ↦ elim (read file) [
      | err message ↦ (err (reading message), db)
      | ok sql ↦ elim (apply_file execute file sql db) [
        | err message ↦ (err (migration_failed (message_of file message)), db)
        | ok db' ↦
            apply_all done files (record result { applied = result.applied ++ (file ∷ []) }) db'
      ]
    ]
  ]

  unfoldable pub run_migrations :
      Result ErrnoException (List String) → Store S → Result Failure MigrationResult × Store S
  unfolding list_migration_files apply_all
  run_migrations entries db = elim (list_migration_files entries) [
    | err e ↦ (err (listing e), db)
    | ok files ↦ released (
        apply_all db.versions files (record { applied = []; already_applied = [] })
          (record db { locked = true; clients = suc db.clients }))
  ]
