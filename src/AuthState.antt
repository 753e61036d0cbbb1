-- ===== src/AuthState.antt =====
-- baileys/src/wa/auth-state.ts: the credentials and keys of a session, in wa_auth_creds and
-- wa_auth_keys. The library's JSON form of a value (`serialise`, `deserialise`) is not looked into:
-- a row holds the value. `initAuthCreds` is the library's, and its result an argument.
pub mod Keys
mod Tests
use whatsapp_auto_send.Prelude.{
  String, Bool, true, false, not, ◌&&◌, Option, none, some, List, [], ◌∷◌, ◌++◌, ◌==◌, string_eq,
  if◌then◌else◌, ltb, is_truthy,
}
use whatsapp_auto_send.Prelude.Dict.{Dict, get, put, delete}
use whatsapp_auto_send.Database.{Creds, KeyRow, Db}
use whatsapp_auto_send.Sessions.Repository.{delete_keys}

unfoldable pub is_fully_paired : Creds → Bool
is_fully_paired c = is_truthy c.me_id && (c.has_account && ltb 0 c.signal_identities)

unfoldable pub is_pairing_incomplete : Creds → Bool
unfolding is_fully_paired
is_pairing_incomplete c = is_truthy c.me_id && not (is_fully_paired c)

unfoldable pub load_creds : Db → String → Creds → Creds
load_creds db session_id fresh = elim (get session_id db.creds) [ none ↦ fresh | some c ↦ c ]

unfoldable pub save_creds : Db → String → Creds → Db
save_creds db session_id creds = record db { creds = put session_id creds db.creds }

-- `SignalDataSet`: for each type, its ids with a value or `null`.
abbrev pub SignalDataSet : Type 0
SignalDataSet = List (String × List (String × Option String))

abbrev pub is_key : String → String → String → KeyRow → Bool
is_key session_id type id k = k.session_id == session_id && (k.key_type == type && k.key_id == id)

unfoldable pub find_key : String → String → String → List KeyRow → Option String
find_key session_id type id [] = none
find_key session_id type id (k ∷ ks) =
    if is_key session_id type id k then some k.key_data else find_key session_id type id ks

-- INSERT … ON CONFLICT … DO UPDATE, for one row.
unfoldable pub upsert_key : String → String → String → String → List KeyRow → List KeyRow
upsert_key session_id type id value [] =
    record { session_id = session_id; key_type = type; key_id = id; key_data = value } ∷ []
upsert_key session_id type id value (k ∷ ks) =
    if is_key session_id type id k
    then record k { key_data = value } ∷ ks
    else k ∷ upsert_key session_id type id value ks

unfoldable pub remove_key : String → String → String → List KeyRow → List KeyRow
remove_key session_id type id [] = []
remove_key session_id type id (k ∷ ks) =
    let rest = remove_key session_id type id ks in
    if is_key session_id type id k then rest else k ∷ rest

-- `store.get(type, ids)`: the object that maps each id that was found to its value.
unfoldable pub get_keys : Db → String → String → List String → Dict String String
get_keys db session_id type [] = []
get_keys db session_id type (id ∷ ids) = elim (find_key session_id type id db.keys) [
  | none ↦ get_keys db session_id type ids
  | some v ↦ put id v (get_keys db session_id type ids)
]

pub record Changes : Type 0 where
  pub upserts : List (String × String × String)
  pub deletes : List (String × String)

unfoldable pub split_entries : String → List (String × Option String) → Changes → Changes
split_entries type [] c = c
split_entries type ((id, none) ∷ es) c =
    split_entries type es (record c { deletes = c.deletes ++ ((type, id) ∷ []) })
split_entries type ((id, some v) ∷ es) c =
    split_entries type es (record c { upserts = c.upserts ++ ((type, id, v) ∷ []) })

-- The two nested loops of `set`.
unfoldable pub split_data : SignalDataSet → Changes → Changes
unfolding split_entries
split_data [] c = c
split_data ((type, es) ∷ data') c = split_data data' (split_entries type es c)

unfoldable pub upsert_all : String → List (String × String × String) → List KeyRow → List KeyRow
unfolding upsert_key
upsert_all session_id [] ks = ks
upsert_all session_id ((type, id, v) ∷ us) ks =
    upsert_all session_id us (upsert_key session_id type id v ks)

unfoldable pub remove_all : String → List (String × String) → List KeyRow → List KeyRow
unfolding remove_key
remove_all session_id [] ks = ks
remove_all session_id ((type, id) ∷ ds) ks =
    remove_all session_id ds (remove_key session_id type id ks)

unfoldable pub is_empty {ℓ} : {A : Type ℓ} → List A → Bool
is_empty [] = true
is_empty (x ∷ xs) = false

-- With nothing to write there is no query. Otherwise `committed` tells whether every statement of
-- the transaction went through; if not, it is rolled back and the error is thrown on.
unfoldable pub set_keys : Db → String → SignalDataSet → Bool → Bool × Db
unfolding split_data upsert_all remove_all is_empty
set_keys db session_id data' committed =
    let c = split_data data' (record { upserts = []; deletes = [] }) in
    if is_empty c.upserts && is_empty c.deletes
    then (true, db)
    else if committed
    then (
      true,
      record db {
        keys = remove_all session_id c.deletes (upsert_all session_id c.upserts db.keys);
      },
    )
    else (false, db)

unfoldable pub clear_keys : Db → String → Db
clear_keys db session_id = record db { keys = delete_keys session_id db.keys }

unfoldable pub clear_auth_state : Db → String → Db
clear_auth_state db session_id = record db {
  keys = delete_keys session_id db.keys;
  creds = delete session_id db.creds;
}

-- What a socket is given: the credentials, which it changes in place, and the session whose rows
-- they and the keys are.
pub record PostgresAuthState : Type 0 where
  pub session_id : String
  pub creds : Creds

unfoldable pub use_postgres_auth_state : Db → String → Creds → PostgresAuthState
use_postgres_auth_state db session_id fresh = record {
  session_id = session_id;
  creds = load_creds db session_id fresh;
}

-- `saveCreds` of the state: the credentials as the socket has left them.
unfoldable pub save_state : PostgresAuthState → Db → Db
save_state state db = save_creds db state.session_id state.creds
