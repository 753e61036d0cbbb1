-- ===== src/Sessions/Repository.antt =====
-- baileys/src/sessions/repository.ts: the queries on wa_sessions. `now` is the database's clock.
pub mod Rows
pub mod Owned
use whatsapp_auto_send.Prelude.{
  ℕ, String, Bool, true, false, Option, none, some, List, [], ◌∷◌, ◌++◌, ◌||◌, ◌&&◌, Result, ok,
  err, ◌==◌, string_eq, option_eq, leb, if◌then◌else◌,
}
use whatsapp_auto_send.Prelude.Dict.{delete}
use whatsapp_auto_send.Errors.{Thrown, other}
use whatsapp_auto_send.Database.{
  SessionStatus, new, connected, disconnected, unhealthy, SessionRow, SentMessageRow, KeyRow, Db,
  session_status_eq,
}

-- WHERE id = $1; `id` is the primary key.
unfoldable pub find_row : String → List SessionRow → Option SessionRow
find_row id [] = none
find_row id (r ∷ rs) = if r.id == id then some r else find_row id rs

unfoldable pub update_row : String → (SessionRow → SessionRow) → List SessionRow → List SessionRow
update_row id f [] = []
update_row id f (r ∷ rs) = (if r.id == id then f r else r) ∷ update_row id f rs

unfoldable pub select_rows : (SessionRow → Bool) → List SessionRow → List SessionRow
select_rows test [] = []
select_rows test (r ∷ rs) = let rest = select_rows test rs in if test r then r ∷ rest else rest

-- ORDER BY: rows that compare equal stay as the table has them.
unfoldable pub insert_by :
    (SessionRow → SessionRow → Bool) → SessionRow → List SessionRow → List SessionRow
insert_by before r [] = r ∷ []
insert_by before r (q ∷ qs) = if before r q then r ∷ q ∷ qs else q ∷ insert_by before r qs

unfoldable pub order_by : (SessionRow → SessionRow → Bool) → List SessionRow → List SessionRow
unfolding insert_by
order_by before [] = []
order_by before (r ∷ rs) = insert_by before r (order_by before rs)

abbrev pub created_before : SessionRow → SessionRow → Bool
created_before r q = leb r.created_at q.created_at

abbrev pub updated_after : SessionRow → SessionRow → Bool
updated_after r q = leb q.updated_at r.updated_at

abbrev pub new_row : String → String → Option String → ℕ → SessionRow
new_row id label owner now = record {
  id = id;
  label = label;
  status = new;
  phone_number = none;
  owner_id = owner;
  created_at = now;
  updated_at = now;
}

-- `uuid` is `randomUUID()`. A second row with one id violates the primary key.
unfoldable pub create_session :
    Db → String → String → Option String → ℕ → Result Thrown SessionRow × Db
create_session db uuid label owner now = elim (find_row uuid db.sessions) [
  | some r ↦ (err (other none (some "duplicate key value violates unique constraint")), db)
  | none ↦ (
    ok (new_row uuid label owner now),
    record db { sessions = db.sessions ++ (new_row uuid label owner now ∷ []) },
  )
]

unfoldable pub list_sessions_by_owner : Db → String → List SessionRow
unfolding order_by select_rows
list_sessions_by_owner db owner =
    order_by created_before (select_rows (λ r. r.owner_id == some owner) db.sessions)

abbrev owned_by : String → Option SessionRow → Option SessionRow
owned_by owner none = none
owned_by owner (some r) = if r.owner_id == some owner then some r else none

unfoldable pub get_owned_session : Db → String → String → Option SessionRow
get_owned_session db id owner = owned_by owner (find_row id db.sessions)

unfoldable pub ensure_session : Db → String → String → ℕ → Db
ensure_session db id label now = elim (find_row id db.sessions) [
  | some r ↦ db
  | none ↦ record db { sessions = db.sessions ++ (new_row id label none now ∷ []) }
]

unfoldable pub get_session : Db → String → Option SessionRow
get_session db id = find_row id db.sessions

unfoldable pub list_sessions : Db → List SessionRow
unfolding order_by
list_sessions db = order_by created_before db.sessions

abbrev pub is_restorable : SessionRow → Bool
is_restorable r = r.status == connected || r.status == disconnected || r.status == unhealthy

unfoldable pub list_restorable_sessions : Db → List SessionRow
unfolding order_by select_rows
list_restorable_sessions db = order_by updated_after (select_rows is_restorable db.sessions)

abbrev pub has_messages : String → List SentMessageRow → Bool
has_messages id [] = false
has_messages id (m ∷ ms) = m.session_id == id || has_messages id ms

unfoldable pub delete_keys : String → List KeyRow → List KeyRow
delete_keys id [] = []
delete_keys id (k ∷ ks) =
    let rest = delete_keys id ks in if k.session_id == id then rest else k ∷ rest

unfoldable pub delete_row : String → List SessionRow → List SessionRow
delete_row id [] = []
delete_row id (r ∷ rs) = let rest = delete_row id rs in if r.id == id then rest else r ∷ rest

-- The deletion cascades to the credentials and the keys. wa_sent_messages refers to the session
-- with no such clause, so a session with messages cannot be deleted.
unfoldable pub delete_session : Db → String → Result Thrown (Unit {0}) × Db
delete_session db id =
    if has_messages id db.messages
    then (
      err (
          other none
            (some "update or delete on table \"wa_sessions\" violates foreign key constraint")),
      db,
    )
    else (
      ok tt,
      record db {
        sessions = delete_row id db.sessions;
        creds = delete id db.creds;
        keys = delete_keys id db.keys;
      },
    )

unfoldable pub set_session_status : Db → String → SessionStatus → ℕ → Db
set_session_status db id status now = record db {
  sessions = update_row id (λ r. record r { status = status; updated_at = now }) db.sessions;
}

unfoldable pub set_session_connected : Db → String → String → ℕ → Db
set_session_connected db id phone now = record db {
  sessions =
      update_row id
        (λ r. record r { status = connected; phone_number = some phone; updated_at = now })
        db.sessions;
}
