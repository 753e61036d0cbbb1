-- ===== src/Routes.antt =====
-- baileys/src/routes/sessions.ts: the routes on one session, as functions of the manager's state.
--
-- What the schema library makes of a body is an argument: the fields, or the text of its issues. `out`
-- is what a new socket needs, `events` what the bus carries while a pairing waits, and `code` what the
-- socket answers when it is asked for a pairing code. An id is not empty.
pub mod Owners
pub mod Gauges
mod Tests
use whatsapp_auto_send.Prelude.{
  ℕ, String, Bool, true, false, Option, none, some, List, [], ◌∷◌, Result, ok, err, is_truthy,
  if◌then◌else◌, ◌>>=◌,
}
use whatsapp_auto_send.Errors.{
  ErrorCode, ApiError, Thrown, api, other, invalid_payload_error, session_not_found_error,
}
use whatsapp_auto_send.Phone.{normalise_phone_number}
use whatsapp_auto_send.Timeout.{Work, with_timeout, wa_timeouts}
use whatsapp_auto_send.ErrorMapping.{map_pairing_error}
use whatsapp_auto_send.Database.{SessionStatus, new, logged_out, SessionRow, Db}
use whatsapp_auto_send.Sessions.Repository.{
  get_session, get_owned_session, list_sessions, list_sessions_by_owner, create_session,
}
use whatsapp_auto_send.Sessions.Events.{SessionEvent}
use whatsapp_auto_send.Sessions.State.{State}
use whatsapp_auto_send.Sessions.Manager.{Snapshot, snapshot, Outside}
use whatsapp_auto_send.Sessions.Manager.Lifecycle.{
  connect, restart, reset, logout, delete_session_of,
}
use whatsapp_auto_send.Messages.Send.{Deps, Env, SendRequest, SendResult, World, send_text_message}
use whatsapp_auto_send.Sessions.Manager.Sockets.{wait_for_pairing_ready, require_pairing_socket}

-- The answer of a route on one session.
pub data Answer : Type 0 where
  status_is : SessionStatus → Answer
  pairing_code : String → String → Answer
  qr_is : SessionStatus → Option String → Answer
  no_content : Answer

unfoldable pub load_session : State → String → Result Thrown SessionRow
load_session s id = elim (get_session s.db id) [
  | none ↦ err (api (session_not_found_error id))
  | some row ↦ ok row
]

unfoldable pub load_owned_session : State → String → String → Result Thrown SessionRow
load_owned_session s id owner = elim (get_owned_session s.db id owner) [
  | none ↦ err (api (session_not_found_error id))
  | some row ↦ ok row
]

abbrev pub Handled : Type 0
Handled = Result Thrown Answer × State

-- `snapshot.status`, of a snapshot that `connect` and `restart` take to be there.
abbrev status_answer : Result Thrown (Option Snapshot) × State → Handled
status_answer (ok (some v), s) = (ok (status_is v.status), s)
status_answer (ok none, s) = (err (other none (some "Cannot read properties of undefined")), s)
status_answer (err e, s) = (err e, s)

abbrev done_answer : Answer → Result Thrown (Unit {0}) × State → Handled
done_answer a (ok _, s) = (ok a, s)
done_answer a (err e, s) = (err e, s)

-- `live?.status ?? row.status` and `live?.qr ?? null`
abbrev qr_answer : SessionRow → Option Snapshot → Answer
qr_answer row none = qr_is row.status none
qr_answer row (some live) = qr_is live.status live.qr

abbrev code_answer : String → String → Result Thrown String → Result Thrown Answer
code_answer id digits (ok code) = ok (pairing_code digits code)
code_answer id digits (err e) = err (api (map_pairing_error e id))

-- The pairing after `connect`.
unfoldable pub pair_after :
    String
    → String
    → List SessionEvent
    → Work String
    → Result Thrown (Option Snapshot) × State
    → Handled
pair_after id digits events code (err e, s) = (err e, s)
pair_after id digits events code (ok _, s) = elim (wait_for_pairing_ready s id 20_000 events) [
  | err e ↦ (err (api e), s)
  | ok _ ↦ elim (require_pairing_socket s id) [
    | err e ↦ (err (api e), s)
    | ok k ↦ (
      code_answer id digits
          (with_timeout "requestPairingCode" wa_timeouts.request_pairing_code code),
      s,
    )
  ]
]

unfoldable pub pair_session :
    String → String → Outside → List SessionEvent → Work String → State → Handled
unfolding pair_after
pair_session id phone out events code s = elim (normalise_phone_number phone) [
  | err message ↦ (err (api (invalid_payload_error message)), s)
  | ok digits ↦ pair_after id digits events code (connect id out s)
]

-- The routes that take the owner of the session with them.
pub data OwnedRoute : Type 0 where
  connects_it : Outside → OwnedRoute
  pairs : String → Outside → List SessionEvent → Work String → OwnedRoute
  shows_qr resets_it deletes_it : OwnedRoute
  logs_it_out : Bool → OwnedRoute

unfoldable pub act : OwnedRoute → String → SessionRow → State → Handled
unfolding pair_session
act (connects_it out) id row s = status_answer (connect id out s)
act (pairs phone out events code) id row s = pair_session id phone out events code s
act shows_qr id row s = (ok (qr_answer row (snapshot s id)), s)
act resets_it id row s = done_answer (status_is new) (reset id s)
act (logs_it_out went_through) id row s =
    done_answer (status_is logged_out) (logout id went_through s)
act deletes_it id row s = done_answer no_content (delete_session_of id s)

-- `owner` is the `ownerId` of the parsed body or query.
unfoldable pub handle_owned : OwnedRoute → String → Result String String → State → Handled
unfolding load_owned_session act
handle_owned route id (err detail) s = (err (api (invalid_payload_error detail)), s)
handle_owned route id (ok owner) s = elim (load_owned_session s id owner) [
  | err e ↦ (err e, s)
  | ok row ↦ act route id row s
]

unfoldable pub handle_restart : String → Outside → State → Handled
unfolding load_session
handle_restart id out s = elim (load_session s id) [
  | err e ↦ (err e, s)
  | ok row ↦ status_answer (restart id out s)
]

-- What a session looks like from outside; times are in milliseconds.
pub record SessionView : Type 0 where
  pub id : String
  pub label : String
  pub status : SessionStatus
  pub phone_number : Option String
  pub has_qr : Bool
  pub created_at : ℕ
  pub updated_at : ℕ
  pub socket_connected : Bool
  pub last_connected_at : Option ℕ
  pub last_successful_send_at : Option ℕ
  pub last_failed_send_at : Option ℕ
  pub consecutive_failures : ℕ
  pub last_error_code : Option ErrorCode
  pub reconnect_attempts : ℕ
  pub next_reconnect_in_ms : Option ℕ

abbrev stored_view : SessionRow → SessionView
stored_view row = record {
  id = row.id;
  label = row.label;
  status = row.status;
  phone_number = row.phone_number;
  has_qr = false;
  created_at = row.created_at;
  updated_at = row.updated_at;
  socket_connected = false;
  last_connected_at = none;
  last_successful_send_at = none;
  last_failed_send_at = none;
  consecutive_failures = 0;
  last_error_code = none;
  reconnect_attempts = 0;
  next_reconnect_in_ms = none;
}

-- `live?.phoneNumber ?? row.phone_number`
abbrev live_phone : Option String → Option String → Option String
live_phone none stored = stored
live_phone (some live) stored = some live

abbrev live_view : SessionRow → Snapshot → SessionView
live_view row live = record (stored_view row) {
  status = live.status;
  phone_number = live_phone live.phone_number row.phone_number;
  has_qr = is_truthy live.qr;
  socket_connected = live.socket_connected;
  last_connected_at = live.last_connected_at;
  last_successful_send_at = live.last_successful_send_at;
  last_failed_send_at = live.last_failed_send_at;
  consecutive_failures = live.consecutive_failures;
  last_error_code = live.last_error_code;
  reconnect_attempts = live.reconnect_attempts;
  next_reconnect_in_ms = live.next_reconnect_in_ms;
}

unfoldable pub to_view : State → SessionRow → SessionView
to_view s row = elim (snapshot s row.id) [ none ↦ stored_view row | some live ↦ live_view row live ]

unfoldable pub view_all : State → List SessionRow → List SessionView
unfolding to_view
view_all s [] = []
view_all s (row ∷ rows) = to_view s row ∷ view_all s rows

-- `ownerId ? … : …`, of a query that may have an owner.
abbrev rows_for : Db → Option String → List SessionRow
rows_for db none = list_sessions db
rows_for db (some owner) =
    if is_truthy (some owner) then list_sessions_by_owner db owner else list_sessions db

unfoldable pub handle_list :
    Result String (Option String) → State → Result Thrown (List SessionView)
unfolding view_all
handle_list (err detail) s = err (api (invalid_payload_error detail))
handle_list (ok owner) s = ok (view_all s (rows_for s.db owner))

unfoldable pub handle_get : String → State → Result Thrown SessionView
unfolding load_session to_view
handle_get id s = do row ← load_session s id; ok (to_view s row)

-- `uuid` is `randomUUID()`.
unfoldable pub handle_create :
    String → Result String (String × String) → State → Result Thrown SessionView × State
unfolding to_view
handle_create uuid (err detail) s = (err (api (invalid_payload_error detail)), s)
handle_create uuid (ok (label, owner)) s =
    let (r, db') = create_session s.db uuid label (some owner) s.now in
    let s' = record s { db = db' } in (elim r [ ok row ↦ ok (to_view s' row) | err e ↦ err e ], s')

unfoldable pub handle_send :
    Deps → Env → String → Result String SendRequest → World → Result Thrown SendResult × World
unfolding load_session
handle_send deps env id (err detail) w = (err (api (invalid_payload_error detail)), w)
handle_send deps env id (ok request) w = elim (load_session w.state id) [
  | err e ↦ (err e, w)
  | ok row ↦ send_text_message deps env id request w
]
