-- ===== src/Sessions/Manager.antt =====
-- baileys/src/sessions/manager.ts: the handlers of `SessionManager`, each run with nothing between
-- its `await`s. What the outside answers (the version, the socket's user, the random number of the
-- backoff, the outcome of `logout`) is an argument.
pub mod Backoff
pub mod Connection
pub mod Lifecycle
pub mod Heap
pub mod Invariant
pub mod Commands
pub mod Frame
pub mod Reconnect
pub mod Outcomes
pub mod Shutdown
pub mod Gaps
pub mod SecondSocket
pub mod Recovery
pub mod Deletion
pub mod Sockets
pub mod SignedOut
pub mod Reopened
pub mod Closing
pub mod Awaits
pub mod Samples
mod Tests
use whatsapp_auto_send.Prelude.{
  ℕ, zero, suc, ◌+◌, ◌-◌, ◌*◌, String, Bool, true, false, not, ◌&&◌, ◌||◌, Option, none, some, List,
  [], ◌∷◌, ◌++◌, Result, ok, err, ◌==◌, string_eq, nat_eq, option_eq, leb, ltb, if◌then◌else◌,
  is_truthy, split_on, length, contains,
}
use whatsapp_auto_send.Prelude.Dict.{get, put, delete}
use whatsapp_auto_send.Errors.{
  ErrorCode, send_failed, session_not_connected, rate_limited_by_wa, error_code_eq, ApiError,
  Thrown, api, other, session_not_connected_error, session_not_found_error,
  session_logged_out_error,
}
use whatsapp_auto_send.Database.{
  SessionStatus, new, pairing, connected, disconnected, logged_out, unhealthy, session_status_eq,
  status_name, SessionRow, Db, Creds,
}
use whatsapp_auto_send.AuthState.{load_creds, clear_auth_state, is_pairing_incomplete}
use whatsapp_auto_send.ErrorMapping.{logged_out_reason, restart_required_reason}
use whatsapp_auto_send.Metrics.{increment}
use whatsapp_auto_send.Sessions.Events.{SessionEvent, Body, status_changed}
use whatsapp_auto_send.Sessions.Events
use whatsapp_auto_send.Sessions.Repository.{
  get_session, set_session_status, set_session_connected, delete_session, list_restorable_sessions,
}
use whatsapp_auto_send.Sessions.State.{
  Entry, State, modify_at, modify, entry_at, place_of, entry_of, remove_handle, clear_timeout,
  end_socket,
}
use Backoff.{backoff_delay}

abbrev pub max_reconnect_attempts : ℕ
max_reconnect_attempts = 10

abbrev pub max_restarts : ℕ
max_restarts = 5

abbrev pub restart_delay_ms : ℕ
restart_delay_ms = 250

abbrev pub restore_stagger_ms : ℕ
restore_stagger_ms = 3_000

abbrev pub unhealthy_after_failures : ℕ
unhealthy_after_failures = 5

abbrev pub is_session_fault : ErrorCode → Bool
is_session_fault send_failed = true
is_session_fault session_not_connected = true
is_session_fault rate_limited_by_wa = true
is_session_fault _ = false

pub record Snapshot : Type 0 where
  pub id : String
  pub status : SessionStatus
  pub qr : Option String
  pub phone_number : Option String
  pub last_connected_at : Option ℕ
  pub reconnect_attempts : ℕ
  pub socket_connected : Bool
  pub last_successful_send_at : Option ℕ
  pub last_failed_send_at : Option ℕ
  pub consecutive_failures : ℕ
  pub last_error_code : Option ErrorCode
  pub next_reconnect_in_ms : Option ℕ

-- `due ? Math.max(0, due - now) : undefined`; a due time of 0 counts as absent.
abbrev pub remaining : Option ℕ → ℕ → Option ℕ
remaining none now = none
remaining (some due) now = if due == 0 then none else some (due - now)

abbrev is_some_socket : Option ℕ → Bool
is_some_socket none = false
is_some_socket (some k) = true

abbrev pub snapshot_of : Entry → ℕ → Snapshot
snapshot_of e now = record {
  id = e.id;
  status = e.status;
  qr = e.qr;
  phone_number = e.phone_number;
  last_connected_at = e.last_connected_at;
  reconnect_attempts = e.reconnect_attempts;
  socket_connected = is_some_socket e.socket && not (e.status == disconnected);
  last_successful_send_at = e.last_successful_send_at;
  last_failed_send_at = e.last_failed_send_at;
  consecutive_failures = e.consecutive_failures;
  last_error_code = e.last_error_code;
  next_reconnect_in_ms = remaining e.reconnect_due_at now;
}

unfoldable pub snapshot : State → String → Option Snapshot
snapshot s id = elim (entry_of s id) [ none ↦ none | some (ref, e) ↦ some (snapshot_of e s.now) ]

snapshots : State → List (String × ℕ) → List Snapshot
snapshots s [] = []
snapshots s ((id, ref) ∷ ids) = elim (snapshot s id) [
  | none ↦ snapshots s ids
  | some v ↦ v ∷ snapshots s ids
]

unfoldable pub snapshot_all : State → List Snapshot
unfolding snapshots
snapshot_all s = snapshots s s.entries

unfoldable pub emit_status : ℕ → State → State
emit_status ref s = elim (entry_at s ref) [
  | none ↦ s
  | some e ↦ record s {
    events =
        s.events
        ++ (record { session_id = e.id; at = s.now; body = status_changed e.status e.phone_number }
            ∷ []);
  }
]

-- A status that does not change is neither written nor told. The write is taken to succeed, and to land
-- before the next one of the session.
unfoldable pub set_status : ℕ → SessionStatus → State → State
unfolding emit_status
set_status ref status s = elim (entry_at s ref) [
  | none ↦ s
  | some e ↦
      if e.status == status
      then s
      else emit_status ref (record (modify ref (λ x. record x { status = status }) s) {
        db = set_session_status s.db e.id status s.now;
      })
]

unfoldable pub record_send_outcome : String → Option ErrorCode → State → State
unfolding set_status
record_send_outcome id none s = elim (entry_of s id) [
  | none ↦ s
  | some (ref, e) ↦
      let s' =
        modify ref
          (λ x. record x {
            last_successful_send_at = some s.now;
            consecutive_failures = 0;
            last_error_code = none;
          })
          s in
      if e.status == unhealthy then set_status ref connected s' else s'
]
record_send_outcome id (some code) s = elim (entry_of s id) [
  | none ↦ s
  | some (ref, e) ↦
      let s' =
        modify ref
          (λ x. record x {
            last_failed_send_at = some s.now;
            last_error_code = some code;
            consecutive_failures =
                if is_session_fault code
                then x.consecutive_failures + 1
                else x.consecutive_failures;
          })
          s in
      if is_session_fault code
        && (leb unhealthy_after_failures (e.consecutive_failures + 1) && e.status == connected)
      then set_status ref unhealthy s'
      else s'
]

unfoldable pub schedule_reconnect : ℕ → ℕ → State → State
schedule_reconnect ref delay_ms s = elim (entry_at s ref) [
  | none ↦ s
  | some e ↦
      let s' = clear_timeout e.reconnect_timer s in
      record (modify ref
        (λ x. record x {
          reconnect_due_at = some (s.now + delay_ms);
          reconnect_timer = some s.next_handle;
        })
        s') {
          metrics = increment s.metrics "baileys_reconnects_total" (("session_id", e.id) ∷ []) 1;
          timers = s'.timers ++ ((s.next_handle, ref) ∷ []);
          next_handle = suc s.next_handle;
        }
]

-- What the outside gives to the opening of a socket: the web version, and the credentials that
-- `initAuthCreds` makes.
pub record Outside : Type 0 where
  pub fetched : Result Thrown ℕ
  pub fresh : Creds

unfoldable pub make_socket : ℕ → Creds → State → State
make_socket ref fresh s = elim (entry_at s ref) [
  | none ↦ s
  | some e ↦ record (modify ref (λ x. record x { socket = some s.next_handle }) s) {
    db =
        if is_pairing_incomplete (load_creds s.db e.id fresh)
        then clear_auth_state s.db e.id
        else s.db;
    open_sockets = s.open_sockets ++ ((s.next_handle, ref) ∷ []);
    next_handle = suc s.next_handle;
  }
]

abbrev with_version : Option ℕ → Outside → Result Thrown ℕ
with_version none out = out.fetched
with_version (some v) out = ok v

unfoldable pub open_socket : ℕ → Outside → State → Result Thrown (Unit {0}) × State
unfolding make_socket
open_socket ref out s = elim (with_version s.version out) [
  | err e ↦ (err e, s)
  | ok v ↦ (ok tt, make_socket ref out.fresh (record s { version = some v }))
]
