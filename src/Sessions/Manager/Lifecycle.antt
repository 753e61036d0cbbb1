-- ===== src/Sessions/Manager/Lifecycle.antt =====
-- baileys/src/sessions/manager.ts: the methods that open, restart and end sessions, the timers, and
-- the commands that change the state, as one type.
use whatsapp_auto_send.Prelude.{
  ℕ, suc, ◌+◌, String, Bool, true, false, ◌||◌, Option, none, some, List, [], ◌∷◌, ◌++◌, Result, ok,
  err, ◌==◌, string_eq, nat_eq, if◌then◌else◌, length,
}
use whatsapp_auto_send.Prelude.Dict.{put, delete, values}
use whatsapp_auto_send.Errors.{
  ErrorCode, Thrown, api, session_not_connected_error, session_not_found_error,
  session_logged_out_error,
}
use whatsapp_auto_send.Database.{
  SessionStatus, new, connected, disconnected, logged_out, unhealthy, session_status_eq, SessionRow,
}
use whatsapp_auto_send.AuthState.{clear_auth_state}
use whatsapp_auto_send.Sessions.Repository.{
  get_session, set_session_status, delete_session, list_restorable_sessions,
}
use whatsapp_auto_send.Sessions.State.{
  Entry, State, modify, entry_at, entry_of, remove_handle, clear_timeout, end_socket,
}
use whatsapp_auto_send.Sessions.Manager.{
  Snapshot, snapshot, Outside, set_status, emit_status, open_socket, record_send_outcome,
  restore_stagger_ms,
}
use whatsapp_auto_send.Sessions.Manager.Connection.{Update, on_connection_update}

-- A session that was connected is not, until its socket opens again.
unfoldable pub initial_live_status : SessionStatus → SessionStatus
initial_live_status connected = disconnected
initial_live_status unhealthy = disconnected
initial_live_status stored = stored

abbrev pub new_entry : SessionRow → String → Entry
new_entry row id = record {
  id = id;
  status = initial_live_status row.status;
  qr = none;
  phone_number = row.phone_number;
  last_connected_at = none;
  reconnect_attempts = 0;
  socket = none;
  restarts = 0;
  reconnect_timer = none;
  closing = false;
  pending_creds = 0;
  last_successful_send_at = none;
  last_failed_send_at = none;
  consecutive_failures = 0;
  last_error_code = none;
  reconnect_due_at = none;
}

-- `return this.snapshot(id)!`, after an `await` that may have thrown.
abbrev pub answer :
    String → Result Thrown (Unit {0}) × State → Result Thrown (Option Snapshot) × State
answer id (ok _, s) = (ok (snapshot s id), s)
answer id (err e, s) = (err e, s)

-- The rest of `connect`, once the row is known to allow it.
unfoldable pub connect_entry :
    String → SessionRow → Outside → State → Result Thrown (Option Snapshot) × State
connect_entry id row out s = elim (entry_of s id) [
  | none ↦ answer id (
      open_socket (length s.heap) out (record s {
        heap = s.heap ++ (new_entry row id ∷ []);
        entries = put id (length s.heap) s.entries;
      }))
  | some (ref, e) ↦ elim e.socket [
    | some k ↦ (ok (snapshot s id), s)
    | none ↦ answer id (open_socket ref out (modify ref (λ x. record x { closing = false }) s))
  ]
]

unfoldable pub connect : String → Outside → State → Result Thrown (Option Snapshot) × State
unfolding connect_entry
connect id out s =
    if s.shutting_down
    then (err (api (session_not_connected_error id "shutting down")), s)
    else elim (get_session s.db id) [
      | none ↦ (err (api (session_not_found_error id)), s)
      | some row ↦
          if row.status == logged_out
          then (err (api (session_logged_out_error id)), s)
          else connect_entry id row out s
    ]

-- What `restart` does to a live entry before it opens a socket. `closing` is set and reset with no
-- `await` between.
unfoldable pub restart_entry : ℕ → Entry → State → State
restart_entry ref e s = set_status ref disconnected (
    modify ref
      (λ x. record x {
        reconnect_timer = none;
        reconnect_due_at = none;
        socket = none;
        qr = none;
        reconnect_attempts = 0;
        restarts = 0;
        consecutive_failures = 0;
        closing = false;
      })
      (end_socket e.socket (clear_timeout e.reconnect_timer s)))

unfoldable pub restart : String → Outside → State → Result Thrown (Option Snapshot) × State
unfolding restart_entry
restart id out s = elim (get_session s.db id) [
  | none ↦ (err (api (session_not_found_error id)), s)
  | some row ↦
      if row.status == logged_out
      then (err (api (session_logged_out_error id)), s)
      else elim (entry_of s id) [
        | some (ref, e) ↦ answer id (open_socket ref out (restart_entry ref e s))
        | none ↦ connect id out s
      ]
]

-- The live entry is closed for good and taken off the map.
unfoldable pub drop_entry : String → State → State
drop_entry id s = elim (entry_of s id) [
  | none ↦ s
  | some (ref, e) ↦
      record (modify ref (λ x. record x { reconnect_timer = none; closing = true })
        (end_socket e.socket (clear_timeout e.reconnect_timer s))) { entries = delete id s.entries }
]

unfoldable pub reset : String → State → Result Thrown (Unit {0}) × State
unfolding drop_entry
reset id s = elim (get_session s.db id) [
  | none ↦ (err (api (session_not_found_error id)), s)
  | some row ↦
      let s' = drop_entry id s in
      (ok tt, record s' { db = set_session_status (clear_auth_state s'.db id) id new s'.now })
]

-- `logged_out` tells whether the socket's own `logout` went through, which closes it.
abbrev pub logout_socket : Bool → Option ℕ → State → State
logout_socket true k s = end_socket k s
logout_socket false k s = s

unfoldable pub logout_entry : String → Bool → State → State
unfolding emit_status
logout_entry id went_through s = elim (entry_of s id) [
  | none ↦ s
  | some (ref, e) ↦ emit_status ref (
      modify ref
        (λ x. record x {
          closing = true;
          reconnect_timer = none;
          qr = none;
          socket = none;
          status = logged_out;
        })
        (logout_socket went_through e.socket (clear_timeout e.reconnect_timer s)))
]

unfoldable pub logout : String → Bool → State → Result Thrown (Unit {0}) × State
unfolding logout_entry
logout id went_through s = elim (get_session s.db id) [
  | none ↦ (err (api (session_not_found_error id)), s)
  | some row ↦
      let s' = logout_entry id went_through s in
      (
        ok tt,
        record s' { db = clear_auth_state (set_session_status s'.db id logged_out s'.now) id },
      )
]

unfoldable pub delete_session_of : String → State → Result Thrown (Unit {0}) × State
unfolding drop_entry
delete_session_of id s =
    let s' = drop_entry id s in
    let (r, db') = delete_session s'.db id in (r, record s' { db = db' })

unfoldable pub close_all : List ℕ → State → State
close_all [] s = s
close_all (ref ∷ refs) s = close_all refs (elim (entry_at s ref) [
  | none ↦ s
  | some e ↦
      modify ref
        (λ x. record x { reconnect_timer = none; closing = true; socket = none; pending_creds = 0 })
        (end_socket e.socket (clear_timeout e.reconnect_timer s))
])

-- The restore, if one runs, ends before; the writes of the credentials are awaited.
unfoldable pub shutdown : State → State
unfolding close_all
shutdown s = record (close_all (values s.entries) (record s { shutting_down = true })) {
  entries = [];
}

unfoldable pub timer_place : ℕ → List (ℕ × ℕ) → Option ℕ
timer_place t [] = none
timer_place t ((k, ref) ∷ ks) = if k == t then some ref else timer_place t ks

unfoldable pub fire_at : ℕ → Outside → State → State
fire_at ref out s = elim (entry_at s ref) [
  | none ↦ s
  | some e ↦
      let s' = modify ref (λ x. record x { reconnect_timer = none; reconnect_due_at = none }) s in
      if e.closing || s.shutting_down then s' else (open_socket ref out s').1
]

-- The callback of an armed timer; a failure to open is logged.
unfoldable pub fire : ℕ → Outside → State → State
unfolding timer_place fire_at
fire t out s = elim (timer_place t s.timers) [
  | none ↦ s
  | some ref ↦ fire_at ref out (record s { timers = remove_handle t s.timers })
]

unfoldable pub queue_creds : ℕ → State → State
queue_creds ref = modify ref (λ x. record x { pending_creds = suc x.pending_creds })

-- The loop of `doRestoreAll`: three seconds between two sessions, and a failure goes on to the next.
unfoldable pub restore_rows : List SessionRow → Bool → Outside → State → State
restore_rows [] first out s = s
restore_rows (r ∷ rs) first out s =
    if s.shutting_down
    then s
    else restore_rows rs false out
        (connect r.id out
          (record s { now = if first then s.now else s.now + restore_stagger_ms })).1

unfoldable pub restore_all : Outside → State → State
unfolding restore_rows
restore_all out s = restore_rows (list_restorable_sessions s.db) true out s

-- Everything that changes the state.
pub data Command : Type 0 where
  connects restarts_it : String → Outside → Command
  resets deletes : String → Command
  logs_out : String → Bool → Command
  reports : String → Option ErrorCode → Command
  updates : ℕ → Update → Command
  fires : ℕ → Outside → Command
  queues : ℕ → Command
  shuts_down : Command
  waits : ℕ → Command

unfoldable pub step : State → Command → State
step s (connects id out) = (connect id out s).1
step s (restarts_it id out) = (restart id out s).1
step s (resets id) = (reset id s).1
step s (deletes id) = (delete_session_of id s).1
step s (logs_out id went_through) = (logout id went_through s).1
step s (reports id outcome) = record_send_outcome id outcome s
step s (updates ref u) = on_connection_update ref u s
step s (fires t out) = fire t out s
step s (queues ref) = queue_creds ref s
step s shuts_down = shutdown s
step s (waits ms) = record s { now = s.now + ms }

unfoldable pub run : State → List Command → State
unfolding step
run s [] = s
run s (c ∷ cs) = run (step s c) cs
