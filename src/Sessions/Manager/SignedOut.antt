-- ===== src/Sessions/Manager/SignedOut.antt =====
-- A session that WhatsApp logged out, in manager.ts: its credentials are gone, nothing reconnects it,
-- and it may not connect until it is reset.
use whatsapp_auto_send.Prelude.{
  ℕ, String, false, none, some, err, ◌≡◌, ◌≢◌, refl, ap, ◌∙◌, string_eq, option_eq, nat_eq,
  ==-true_of_eq, ==-false_of_ne,
}
use whatsapp_auto_send.Prelude.Dict.{get, get-delete}
use whatsapp_auto_send.Errors.{api, session_logged_out_error}
use whatsapp_auto_send.ErrorMapping.{logged_out_reason}
use whatsapp_auto_send.Database.{SessionStatus, SessionRow, Db, logged_out, session_status_eq}
use whatsapp_auto_send.AuthState.{clear_auth_state}
use whatsapp_auto_send.Sessions.Repository.{get_session, set_session_status}
use whatsapp_auto_send.Sessions.Repository.Rows.{get_session-set_session_status}
use whatsapp_auto_send.Sessions.State.{Entry, State, modify, entry_at, remove_handle}
use whatsapp_auto_send.Sessions.Manager.{Outside, set_status, emit_status}
use whatsapp_auto_send.Sessions.Manager.Connection.{Update, on_closed, after_close, on_logged_out}
use whatsapp_auto_send.Sessions.Manager.Lifecycle.{connect, restart}
use whatsapp_auto_send.Sessions.Manager.Frame.{set_status-SameFrame}
use whatsapp_auto_send.Sessions.Manager.Heap.{get_elem?-modify_at}

get_session-clear_auth_state :
    (db : Db) (id j : String) → get_session (clear_auth_state db id) j ≡ get_session db j
unfolding get_session clear_auth_state
get_session-clear_auth_state db id j = refl

get-clear_auth_state : (db : Db) (id : String) → get id (clear_auth_state db id).creds ≡ none
unfolding clear_auth_state
get-clear_auth_state db id = rw (get-delete id id db.creds, ==-true_of_eq id id refl)

-- A new status is written to the row of the entry.
db-set_status :
    (ref : ℕ) (s : State) (e : Entry) (status : SessionStatus)
    → entry_at s ref ≡ some e
    → e.status ≢ status
    → (set_status ref status s).db ≡ set_session_status s.db e.id status s.now
unfolding set_status emit_status
db-set_status ref s e status here n = rw (
  set_status,
  here,
  ==-false_of_ne e.status status n,
  emit_status,
  get_elem?-modify_at ref (λ x. record x { status = status }) s.heap e here,
)

logged_out_row :
    (db : Db) (id : String) (row : SessionRow) (now : ℕ)
    → get_session db id ≡ some row
    → get_session (set_session_status db id logged_out now) id
      ≡ some (record row { status = logged_out; updated_at = now })
logged_out_row db id row now found =
    rw (get_session-set_session_status db id id logged_out now, ==-true_of_eq id id refl, found)

module _ (s : State) (id : String) (row : SessionRow) (found : get_session s.db id ≡ some row)
    (out_of_it : row.status ≡ logged_out) where
  connect_refused :
      (out : Outside)
      → s.shutting_down ≡ false
      → (connect id out s).0 ≡ err (api (session_logged_out_error id))
  unfolding connect
  connect_refused out up = rw (connect, up, found, ==-true_of_eq row.status logged_out out_of_it)

  restart_refused : (out : Outside) → (restart id out s).0 ≡ err (api (session_logged_out_error id))
  unfolding restart
  restart_refused out = rw (restart, found, ==-true_of_eq row.status logged_out out_of_it)

module _ (s : State) (ref : ℕ) (e : Entry) (row : SessionRow) (u : Update)
    (here : entry_at s ref ≡ some e) (live : e.closing ≡ false) (up : s.shutting_down ≡ false)
    (logged_in : e.status ≢ logged_out) (found : get_session s.db e.id ≡ some row)
    (reason : u.status ≡ some logged_out_reason) where
  -- The entry without its socket and its code, and then out.
  abbrev pub socket_gone : State
  socket_gone = record (modify ref (λ x. record x { socket = none }) s) {
    open_sockets = remove_handle u.socket s.open_sockets;
  }

  abbrev pub code_gone : State
  code_gone = modify ref (λ x. record x { qr = none }) socket_gone

  abbrev pub now_out : State
  now_out = set_status ref logged_out code_gone

  pub closed_state : on_closed ref u s ≡ record now_out { db = clear_auth_state now_out.db e.id }
  unfolding on_closed after_close on_logged_out
  closed_state = rw (
    on_closed,
    here,
    after_close,
    live,
    up,
    ==-true_of_eq u.status (some logged_out_reason) reason,
    on_logged_out,
  )

  now_out_db : now_out.db ≡ set_session_status s.db e.id logged_out s.now
  now_out_db =
      db-set_status ref code_gone (record e { socket = none; qr = none }) logged_out
        (get_elem?-modify_at ref (λ x. record x { qr = none }) socket_gone.heap
          (record e { socket = none })
          (get_elem?-modify_at ref (λ x. record x { socket = none }) s.heap e here))
        logged_in

  closed_db :
      (on_closed ref u s).db ≡ clear_auth_state (set_session_status s.db e.id logged_out s.now) e.id
  closed_db = ap (λ t. t.db) closed_state ∙ ap (λ d. clear_auth_state d e.id) now_out_db

  now_out_frame : (now_out.timers ≡ s.timers) × (now_out.shutting_down ≡ s.shutting_down)
  now_out_frame =
      let kept = set_status-SameFrame ref code_gone logged_out in (kept.timers_kept, kept.flag_kept)

  -- When WhatsApp logs out a session that has its row, that is neither being closed nor logged out
  -- yet, and there is no shutdown, its credentials are deleted, the timers are left as they were (none is armed,
  -- and one that was armed before stays), and both `connect` and `restart` refuse it as logged out
  -- afterwards.
  pub on_closed-signed_out :
      (out : Outside)
      → let s' = on_closed ref u s in
        (get e.id s'.db.creds ≡ none)
        × (s'.timers ≡ s.timers)
        × ((connect e.id out s').0 ≡ err (api (session_logged_out_error e.id)))
        × ((restart e.id out s').0 ≡ err (api (session_logged_out_error e.id)))
  on_closed-signed_out out =
      let s' = on_closed ref u s in
      let row' = record row { status = logged_out; updated_at = s.now } in
      let found' =
        ap (λ d. get_session d e.id) closed_db
        ∙ get_session-clear_auth_state (set_session_status s.db e.id logged_out s.now) e.id e.id
        ∙ logged_out_row s.db e.id row s.now found in
      (
        ap (λ d. get e.id d.creds) closed_db
            ∙ get-clear_auth_state (set_session_status s.db e.id logged_out s.now) e.id,
        ap (λ t. t.timers) closed_state ∙ now_out_frame.0,
        connect_refused s' e.id row' found' refl out
            (ap (λ t. t.shutting_down) closed_state ∙ now_out_frame.1 ∙ up),
        restart_refused s' e.id row' found' refl out,
      )
