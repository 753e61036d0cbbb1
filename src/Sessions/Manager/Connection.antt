-- ===== src/Sessions/Manager/Connection.antt =====
-- baileys/src/sessions/manager.ts: what a `connection.update` of a socket does to its session.
use whatsapp_auto_send.Prelude.{
  ℕ, ◌+◌, String, ◌||◌, Option, none, some, List, [], ◌∷◌, ◌++◌, ◌==◌, string_eq, nat_eq, option_eq,
  leb, if◌then◌else◌, is_truthy, split_on,
}
use whatsapp_auto_send.Errors.{error_code_eq}
use whatsapp_auto_send.Database.{
  pairing, connected, disconnected, logged_out, session_status_eq, Db,
}
use whatsapp_auto_send.AuthState.{clear_auth_state}
use whatsapp_auto_send.ErrorMapping.{logged_out_reason, restart_required_reason}
use whatsapp_auto_send.Sessions.Events.{SessionEvent, Body, status_changed}
use whatsapp_auto_send.Sessions.Events
use whatsapp_auto_send.Sessions.Repository.{set_session_status, set_session_connected}
use whatsapp_auto_send.Sessions.State.{Entry, State, modify, entry_at, remove_handle}
use whatsapp_auto_send.Sessions.Manager.{
  max_reconnect_attempts, max_restarts, restart_delay_ms, set_status, emit_status,
  schedule_reconnect,
}
use whatsapp_auto_send.Sessions.Manager.Backoff.{backoff_delay}

pub data Connection : Type 0 where
  opened closed connecting : Connection

-- A `connection.update` of socket `socket`: `user_id` is `socket.user.id`, `random` the value of
-- `Math.random()` in parts of 2^53, and `status` the code of `lastDisconnect.error`.
pub record Update : Type 0 where
  pub socket : ℕ
  pub qr : Option String
  pub connection : Option Connection
  pub status : Option ℕ
  pub user_id : Option String
  pub random : ℕ

abbrev first_piece : List String → String
first_piece [] = ""
first_piece (p ∷ ps) = p

-- `socket?.user?.id?.split(':')[0]?.split('@')[0]`
abbrev pub phone_of : Option ℕ → Option String → Option String
phone_of none user_id = none
phone_of (some k) none = none
phone_of (some k) (some id) = some (first_piece (split_on 64 (first_piece (split_on 58 id))))

abbrev pub write_connected : Db → String → Option String → ℕ → Db
write_connected db id none now = set_session_status db id connected now
write_connected db id (some phone) now =
    if is_truthy (some phone)
    then set_session_connected db id phone now
    else set_session_status db id connected now

unfoldable pub emit_qr : ℕ → String → State → State
emit_qr ref qr s = elim (entry_at s ref) [
  | none ↦ s
  | some e ↦ record s {
    events = s.events ++ (record { session_id = e.id; at = s.now; body = Events.qr qr } ∷ []);
  }
]

unfoldable pub on_qr : ℕ → Option String → State → State
unfolding set_status emit_qr
on_qr ref none s = s
on_qr ref (some qr) s =
    if is_truthy (some qr)
    then emit_qr ref qr (set_status ref pairing (modify ref (λ x. record x { qr = some qr }) s))
    else s

unfoldable pub on_opened : ℕ → Update → State → State
unfolding emit_status
on_opened ref u s = elim (entry_at s ref) [
  | none ↦ s
  | some e ↦
      let phone = phone_of e.socket u.user_id in
      emit_status ref
        (record (modify ref
          (λ x. record x {
            qr = none;
            reconnect_attempts = 0;
            restarts = 0;
            last_connected_at = some s.now;
            phone_number = phone;
            status = connected;
          })
          s) { db = write_connected s.db e.id phone s.now })
]

unfoldable pub on_logged_out : ℕ → Entry → State → State
on_logged_out ref e s =
    let s' = set_status ref logged_out (modify ref (λ x. record x { qr = none }) s) in
    record s' { db = clear_auth_state s'.db e.id }

unfoldable pub on_restart_required : ℕ → Entry → State → State
on_restart_required ref e s =
    if leb max_restarts e.restarts
    then set_status ref disconnected s
    else schedule_reconnect ref restart_delay_ms
        (modify ref (λ x. record x { restarts = x.restarts + 1 }) s)

-- What follows the write of `disconnected`: the attempt is counted, and its timer armed, on the entry
-- as it is then.
unfoldable pub retry : ℕ → ℕ → State → State
retry ref random s = elim (entry_at s ref) [
  | none ↦ s
  | some e ↦
      if leb max_reconnect_attempts e.reconnect_attempts
      then s
      else schedule_reconnect ref (backoff_delay (e.reconnect_attempts + 1) random)
          (modify ref (λ x. record x { reconnect_attempts = x.reconnect_attempts + 1 }) s)
]

-- With nothing between the write and what follows it; in Awaits.Updates anything may come between.
unfoldable pub on_lost : ℕ → ℕ → State → State
unfolding retry
on_lost ref random s = retry ref random (set_status ref disconnected s)

-- Whether an entry whose socket closed connects again depends on why.
unfoldable pub after_close : ℕ → Entry → Update → State → State
after_close ref e u s =
    if e.closing || s.shutting_down
    then s
    else if u.status == some logged_out_reason
    then on_logged_out ref e s
    else if u.status == some restart_required_reason
    then on_restart_required ref e s
    else on_lost ref u.random s

unfoldable pub on_closed : ℕ → Update → State → State
on_closed ref u s = elim (entry_at s ref) [
  | none ↦ s
  | some e ↦ after_close ref e u (record (modify ref (λ x. record x { socket = none }) s) {
    open_sockets = remove_handle u.socket s.open_sockets;
  })
]

-- The part of the handler that the new state of the connection decides.
unfoldable pub on_connection : Option Connection → ℕ → Update → State → State
on_connection (some opened) ref u s = on_opened ref u s
on_connection (some closed) ref u s = on_closed ref u s
on_connection (some connecting) ref u s = s
on_connection none ref u s = s

unfoldable pub on_connection_update : ℕ → Update → State → State
unfolding on_connection
on_connection_update ref u s = on_connection u.connection ref u (on_qr ref u.qr s)
