-- ===== src/Sessions/Manager/Awaits/Updates.antt =====
-- baileys/src/sessions/manager.ts: `onConnectionUpdate` in pieces, from one `await` of `setStatus` to
-- what the handler does after it: the write of `pairing` is awaited before the connection is looked
-- at, and that of `disconnected` before the next attempt is counted and its timer armed.
use whatsapp_auto_send.Prelude.{
  ℕ, ◌||◌, Option, none, some, ◌==◌, if◌then◌else◌, is_truthy, option_eq, nat_eq,
}
use whatsapp_auto_send.Database.{disconnected}
use whatsapp_auto_send.ErrorMapping.{logged_out_reason, restart_required_reason}
use whatsapp_auto_send.Sessions.State.{Entry, State, modify, entry_at, remove_handle}
use whatsapp_auto_send.Sessions.Manager.{set_status}
use whatsapp_auto_send.Sessions.Manager.Connection.{
  Update, Connection, closed, on_connection, on_logged_out, on_restart_required, on_qr, retry,
}

-- What an update waits for, if it has not ended: the write of `pairing`, or that of `disconnected`.
pub data Rest : Type 0 where
  hearing : ℕ → Update → Rest
  losing : ℕ → ℕ → Rest

-- The tests of the reason, up to the first `await`; only a connection that was lost goes on after it.
unfoldable pub begin_after_close : ℕ → Entry → Update → State → State × Option Rest
begin_after_close ref e u s =
    if e.closing || s.shutting_down
    then (s, none)
    else if u.status == some logged_out_reason
    then (on_logged_out ref e s, none)
    else if u.status == some restart_required_reason
    then (on_restart_required ref e s, none)
    else (set_status ref disconnected s, some (losing ref u.random))

unfoldable pub begin_closed : ℕ → Update → State → State × Option Rest
unfolding begin_after_close
begin_closed ref u s = elim (entry_at s ref) [
  | none ↦ (s, none)
  | some e ↦ begin_after_close ref e u (record (modify ref (λ x. record x { socket = none }) s) {
    open_sockets = remove_handle u.socket s.open_sockets;
  })
]

unfoldable pub begin_connection : Option Connection → ℕ → Update → State → State × Option Rest
unfolding begin_closed on_connection
begin_connection (some closed) ref u s = begin_closed ref u s
begin_connection c ref u s = (on_connection c ref u s, none)

unfoldable pub begin_update : ℕ → Update → State → State × Option Rest
unfolding begin_connection on_qr
begin_update ref u s =
    if is_truthy u.qr
    then (on_qr ref u.qr s, some (hearing ref u))
    else begin_connection u.connection ref u s

unfoldable pub finish_update : Rest → State → State × Option Rest
unfolding begin_connection retry
finish_update (hearing ref u) s = begin_connection u.connection ref u s
finish_update (losing ref random) s = (retry ref random s, none)
