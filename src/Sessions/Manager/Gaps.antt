-- ===== src/Sessions/Manager/Gaps.antt =====
-- What manager.ts still tells of a reconnect once its session is logged out.
use whatsapp_auto_send.Prelude.{
  ℕ, String, Bool, true, false, Option, none, some, ◌≡◌, refl, ap, ◌∙◌, arith, nat_eq, string_eq,
}
use whatsapp_auto_send.Database.{logged_out, session_status_eq, SessionRow, Db}
use whatsapp_auto_send.AuthState.{clear_auth_state}
use whatsapp_auto_send.Sessions.Repository.{get_session, set_session_status}
use whatsapp_auto_send.Sessions.State.{Entry, State, modify_at, modify, entry_of, clear_timeout}
use whatsapp_auto_send.Sessions.Manager.{Snapshot, snapshot, snapshot_of, remaining, emit_status}
use whatsapp_auto_send.Sessions.Manager.Lifecycle.{logout, logout_entry, logout_socket}
use whatsapp_auto_send.Sessions.Manager.Heap.{heap-emit_status, heap-clear_timeout, heap-end_socket}
use whatsapp_auto_send.Sessions.Manager.Frame.{entry_of-modified}

abbrev pub next_reconnect : Option Snapshot → Option ℕ
next_reconnect none = none
next_reconnect (some v) = v.next_reconnect_in_ms

-- The parts of the state that a call on a timer or a socket leaves.
module _ (s : State) where
  heap-logout_socket : (b : Bool) (k : Option ℕ) → (logout_socket b k s).heap ≡ s.heap
  heap-logout_socket true k = heap-end_socket 0 s k
  heap-logout_socket false k = refl

  entries-logout_socket : (b : Bool) (k : Option ℕ) → (logout_socket b k s).entries ≡ s.entries
  entries-logout_socket true none = refl
  entries-logout_socket true (some k) = refl
  entries-logout_socket false k = refl

  clock-logout_socket : (b : Bool) (k : Option ℕ) → (logout_socket b k s).now ≡ s.now
  clock-logout_socket true none = refl
  clock-logout_socket true (some k) = refl
  clock-logout_socket false k = refl

  entries-clear_timeout : (t : Option ℕ) → (clear_timeout t s).entries ≡ s.entries
  entries-clear_timeout none = refl
  entries-clear_timeout (some t) = refl

  clock-clear_timeout : (t : Option ℕ) → (clear_timeout t s).now ≡ s.now
  clock-clear_timeout none = refl
  clock-clear_timeout (some t) = refl

  entries-emit_status : (ref : ℕ) → (emit_status ref s).entries ≡ s.entries
  unfolding emit_status
  entries-emit_status ref = ground arith

  clock-emit_status : (ref : ℕ) → (emit_status ref s).now ≡ s.now
  unfolding emit_status
  clock-emit_status ref = ground arith

pub entry_of-db :
    (s : State) (db' : Db) (id : String) → entry_of (record s { db = db' }) id ≡ entry_of s id
unfolding entry_of
entry_of-db s db' id = refl

snapshot-entry :
    (s : State) (id : String) (ref : ℕ) (e : Entry)
    → entry_of s id ≡ some (ref, e)
    → snapshot s id ≡ some (snapshot_of e s.now)
unfolding snapshot
snapshot-entry s id ref e here = rw (here, snapshot)

module _ (s : State) (id : String) (ref : ℕ) (e : Entry) (here : entry_of s id ≡ some (ref, e))
    (went_through : Bool) where
  abbrev signed_off : State
  signed_off = logout_socket went_through e.socket (clear_timeout e.reconnect_timer s)

  abbrev off : Entry → Entry
  off x = record x {
    closing = true;
    reconnect_timer = none;
    qr = none;
    socket = none;
    status = logged_out;
  }

  logout_entry-entry : entry_of (logout_entry id went_through s) id ≡ some (ref, off e)
  unfolding logout_entry
  logout_entry-entry =
      rw (here, logout_entry)
        (entry_of-modified s (emit_status ref (modify ref off signed_off)) id ref e off
          (entries-emit_status (modify ref off signed_off) ref
            ∙ entries-logout_socket (clear_timeout e.reconnect_timer s) went_through e.socket
            ∙ entries-clear_timeout s e.reconnect_timer)
          (heap-emit_status ref (modify ref off signed_off)
            ∙ ap (modify_at ref off) (
                heap-logout_socket (clear_timeout e.reconnect_timer s) went_through e.socket
                ∙ heap-clear_timeout ref s e.reconnect_timer))
          here)

  clock-logout_entry : (logout_entry id went_through s).now ≡ s.now
  unfolding logout_entry
  clock-logout_entry =
      rw (here, logout_entry)
        (clock-emit_status (modify ref off signed_off) ref
          ∙ clock-logout_socket (clear_timeout e.reconnect_timer s) went_through e.socket
          ∙ clock-clear_timeout s e.reconnect_timer)

  abbrev signed_off_db : Db
  signed_off_db =
      let left = logout_entry id went_through s in
      clear_auth_state (set_session_status left.db id logged_out left.now) id

  logout_state :
      (row : SessionRow)
      → get_session s.db id ≡ some row
      → (logout id went_through s).1
        ≡ record (logout_entry id went_through s) { db = signed_off_db }
  unfolding logout
  logout_state row found = rw (found, logout)

  -- A session that is logged out while a reconnect is due still tells when: the timer is cleared,
  -- and its due time is not.
  pub logout-next_reconnect :
      (row : SessionRow)
      → get_session s.db id ≡ some row
      → next_reconnect (snapshot (logout id went_through s).1 id)
        ≡ remaining e.reconnect_due_at s.now
  logout-next_reconnect row found =
      let after = record (logout_entry id went_through s) { db = signed_off_db } in
      ap (λ t. next_reconnect (snapshot t id)) (logout_state row found)
      ∙ ap next_reconnect (
          snapshot-entry after id ref (off e)
            (entry_of-db (logout_entry id went_through s) signed_off_db id ∙ logout_entry-entry))
      ∙ ap (remaining e.reconnect_due_at) clock-logout_entry
