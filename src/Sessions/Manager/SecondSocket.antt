-- ===== src/Sessions/Manager/SecondSocket.antt =====
-- manager.ts: a second socket for one session.
use whatsapp_auto_send.Prelude.{
  ℕ, suc, String, false, none, some, [], ◌∷◌, ◌++◌, ◌≡◌, ◌≢◌, refl, ap, ◌∙◌, if◌then◌else◌, nat_eq,
  ==-false_of_ne, string_eq,
}
use whatsapp_auto_send.Database.{logged_out, session_status_eq, SessionRow, Creds}
use whatsapp_auto_send.AuthState.{clear_auth_state, load_creds, is_pairing_incomplete}
use whatsapp_auto_send.Sessions.Repository.{get_session}
use whatsapp_auto_send.Sessions.State.{Entry, State, modify, entry_at, entry_of}
use whatsapp_auto_send.Sessions.Manager.{Outside, open_socket, make_socket}
use whatsapp_auto_send.Sessions.Manager.Lifecycle.{
  connect, connect_entry, fire, fire_at, timer_place,
}
use whatsapp_auto_send.Sessions.Manager.Heap.{get_elem?-modify_at}
use whatsapp_auto_send.Sessions.Manager.Invariant.{entry_of-heap}

module _ (s : State) (ref : ℕ) (e : Entry) (here : entry_at s ref ≡ some e) where
  -- The state that `make_socket` makes of an entry it finds.
  abbrev pub made : Creds → State
  made fresh = record (modify ref (λ x. record x { socket = some s.next_handle }) s) {
    db =
        if is_pairing_incomplete (load_creds s.db e.id fresh)
        then clear_auth_state s.db e.id
        else s.db;
    open_sockets = s.open_sockets ++ ((s.next_handle, ref) ∷ []);
    next_handle = suc s.next_handle;
  }

  pub made_state : (fresh : Creds) → make_socket ref fresh s ≡ made fresh
  unfolding make_socket
  made_state fresh = rw (make_socket, here)

  opens_one :
      (v : ℕ) (out : Outside)
      → s.version ≡ some v
      → (open_socket ref out s).1.open_sockets ≡ s.open_sockets ++ ((s.next_handle, ref) ∷ [])
  unfolding open_socket make_socket
  opens_one v out known = rw (open_socket, known, make_socket, here)

  pub fires_one :
      (v t : ℕ) (out : Outside)
      → s.version ≡ some v
      → s.shutting_down ≡ false
      → e.closing ≡ false
      → timer_place t s.timers ≡ some ref
      → (fire t out s).open_sockets ≡ s.open_sockets ++ ((s.next_handle, ref) ∷ [])
  unfolding fire fire_at open_socket make_socket
  fires_one v t out known up live armed = rw (
    fire,
    armed,
    fire_at,
    here,
    live,
    up,
    open_socket,
    known,
    make_socket,
    get_elem?-modify_at ref (λ x. record x { reconnect_timer = none; reconnect_due_at = none })
        s.heap e here,
  )

-- The timers of a session are left alone when a socket is made for it.
module _ (s : State) (id : String) (ref : ℕ) (e : Entry)
    (here : entry_of s id ≡ some (ref, e)) where
  -- A session without a socket, whose reconnect timer `t` is armed, and that is asked to connect:
  -- one socket is made at once, and a second one when the timer fires, so two are open for one
  -- session. This is so with a known web version, a row that may connect, and no shutdown.
  pub connect-second_socket :
      (row : SessionRow) (v t : ℕ) (out later : Outside)
      → get_session s.db id ≡ some row
      → row.status ≢ logged_out
      → s.shutting_down ≡ false
      → s.version ≡ some v
      → e.socket ≡ none
      → timer_place t s.timers ≡ some ref
      → (fire t later (connect id out s).1).open_sockets
        ≡ (s.open_sockets ++ ((s.next_handle, ref) ∷ [])) ++ ((suc s.next_handle, ref) ∷ [])
  unfolding connect connect_entry open_socket make_socket fire fire_at
  connect-second_socket row v t out later found allowed up known apart armed =
      let s' = record (modify ref (λ x. record x { closing = false }) s) { version = some v } in
      let woken =
        get_elem?-modify_at ref (λ x. record x { closing = false }) s.heap e
          (entry_of-heap s id ref e here) in
      rw
        (
          connect,
          up,
          found,
          ==-false_of_ne row.status logged_out allowed,
          connect_entry,
          here,
          apart,
          open_socket,
          known,
        )
        (ap (λ x. (fire t later x).open_sockets)
            (made_state s' ref (record e { closing = false }) woken out.fresh)
          ∙ fires_one (made s' ref (record e { closing = false }) woken out.fresh) ref
              (record e { closing = false; socket = some s.next_handle })
              (get_elem?-modify_at ref (λ x. record x { socket = some s.next_handle }) s'.heap
                (record e { closing = false }) woken)
              v t later refl up refl armed)
