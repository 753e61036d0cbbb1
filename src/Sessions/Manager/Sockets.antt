-- ===== src/Sessions/Manager/Sockets.antt =====
-- baileys/src/sessions/manager.ts: the socket that a request may use, and the wait for a code to scan.
use whatsapp_auto_send.Prelude.{
  ℕ, String, Bool, true, ◌||◌, Option, none, some, List, [], ◌∷◌, Result, ok, err, ◌≡◌, ◌≢◌, ◌+◌,
  ◌⊎◌, ◌↔◌, inl, inr, arith, Option-cases, ◌==◌, string_eq, is_truthy, if◌then◌else◌, ltb,
}
use whatsapp_auto_send.Errors.{
  ApiError, session_not_connected_error, session_logged_out_error, upstream_timeout_error,
}
use whatsapp_auto_send.Database.{connected, unhealthy, logged_out, session_status_eq, status_name}
use whatsapp_auto_send.Sessions.Events.{
  SessionEvent, Body, status_changed, message_received, message_status,
}
use whatsapp_auto_send.Sessions.Events
use whatsapp_auto_send.Sessions.State.{Entry, State, entry_of}

-- What is thrown when the session may not send.
abbrev not_usable : String → Option Entry → ApiError
not_usable id none = session_not_connected_error id "not started"
not_usable id (some e) =
    if e.status == logged_out
    then session_logged_out_error id
    else session_not_connected_error id (status_name e.status)

abbrev is_usable : Entry → Bool
is_usable e = e.status == connected || e.status == unhealthy

unfoldable pub require_connected_socket : State → String → Result ApiError ℕ
require_connected_socket s id = elim (entry_of s id) [
  | none ↦ err (not_usable id none)
  | some (ref, e) ↦ elim e.socket [
    | none ↦ err (not_usable id (some e))
    | some k ↦ if is_usable e then ok k else err (not_usable id (some e))
  ]
]

unfoldable pub require_pairing_socket : State → String → Result ApiError ℕ
require_pairing_socket s id = elim (entry_of s id) [
  | none ↦ err (session_not_connected_error id "not started")
  | some (ref, e) ↦ elim e.socket [
    | none ↦ err (session_not_connected_error id (status_name e.status))
    | some k ↦ if e.status == logged_out then err (session_logged_out_error id) else ok k
  ]
]

-- What one event decides of a wait for session `id`.
abbrev pub pairing_verdict : String → Body → Option (Result ApiError (Unit {0}))
pairing_verdict id (Events.qr code) = some (ok tt)
pairing_verdict id (status_changed status phone) =
    if status == connected
    then some (ok tt)
    else if status == logged_out
    then some (err (session_logged_out_error id))
    else none
pairing_verdict id (message_received m) = none
pairing_verdict id (message_status m) = none

-- The events that come after the call at `start`, in order; the timer ends the wait.
unfoldable pub await_event : String → ℕ → ℕ → List SessionEvent → Result ApiError (Unit {0})
await_event id start timeout_ms [] =
    err (upstream_timeout_error "pairing socket readiness" timeout_ms)
await_event id start timeout_ms (event ∷ events) =
    let later = await_event id start timeout_ms events in
    if ltb event.at (start + timeout_ms)
    then (if event.session_id == id
        then elim (pairing_verdict id event.body) [ none ↦ later | some r ↦ r ]
        else later)
    else err (upstream_timeout_error "pairing socket readiness" timeout_ms)

unfoldable pub wait_for_pairing_ready :
    State → String → ℕ → List SessionEvent → Result ApiError (Unit {0})
unfolding await_event
wait_for_pairing_ready s id timeout_ms events = elim (entry_of s id) [
  | none ↦ err (session_not_connected_error id "not started")
  | some (ref, e) ↦
      if e.status == connected || is_truthy e.qr
      then ok tt
      else await_event id s.now timeout_ms events
]

-- `isolate(fn, onError)`: a call that throws, or whose promise is rejected, is told to `on_error`.
unfoldable pub isolate {ℓ} : {S E : Type ℓ} → (S → Result E (Unit {0}) × S) → (E → S → S) → S → S
isolate call on_error s = let (r, s') = call s in elim r [ ok _ ↦ s' | err e ↦ on_error e s' ]

-- The entry may send, through the socket `k`.
pub record MaySend (s : State) (id : String) (k : ℕ) : Type 0 where
  pub ref : ℕ
  pub entry : Entry
  pub found : entry_of s id ≡ some (ref, entry)
  pub held : entry.socket ≡ some k
  pub works : (entry.status ≡ connected) ⊎ (entry.status ≡ unhealthy)

is_usable_works : (e : Entry) → is_usable e ≡ true → (e.status ≡ connected) ⊎ (e.status ≡ unhealthy)
is_usable_works e h = ground (arith, h)

works_is_usable : (e : Entry) → (e.status ≡ connected) ⊎ (e.status ≡ unhealthy) → is_usable e ≡ true
works_is_usable e h = ground (arith, h)

module _ (s : State) (id : String) (k : ℕ) where
  ok_not_absent : require_connected_socket s id ≡ ok k → entry_of s id ≢ none
  unfolding require_connected_socket
  ok_not_absent got h = ground (arith, got, h)

  require_connected_socket-MaySend : require_connected_socket s id ≡ ok k → MaySend s id k
  unfolding require_connected_socket
  require_connected_socket-MaySend got = elim (Option-cases (entry_of s id)) [
    | inl h ↦ elim (ok_not_absent got h) [ ]
    | inr ((ref, e), h) ↦ record {
      ref = ref;
      entry = e;
      found = h;
      held = ground (arith, got, h);
      works = is_usable_works e (ground (arith, got, h));
    }
  ]

  MaySend-require_connected_socket : MaySend s id k → require_connected_socket s id ≡ ok k
  unfolding require_connected_socket
  MaySend-require_connected_socket m =
      rw (require_connected_socket, m.found, m.held, works_is_usable m.entry m.works)

  -- A send gets a socket exactly when the session has an entry whose status is connected or
  -- unhealthy, and it gets the socket of that entry.
  pub require_connected_socket_iff : (require_connected_socket s id ≡ ok k) ↔ MaySend s id k
  require_connected_socket_iff =
      (require_connected_socket-MaySend, MaySend-require_connected_socket)
