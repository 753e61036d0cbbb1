-- ===== src/Sessions/Manager/Reconnect.antt =====
-- How often manager.ts tries again: the budgets that a lost connection and a restart spend, and the
-- end of a session that is logged out.
use whatsapp_auto_send.Prelude.{
  ℕ, zero, suc, ◌+◌, ◌-◌, ◌≤◌, String, false, Option, none, some, List, [], ◌∷◌, ◌≡◌, ◌≢◌, refl, ap,
  ◌∙◌, arith, get_elem?, All, Option-cases, inl, inr, ◌==◌, ◌||◌, leb, if_cases, is_truthy,
  option_eq, nat_eq,
}
use whatsapp_auto_send.ErrorMapping.{logged_out_reason, restart_required_reason}
use whatsapp_auto_send.Database.{
  SessionStatus, SessionStatus, logged_out, disconnected, pairing, session_status_eq,
}
use whatsapp_auto_send.Sessions.State.{Entry, State, modify_at, modify, entry_at, remove_handle}
use whatsapp_auto_send.Sessions.Manager.{
  set_status, emit_status, schedule_reconnect, max_reconnect_attempts, max_restarts,
  restart_delay_ms,
}
use whatsapp_auto_send.Sessions.Manager.Connection.{
  Update, Connection, opened, closed, connecting, on_connection_update, on_connection, on_qr,
  on_closed, after_close, on_logged_out, on_restart_required, on_lost, retry, emit_qr,
}
use whatsapp_auto_send.Sessions.Manager.Backoff.{backoff_delay}
use whatsapp_auto_send.Sessions.Manager.Heap.{
  get_elem?-modify_at, heap-set_status, heap-schedule_reconnect,
}

-- The reconnects an entry has left.
abbrev pub left : Option Entry → ℕ
left none = 0
left (some e) = (max_reconnect_attempts - e.reconnect_attempts) + (max_restarts - e.restarts)

left_le : (o : Option Entry) → left o ≤ max_reconnect_attempts + max_restarts
left_le none = ground arith
left_le (some e) = ground arith

-- The timers that were made, with those that may still be.
abbrev pub spent_and_left : ℕ → State → ℕ
spent_and_left ref s = s.next_handle + left (entry_at s ref)

left-modify_at :
    (ref : ℕ) (f : Entry → Entry) (es : List Entry)
    → ((e : Entry) → left (some (f e)) ≡ left (some e))
    → left (get_elem? (modify_at ref f es) ref) ≡ left (get_elem? es ref)
unfolding modify_at
left-modify_at ref f [] keeps = refl
left-modify_at zero f (e ∷ es) keeps = keeps e
left-modify_at (suc i) f (e ∷ es) keeps = left-modify_at i f es keeps

write-left :
    (ref : ℕ) (s : State) (f : Entry → Entry)
    → ((e : Entry) → left (some (f e)) ≡ left (some e))
    → spent_and_left ref (modify ref f s) ≡ spent_and_left ref s
write-left ref s f keeps = ap (λ n. s.next_handle + n) (left-modify_at ref f s.heap keeps)

module _ (ref : ℕ) (s : State) where
  pub next_handle-set_status :
      (status : SessionStatus) → (set_status ref status s).next_handle ≡ s.next_handle
  unfolding set_status emit_status
  next_handle-set_status status = ground arith

  set_status-left :
      (status : SessionStatus) → spent_and_left ref (set_status ref status s) ≡ spent_and_left ref s
  set_status-left status =
      rw (next_handle-set_status status, heap-set_status ref s status)
        (ap (λ n. s.next_handle + n) (left-modify_at ref _ s.heap (λ e. refl)))

  next_handle-schedule_reconnect :
      (delay_ms : ℕ) (e : Entry)
      → entry_at s ref ≡ some e
      → (schedule_reconnect ref delay_ms s).next_handle ≡ suc s.next_handle
  unfolding schedule_reconnect
  next_handle-schedule_reconnect delay_ms e here = rw (schedule_reconnect, here)

  schedule_reconnect-left :
      (delay_ms : ℕ) (e : Entry)
      → entry_at s ref ≡ some e
      → spent_and_left ref (schedule_reconnect ref delay_ms s) ≡ suc (spent_and_left ref s)
  schedule_reconnect-left delay_ms e here =
      rw (heap-schedule_reconnect ref s delay_ms, next_handle-schedule_reconnect delay_ms e here)
        (ap (λ n. suc s.next_handle + n)
            (left-modify_at ref
              (λ x. record x {
                reconnect_due_at = some (s.now + delay_ms);
                reconnect_timer = some s.next_handle;
              })
              s.heap (λ e. refl))
          ∙ omega arith)

  emit_qr-left : (qr : String) → spent_and_left ref (emit_qr ref qr s) ≡ spent_and_left ref s
  unfolding emit_qr
  emit_qr-left qr = ground arith

module _ (ref : ℕ) (s : State) where
  on_qr-left : (qr : Option String) → spent_and_left ref (on_qr ref qr s) ≡ spent_and_left ref s
  unfolding on_qr
  on_qr-left none = refl
  on_qr-left (some qr) =
      let s' = modify ref (λ x. record x { qr = some qr }) s in
      if_cases (λ t. spent_and_left ref t ≡ spent_and_left ref s) (is_truthy (some qr)) _ s
        (λ _.
          emit_qr-left ref (set_status ref pairing s') qr
          ∙ set_status-left ref s' pairing
          ∙ write-left ref s (λ x. record x { qr = some qr }) (λ e. refl))
        (λ _. refl)

  on_logged_out-left :
      (e : Entry) → spent_and_left ref (on_logged_out ref e s) ≡ spent_and_left ref s
  unfolding on_logged_out
  on_logged_out-left e =
      set_status-left ref (modify ref (λ x. record x { qr = none }) s) logged_out
      ∙ write-left ref s (λ x. record x { qr = none }) (λ e. refl)

  -- One more attempt is one less left.
  restart-left :
      (e x : Entry)
      → entry_at s ref ≡ some x
      → x.restarts ≡ e.restarts
      → leb max_restarts e.restarts ≡ false
      → suc (spent_and_left ref (modify ref (λ x. record x { restarts = x.restarts + 1 }) s))
        ≡ spent_and_left ref s
  restart-left e x here same low =
      rw (get_elem?-modify_at ref (λ x. record x { restarts = x.restarts + 1 }) s.heap x here, here)
        (ground (arith, same, low))

  attempt-left :
      (e x : Entry)
      → entry_at s ref ≡ some x
      → x.reconnect_attempts ≡ e.reconnect_attempts
      → leb max_reconnect_attempts e.reconnect_attempts ≡ false
      → suc (
          spent_and_left ref
            (modify ref (λ x. record x { reconnect_attempts = x.reconnect_attempts + 1 }) s))
        ≡ spent_and_left ref s
  attempt-left e x here same low =
      rw
        (
          get_elem?-modify_at ref (λ x. record x { reconnect_attempts = x.reconnect_attempts + 1 })
              s.heap x here,
          here,
        )
        (ground (arith, same, low))

module _ (ref : ℕ) (s : State) where
  abbrev Kept : State → Type 0
  Kept t = spent_and_left ref t ≡ spent_and_left ref s

  on_restart_required-left :
      (e x : Entry)
      → entry_at s ref ≡ some x
      → x.restarts ≡ e.restarts
      → spent_and_left ref (on_restart_required ref e s) ≡ spent_and_left ref s
  unfolding on_restart_required
  on_restart_required-left e x here same =
      if_cases Kept (leb max_restarts e.restarts) _ _ (λ _. set_status-left ref s disconnected)
        (λ some_left.
          schedule_reconnect-left ref (modify ref (λ x. record x { restarts = x.restarts + 1 }) s)
            restart_delay_ms (record x { restarts = x.restarts + 1 })
            (get_elem?-modify_at ref (λ x. record x { restarts = x.restarts + 1 }) s.heap x here)
          ∙ restart-left ref s e x here same some_left)

  retry-left : (random : ℕ) → spent_and_left ref (retry ref random s) ≡ spent_and_left ref s
  unfolding retry
  retry-left random = elim (Option-cases (entry_at s ref)) [
    | inl h ↦ let same : retry ref random s ≡ s = rw (retry, h) in ap (spent_and_left ref) same
    | inr (x, here) ↦
        rw (retry, here)
          (if_cases (λ t. spent_and_left ref t ≡ s.next_handle + left (some x))
            (leb max_reconnect_attempts x.reconnect_attempts) s _
            (λ _. ap (λ o. s.next_handle + left o) here)
            (λ some_left.
              schedule_reconnect-left ref
                (modify ref (λ x. record x { reconnect_attempts = x.reconnect_attempts + 1 }) s)
                (backoff_delay (x.reconnect_attempts + 1) random)
                (record x { reconnect_attempts = x.reconnect_attempts + 1 })
                (get_elem?-modify_at ref
                  (λ x. record x { reconnect_attempts = x.reconnect_attempts + 1 }) s.heap x here)
              ∙ attempt-left ref s x x here refl some_left
              ∙ ap (λ o. s.next_handle + left o) here))
  ]

module _ (ref : ℕ) (s : State) where
  on_lost-left : (random : ℕ) → spent_and_left ref (on_lost ref random s) ≡ spent_and_left ref s
  unfolding on_lost
  on_lost-left random =
      retry-left ref (set_status ref disconnected s) random ∙ set_status-left ref s disconnected

  after_close-left :
      (e x : Entry) (u : Update)
      → entry_at s ref ≡ some x
      → x.restarts ≡ e.restarts
      → x.reconnect_attempts ≡ e.reconnect_attempts
      → spent_and_left ref (after_close ref e u s) ≡ spent_and_left ref s
  unfolding after_close
  after_close-left e x u here same same' =
      if_cases (Kept ref s) (e.closing || s.shutting_down) s _ (λ _. refl)
        (λ _.
          if_cases (Kept ref s) (u.status == some logged_out_reason) (on_logged_out ref e s) _
            (λ _. on_logged_out-left ref s e)
            (λ _.
              if_cases (Kept ref s) (u.status == some restart_required_reason)
                (on_restart_required ref e s) (on_lost ref u.random s)
                (λ _. on_restart_required-left ref s e x here same) (λ _. on_lost-left u.random)))

module _ (ref : ℕ) (s : State) where
  on_closed_absent : (u : Update) → entry_at s ref ≡ none → on_closed ref u s ≡ s
  unfolding on_closed
  on_closed_absent u h = rw (on_closed, h)

  abbrev pub socket_gone : Update → State
  socket_gone u = record (modify ref (λ x. record x { socket = none }) s) {
    open_sockets = remove_handle u.socket s.open_sockets;
  }

  pub on_closed_found :
      (u : Update) (e : Entry)
      → entry_at s ref ≡ some e
      → on_closed ref u s ≡ after_close ref e u (socket_gone u)
  unfolding on_closed
  on_closed_found u e h = rw (on_closed, h)

  on_closed-left : (u : Update) → spent_and_left ref (on_closed ref u s) ≡ spent_and_left ref s
  unfolding on_closed
  on_closed-left u = elim (Option-cases (entry_at s ref)) [
    | inl h ↦ ap (spent_and_left ref) (on_closed_absent u h)
    | inr (e, h) ↦
        ap (spent_and_left ref) (on_closed_found u e h)
        ∙ (after_close-left ref (socket_gone u) e (record e { socket = none }) u
              (get_elem?-modify_at ref (λ x. record x { socket = none }) s.heap e h) refl refl
            ∙ write-left ref s (λ x. record x { socket = none }) (λ x. refl))
  ]

  -- Whatever a session's socket reports, as long as it does not open.
  on_connection-left :
      (c : Option Connection) (u : Update)
      → c ≢ some opened
      → spent_and_left ref (on_connection c ref u s) ≡ spent_and_left ref s
  unfolding on_connection
  on_connection-left (some opened) u n = elim (n refl) [ ]
  on_connection-left (some closed) u n = on_closed-left u
  on_connection-left (some connecting) u n = refl
  on_connection-left none u n = refl

on_connection_update-left :
    (ref : ℕ) (s : State) (u : Update)
    → u.connection ≢ some opened
    → spent_and_left ref (on_connection_update ref u s) ≡ spent_and_left ref s
unfolding on_connection_update
on_connection_update-left ref s u n =
    on_connection-left ref (on_qr ref u.qr s) u.connection u n ∙ on_qr-left ref s u.qr

-- The updates of one session's sockets, in the order they come.
unfoldable pub update_all : ℕ → List Update → State → State
update_all ref [] s = s
update_all ref (u ∷ us) s = update_all ref us (on_connection_update ref u s)

abbrev pub NeverOpens : List Update → Type 0
NeverOpens us = All (λ u. u.connection ≢ some opened) us

update_all-left :
    (ref : ℕ) (us : List Update) (s : State)
    → NeverOpens us
    → spent_and_left ref (update_all ref us s) ≡ spent_and_left ref s
unfolding update_all
update_all-left ref [] s ns = refl
update_all-left ref (u ∷ us) s (n, ns) =
    update_all-left ref us (on_connection_update ref u s) ns ∙ on_connection_update-left ref s u n

-- A session whose sockets never open again is retried at most fifteen times, ten for lost
-- connections and five for restarts, however many updates come: so many timers are made at most, and
-- each of them takes one retry off what is left.
pub update_all-retries :
    (ref : ℕ) (us : List Update) (s : State)
    → NeverOpens us
    → (update_all ref us s).next_handle ≤ s.next_handle + (max_reconnect_attempts + max_restarts)
update_all-retries ref us s ns =
    ground (arith, update_all-left ref us s ns, left_le (entry_at s ref))
