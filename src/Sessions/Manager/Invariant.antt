-- ===== src/Sessions/Manager/Invariant.antt =====
-- What holds of every entry between two commands: the budgets of manager.ts, and when an entry may be
-- unhealthy.
use whatsapp_auto_send.Prelude.{
  ℕ, ◌+◌, ◌≤◌, ◌≢◌, String, Option, none, some, ◌≡◌, refl, arith, All, Option-cases, inl, inr, ◌==◌,
  if_cases, Result-cases, leb, is_truthy, ◌&&◌, option_eq, nat_eq, ◌||◌,
}
use whatsapp_auto_send.Errors.{ErrorCode}
use whatsapp_auto_send.ErrorMapping.{logged_out_reason, restart_required_reason}
use whatsapp_auto_send.Database.{
  SessionStatus, unhealthy, connected, disconnected, logged_out, pairing, session_status_eq,
}
use whatsapp_auto_send.Sessions.State.{Entry, State, entry_at, modify, entry_of}
use whatsapp_auto_send.Sessions.Manager.{
  set_status, schedule_reconnect, open_socket, Outside, record_send_outcome, with_version,
  max_reconnect_attempts, max_restarts, unhealthy_after_failures, is_session_fault,
}
use whatsapp_auto_send.Sessions.Manager.Connection.{
  Update, on_qr, on_opened, on_closed, on_connection_update, after_close, on_lost, retry,
  on_restart_required, on_logged_out, on_connection, Connection, opened, closed, connecting,
  emit_qr,
}
use whatsapp_auto_send.Sessions.Manager.Heap.{
  All-modify_at, heap-set_status, heap-emit_status, heap-schedule_reconnect, heap-emit_qr,
  heap-make_socket, modify_at-fuse, get_elem?-modify_at,
}

pub record IsSane (e : Entry) : Type 0 where
  pub attempts : e.reconnect_attempts ≤ max_reconnect_attempts
  pub restarts_capped : e.restarts ≤ max_restarts
  pub unhealthy_failed : e.status ≡ unhealthy → unhealthy_after_failures ≤ e.consecutive_failures

abbrev pub AllSane : State → Type 0
AllSane s = All IsSane s.heap

pub entry_of-heap :
    (s : State) (id : String) (ref : ℕ) (e : Entry)
    → entry_of s id ≡ some (ref, e)
    → entry_at s ref ≡ some e
unfolding entry_of
entry_of-heap s id ref e h = ground arith

module _ (ref : ℕ) (s : State) where
  pub set_status-sane :
      (status : SessionStatus) → status ≢ unhealthy → AllSane s → AllSane (set_status ref status s)
  set_status-sane status n h =
      rw (heap-set_status ref s status)
        (All-modify_at IsSane ref _ s.heap (λ e _ v. ground (arith, v, n)) h)

  pub schedule_reconnect-sane :
      (delay_ms : ℕ) → AllSane s → AllSane (schedule_reconnect ref delay_ms s)
  schedule_reconnect-sane delay_ms h =
      rw (heap-schedule_reconnect ref s delay_ms)
        (All-modify_at IsSane ref _ s.heap (λ e _ v. ground (arith, v)) h)

  pub open_socket-sane : (out : Outside) → AllSane s → AllSane (open_socket ref out s).1
  unfolding open_socket
  open_socket-sane out h = elim (Result-cases (with_version s.version out)) [
    | inr (e, f) ↦ rw (f, open_socket) h
    | inl (v, f) ↦
        rw (f, open_socket)
          (rw (heap-make_socket ref (record s { version = some v }) out.fresh)
            (All-modify_at IsSane ref _ s.heap (λ e _ v'. ground (arith, v')) h))
  ]

  pub modify-sane :
      (f : Entry → Entry)
      → ((e : Entry) → entry_at s ref ≡ some e → IsSane e → IsSane (f e))
      → AllSane s
      → AllSane (modify ref f s)
  modify-sane f keep h = All-modify_at IsSane ref f s.heap keep h

module _ (ref : ℕ) (s : State) where
  pub on_qr-sane : (qr : Option String) → AllSane s → AllSane (on_qr ref qr s)
  unfolding on_qr
  on_qr-sane none h = h
  on_qr-sane (some qr) h =
      if_cases AllSane (is_truthy (some qr))
        (emit_qr ref qr (set_status ref pairing (modify ref (λ x. record x { qr = some qr }) s))) s
        (λ _.
          rw
            (heap-emit_qr ref
              (set_status ref pairing (modify ref (λ x. record x { qr = some qr }) s)) qr)
            (set_status-sane ref _ pairing (λ e. cc)
              (modify-sane ref s _ (λ e _ v. ground (arith, v)) h)))
        (λ _. h)

  pub on_opened-sane : (u : Update) → AllSane s → AllSane (on_opened ref u s)
  unfolding on_opened
  on_opened-sane u h = elim (Option-cases (entry_at s ref)) [
    | inl e ↦ rw (e, on_opened) h
    | inr (x, e) ↦
        rw (e, on_opened)
          (rw heap-emit_status (modify-sane ref s _ (λ e' _ v. ground (arith, v)) h))
  ]

  pub retry-sane : (random : ℕ) → AllSane s → AllSane (retry ref random s)
  unfolding retry
  retry-sane random h = elim (Option-cases (entry_at s ref)) [
    | inl e ↦ rw (e, retry) h
    | inr (x, e) ↦
        rw (e, retry)
          (if_cases AllSane (leb max_reconnect_attempts x.reconnect_attempts) _ _ (λ _. h)
            (λ low.
              rw (heap-schedule_reconnect, modify_at-fuse)
                (All-modify_at IsSane ref _ s.heap (λ y k v. ground (arith, v, k, e, low)) h)))
  ]

module _ (ref : ℕ) (s : State) where
  on_lost-sane : (random : ℕ) → AllSane s → AllSane (on_lost ref random s)
  unfolding on_lost
  on_lost-sane random h =
      retry-sane ref (set_status ref disconnected s) random
        (set_status-sane ref s disconnected (λ p. cc) h)

  -- `x` is the entry on the heap; the handler was given `e`, which it was before its socket closed.
  module _ (x e : Entry) (here : entry_at s ref ≡ some x)
      (same_attempts : x.reconnect_attempts ≡ e.reconnect_attempts)
      (same_restarts : x.restarts ≡ e.restarts) (h : AllSane s) where
    pub on_restart_required-sane : AllSane (on_restart_required ref e s)
    unfolding on_restart_required
    on_restart_required-sane =
        if_cases AllSane (leb max_restarts e.restarts) _ _
          (λ _. set_status-sane ref s disconnected (λ p. cc) h)
          (λ low.
            rw (heap-schedule_reconnect, modify_at-fuse)
              (All-modify_at IsSane ref _ s.heap
                (λ y k v. ground (arith, v, k, here, same_restarts, low)) h))

    pub on_logged_out-sane : AllSane (on_logged_out ref e s)
    unfolding on_logged_out
    on_logged_out-sane =
        set_status-sane ref _ logged_out (λ p. cc)
          (modify-sane ref s _ (λ y _ v. ground (arith, v)) h)

  after_close-sane :
      (x e : Entry) (u : Update)
      → entry_at s ref ≡ some x
      → x.reconnect_attempts ≡ e.reconnect_attempts
      → x.restarts ≡ e.restarts
      → AllSane s
      → AllSane (after_close ref e u s)
  unfolding after_close
  after_close-sane x e u here same_attempts same_restarts h =
      if_cases AllSane (e.closing || s.shutting_down) _ _ (λ _. h)
        λ _.
          if_cases AllSane (u.status == some logged_out_reason) _ _
            (λ _. on_logged_out-sane x e here same_attempts same_restarts h)
            λ _.
              if_cases AllSane (u.status == some restart_required_reason) _ _
                (λ _. on_restart_required-sane x e here same_attempts same_restarts h)
                (λ _. on_lost-sane u.random h)

module _ (ref : ℕ) (s : State) where
  pub on_closed-sane : (u : Update) → AllSane s → AllSane (on_closed ref u s)
  unfolding on_closed
  on_closed-sane u h = elim (Option-cases (entry_at s ref)) [
    | inl e ↦ rw (e, on_closed) h
    | inr (x, e) ↦
        rw (e, on_closed)
          (after_close-sane ref _ (record x { socket = none }) x u
            (get_elem?-modify_at ref _ s.heap x e) refl refl
            (modify-sane ref s _ (λ y _ v. ground (arith, v)) h))
  ]

  pub on_connection-sane :
      (c : Option Connection) (u : Update) → AllSane s → AllSane (on_connection c ref u s)
  unfolding on_connection
  on_connection-sane (some opened) u h = on_opened-sane ref s u h
  on_connection-sane (some closed) u h = on_closed-sane u h
  on_connection-sane (some connecting) u h = h
  on_connection-sane none u h = h

pub on_connection_update-sane :
    (ref : ℕ) (s : State) (u : Update) → AllSane s → AllSane (on_connection_update ref u s)
unfolding on_connection_update
on_connection_update-sane ref s u h =
    on_connection-sane ref (on_qr ref u.qr s) u.connection u (on_qr-sane ref s u.qr h)

-- The entry that the map has for an id is on the heap, and nothing else of it is used.
pub record_send_outcome-sane :
    (id : String) (outcome : Option ErrorCode) (s : State)
    → AllSane s
    → AllSane (record_send_outcome id outcome s)
unfolding record_send_outcome
record_send_outcome-sane id none s h = elim (Option-cases (entry_of s id)) [
  | inl e ↦ rw (e, record_send_outcome) h
  | inr ((ref, x), e) ↦
      rw (e, record_send_outcome)
        (if_cases AllSane (x.status == unhealthy) _ _
          (λ _.
            rw (heap-set_status, modify_at-fuse)
              (All-modify_at IsSane ref _ s.heap (λ y _ v. ground (arith, v)) h))
          (λ well.
            modify-sane ref s _ (λ y k v. ground (arith, v, k, entry_of-heap s id ref x e, well))
              h))
]
record_send_outcome-sane id (some code) s h = elim (Option-cases (entry_of s id)) [
  | inl e ↦ rw (e, record_send_outcome) h
  | inr ((ref, x), e) ↦
      rw (e, record_send_outcome)
        (if_cases AllSane
          (is_session_fault code
            && (leb unhealthy_after_failures (x.consecutive_failures + 1) && x.status == connected))
          _ _
          (λ fault.
            rw (heap-set_status, modify_at-fuse)
              (All-modify_at IsSane ref _ s.heap
                (λ y k v. ground (arith, v, k, entry_of-heap s id ref x e, fault)) h))
          (λ _. modify-sane ref s _ (λ y _ v. ground (arith, v)) h))
]
