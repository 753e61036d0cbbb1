-- ===== src/Sessions/Manager/Commands.antt =====
-- The invariant of manager.ts through every command, and so through every history.
use whatsapp_auto_send.Prelude.{
  ℕ, String, Bool, true, false, Option, none, some, List, [], ◌∷◌, ◌≡◌, refl, arith, length,
  All-append, Option-cases, Result, ok, err, inl, inr, ◌==◌, ◌||◌, if_cases,
}
use whatsapp_auto_send.Errors.{Thrown}
use whatsapp_auto_send.Database.{SessionRow, logged_out, session_status_eq}
use whatsapp_auto_send.Sessions.Repository.{get_session}
use whatsapp_auto_send.Prelude.Dict.{values}
use whatsapp_auto_send.Sessions.State.{
  Entry, State, entry_at, modify, entry_of, clear_timeout, end_socket,
}
use whatsapp_auto_send.Sessions.Manager.{Snapshot, Outside}
use whatsapp_auto_send.Sessions.Manager.Heap.{
  All-modify_at, heap-set_status, heap-emit_status, modify_at-fuse,
}
use whatsapp_auto_send.Sessions.Manager.Invariant.{
  IsSane, AllSane, open_socket-sane, modify-sane, on_connection_update-sane,
  record_send_outcome-sane,
}
use whatsapp_auto_send.Sessions.Manager.Lifecycle.{
  initial_live_status, new_entry, answer, connect_entry, connect, restart_entry, restart,
  drop_entry, reset, logout_socket, logout_entry, logout, delete_session_of, close_all, shutdown,
  timer_place, fire_at, fire, queue_creds, Command, connects, restarts_it, resets, deletes,
  logs_out, reports, updates, fires, queues, shuts_down, waits, step, run,
}

answer-sane :
    (id : String) (r : Result Thrown (Unit {0}) × State) → AllSane r.1 → AllSane (answer id r).1
answer-sane id (ok _, s) h = h
answer-sane id (err e, s) h = h

pub new_entry-IsSane : (row : SessionRow) (id : String) → IsSane (new_entry row id)
unfolding initial_live_status
new_entry-IsSane row id = ground arith

-- The timer and the socket of an entry are ended, and the heap is as it was.
heap_ended : (s : State) (k t : Option ℕ) → (end_socket k (clear_timeout t s)).heap ≡ s.heap
heap_ended s none none = refl
heap_ended s none (some t) = refl
heap_ended s (some k) none = refl
heap_ended s (some k) (some t) = refl

ended-sane : (s : State) (k t : Option ℕ) → AllSane s → AllSane (end_socket k (clear_timeout t s))
ended-sane s k t h = rw heap_ended h

module _ (s : State) (h : AllSane s) where
  connect_entry-sane :
      (id : String) (row : SessionRow) (out : Outside) → AllSane (connect_entry id row out s).1
  unfolding connect_entry
  connect_entry-sane id row out = elim (Option-cases (entry_of s id)) [
    | inl e ↦
        rw (e, connect_entry)
          (answer-sane id _ (
            open_socket-sane (length s.heap) _ out
              (All-append IsSane s.heap _ h (new_entry-IsSane row id, tt))))
    | inr ((ref, x), e) ↦
        rw (e, connect_entry)
          (elim (Option-cases x.socket) [
            | inr (k, c) ↦ rw c h
            | inl c ↦ rw c (
                answer-sane id _
                  (open_socket-sane ref _ out (modify-sane ref s _ (λ y _ v. ground (arith, v)) h)))
          ])
  ]

  connect-sane : (id : String) (out : Outside) → AllSane (connect id out s).1
  unfolding connect
  connect-sane id out =
      if_cases (λ (r : Result Thrown (Option Snapshot) × State). AllSane r.1) s.shutting_down _ _
        (λ _. h)
        (λ _. elim (Option-cases (get_session s.db id)) [
          | inl e ↦ rw e h
          | inr (row, e) ↦ rw e (
              if_cases (λ (r : Result Thrown (Option Snapshot) × State). AllSane r.1)
                (row.status == logged_out) _ _ (λ _. h) (λ _. connect_entry-sane id row out))
        ])

  pub restart_entry-sane : (ref : ℕ) (e : Entry) → AllSane (restart_entry ref e s)
  unfolding restart_entry
  restart_entry-sane ref e =
      rw (heap-set_status, modify_at-fuse)
        (All-modify_at IsSane ref _ _ (λ y _ v. ground (arith, v))
          (ended-sane s e.socket e.reconnect_timer h))

  drop_entry-sane : (id : String) → AllSane (drop_entry id s)
  unfolding drop_entry
  drop_entry-sane id = elim (Option-cases (entry_of s id)) [
    | inl e ↦ rw (e, drop_entry) h
    | inr ((ref, x), e) ↦
        rw (e, drop_entry)
          (All-modify_at IsSane ref _ _ (λ y _ v. ground (arith, v))
            (ended-sane s x.socket x.reconnect_timer h))
  ]

  logout_entry-sane : (id : String) (went_through : Bool) → AllSane (logout_entry id went_through s)
  unfolding logout_entry
  logout_entry-sane id went_through = elim (Option-cases (entry_of s id)) [
    | inl e ↦ rw (e, logout_entry) h
    | inr ((ref, x), e) ↦
        rw (e, logout_entry)
          (rw heap-emit_status (
            All-modify_at IsSane ref _ _ (λ y _ v. ground (arith, v))
              (logout_socket-sane went_through x.socket x.reconnect_timer)))
  ]
    where
      logout_socket-sane :
          (b : Bool) (k t : Option ℕ) → AllSane (logout_socket b k (clear_timeout t s))
      logout_socket-sane true k t = ended-sane s k t h
      logout_socket-sane false k none = h
      logout_socket-sane false k (some t) = h

  fire_at-sane : (ref : ℕ) (out : Outside) → AllSane (fire_at ref out s)
  unfolding fire_at
  fire_at-sane ref out = elim (Option-cases (entry_at s ref)) [
    | inl e ↦ rw (e, fire_at) h
    | inr (x, e) ↦
        let cleared : AllSane
            (modify ref (λ y. record y { reconnect_timer = none; reconnect_due_at = none }) s) =
          modify-sane ref s _ (λ y _ v. ground (arith, v)) h in
        rw (e, fire_at)
          (if_cases AllSane (x.closing || s.shutting_down) _ _ (λ _. cleared)
            (λ _. open_socket-sane ref _ out cleared))
  ]

close_all-sane : (refs : List ℕ) (s : State) → AllSane s → AllSane (close_all refs s)
unfolding close_all
close_all-sane [] s h = h
close_all-sane (ref ∷ refs) s h = close_all-sane refs _ (elim (Option-cases (entry_at s ref)) [
  | inl e ↦ rw e h
  | inr (x, e) ↦ rw e (
      All-modify_at IsSane ref _ _ (λ y _ v. ground (arith, v))
        (ended-sane s x.socket x.reconnect_timer h))
])

restart-sane : (s : State) (id : String) (out : Outside) → AllSane s → AllSane (restart id out s).1
unfolding restart
restart-sane s id out h = elim (Option-cases (get_session s.db id)) [
  | inl e ↦ rw (e, restart) h
  | inr (row, e) ↦
      rw (e, restart)
        (if_cases (λ (r : Result Thrown (Option Snapshot) × State). AllSane r.1)
          (row.status == logged_out) _ _ (λ _. h)
          (λ _. elim (Option-cases (entry_of s id)) [
            | inl f ↦ rw f (connect-sane s h id out)
            | inr ((ref, x), f) ↦
                rw f (answer-sane id _ (open_socket-sane ref _ out (restart_entry-sane s h ref x)))
          ]))
]

fire-sane : (s : State) (t : ℕ) (out : Outside) → AllSane s → AllSane (fire t out s)
unfolding fire
fire-sane s t out h = elim (Option-cases (timer_place t s.timers)) [
  | inl e ↦ rw (e, fire) h
  | inr (ref, e) ↦ rw (e, fire) (fire_at-sane _ h ref out)
]

reset-sane : (s : State) (id : String) → AllSane s → AllSane (reset id s).1
unfolding reset
reset-sane s id h = elim (Option-cases (get_session s.db id)) [
  | inl e ↦ rw (e, reset) h
  | inr (row, e) ↦ rw (e, reset) (drop_entry-sane s h id)
]

logout-sane : (s : State) (id : String) (b : Bool) → AllSane s → AllSane (logout id b s).1
unfolding logout
logout-sane s id b h = elim (Option-cases (get_session s.db id)) [
  | inl e ↦ rw (e, logout) h
  | inr (row, e) ↦ rw (e, logout) (logout_entry-sane s h id b)
]

-- Each command keeps the invariant.
pub step-AllSane : (s : State) (c : Command) → AllSane s → AllSane (step s c)
unfolding step delete_session_of shutdown queue_creds
step-AllSane s (connects id out) h = connect-sane s h id out
step-AllSane s (restarts_it id out) h = restart-sane s id out h
step-AllSane s (resets id) h = reset-sane s id h
step-AllSane s (deletes id) h = drop_entry-sane s h id
step-AllSane s (logs_out id b) h = logout-sane s id b h
step-AllSane s (reports id outcome) h = record_send_outcome-sane id outcome s h
step-AllSane s (updates ref u) h = on_connection_update-sane ref s u h
step-AllSane s (fires t out) h = fire-sane s t out h
step-AllSane s (queues ref) h = modify-sane ref s _ (λ y _ v. ground (arith, v)) h
step-AllSane s shuts_down h = close_all-sane (values s.entries) _ h
step-AllSane s (waits ms) h = h

-- From a state where this holds of every entry, after every history of commands each entry, on the
-- map or off it, has made at most 10 reconnect attempts and 5 restarts since the last reset of its
-- counters, and is unhealthy only after 5 session faults in a row.
pub run-AllSane : (s : State) (cs : List Command) → AllSane s → AllSane (run s cs)
unfolding run
run-AllSane s [] h = h
run-AllSane s (c ∷ cs) h = run-AllSane (step s c) cs (step-AllSane s c h)
