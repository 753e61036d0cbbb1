-- ===== src/Sessions/Manager/Awaits/Sane.antt =====
-- The invariant of manager.ts with calls that wait, and with anything between their pieces.
use whatsapp_auto_send.Prelude.{
  ℕ, String, Option, none, some, refl, is_truthy, option_eq, nat_eq, List, [], ◌∷◌, arith,
  All-append, Option-cases, Result-cases, inl, inr, ◌==◌, ◌||◌, if_cases,
}
use whatsapp_auto_send.Database.{SessionRow, logged_out, session_status_eq}
use whatsapp_auto_send.Sessions.Repository.{get_session}
use whatsapp_auto_send.Sessions.State.{State, entry_at, entry_of, modify, remove_handle}
use whatsapp_auto_send.Sessions.Manager.{Outside, make_socket}
use whatsapp_auto_send.ErrorMapping.{logged_out_reason, restart_required_reason}
use whatsapp_auto_send.Database.{disconnected}
use whatsapp_auto_send.Sessions.Manager.Connection.{Update, Connection, opened, closed, connecting}
use whatsapp_auto_send.Sessions.Manager.Awaits.Updates.{
  Rest, hearing, losing, begin_closed, begin_after_close, begin_connection, begin_update,
  finish_update,
}
use whatsapp_auto_send.Sessions.Manager.Awaits.{updating, hears, as_piece}
use whatsapp_auto_send.Sessions.Manager.Heap.{All-modify_at, heap-make_socket, get_elem?-modify_at}
use whatsapp_auto_send.Sessions.Manager.Lifecycle.{timer_place}
use whatsapp_auto_send.Sessions.Manager.Invariant.{
  IsSane, AllSane, modify-sane, retry-sane, set_status-sane, on_qr-sane, on_connection-sane,
  on_logged_out-sane, on_restart_required-sane,
}
use whatsapp_auto_send.Sessions.Manager.Commands.{
  step-AllSane, new_entry-IsSane, restart_entry-sane,
}
use whatsapp_auto_send.Sessions.Manager.Awaits.{
  Task, looking, restarting, fetching, loading, Piece, begin_connect, found_row, look, restart_row,
  go_on, begin_fire, begin_fire_at, World, Action, calls_connect, calls_restart, rings, resumes,
  does, resume, pick, act, act_all,
}

abbrev PieceSane : Piece → Type 0
PieceSane p = AllSane p.0

as_piece-sane : (p : State × Option Rest) → AllSane p.0 → PieceSane (as_piece p)
as_piece-sane (s, none) h = h
as_piece-sane (s, some r) h = h

-- The updates of sockets.
module _ (ref : ℕ) (s : State) (h : AllSane s) where
  begin_closed-sane : (u : Update) → AllSane (begin_closed ref u s).0
  unfolding begin_closed begin_after_close
  begin_closed-sane u = elim (Option-cases (entry_at s ref)) [
    | inl e ↦ rw (e, begin_closed) h
    | inr (x, e) ↦
        let s' = record (modify ref (λ x. record x { socket = none }) s) {
          open_sockets = remove_handle u.socket s.open_sockets;
        } in
        let gone : AllSane s' = modify-sane ref s _ (λ y _ v. ground (arith, v)) h in
        let there = get_elem?-modify_at ref (λ x. record x { socket = none }) s.heap x e in
        let P = λ (p : State × Option Rest). AllSane p.0 in
        rw (e, begin_closed, begin_after_close)
          (if_cases P (x.closing || s.shutting_down) _ _ (λ _. gone)
            (λ _.
              if_cases P (u.status == some logged_out_reason) _ _
                (λ _. on_logged_out-sane ref s' (record x { socket = none }) x there refl refl gone)
                (λ _.
                  if_cases P (u.status == some restart_required_reason) _ _
                    (λ _.
                      on_restart_required-sane ref s' (record x { socket = none }) x there refl refl
                        gone)
                    (λ _. set_status-sane ref s' disconnected (λ p. cc) gone))))
  ]

  begin_connection-sane :
      (c : Option Connection) (u : Update) → AllSane (begin_connection c ref u s).0
  unfolding begin_connection
  begin_connection-sane (some closed) u = begin_closed-sane u
  begin_connection-sane (some opened) u = on_connection-sane ref s (some opened) u h
  begin_connection-sane (some connecting) u = on_connection-sane ref s (some connecting) u h
  begin_connection-sane none u = on_connection-sane ref s none u h

  begin_update-sane : (u : Update) → AllSane (begin_update ref u s).0
  unfolding begin_update
  begin_update-sane u =
      if_cases (λ (p : State × Option Rest). AllSane p.0) (is_truthy u.qr) _ _
        (λ _. on_qr-sane ref s u.qr h) (λ _. begin_connection-sane u.connection u)

finish_update-sane : (r : Rest) (s : State) → AllSane s → AllSane (finish_update r s).0
unfolding finish_update
finish_update-sane (hearing ref u) s h = begin_connection-sane ref s h u.connection u
finish_update-sane (losing ref random) s h = retry-sane ref s random h

module _ (s : State) (h : AllSane s) where
  begin_connect-sane : (id : String) → PieceSane (begin_connect id s)
  unfolding begin_connect
  begin_connect-sane id = if_cases PieceSane s.shutting_down _ _ (λ _. h) (λ _. h)

  found_row-sane : (id : String) (row : SessionRow) → PieceSane (found_row id row s)
  unfolding found_row
  found_row-sane id row = elim (Option-cases (entry_of s id)) [
    | inl e ↦ rw (e, found_row) (All-append IsSane s.heap _ h (new_entry-IsSane row id, tt))
    | inr ((ref, x), e) ↦
        rw (e, found_row)
          (elim (Option-cases x.socket) [
            | inl c ↦ rw c (modify-sane ref s _ (λ y _ v. ground (arith, v)) h)
            | inr (k, c) ↦ rw c h
          ])
  ]

  look-sane : (id : String) → PieceSane (look id s)
  unfolding look
  look-sane id = elim (Option-cases (get_session s.db id)) [
    | inl e ↦ rw (e, look) h
    | inr (row, e) ↦
        rw (e, look)
          (if_cases PieceSane (row.status == logged_out) _ _ (λ _. h) (λ _. found_row-sane id row))
  ]

  restart_row-sane : (id : String) → PieceSane (restart_row id s)
  unfolding restart_row
  restart_row-sane id = elim (Option-cases (get_session s.db id)) [
    | inl e ↦ rw (e, restart_row) h
    | inr (row, e) ↦
        rw (e, restart_row)
          (if_cases PieceSane (row.status == logged_out) _ _ (λ _. h)
            (λ _. elim (Option-cases (entry_of s id)) [
              | inl f ↦ rw f (begin_connect-sane id)
              | inr ((ref, x), f) ↦ rw f (restart_entry-sane s h ref x)
            ]))
  ]

  begin_fire_at-sane : (ref : ℕ) → PieceSane (begin_fire_at ref s)
  unfolding begin_fire_at
  begin_fire_at-sane ref = elim (Option-cases (entry_at s ref)) [
    | inl e ↦ rw (e, begin_fire_at) h
    | inr (x, e) ↦
        let cleared : AllSane
            (modify ref (λ y. record y { reconnect_timer = none; reconnect_due_at = none }) s) =
          modify-sane ref s _ (λ y _ v. ground (arith, v)) h in
        rw (e, begin_fire_at)
          (if_cases PieceSane (x.closing || s.shutting_down) _ _ (λ _. cleared) (λ _. cleared))
  ]

  make_socket-sane : (ref : ℕ) (out : Outside) → AllSane (make_socket ref out.fresh s)
  make_socket-sane ref out =
      rw (heap-make_socket ref s out.fresh)
        (All-modify_at IsSane ref _ s.heap (λ e _ v. ground (arith, v)) h)

  go_on-sane : (t : Task) (out : Outside) → PieceSane (go_on t out s)
  unfolding go_on
  go_on-sane (looking id) out = look-sane id
  go_on-sane (restarting id) out = restart_row-sane id
  go_on-sane (fetching ref) out = elim (Result-cases out.fetched) [
    | inr (e, f) ↦ rw f h
    | inl (v, f) ↦ rw f h
  ]
  go_on-sane (loading ref) out = make_socket-sane ref out
  go_on-sane (updating r) out = as_piece-sane (finish_update r s) (finish_update-sane r s h)

begin_fire-sane : (s : State) (t : ℕ) → AllSane s → PieceSane (begin_fire t s)
unfolding begin_fire
begin_fire-sane s t h = elim (Option-cases (timer_place t s.timers)) [
  | inl e ↦ rw (e, begin_fire) h
  | inr (ref, e) ↦
      rw (e, begin_fire) (begin_fire_at-sane (record s { timers = remove_handle t s.timers }) h ref)
]

resume-sane : (k : ℕ) (out : Outside) (w : World) → AllSane w.state → AllSane (resume k out w).state
unfolding resume
resume-sane k out w h = elim (Option-cases (pick k w.tasks)) [
  | inl e ↦ rw (e, resume) h
  | inr ((t, ts), e) ↦ rw (e, resume) (go_on-sane w.state h t out)
]

act-sane : (w : World) (a : Action) → AllSane w.state → AllSane (act w a).state
unfolding act
act-sane w (calls_connect id) h = begin_connect-sane w.state h id
act-sane w (calls_restart id) h = h
act-sane w (rings t) h = begin_fire-sane w.state t h
act-sane w (hears ref u) h =
    as_piece-sane (begin_update ref u w.state) (begin_update-sane ref w.state h u)
act-sane w (resumes k out) h = resume-sane k out w h
act-sane w (does c) h = step-AllSane w.state c h

-- In whatever order calls are made, timers fire, sockets report and the pieces of what waits come,
-- with any other handlers between them, from a state where this holds of every entry each entry
-- keeps within ten reconnect attempts and five restarts, and is unhealthy only after five session
-- faults in a row.
pub act_all-AllSane :
    (w : World) (acts : List Action) → AllSane w.state → AllSane (act_all w acts).state
unfolding act_all
act_all-AllSane w [] h = h
act_all-AllSane w (a ∷ acts) h = act_all-AllSane (act w a) acts (act-sane w a h)
