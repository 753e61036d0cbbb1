-- ===== src/Sessions/Manager/Shutdown.antt =====
-- What manager.ts does once `shutdown` has run.
use whatsapp_auto_send.Prelude.{
  ℕ, ◌≤◌, String, Bool, true, Option, none, some, List, [], ◌∷◌, ◌≡◌, refl, ap, ◌∙◌, arith,
  Option-cases, inl, inr, nat_eq, length,
}
use whatsapp_auto_send.Prelude.Dict.{get, values}
use whatsapp_auto_send.Database.{session_status_eq}
use whatsapp_auto_send.Errors.{ErrorCode}
use whatsapp_auto_send.Sessions.Repository.{get_session}
use whatsapp_auto_send.Sessions.State.{
  State, modify, end_socket, clear_timeout, entry_at, entry_of, remove_handle,
}
use whatsapp_auto_send.Sessions.Manager.{Outside, emit_status, record_send_outcome}
use whatsapp_auto_send.Sessions.Manager.Connection.{
  Update, Connection, opened, closed, connecting, on_closed, after_close, on_opened, on_qr,
  on_connection, on_connection_update,
}
use whatsapp_auto_send.Sessions.Manager.Lifecycle.{
  Command, connects, restarts_it, resets, deletes, logs_out, reports, updates, fires, queues,
  shuts_down, waits, connect, restart, reset, delete_session_of, drop_entry, logout, logout_entry,
  shutdown, close_all, fire, fire_at, queue_creds, step, run,
}
use whatsapp_auto_send.Sessions.Manager.Frame.{on_qr-SameFrame}

pub record IsDown (s : State) : Type 0 where
  pub flagged : s.shutting_down ≡ true
  pub emptied : s.entries ≡ []

-- `s'` is down as `s` is, and has no more sockets open.
pub record StaysDown (s s' : State) : Type 0 where
  pub down : IsDown s'
  pub no_more : length s'.open_sockets ≤ length s.open_sockets

pub length-remove_handle : (h : ℕ) (ks : List (ℕ × ℕ)) → length (remove_handle h ks) ≤ length ks
unfolding remove_handle
length-remove_handle h [] = ground arith
length-remove_handle h ((k, ref) ∷ ks) = ground (arith, length-remove_handle h ks)

pub nobody : (s : State) (id : String) → IsDown s → entry_of s id ≡ none
unfolding entry_of get
nobody s id d = rw (d.emptied)

abbrev of_fields :
    (s s' : State)
    → IsDown s
    → s'.shutting_down ≡ s.shutting_down
    → s'.entries ≡ s.entries
    → length s'.open_sockets ≤ length s.open_sockets
    → StaysDown s s'
of_fields s s' d flag map sockets = record {
  down = record { flagged = flag ∙ d.flagged; emptied = map ∙ d.emptied };
  no_more = sockets;
}

abbrev of_same : (s s' : State) → IsDown s → s' ≡ s → StaysDown s s'
of_same s s' d h =
    of_fields s s' d (ap (λ t. t.shutting_down) h) (ap (λ t. t.entries) h)
      (ground (arith, ap (λ t. length t.open_sockets) h))

abbrev of_dropped :
    (s s' : State)
    → IsDown s
    → (t : State) → t ≡ s
    → s'.shutting_down ≡ t.shutting_down
    → s'.entries ≡ t.entries
    → s'.open_sockets ≡ t.open_sockets
    → StaysDown s s'
of_dropped s s' d t h flag map sockets =
    of_fields s s' d (flag ∙ ap (λ x. x.shutting_down) h) (map ∙ ap (λ x. x.entries) h)
      (ground (arith, ap (λ x. length x) sockets, ap (λ x. length x.open_sockets) h))

module _ (s : State) (d : IsDown s) where
  connect-down : (id : String) (out : Outside) → (connect id out s).1 ≡ s
  unfolding connect
  connect-down id out = ground (arith, d.flagged)

  restart-down : (id : String) (out : Outside) → (restart id out s).1 ≡ s
  unfolding restart
  restart-down id out = ground (arith, nobody s id d, connect-down id out)

  drop_entry-down : (id : String) → drop_entry id s ≡ s
  unfolding drop_entry
  drop_entry-down id = ground (arith, nobody s id d)

  logout_entry-down : (id : String) (b : Bool) → logout_entry id b s ≡ s
  unfolding logout_entry
  logout_entry-down id b = ground (arith, nobody s id d)

  reset-down : (id : String) → StaysDown s (reset id s).1
  unfolding reset
  reset-down id = elim (Option-cases (get_session s.db id)) [
    | inl h ↦ of_same s (reset id s).1 d (ground (arith, h))
    | inr (row, h) ↦
        of_dropped s (reset id s).1 d (drop_entry id s) (drop_entry-down id) (ground (arith, h))
          (ground (arith, h)) (ground (arith, h))
  ]

  delete-down : (id : String) → StaysDown s (delete_session_of id s).1
  unfolding delete_session_of
  delete-down id =
      of_dropped s (delete_session_of id s).1 d (drop_entry id s) (drop_entry-down id)
        (ground arith) (ground arith) (ground arith)

  logout-down : (id : String) (b : Bool) → StaysDown s (logout id b s).1
  unfolding logout
  logout-down id b = elim (Option-cases (get_session s.db id)) [
    | inl h ↦ of_same s (logout id b s).1 d (ground (arith, h))
    | inr (row, h) ↦
        of_dropped s (logout id b s).1 d (logout_entry id b s) (logout_entry-down id b)
          (ground (arith, h)) (ground (arith, h)) (ground (arith, h))
  ]

  report-down : (id : String) (o : Option ErrorCode) → record_send_outcome id o s ≡ s
  unfolding record_send_outcome
  report-down id none = ground (arith, nobody s id d)
  report-down id (some code) = ground (arith, nobody s id d)

  fire-down : (t : ℕ) (out : Outside) → StaysDown s (fire t out s)
  unfolding fire fire_at
  fire-down t out =
      of_fields s (fire t out s) d (ground (arith, d.flagged)) (ground (arith, d.flagged))
        (ground (arith, d.flagged))

  shutdown-down : StaysDown s (shutdown s)
  unfolding shutdown close_all values
  shutdown-down =
      of_fields s (shutdown s) d (ground (arith, d.flagged, d.emptied))
        (ground (arith, d.flagged, d.emptied)) (ground (arith, d.flagged, d.emptied))

  on_closed-down : (ref : ℕ) (u : Update) → StaysDown s (on_closed ref u s)
  unfolding on_closed after_close
  on_closed-down ref u =
      of_fields s (on_closed ref u s) d (ground (arith, d.flagged)) (ground (arith, d.flagged))
        (ground (arith, d.flagged, length-remove_handle u.socket s.open_sockets))

  on_opened-down : (ref : ℕ) (u : Update) → StaysDown s (on_opened ref u s)
  unfolding on_opened emit_status
  on_opened-down ref u =
      of_fields s (on_opened ref u s) d (ground arith) (ground arith) (ground arith)

  pub on_connection-down :
      (c : Option Connection) (ref : ℕ) (u : Update) → StaysDown s (on_connection c ref u s)
  unfolding on_connection
  on_connection-down none ref u = of_same s s d refl
  on_connection-down (some opened) ref u = on_opened-down ref u
  on_connection-down (some closed) ref u = on_closed-down ref u
  on_connection-down (some connecting) ref u = of_same s s d refl

  pub on_qr-down : (ref : ℕ) (qr : Option String) → StaysDown s (on_qr ref qr s)
  on_qr-down ref qr =
      let kept = on_qr-SameFrame ref s qr in
      of_fields s (on_qr ref qr s) d kept.flag_kept kept.entries_kept
        (ground (arith, ap (λ x. length x) kept.sockets_kept))

then_down : (s t v : State) → StaysDown s t → StaysDown t v → StaysDown s v
then_down s t v a b = record { down = b.down; no_more = ground (arith, a.no_more, b.no_more) }

update-down :
    (s : State) (ref : ℕ) (u : Update) → IsDown s → StaysDown s (on_connection_update ref u s)
unfolding on_connection_update
update-down s ref u d =
    let q = on_qr-down s d ref u.qr in
    then_down s (on_qr ref u.qr s) (on_connection_update ref u s) q
      (on_connection-down (on_qr ref u.qr s) q.down u.connection ref u)

pub step-down : (s : State) (c : Command) → IsDown s → StaysDown s (step s c)
unfolding step queue_creds
step-down s (connects id out) d = of_same s (connect id out s).1 d (connect-down s d id out)
step-down s (restarts_it id out) d = of_same s (restart id out s).1 d (restart-down s d id out)
step-down s (resets id) d = reset-down s d id
step-down s (deletes id) d = delete-down s d id
step-down s (logs_out id b) d = logout-down s d id b
step-down s (reports id o) d = of_same s (record_send_outcome id o s) d (report-down s d id o)
step-down s (updates ref u) d = update-down s ref u d
step-down s (fires t out) d = fire-down s d t out
step-down s (queues ref) d = of_fields s (queue_creds ref s) d refl refl (ground arith)
step-down s shuts_down d = shutdown-down s d
step-down s (waits ms) d = of_fields s (step s (waits ms)) d refl refl (ground arith)

-- One round of the loop of `shutdown`.
abbrev pub close_one : ℕ → State → State
close_one ref s = elim (entry_at s ref) [
  | none ↦ s
  | some e ↦
      modify ref
        (λ x. record x { reconnect_timer = none; closing = true; socket = none; pending_creds = 0 })
        (end_socket e.socket (clear_timeout e.reconnect_timer s))
]

close_one-flag : (ref : ℕ) (s : State) → (close_one ref s).shutting_down ≡ s.shutting_down
close_one-flag ref s = ground arith

close_all-flag : (refs : List ℕ) (s : State) → (close_all refs s).shutting_down ≡ s.shutting_down
unfolding close_all
close_all-flag [] s = refl
close_all-flag (ref ∷ refs) s = close_all-flag refs (close_one ref s) ∙ close_one-flag ref s

-- `shutdown` leaves a manager that is down.
pub shutdown-IsDown : (s : State) → IsDown (shutdown s)
unfolding shutdown
shutdown-IsDown s = record {
  flagged = close_all-flag (values s.entries) (record s { shutting_down = true });
  emptied = refl;
}

run-down : (s : State) (cs : List Command) → IsDown s → StaysDown s (run s cs)
unfolding run
run-down s [] d = of_same s s d refl
run-down s (c ∷ cs) d =
    let one = step-down s c d in
    then_down s (step s c) (run s (c ∷ cs)) one (run-down (step s c) cs one.down)

-- After a shutdown, whatever commands, updates and timers still come, the manager has no session
-- and opens no socket: there are never more sockets open than the shutdown left.
pub shutdown-run :
    (s : State) (cs : List Command)
    → ((run (shutdown s) cs).entries ≡ [])
      × (length (run (shutdown s) cs).open_sockets ≤ length (shutdown s).open_sockets)
shutdown-run s cs =
    let after = run-down (shutdown s) cs (shutdown-IsDown s) in (after.down.emptied, after.no_more)
