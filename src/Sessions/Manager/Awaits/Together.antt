-- ===== src/Sessions/Manager/Awaits/Together.antt =====
-- Calls of manager.ts whose pieces follow one another with nothing between are its methods.
use whatsapp_auto_send.Prelude.{
  ℕ, String, Option, none, some, List, [], ◌∷◌, ◌++◌, Result, ok, err, ◌≡◌, refl, ap, ◌∙◌, arith,
  Option-cases, Bool-cases, inl, inr, sym, Bool, true, false, ◌==◌, if◌then◌else◌, ◌||◌, string_eq,
}
use whatsapp_auto_send.Errors.{
  Thrown, api, session_not_found_error, session_logged_out_error, session_not_connected_error,
}
use whatsapp_auto_send.Database.{SessionRow, logged_out, session_status_eq}
use whatsapp_auto_send.Sessions.Repository.{get_session}
use whatsapp_auto_send.Sessions.State.{State, entry_of, entry_at, modify, remove_handle}
use whatsapp_auto_send.Sessions.Manager.{Snapshot, Outside, open_socket}
use whatsapp_auto_send.Sessions.Manager.Lifecycle.{
  connect, connect_entry, restart_entry, timer_place, answer, restart, fire, fire_at, Command,
  connects, restarts_it, fires, resets, deletes, logs_out, reports, updates, queues, shuts_down,
  waits, step, run,
}
use whatsapp_auto_send.Sessions.Manager.Awaits.{
  looking, restarting, Piece, begin_open, begin_connect, found_row, look, restart_row, go_on,
  begin_fire, begin_fire_at, World, Action, calls_connect, calls_restart, rings, resumes, does,
  resume, pick, act, act_all, with_tasks,
}

-- The task that waits goes on.
on_with : Outside → Piece → Piece
on_with out (s, none) = (s, none)
on_with out (s, some t) = go_on t out s

-- Two more pieces, whatever the call waits for.
abbrev opened : Outside → Piece → Piece
opened out p = on_with out (on_with out p)

opened-begin_open :
    (out : Outside) (ref : ℕ) (s : State)
    → opened out (begin_open ref s) ≡ ((open_socket ref out s).1, none)
unfolding on_with go_on open_socket
opened-begin_open out ref s = ground arith

answer-state : (id : String) (r : Result Thrown (Unit {0}) × State) → (answer id r).1 ≡ r.1
answer-state id (ok _, s) = refl
answer-state id (err e, s) = refl

module _ (out : Outside) (id : String) where
  opened-found_row :
      (row : SessionRow) (s : State)
      → opened out (found_row id row s) ≡ ((connect_entry id row out s).1, none)
  unfolding found_row connect_entry on_with
  opened-found_row row s = elim (Option-cases (entry_of s id)) [
    | inl h ↦
        rw (h, found_row, connect_entry)
          (opened-begin_open out _ _ ∙ ap (λ t. (t, none)) (sym (answer-state id _)))
    | inr ((ref, e), h) ↦ elim (Option-cases e.socket) [
      | inl k ↦
          rw (h, k, found_row, connect_entry)
            (opened-begin_open out _ _ ∙ ap (λ t. (t, none)) (sym (answer-state id _)))
      | inr (n, k) ↦ rw (h, k, found_row, connect_entry)
    ]
  ]

  -- `connect` when no shutdown runs.
  connected_row : State → Result Thrown (Option Snapshot) × State
  connected_row s = elim (get_session s.db id) [
    | none ↦ (err (api (session_not_found_error id)), s)
    | some row ↦
        if row.status == logged_out
        then (err (api (session_logged_out_error id)), s)
        else connect_entry id row out s
  ]

  opened-look : (s : State) → opened out (look id s) ≡ ((connected_row s).1, none)
  unfolding look on_with connected_row
  opened-look s = elim (Option-cases (get_session s.db id)) [
    | inl h ↦ rw (look, connected_row, h)
    | inr (row, h) ↦ elim (Bool-cases (row.status == logged_out)) [
      | inl away ↦ rw (look, connected_row, h, away)
      | inr here ↦ rw (look, connected_row, h, here) (opened-found_row row s)
    ]
  ]

  by_flag :
      (b : Bool) (s : State)
      → opened out (on_with out (if b then (s, none) else (s, some (looking id)))) ≡ (
        (if b
            then (err (api (session_not_connected_error id "shutting down")), s)
            else connected_row s).1,
        none,
      )
  unfolding on_with go_on
  by_flag true s = refl
  by_flag false s = opened-look s

  connect-together :
      (s : State) → opened out (on_with out (begin_connect id s)) ≡ ((connect id out s).1, none)
  unfolding begin_connect connect connected_row
  connect-together s = by_flag s.shutting_down s

  restart-together :
      (s : State) → opened out (on_with out (restart_row id s)) ≡ ((restart id out s).1, none)
  unfolding restart_row restart on_with go_on
  restart-together s = elim (Option-cases (get_session s.db id)) [
    | inl h ↦ rw (restart_row, restart, h)
    | inr (row, h) ↦ elim (Bool-cases (row.status == logged_out)) [
      | inl away ↦ rw (restart_row, restart, h, away)
      | inr here ↦ elim (Option-cases (entry_of s id)) [
        | inl absent ↦ rw (restart_row, restart, h, here, absent) (connect-together s)
        | inr ((ref, e), live) ↦
            rw (restart_row, restart, h, here, live)
              (ap (on_with out) (opened-begin_open out ref (restart_entry ref e s))
                ∙ ap (λ t. (t, none)) (sym (answer-state id _)))
      ]
    ]
  ]

abbrev cleared : ℕ → State → State
cleared ref s = modify ref (λ x. record x { reconnect_timer = none; reconnect_due_at = none }) s

by_flags :
    (out : Outside) (ref : ℕ) (s : State) (b : Bool)
    → opened out (if b then (cleared ref s, none) else begin_open ref (cleared ref s))
      ≡ ((if b then cleared ref s else (open_socket ref out (cleared ref s)).1), none)
unfolding on_with
by_flags out ref s true = refl
by_flags out ref s false = opened-begin_open out ref (cleared ref s)

fire_at-together :
    (out : Outside) (ref : ℕ) (s : State)
    → opened out (begin_fire_at ref s) ≡ (fire_at ref out s, none)
unfolding begin_fire_at fire_at on_with
fire_at-together out ref s = elim (Option-cases (entry_at s ref)) [
  | inl h ↦ rw (begin_fire_at, fire_at, h)
  | inr (e, h) ↦ rw (begin_fire_at, fire_at, h) (by_flags out ref s (e.closing || s.shutting_down))
]

fire-together :
    (out : Outside) (t : ℕ) (s : State) → opened out (begin_fire t s) ≡ (fire t out s, none)
unfolding begin_fire fire on_with
fire-together out t s = elim (Option-cases (timer_place t s.timers)) [
  | inl h ↦ rw (begin_fire, fire, h)
  | inr (ref, h) ↦
      rw (begin_fire, fire, h)
        (fire_at-together out ref (record s { timers = remove_handle t s.timers }))
]

-- No call waits.
abbrev pub idle : State → World
idle s = record { state = s; tasks = [] }

-- A command in its pieces.
unfoldable pub pieces : Command → List Action
pieces (connects id out) = calls_connect id ∷ resumes 0 out ∷ resumes 0 out ∷ resumes 0 out ∷ []
pieces (restarts_it id out) =
    calls_restart id ∷ resumes 0 out ∷ resumes 0 out ∷ resumes 0 out ∷ resumes 0 out ∷ []
pieces (fires t out) = rings t ∷ resumes 0 out ∷ resumes 0 out ∷ []
pieces c = does c ∷ []

unfoldable pub pieces_of : List Command → List Action
unfolding pieces
pieces_of [] = []
pieces_of (c ∷ cs) = pieces c ++ pieces_of cs

resume-lone :
    (out : Outside) (p : Piece) → resume 0 out (with_tasks [] p) ≡ with_tasks [] (on_with out p)
unfolding resume pick on_with
resume-lone out (s, none) = refl
resume-lone out (s, some t) = refl

resume-opened :
    (out : Outside) (p : Piece)
    → resume 0 out (resume 0 out (with_tasks [] p)) ≡ with_tasks [] (opened out p)
resume-opened out p = ap (resume 0 out) (resume-lone out p) ∙ resume-lone out (on_with out p)

resume-thrice :
    (out : Outside) (p : Piece)
    → resume 0 out (resume 0 out (resume 0 out (with_tasks [] p)))
      ≡ with_tasks [] (opened out (on_with out p))
resume-thrice out p =
    ap (λ w. resume 0 out (resume 0 out w)) (resume-lone out p) ∙ resume-opened out (on_with out p)

act_all-pieces : (s : State) (c : Command) → act_all (idle s) (pieces c) ≡ idle (step s c)
unfolding act_all pieces step on_with go_on
act_all-pieces s (connects id out) =
    resume-thrice out (begin_connect id s) ∙ ap (with_tasks []) (connect-together out id s)
act_all-pieces s (restarts_it id out) =
    ap (λ w. resume 0 out (resume 0 out (resume 0 out w)))
      (resume-lone out (s, some (restarting id)))
    ∙ resume-thrice out (restart_row id s)
    ∙ ap (with_tasks []) (restart-together out id s)
act_all-pieces s (fires t out) =
    resume-opened out (begin_fire t s) ∙ ap (with_tasks []) (fire-together out t s)
act_all-pieces s (resets id) = refl
act_all-pieces s (deletes id) = refl
act_all-pieces s (logs_out id b) = refl
act_all-pieces s (reports id o) = refl
act_all-pieces s (updates ref u) = refl
act_all-pieces s (queues ref) = refl
act_all-pieces s shuts_down = refl
act_all-pieces s (waits ms) = refl

act_all-append :
    (w : World) (first rest : List Action)
    → act_all w (first ++ rest) ≡ act_all (act_all w first) rest
unfolding act_all
act_all-append w [] rest = refl
act_all-append w (a ∷ first) rest = act_all-append (act w a) first rest

-- A history of commands, each taken apart into its pieces with nothing between them, leaves the
-- state that the commands leave, and no call that waits.
pub act_all-run :
    (s : State) (cs : List Command) → act_all (idle s) (pieces_of cs) ≡ idle (run s cs)
unfolding pieces_of run act_all
act_all-run s [] = refl
act_all-run s (c ∷ cs) =
    act_all-append (idle s) (pieces c) (pieces_of cs)
    ∙ ap (λ w. act_all w (pieces_of cs)) (act_all-pieces s c)
    ∙ act_all-run (step s c) cs
