-- ===== src/Sessions/Manager/Awaits.antt =====
-- baileys/src/sessions/manager.ts: `connect`, `restart`, the callback of a timer and the updates of a
-- socket (Updates) in pieces, from one `await` to the next, with anything else between. A call that
-- waits is a task: for the row of its session, for the web version, for the stored credentials, or
-- for the write of a status in an update. What a piece does stands without interruption, and a query
-- that is awaited has its effect in the piece before the `await`.
pub mod Updates
pub mod Together
pub mod Races
pub mod Sane
pub mod Late
pub mod Escape
mod Tests
use whatsapp_auto_send.Prelude.{
  ℕ, zero, suc, String, false, ◌||◌, Option, none, some, List, [], ◌∷◌, ◌++◌, Result, ok, err, ◌==◌,
  if◌then◌else◌, length, string_eq,
}
use whatsapp_auto_send.Prelude.Dict.{put}
use whatsapp_auto_send.Database.{SessionRow, logged_out, session_status_eq}
use whatsapp_auto_send.Sessions.Repository.{get_session}
use whatsapp_auto_send.Sessions.State.{Entry, State, modify, entry_at, entry_of, remove_handle}
use whatsapp_auto_send.Sessions.Manager.{Outside, make_socket}
use whatsapp_auto_send.Sessions.Manager.Lifecycle.{
  new_entry, restart_entry, timer_place, Command, step,
}
use whatsapp_auto_send.Sessions.Manager.Connection.{Update}
use Updates.{Rest, begin_update, finish_update}

pub data Task : Type 0 where
  looking restarting : String → Task
  fetching loading : ℕ → Task
  updating : Rest → Task

-- What a piece of a call leaves: the state, and the task that waits for the rest of the call.
abbrev pub Piece : Type 0
Piece = State × Option Task

-- `openSocket` up to its first `await`.
abbrev pub awaited : Option ℕ → ℕ → Task
awaited none ref = fetching ref
awaited (some v) ref = loading ref

abbrev pub begin_open : ℕ → State → Piece
begin_open ref s = (s, some (awaited s.version ref))

unfoldable pub begin_connect : String → State → Piece
begin_connect id s = if s.shutting_down then (s, none) else (s, some (looking id))

-- `connect` with its row, up to the first `await` of `openSocket`.
unfoldable pub found_row : String → SessionRow → State → Piece
found_row id row s = elim (entry_of s id) [
  | none ↦ begin_open (length s.heap) (record s {
    heap = s.heap ++ (new_entry row id ∷ []);
    entries = put id (length s.heap) s.entries;
  })
  | some (ref, e) ↦ elim e.socket [
    | some k ↦ (s, none)
    | none ↦ begin_open ref (modify ref (λ x. record x { closing = false }) s)
  ]
]

unfoldable pub look : String → State → Piece
unfolding found_row
look id s = elim (get_session s.db id) [
  | none ↦ (s, none)
  | some row ↦ if row.status == logged_out then (s, none) else found_row id row s
]

unfoldable pub restart_row : String → State → Piece
unfolding restart_entry begin_connect
restart_row id s = elim (get_session s.db id) [
  | none ↦ (s, none)
  | some row ↦ if row.status == logged_out then (s, none) else elim (entry_of s id) [
    | some (ref, e) ↦ begin_open ref (restart_entry ref e s)
    | none ↦ begin_connect id s
  ]
]

-- An update that has not ended is a task.
abbrev pub as_piece : State × Option Rest → Piece
as_piece (s, none) = (s, none)
as_piece (s, some r) = (s, some (updating r))

-- A call goes on from its `await` to the next one; what it throws ends it.
unfoldable pub go_on : Task → Outside → State → Piece
unfolding look restart_row make_socket finish_update
go_on (looking id) out s = look id s
go_on (restarting id) out s = restart_row id s
go_on (fetching ref) out s = elim out.fetched [
  | err e ↦ (s, none)
  | ok v ↦ (record s { version = some v }, some (loading ref))
]
go_on (loading ref) out s = (make_socket ref out.fresh s, none)
go_on (updating r) out s = as_piece (finish_update r s)

unfoldable pub begin_fire_at : ℕ → State → Piece
begin_fire_at ref s = elim (entry_at s ref) [
  | none ↦ (s, none)
  | some e ↦
      let s' = modify ref (λ x. record x { reconnect_timer = none; reconnect_due_at = none }) s in
      if e.closing || s.shutting_down then (s', none) else begin_open ref s'
]

unfoldable pub begin_fire : ℕ → State → Piece
unfolding timer_place begin_fire_at
begin_fire t s = elim (timer_place t s.timers) [
  | none ↦ (s, none)
  | some ref ↦ begin_fire_at ref (record s { timers = remove_handle t s.timers })
]

pub record World : Type 0 where
  pub state : State
  pub tasks : List Task

-- The task at a place of the list, and the others.
unfoldable pub pick : ℕ → List Task → Option (Task × List Task)
pick k [] = none
pick zero (t ∷ ts) = some (t, ts)
pick (suc k) (t ∷ ts) = elim (pick k ts) [ none ↦ none | some (u, us) ↦ some (u, t ∷ us) ]

abbrev pub waiting : Option Task → List Task
waiting none = []
waiting (some t) = t ∷ []

abbrev pub with_tasks : List Task → Piece → World
with_tasks ts (s, t) = record { state = s; tasks = ts ++ waiting t }

-- What may come next: a call, a timer, an update of a socket, anything that waits, or a handler that
-- runs whole.
pub data Action : Type 0 where
  calls_connect calls_restart : String → Action
  rings : ℕ → Action
  hears : ℕ → Update → Action
  resumes : ℕ → Outside → Action
  does : Command → Action

unfoldable pub resume : ℕ → Outside → World → World
unfolding go_on pick
resume k out w = elim (pick k w.tasks) [
  | none ↦ w
  | some (t, ts) ↦ with_tasks ts (go_on t out w.state)
]

unfoldable pub act : World → Action → World
unfolding begin_connect begin_fire begin_update step resume
act w (calls_connect id) = with_tasks w.tasks (begin_connect id w.state)
act w (calls_restart id) = with_tasks w.tasks (w.state, some (restarting id))
act w (rings t) = with_tasks w.tasks (begin_fire t w.state)
act w (hears ref u) = with_tasks w.tasks (as_piece (begin_update ref u w.state))
act w (resumes k out) = resume k out w
act w (does c) = record w { state = step w.state c }

unfoldable pub act_all : World → List Action → World
unfolding act
act_all w [] = w
act_all w (a ∷ acts) = act_all (act w a) acts
