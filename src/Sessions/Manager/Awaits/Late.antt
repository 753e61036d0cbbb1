-- ===== src/Sessions/Manager/Awaits/Late.antt =====
-- Calls of manager.ts that wait while `shutdown` runs.
use whatsapp_auto_send.Prelude.{ℕ, ◌+◌, ◌≤◌, Option, none, some, List, [], ◌∷◌, ◌++◌, All, length}
use whatsapp_auto_send.Sessions.State.{State}
use whatsapp_auto_send.Sessions.Manager.Shutdown.{IsDown, StaysDown}
use whatsapp_auto_send.Sessions.Manager.Connection.{Connection}
use whatsapp_auto_send.Sessions.Manager.Awaits.Updates.{Rest}
use whatsapp_auto_send.Sessions.Manager.Awaits.{Task, looking, fetching, loading, Piece, waiting}

-- A call that has its entry, or asks for one that the map has.
abbrev pub IsPastLook : Task → Type 0
IsPastLook (looking id) = ⊥
IsPastLook _ = Unit

-- The socket that a call is about to make.
abbrev pub sockets_due : Task → ℕ
sockets_due (fetching ref) = 1
sockets_due (loading ref) = 1
sockets_due _ = 0

unfoldable pub openings : List Task → ℕ
openings [] = 0
openings (t ∷ ts) = sockets_due t + openings ts

-- The manager is down, no call waits for a row, and at most `n` sockets are open or to come.
pub record IsLate (n : ℕ) (s : State) (ts : List Task) : Type 0 where
  pub down : IsDown s
  pub past : All IsPastLook ts
  pub sockets : length s.open_sockets + openings ts ≤ n

-- What a piece leaves, beside the other tasks.
abbrev IsLatePiece : ℕ → List Task → Piece → Type 0
IsLatePiece n ts p = IsLate n p.0 (ts ++ waiting p.1)

abbrev due : Option Task → ℕ
due none = 0
due (some t) = sockets_due t

abbrev MayWait : Option Task → Type 0
MayWait none = Unit
MayWait (some t) = IsPastLook t

-- What an update leaves of a manager that is down.
abbrev RestDown : State → State × Option Rest → Type 0
RestDown s p = StaysDown s p.0
