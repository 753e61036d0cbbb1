-- ===== src/Sessions/State.antt =====
-- baileys/src/sessions/manager.ts: the state of `SessionManager`, and what surrounds it.
--
-- An `Entry` is an object that the map, the handlers of its sockets and its timers share, so entries
-- stand on a heap: `entries` maps an id to a place there, and a handler or timer knows its place. An
-- entry that was deleted from the map keeps its place. `open_sockets` are the sockets that were made
-- and that neither side has closed, and `timers` the armed ones, each with the place it acts on.
-- `metrics` is the manager's registry, and `served` the one of the server, which its routes read and
-- in which the sends are counted.
use whatsapp_auto_send.Prelude.{
  ℕ, zero, suc, String, Bool, Option, none, some, List, [], ◌∷◌, ◌==◌, nat_eq, string_eq,
  if◌then◌else◌, get_elem?,
}
use whatsapp_auto_send.Prelude.Dict.{Dict, get}
use whatsapp_auto_send.Errors.{ErrorCode}
use whatsapp_auto_send.Database.{SessionStatus, Db}
use whatsapp_auto_send.Metrics.{Registry}
use whatsapp_auto_send.Sessions.Events.{SessionEvent}

pub record Entry : Type 0 where
  pub id : String
  pub status : SessionStatus
  pub qr : Option String
  pub phone_number : Option String
  pub last_connected_at : Option ℕ
  pub reconnect_attempts : ℕ
  pub socket : Option ℕ
  pub restarts : ℕ
  pub reconnect_timer : Option ℕ
  pub closing : Bool
  pub pending_creds : ℕ
  pub last_successful_send_at : Option ℕ
  pub last_failed_send_at : Option ℕ
  pub consecutive_failures : ℕ
  pub last_error_code : Option ErrorCode
  pub reconnect_due_at : Option ℕ

pub record State : Type 0 where
  pub heap : List Entry
  pub entries : Dict String ℕ
  pub version : Option ℕ
  pub shutting_down : Bool
  pub next_handle : ℕ
  pub open_sockets : List (ℕ × ℕ)
  pub timers : List (ℕ × ℕ)
  pub events : List SessionEvent
  pub metrics : Registry
  pub served : Registry
  pub db : Db
  pub now : ℕ

unfoldable pub modify_at : ℕ → (Entry → Entry) → List Entry → List Entry
modify_at i f [] = []
modify_at zero f (e ∷ es) = f e ∷ es
modify_at (suc i) f (e ∷ es) = e ∷ modify_at i f es

abbrev pub entry_at : State → ℕ → Option Entry
entry_at s ref = get_elem? s.heap ref

-- The object at `ref` is written.
abbrev pub modify : ℕ → (Entry → Entry) → State → State
modify ref f s = record s { heap = modify_at ref f s.heap }

-- `this.entries.get(id)`, as a place and as an object.
abbrev pub place_of : State → String → Option ℕ
place_of s id = get id s.entries

abbrev pub with_place : State → Option ℕ → Option (ℕ × Entry)
with_place s none = none
with_place s (some ref) = elim (get_elem? s.heap ref) [ none ↦ none | some e ↦ some (ref, e) ]

unfoldable pub entry_of : State → String → Option (ℕ × Entry)
entry_of s id = with_place s (place_of s id)

unfoldable pub remove_handle : ℕ → List (ℕ × ℕ) → List (ℕ × ℕ)
remove_handle h [] = []
remove_handle h ((k, ref) ∷ ks) =
    let rest = remove_handle h ks in if k == h then rest else (k, ref) ∷ rest

-- `clearTimeout(timer)`
abbrev pub clear_timeout : Option ℕ → State → State
clear_timeout none s = s
clear_timeout (some t) s = record s { timers = remove_handle t s.timers }

-- `socket?.end(undefined)`: the manager's side is closed whether or not the call throws.
abbrev pub end_socket : Option ℕ → State → State
end_socket none s = s
end_socket (some k) s = record s { open_sockets = remove_handle k s.open_sockets }
