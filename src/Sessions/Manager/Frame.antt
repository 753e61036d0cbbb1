-- ===== src/Sessions/Manager/Frame.antt =====
-- What the handlers of manager.ts leave of the map, the sockets, the timers and the shutdown flag.
use whatsapp_auto_send.Prelude.{ℕ, String, Option, none, some, ◌≡◌, arith}
use whatsapp_auto_send.Database.{SessionStatus}
use whatsapp_auto_send.Sessions.State.{Entry, State, modify_at, entry_of, place_of, with_place}
use whatsapp_auto_send.Sessions.Manager.{set_status}
use whatsapp_auto_send.Sessions.Manager.Connection.{on_qr}
use whatsapp_auto_send.Sessions.Manager.Heap.{get_elem?-modify_at}
use whatsapp_auto_send.Sessions.Manager.Invariant.{entry_of-heap}

-- The parts of the state that are the same in both.
pub record SameFrame (s s' : State) : Type 0 where
  pub entries_kept : s'.entries ≡ s.entries
  pub flag_kept : s'.shutting_down ≡ s.shutting_down
  pub sockets_kept : s'.open_sockets ≡ s.open_sockets
  pub timers_kept : s'.timers ≡ s.timers

module _ (ref : ℕ) (s : State) where
  pub set_status-SameFrame : (status : SessionStatus) → SameFrame s (set_status ref status s)
  unfolding set_status
  set_status-SameFrame status = ground arith

  pub on_qr-SameFrame : (qr : Option String) → SameFrame s (on_qr ref qr s)
  unfolding on_qr
  on_qr-SameFrame none = ground arith
  on_qr-SameFrame (some qr) = ground arith

pub entry_of-place :
    (s : State) (id : String) (ref : ℕ) (e : Entry)
    → entry_of s id ≡ some (ref, e)
    → place_of s id ≡ some ref
unfolding entry_of
entry_of-place s id ref e h = ground arith

-- An operation that writes the entry of an id by `f` gives that entry for the id.
pub entry_of-modified :
    (s s' : State) (id : String) (ref : ℕ) (e : Entry) (f : Entry → Entry)
    → s'.entries ≡ s.entries
    → s'.heap ≡ modify_at ref f s.heap
    → entry_of s id ≡ some (ref, e)
    → entry_of s' id ≡ some (ref, f e)
unfolding entry_of
entry_of-modified s s' id ref e f same written h =
    rw (same, entry_of-place s id ref e h, with_place)
      (rw (written, get_elem?-modify_at ref f s.heap e (entry_of-heap s id ref e h)))
