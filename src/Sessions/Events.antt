-- ===== src/Sessions/Events.antt =====
-- baileys/src/sessions/events.ts: what the manager tells its subscribers. `at` is the time in
-- milliseconds, which `nowIso` prints.

use whatsapp_auto_send.Prelude.{
  ℕ, suc, String, Option, List, [], ◌∷◌, ◌++◌, Result, ok, err, ◌==◌, nat_eq, if◌then◌else◌, length,
}
use whatsapp_auto_send.Errors.{ErrorCode}
use whatsapp_auto_send.Database.{SessionStatus}

pub record Received : Type 0 where
  pub message_id : String
  pub sender : String
  pub push_name : Option String
  pub timestamp : Option ℕ
  pub message_type : String
  pub text : Option String

pub record MessageStatus : Type 0 where
  pub message_id : String
  pub to : String
  pub status : String
  pub error_code : Option ErrorCode

pub data Body : Type 0 where
  qr : String → Body
  status_changed : SessionStatus → Option String → Body
  message_received : Received → Body
  message_status : MessageStatus → Body

pub record SessionEvent : Type 0 where
  pub session_id : String
  pub at : ℕ
  pub body : Body

-- `S` is the state that listeners act on. A listener that throws has done what it did before.
abbrev pub Listener : Type 0 → Type 0
Listener S = SessionEvent → S → Result (Unit {0}) (Unit {0}) × S

pub record EventBus (S : Type 0) : Type 0 where
  pub listeners : List (ℕ × Listener S)
  pub next_listener : ℕ

module _ {S : Type 0} where
  -- The number stands for the closure that `subscribe` returns.
  unfoldable pub subscribe : EventBus S → Listener S → ℕ × EventBus S
  subscribe bus listener = (
    bus.next_listener,
    record {
      listeners = bus.listeners ++ ((bus.next_listener, listener) ∷ []);
      next_listener = suc bus.next_listener;
    },
  )

  remove_listener : ℕ → List (ℕ × Listener S) → List (ℕ × Listener S)
  remove_listener k [] = []
  remove_listener k ((j, l) ∷ ls) =
      let rest = remove_listener k ls in if j == k then rest else (j, l) ∷ rest

  unfoldable pub unsubscribe : EventBus S → ℕ → EventBus S
  unfolding remove_listener
  unsubscribe bus k = record bus { listeners = remove_listener k bus.listeners }

  unfoldable pub listener_count : EventBus S → ℕ
  listener_count bus = length bus.listeners

  -- A listener that throws is logged, and the next one runs. The number counts the log lines.
  unfoldable pub emit_to : List (ℕ × Listener S) → SessionEvent → S → ℕ → ℕ × S
  emit_to [] event s logged = (logged, s)
  emit_to ((k, l) ∷ ls) event s logged =
      let (r, s') = l event s in emit_to ls event s' (elim r [ ok _ ↦ logged | err _ ↦ suc logged ])

  unfoldable pub emit : EventBus S → SessionEvent → S → ℕ × S
  unfolding emit_to
  emit bus event s = emit_to bus.listeners event s 0
