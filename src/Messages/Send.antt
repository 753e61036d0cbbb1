-- ===== src/Messages/Send.antt =====
-- baileys/src/messages/send.ts: `sendTextMessage`, one call with nothing between its `await`s.
--
-- `Env` is what the outside does in one call: the answers of the socket, each a promise that settles
-- or never does, the failures of the two writes, and the time stamp of the footer. `wire` is every
-- `socket.sendMessage` that was called, whatever its promise did later.
pub mod Frame
pub mod Outcome
pub mod Effect
pub mod Once
pub mod Time
pub mod Twice
mod Tests
use whatsapp_auto_send.Prelude.{
  ℕ, ◌+◌, String, Bool, true, false, Option, none, some, List, [], ◌∷◌, ◌++◌, Result, ok, err,
  if◌then◌else◌,
}
use whatsapp_auto_send.Errors.{
  ErrorCode, code_text, ApiError, Thrown, api, invalid_payload_error, send_in_progress_error,
  not_on_whatsapp_error,
}
use whatsapp_auto_send.Phone.{to_user_jid}
use whatsapp_auto_send.Timeout.{Work, with_timeout, waited, wa_timeouts}
use whatsapp_auto_send.Presence.{simulate_typing, with_jakarta_footer}
use whatsapp_auto_send.ErrorMapping.{map_send_error}
use whatsapp_auto_send.Database.{Db, SentMessageRow, Payload}
use whatsapp_auto_send.Metrics.{Labels, increment}
use whatsapp_auto_send.Sessions.State.{State}
use whatsapp_auto_send.Sessions.Manager.{record_send_outcome}
use whatsapp_auto_send.Sessions.Manager.Sockets.{require_connected_socket}
use whatsapp_auto_send.Messages.Repository.{
  ClaimInput, ClaimResult, claimed, duplicate, in_flight, claim_send, mark_sent, mark_failed,
}

pub record SendRequest : Type 0 where
  pub idempotency_key : String
  pub to : String
  pub text : String

pub record SendResult : Type 0 where
  pub idempotency_key : String
  pub to : String
  pub wa_message_id : Option String
  pub deduplicated : Bool

pub record SendTimeouts : Type 0 where
  pub on_whatsapp : ℕ
  pub send_message : ℕ
  pub presence : ℕ

-- `timeouts = WA_TIMEOUTS`
abbrev pub default_timeouts : SendTimeouts
default_timeouts = record {
  on_whatsapp = wa_timeouts.on_whatsapp;
  send_message = wa_timeouts.send_message;
  presence = wa_timeouts.presence;
}

-- `metered` tells whether a registry was passed.
pub record Deps : Type 0 where
  pub timeouts : SendTimeouts
  pub metered : Bool

pub record Check : Type 0 where
  pub is_there : Bool
  pub jid : String

pub record Env : Type 0 where
  pub on_whatsapp : Work (List Check)
  pub composing : Work (Unit {0})
  pub paused : Work (Unit {0})
  pub send_message : Work (Option String)
  pub stamp : String
  pub mark_sent_failure : Option Thrown
  pub mark_failed_failure : Option Thrown

pub record Sent : Type 0 where
  pub socket : ℕ
  pub key : String
  pub jid : String
  pub text : String
  pub at : ℕ

pub record World : Type 0 where
  pub state : State
  pub wire : List Sent

abbrev pub wait : ℕ → World → World
wait ms w = record w { state = record w.state { now = w.state.now + ms } }

-- `metrics?.increment(…)`, on the registry that the server gives to its routes.
abbrev pub count : Bool → String → Labels → State → State
count false name labels s = s
count true name labels s = record s { served = increment s.served name labels 1 }

abbrev pub input_of : String → SendRequest → String → ClaimInput
input_of session_id request jid = record {
  session_id = session_id;
  idempotency_key = request.idempotency_key;
  to_jid = jid;
  payload = record { text = request.text };
}

-- `[check]`, if `check?.exists`
abbrev pub existing_jid : List Check → Option String
existing_jid [] = none
existing_jid (c ∷ cs) = if c.is_there then some c.jid else none

module _ (deps : Deps) (env : Env) (session_id : String) (request : SendRequest) where
  -- After `socket.sendMessage` has settled.
  unfoldable pub on_delivered : String → Option String → World → Result Thrown SendResult × World
  on_delivered jid wa_message_id w = elim env.mark_sent_failure [
    | some e ↦ (err e, w)
    | none ↦ (
      ok (record {
        idempotency_key = request.idempotency_key;
        to = jid;
        wa_message_id = wa_message_id;
        deduplicated = false;
      }),
      record w {
        state =
            count deps.metered "baileys_sends_total"
              (("session_id", session_id) ∷ ("outcome", "sent") ∷ [])
              (record_send_outcome session_id none (record w.state {
                db = mark_sent w.state.db request.idempotency_key wa_message_id jid;
              }));
      },
    )
  ]

  abbrev pub sent_at : ℕ → String → ℕ → Sent
  sent_at k jid now = record {
    socket = k;
    key = request.idempotency_key;
    jid = jid;
    text = with_jakarta_footer request.text env.stamp;
    at = now;
  }

  -- After the typing; then after the call of `socket.sendMessage`; then after its promise.
  abbrev pub typed : World → World
  typed w = wait (simulate_typing request.text deps.timeouts.presence env.composing env.paused) w

  abbrev pub called : ℕ → String → World → World
  called k jid w = record (typed w) { wire = w.wire ++ (sent_at k jid (typed w).state.now ∷ []) }

  abbrev pub settled : ℕ → String → World → World
  settled k jid w = wait (waited deps.timeouts.send_message env.send_message) (called k jid w)

  unfoldable pub deliver : ℕ → String → World → Result Thrown SendResult × World
  unfolding on_delivered
  deliver k jid w = elim (with_timeout "sendMessage" deps.timeouts.send_message env.send_message) [
    | err e ↦ (err e, settled k jid w)
    | ok wa_message_id ↦ on_delivered jid wa_message_id (settled k jid w)
  ]

  abbrev pub checked : World → World
  checked w = wait (waited deps.timeouts.on_whatsapp env.on_whatsapp) w

  -- The body of the `try`.
  unfoldable pub attempt : World → Result Thrown SendResult × World
  unfolding deliver
  attempt w = elim (require_connected_socket w.state session_id) [
    | err e ↦ (err (api e), w)
    | ok k ↦ elim (with_timeout "onWhatsApp" deps.timeouts.on_whatsapp env.on_whatsapp) [
      | err e ↦ (err e, checked w)
      | ok checks ↦ elim (existing_jid checks) [
        | none ↦ (err (api (not_on_whatsapp_error request.to)), checked w)
        | some jid ↦ deliver k jid (checked w)
      ]
    ]
  ]

  -- `apiError.detail ?? apiError.message`
  abbrev pub detail_of : ApiError → Option String
  detail_of e = elim e.detail [ none ↦ some e.message | some d ↦ some d ]

  unfoldable pub record_failure : ApiError → Db → Db
  record_failure e db = elim env.mark_failed_failure [
    | some dbErr ↦ db
    | none ↦ mark_failed db request.idempotency_key e.error_code (detail_of e)
  ]

  -- The body of the `catch`.
  unfoldable pub on_failed : Thrown → World → Result Thrown SendResult × World
  unfolding record_failure
  on_failed thrown w =
      let e = map_send_error thrown session_id in
      (
        err (api e),
        record w {
          state =
              count deps.metered "baileys_send_failures_total"
                (("session_id", session_id) ∷ ("error_code", code_text e.error_code) ∷ [])
                (count deps.metered "baileys_sends_total"
                  (("session_id", session_id) ∷ ("outcome", "failed") ∷ [])
                  (record_send_outcome session_id (some e.error_code)
                    (record w.state { db = record_failure e w.state.db })));
        },
      )

  abbrev pub caught : Result Thrown SendResult × World → Result Thrown SendResult × World
  caught (ok r, w) = (ok r, w)
  caught (err e, w) = on_failed e w

  -- What follows from the claim.
  unfoldable pub after_claim : Result Thrown ClaimResult → World → Result Thrown SendResult × World
  unfolding attempt on_failed
  after_claim (err e) w = (err e, w)
  after_claim (ok (duplicate row)) w = (
    ok (record {
      idempotency_key = request.idempotency_key;
      to = row.to_jid;
      wa_message_id = row.wa_message_id;
      deduplicated = true;
    }),
    record w {
      state =
          count deps.metered "baileys_sends_total"
            (("session_id", session_id) ∷ ("outcome", "deduplicated") ∷ []) w.state;
    },
  )
  after_claim (ok (in_flight row)) w =
      (err (api (send_in_progress_error request.idempotency_key)), w)
  after_claim (ok (claimed row)) w = caught (attempt w)

  unfoldable pub send_text_message : World → Result Thrown SendResult × World
  unfolding after_claim
  send_text_message w = elim (to_user_jid request.to) [
    | err message ↦ (err (api (invalid_payload_error message)), w)
    | ok jid ↦
        let (claim, db') = claim_send w.state.db (input_of session_id request jid) w.state.now in
        after_claim claim (record w { state = record w.state { db = db' } })
  ]
