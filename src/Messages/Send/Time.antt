-- ===== src/Messages/Send/Time.antt =====
-- baileys/src/messages/send.ts: how long one send takes, against the two minutes that a claim lasts.
use whatsapp_auto_send.Prelude.{
  ℕ, ◌+◌, ◌≤◌, String, Option, none, some, [], ◌∷◌, Result, ok, err, ◌≡◌, refl, ap, arith,
  Option-cases, Result-cases, inl, inr,
}
use whatsapp_auto_send.Errors.{code_text, Thrown}
use whatsapp_auto_send.Phone.{to_user_jid}
use whatsapp_auto_send.Timeout.{with_timeout, waited, waited-le}
use whatsapp_auto_send.Presence.{simulate_typing, simulate_typing-le}
use whatsapp_auto_send.ErrorMapping.{map_send_error}
use whatsapp_auto_send.Database.{Db, SentMessageRow}
use whatsapp_auto_send.Sessions.Manager.Sockets.{require_connected_socket}
use whatsapp_auto_send.Messages.Repository.{
  ClaimInput, ClaimResult, claimed, duplicate, in_flight, claim_send, mark_sent,
  find_by_idempotency_key,
}
use whatsapp_auto_send.Messages.Repository.Claims.{claim_send-exclusive}
use whatsapp_auto_send.Messages.Send.{
  Deps, Env, SendRequest, SendResult, SendTimeouts, default_timeouts, World, input_of, settled,
  checked, on_delivered, deliver, attempt, on_failed, caught, after_claim, record_failure,
  send_text_message, existing_jid,
}
use whatsapp_auto_send.Messages.Send.Frame.{count-Quiet, outcome-Quiet, outcome-Quiet_twice}

abbrev clock : Result Thrown SendResult × World → ℕ
clock p = p.1.state.now

abbrev pub longest : SendTimeouts → ℕ
longest t = t.on_whatsapp + t.presence + t.send_message

module _ (deps : Deps) (env : Env) (session_id : String) (request : SendRequest) where
  on_delivered-clock :
      (jid : String) (mid : Option String) (w : World)
      → clock (on_delivered deps env session_id request jid mid w) ≡ w.state.now
  unfolding on_delivered
  on_delivered-clock jid mid w = elim (Option-cases env.mark_sent_failure) [
    | inl h ↦
        rw (on_delivered, h)
          (outcome-Quiet session_id none deps.metered "baileys_sends_total"
            (("session_id", session_id) ∷ ("outcome", "sent") ∷ [])
            (record w.state {
              db = mark_sent w.state.db request.idempotency_key mid jid;
            })).clock_kept
    | inr (e, h) ↦ rw (on_delivered, h)
  ]

  on_failed-clock :
      (e : Thrown) (w : World) → clock (on_failed deps env session_id request e w) ≡ w.state.now
  unfolding on_failed
  on_failed-clock e w =
      let e' = map_send_error e session_id in
      (outcome-Quiet_twice session_id (some e'.error_code) deps.metered "baileys_sends_total"
        "baileys_send_failures_total" (("session_id", session_id) ∷ ("outcome", "failed") ∷ [])
        (("session_id", session_id) ∷ ("error_code", code_text e'.error_code) ∷ [])
        (record w.state {
          db = record_failure deps env session_id request e' w.state.db;
        })).clock_kept

  typing :
      simulate_typing request.text deps.timeouts.presence env.composing env.paused
      ≤ deps.timeouts.presence
  typing = simulate_typing-le request.text deps.timeouts.presence env.composing env.paused

  sending : waited deps.timeouts.send_message env.send_message ≤ deps.timeouts.send_message
  sending = waited-le deps.timeouts.send_message env.send_message

  asking : waited deps.timeouts.on_whatsapp env.on_whatsapp ≤ deps.timeouts.on_whatsapp
  asking = waited-le deps.timeouts.on_whatsapp env.on_whatsapp

  deliver-clock :
      (k : ℕ) (jid : String) (w : World)
      → clock (deliver deps env session_id request k jid w)
        ≤ w.state.now + deps.timeouts.presence + deps.timeouts.send_message
  unfolding deliver
  deliver-clock k jid w =
      elim (Result-cases (with_timeout "sendMessage" deps.timeouts.send_message env.send_message)) [
        | inl (mid, h) ↦
            rw
              (deliver, h, on_delivered-clock jid mid (settled deps env session_id request k jid w))
              (ground (arith, typing, sending))
        | inr (e, h) ↦ rw (deliver, h) (ground (arith, typing, sending))
      ]

  attempt-clock :
      (w : World)
      → clock (attempt deps env session_id request w) ≤ w.state.now + longest deps.timeouts
  unfolding attempt
  attempt-clock w = elim (Result-cases (require_connected_socket w.state session_id)) [
    | inr (e, h) ↦ rw (attempt, h) (omega arith)
    | inl (k, h) ↦
        elim (Result-cases (with_timeout "onWhatsApp" deps.timeouts.on_whatsapp env.on_whatsapp)) [
          | inr (e, g) ↦ rw (attempt, h, g) (ground (arith, asking))
          | inl (checks, g) ↦ elim (Option-cases (existing_jid checks)) [
            | inl j ↦ rw (attempt, h, g, j) (ground (arith, asking))
            | inr (jid, j) ↦
                rw (attempt, h, g, j)
                  (ground
                    (arith, asking, deliver-clock k jid (checked deps env session_id request w)))
          ]
        ]
  ]

  caught-clock :
      (r : Result Thrown SendResult) (w : World)
      → clock (caught deps env session_id request (r, w)) ≡ w.state.now
  caught-clock (ok r) w = refl
  caught-clock (err e) w = on_failed-clock e w

  after_claim-clock :
      (c : Result Thrown ClaimResult) (w : World)
      → clock (after_claim deps env session_id request c w) ≤ w.state.now + longest deps.timeouts
  unfolding after_claim
  after_claim-clock (err e) w = omega arith
  after_claim-clock (ok (duplicate row)) w = ground (
    arith,
    (count-Quiet deps.metered "baileys_sends_total"
        (("session_id", session_id) ∷ ("outcome", "deduplicated") ∷ []) w.state).clock_kept,
  )
  after_claim-clock (ok (in_flight row)) w = omega arith
  after_claim-clock (ok (claimed row)) w =
      let (r, w') = attempt deps env session_id request w in
      ground (arith, caught-clock r w', attempt-clock w)

  -- A send takes no longer than the three bounds of its calls together, whatever the socket does.
  pub send_text_message-clock :
      (w : World)
      → (send_text_message deps env session_id request w).1.state.now
        ≤ w.state.now + longest deps.timeouts
  unfolding send_text_message
  send_text_message-clock w = elim (Result-cases (to_user_jid request.to)) [
    | inr (e, h) ↦ rw (send_text_message, h) (omega arith)
    | inl (jid, h) ↦
        let (c, db') = claim_send w.state.db (input_of session_id request jid) w.state.now in
        rw (send_text_message, h)
          (after_claim-clock c (record w { state = record w.state { db = db' } }))
  ]

-- While a send runs with the default bounds, its claim cannot go stale: any claim of the same key, as
-- long as its row is as the claim left it and whatever the rest of the database has become, is told
-- that the send is in flight, up to the moment the send ends.
pub send_text_message-claim_lasts :
    (deps : Deps) (env : Env) (session_id : String) (request : SendRequest) (w : World)
    (jid : String) (row : SentMessageRow) (db' : Db) (other : ClaimInput) (later : ℕ)
    → deps.timeouts ≡ default_timeouts
    → (claim_send w.state.db (input_of session_id request jid) w.state.now).0 ≡ ok (claimed row)
    → other.idempotency_key ≡ request.idempotency_key
    → find_by_idempotency_key db' request.idempotency_key
      ≡ find_by_idempotency_key
          (claim_send w.state.db (input_of session_id request jid) w.state.now).1
          request.idempotency_key
    → later ≤ (send_text_message deps env session_id request w).1.state.now
    → (claim_send db' other later).0 ≡ ok (in_flight row)
send_text_message-claim_lasts deps env session_id request w jid row db' other later bounds given
      same_key same_row soon =
    claim_send-exclusive w.state.db db' (input_of session_id request jid) other w.state.now later
      row given same_key same_row
      (ground
        (arith, soon, ap longest bounds, send_text_message-clock deps env session_id request w))
