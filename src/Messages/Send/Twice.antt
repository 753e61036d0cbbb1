-- ===== src/Messages/Send/Twice.antt =====
-- baileys/src/messages/send.ts: a message that is called for while its answer is late, and the retry.
use whatsapp_auto_send.Prelude.{
  ℕ, suc, ◌+◌, String, true, Option, none, some, List, [], ◌∷◌, ◌++◌, Result, ok, err, ◌≡◌, refl,
  ap, ◌∙◌, arith, Result-cases, inl, inr, string_eq, ==-true_of_eq,
}
use whatsapp_auto_send.Errors.{Thrown}
use whatsapp_auto_send.Phone.{to_user_jid}
use whatsapp_auto_send.Timeout.{with_timeout}
use whatsapp_auto_send.Database.{SentMessageRow}
use whatsapp_auto_send.Sessions.State.{entry_of}
use whatsapp_auto_send.Sessions.Manager.Sockets.{require_connected_socket}
use whatsapp_auto_send.Messages.Repository.{ClaimResult, claimed, claim_send}
use whatsapp_auto_send.Messages.Repository.Claims.{IsFree, claim_send_iff}
use whatsapp_auto_send.Messages.Send.{
  Deps, Env, SendRequest, SendResult, World, checked, typed, settled, sent_at, existing_jid, Check,
  on_delivered, deliver, attempt, on_failed, caught, after_claim, send_text_message, input_of,
}
use whatsapp_auto_send.Messages.Send.Outcome.{on_wire, on_wire-append}
use whatsapp_auto_send.Messages.Send.Effect.{
  row_of, Ending, refused, repeated, failing, sending, send_text_message-Ending,
}
use whatsapp_auto_send.Messages.Send.Once.{is_failure}

-- What a call needs for its message to reach the wire.
pub record Reaches (deps : Deps) (env : Env) (session_id : String) (request : SendRequest)
    (w : World) : Type 0 where
  pub jid : String
  pub valid : to_user_jid request.to ≡ ok jid
  pub free : IsFree (row_of w request.idempotency_key) w.state.now
  pub socket : ℕ
  pub held : require_connected_socket w.state session_id ≡ ok socket
  pub there : String
  pub known :
      (checks : List Check) × (with_timeout "onWhatsApp" deps.timeouts.on_whatsapp env.on_whatsapp
        ≡ ok checks)
      × (existing_jid checks ≡ some there)

module _ (deps : Deps) (env : Env) (session_id : String) (request : SendRequest) where
  abbrev key : String
  key = request.idempotency_key

  on_delivered-wire :
      (jid : String) (mid : Option String) (w : World)
      → (on_delivered deps env session_id request jid mid w).1.wire ≡ w.wire
  unfolding on_delivered
  on_delivered-wire jid mid w = ground arith

  caught-wire :
      (p : Result Thrown SendResult × World)
      → (caught deps env session_id request p).1.wire ≡ p.1.wire
  unfolding on_failed
  caught-wire (ok r, w) = refl
  caught-wire (err e, w) = refl

  deliver-wire :
      (k : ℕ) (jid : String) (w : World)
      → (deliver deps env session_id request k jid w).1.wire
        ≡ w.wire
          ++ (sent_at deps env session_id request k jid
                (typed deps env session_id request w).state.now
              ∷ [])
  unfolding deliver
  deliver-wire k jid w =
      elim (Result-cases (with_timeout "sendMessage" deps.timeouts.send_message env.send_message)) [
        | inl (mid, h) ↦
            rw (deliver, h)
              (on_delivered-wire jid mid (settled deps env session_id request k jid w))
        | inr (e, h) ↦ rw (deliver, h)
      ]

  attempt-wire :
      (w : World) (k : ℕ) (jid : String) (checks : List Check)
      → require_connected_socket w.state session_id ≡ ok k
      → with_timeout "onWhatsApp" deps.timeouts.on_whatsapp env.on_whatsapp ≡ ok checks
      → existing_jid checks ≡ some jid
      → on_wire key (attempt deps env session_id request w).1.wire ≡ suc (on_wire key w.wire)
  unfolding attempt
  attempt-wire w k jid checks held g j =
      let w' = checked deps env session_id request w in
      rw (attempt, held, g, j)
        (ap (on_wire key) (deliver-wire k jid w')
          ∙ on_wire-append key
              (sent_at deps env session_id request k jid
                (typed deps env session_id request w').state.now)
              w.wire
          ∙ rw (==-true_of_eq key key refl) (omega arith))

  after_claim-wire :
      (row : SentMessageRow) (c : Result Thrown ClaimResult) (w : World)
      → c ≡ ok (claimed row)
      → (after_claim deps env session_id request c w).1.wire
        ≡ (attempt deps env session_id request w).1.wire
  unfolding after_claim
  after_claim-wire row c w h = rw h (caught-wire (attempt deps env session_id request w))

  -- A call that reaches the wire puts one message there, whatever comes back.
  Reaches-on_wire :
      (w : World)
      → Reaches deps env session_id request w
      → on_wire key (send_text_message deps env session_id request w).1.wire
        ≡ suc (on_wire key w.wire)
  unfolding send_text_message require_connected_socket entry_of
  Reaches-on_wire w r =
      let input = input_of session_id request r.jid in
      let (row, given) = (claim_send_iff w.state.db input w.state.now).1 r.free in
      let (checks, g, j) = r.known in
      let w' = record w {
        state = record w.state { db = (claim_send w.state.db input w.state.now).1 };
      } in
      rw (send_text_message, r.valid)
        (ap (on_wire key)
            (after_claim-wire row (claim_send w.state.db input w.state.now).0 w' given)
          ∙ attempt-wire w' r.socket r.there checks r.held g j)

  -- A failure after the message reached the wire, and that was recorded, leaves the key free.
  failure_frees :
      (w : World) (r : Result Thrown SendResult) (w' : World)
      → env.mark_failed_failure ≡ none
      → is_failure r ≡ true
      → on_wire key w'.wire ≡ suc (on_wire key w.wire)
      → Ending deps env session_id request w r w'
      → IsFree (row_of w' key) w'.state.now
  failure_frees w r w' recorded broke more (refused e w'' same calm) =
      ground (arith, more, ap (on_wire key) calm)
  failure_frees w r w' recorded broke more (repeated m w'' found st same calm) = cc
  failure_frees w r w' recorded broke more (sending s m w'' free fresh found told box) = cc
  failure_frees w r w' recorded broke more (failing e m w'' free found told box) = elim told [
    | inl (st, code) ↦ rw found (inl st)
    | inr (st, unwritten) ↦ elim (unwritten recorded) [ ]
  ]

-- A call whose message was put on the wire and that fails afterwards, by a late answer or a failing
-- write, leaves its key free when the failure is recorded, and a retry that finds the socket and
-- the number puts the message on the wire a second time.
pub send-sent_twice :
    (deps : Deps) (env retry : Env) (session_id : String) (request : SendRequest) (w : World)
    (there : String) (k : ℕ)
    → Reaches deps env session_id request w
    → is_failure (send_text_message deps env session_id request w).0 ≡ true
    → env.mark_failed_failure ≡ none
    → (let w' = (send_text_message deps env session_id request w).1 in
        require_connected_socket w'.state session_id ≡ ok k)
    → (checks : List Check) × (with_timeout "onWhatsApp" deps.timeouts.on_whatsapp retry.on_whatsapp
        ≡ ok checks)
      × (existing_jid checks ≡ some there)
    → (let w' = (send_text_message deps env session_id request w).1 in
        on_wire request.idempotency_key (send_text_message deps retry session_id request w').1.wire
        ≡ 2 + on_wire request.idempotency_key w.wire)
send-sent_twice deps env retry session_id request w there k r broke recorded held known =
    let (a, w') = send_text_message deps env session_id request w in
    let more = Reaches-on_wire deps env session_id request w r in
    let again = Reaches-on_wire deps retry session_id request w' (record {
      jid = r.jid;
      valid = r.valid;
      free =
          failure_frees deps env session_id request w a w' recorded broke more
            (send_text_message-Ending deps env session_id request w);
      socket = k;
      held = held;
      there = there;
      known = known;
    }) in
    ground (arith, again, more)
