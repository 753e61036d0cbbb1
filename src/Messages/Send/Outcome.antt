-- ===== src/Messages/Send/Outcome.antt =====
-- baileys/src/messages/send.ts: what one call does to the table and to the wire, on every way
-- through it.
use whatsapp_auto_send.Prelude.{
  ℕ, suc, ◌+◌, String, false, Option, none, List, [], ◌∷◌, ◌++◌, Result, ok, err, ◌≡◌, ◌≢◌, ◌⊎◌,
  refl, ap, ◌∙◌, subst, arith, Option-cases, Result-cases, inl, inr, if◌then◌else◌, ◌==◌, string_eq,
  ==-true_of_eq,
}
use whatsapp_auto_send.Errors.{Thrown, api, not_on_whatsapp_error}
use whatsapp_auto_send.Timeout.{with_timeout}
use whatsapp_auto_send.Sessions.Manager.Sockets.{require_connected_socket}
use whatsapp_auto_send.Messages.Repository.{mark_sent, sent_row, update_message}
use whatsapp_auto_send.Messages.Send.{
  Deps, Env, SendRequest, SendResult, World, Sent, typed, settled, checked, sent_at, existing_jid,
  on_delivered, deliver, attempt,
}
use whatsapp_auto_send.Messages.Send.Frame.{outcome-Quiet}

-- How many messages of a key were put on the wire.
unfoldable pub on_wire : String → List Sent → ℕ
on_wire key [] = 0
on_wire key (m ∷ ms) = let rest = on_wire key ms in if m.key == key then suc rest else rest

pub on_wire-append :
    (key : String) (m : Sent) (ms : List Sent)
    → on_wire key (ms ++ (m ∷ [])) ≡ on_wire key ms + (if m.key == key then 1 else 0)
unfolding on_wire
on_wire-append key m [] = ground arith
on_wire-append key m (n ∷ ms) = ground (arith, on_wire-append key m ms)

-- The wire has at most one message more, and it has the key.
pub record OneMore (key : String) (ms ms' : List Sent) : Type 0 where
  pub own : (on_wire key ms' ≡ on_wire key ms) ⊎ (on_wire key ms' ≡ suc (on_wire key ms))
  pub others : (j : String) → j ≢ key → on_wire j ms' ≡ on_wire j ms

pub OneMore-same : (key : String) (ms : List Sent) → OneMore key ms ms
OneMore-same key ms = record { own = inl refl; others = λ j n. refl }

OneMore-append :
    (key : String) (m : Sent) (ms : List Sent) → m.key ≡ key → OneMore key ms (ms ++ (m ∷ []))
OneMore-append key m ms same = record {
  own = inr (ground (arith, on_wire-append key m ms, ==-true_of_eq m.key key same));
  others = λ j n. ground (arith, on_wire-append j m ms, same, n);
}

module _ (deps : Deps) (env : Env) (session_id : String) (request : SendRequest) where
  abbrev key : String
  key = request.idempotency_key

  -- What `attempt` gives: an error, or a result that was marked.
  pub data Attempted (w : World) : Result Thrown SendResult → World → Type 0 where
    broke :
        (e : Thrown) (w' : World)
        → w'.state.db.messages ≡ w.state.db.messages
        → OneMore key w.wire w'.wire
        → Attempted w (err e) w'
    went :
        (r : SendResult) (w' : World)
        → r.deduplicated ≡ false
        → w'.state.db.messages ≡ (mark_sent w.state.db key r.wa_message_id r.to).messages
        → OneMore key w.wire w'.wire
        → Attempted w (ok r) w'

  abbrev OfPair : World → Result Thrown SendResult × World → Type 0
  OfPair w p = Attempted w p.0 p.1

  on_delivered-Attempted :
      (w w' : World) (jid : String) (mid : Option String)
      → w'.state.db.messages ≡ w.state.db.messages
      → OneMore key w.wire w'.wire
      → OfPair w (on_delivered deps env session_id request jid mid w')
  unfolding on_delivered mark_sent
  on_delivered-Attempted w w' jid mid same more = elim (Option-cases env.mark_sent_failure) [
    | inr (e, h) ↦ rw (on_delivered, h) (broke e w' same more)
    | inl h ↦
        rw (on_delivered, h)
          (went _ _ refl
            ((outcome-Quiet session_id none deps.metered "baileys_sends_total"
                (("session_id", session_id) ∷ ("outcome", "sent") ∷ [])
                (record w'.state { db = mark_sent w'.state.db key mid jid })).messages_kept
              ∙ ap (update_message key (sent_row mid jid)) same)
            more)
  ]

  deliver-Attempted :
      (w w' : World) (k : ℕ) (jid : String)
      → w'.state.db.messages ≡ w.state.db.messages
      → w'.wire ≡ w.wire
      → OfPair w (deliver deps env session_id request k jid w')
  unfolding deliver
  deliver-Attempted w w' k jid same calm =
      let more =
        subst (λ ms. OneMore key ms (settled deps env session_id request k jid w').wire) calm
          (OneMore-append key
            (sent_at deps env session_id request k jid
              (typed deps env session_id request w').state.now)
            w'.wire refl) in
      elim (Result-cases (with_timeout "sendMessage" deps.timeouts.send_message env.send_message)) [
        | inl (mid, h) ↦
            rw (deliver, h)
              (on_delivered-Attempted w (settled deps env session_id request k jid w') jid mid same
                more)
        | inr (e, h) ↦
            rw (deliver, h) (broke e (settled deps env session_id request k jid w') same more)
      ]

  pub attempt-Attempted : (w : World) → OfPair w (attempt deps env session_id request w)
  unfolding attempt
  attempt-Attempted w =
      let calm = OneMore-same key w.wire in
      elim (Result-cases (require_connected_socket w.state session_id)) [
        | inr (e, h) ↦ rw (attempt, h) (broke (api e) w refl calm)
        | inl (k, h) ↦
            elim (Result-cases
              (with_timeout "onWhatsApp" deps.timeouts.on_whatsapp env.on_whatsapp)) [
                | inr (e, g) ↦
                    rw (attempt, h, g) (broke e (checked deps env session_id request w) refl calm)
                | inl (checks, g) ↦ elim (Option-cases (existing_jid checks)) [
                  | inl j ↦
                      rw (attempt, h, g, j)
                        (broke (api (not_on_whatsapp_error request.to))
                          (checked deps env session_id request w) refl calm)
                  | inr (jid, j) ↦
                      rw (attempt, h, g, j)
                        (deliver-Attempted w (checked deps env session_id request w) k jid refl
                          refl)
                ]
              ]
      ]
