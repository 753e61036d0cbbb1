-- ===== src/Messages/Send/Once.antt =====
-- baileys/src/messages/send.ts: many calls one after the other, each with sockets, failures and
-- requests of its own.
use whatsapp_auto_send.Prelude.{
  ℕ, suc, ◌+◌, ◌≤◌, String, Bool, true, false, Option, some, List, [], ◌∷◌, Result, ok, err, ◌≡◌,
  ◌≢◌, ◌⊎◌, refl, ap, ◌∙◌, sym, subst, arith, inl, inr, if◌then◌else◌, ◌==◌, string_eq, not,
}
use whatsapp_auto_send.Errors.{Thrown}
use whatsapp_auto_send.Database.{SentMessageRow, sent}
use whatsapp_auto_send.Messages.Repository.Claims.{IsFree}
use whatsapp_auto_send.Messages.Send.{Deps, Env, SendRequest, SendResult, World, send_text_message}
use whatsapp_auto_send.Messages.Send.Outcome.{on_wire, OneMore}
use whatsapp_auto_send.Messages.Send.Effect.{
  row_of, Ending, refused, repeated, failing, sending, send_text_message-Ending,
}

pub record Call : Type 0 where
  pub deps : Deps
  pub env : Env
  pub session_id : String
  pub request : SendRequest

abbrev pub perform : Call → World → Result Thrown SendResult × World
perform c w = send_text_message c.deps c.env c.session_id c.request w

unfoldable pub perform_all : List Call → World → World
perform_all [] w = w
perform_all (c ∷ cs) w = perform_all cs (perform c w).1

-- A call that says the message went out now, and one that failed.
abbrev pub is_fresh : Result Thrown SendResult → Bool
is_fresh (ok r) = not r.deduplicated
is_fresh (err e) = false

abbrev pub is_failure : Result Thrown SendResult → Bool
is_failure (ok r) = false
is_failure (err e) = true

-- How many calls of a key end so.
unfoldable pub tally : (Result Thrown SendResult → Bool) → String → List Call → World → ℕ
tally test key [] w = 0
tally test key (c ∷ cs) w =
    let (r, w') = perform c w in
    let rest = tally test key cs w' in
    if c.request.idempotency_key == key then (if test r then suc rest else rest) else rest

-- The row of the key says that the message went out.
abbrev pub IsSent : String → World → Type 0
IsSent key w = (m : SentMessageRow) × (row_of w key ≡ some m) × (m.status ≡ sent)

not_free :
    (m : SentMessageRow) (now : ℕ) (o : Option SentMessageRow)
    → o ≡ some m
    → m.status ≡ sent
    → IsFree o now
    → ⊥
not_free m now o h st free = ground (arith, h, st, free)

-- What one call of another key, or of the key, does to a key that is sent.
module _ (c : Call) (w : World) (key : String) where
  other_keeps :
      c.request.idempotency_key ≢ key
      → (r : Result Thrown SendResult) (w' : World)
      → Ending c.deps c.env c.session_id c.request w r w'
      → (row_of w' key ≡ row_of w key) × (on_wire key w'.wire ≡ on_wire key w.wire)
  other_keeps n r w' (refused e w'' same calm) = (same key, ap (on_wire key) calm)
  other_keeps n r w' (repeated m w'' found st same calm) = (same key, ap (on_wire key) calm)
  other_keeps n r w' (failing e m w'' free found told box) =
      (box.other_rows key (λ p. n (sym p)), box.messages.others key (λ p. n (sym p)))
  other_keeps n r w' (sending s m w'' free fresh found told box) =
      (box.other_rows key (λ p. n (sym p)), box.messages.others key (λ p. n (sym p)))

  module _ (own : c.request.idempotency_key ≡ key) where
    at_own :
        (m : SentMessageRow) (w' : World)
        → row_of w' c.request.idempotency_key ≡ some m
        → row_of w' key ≡ some m
    at_own m w' h = subst (λ k. row_of w' k ≡ some m) own h

    -- A key that is sent is repeated, or the call is refused.
    perform-IsSent :
        IsSent key w
        → (r : Result Thrown SendResult) (w' : World)
        → Ending c.deps c.env c.session_id c.request w r w'
        → IsSent key w' × (is_fresh r ≡ false) × (on_wire key w'.wire ≡ on_wire key w.wire)
    perform-IsSent (m, h, st) r w' (refused e w'' same calm) =
        ((m, same key ∙ h, st), refl, ap (on_wire key) calm)
    perform-IsSent (m, h, st) r w' (repeated m' w'' found st' same calm) =
        ((m, same key ∙ h, st), refl, ap (on_wire key) calm)
    perform-IsSent (m, h, st) r w' (failing e m' w'' free found told box) =
        elim (not_free m w.state.now (row_of w key) h st
          (subst (λ k. IsFree (row_of w k) w.state.now) own free)) [ ]
    perform-IsSent (m, h, st) r w' (sending s m' w'' free fresh found told box) =
        elim (not_free m w.state.now (row_of w key) h st
          (subst (λ k. IsFree (row_of w k) w.state.now) own free)) [ ]

    fresh_sends :
        (r : Result Thrown SendResult) (w' : World)
        → Ending c.deps c.env c.session_id c.request w r w'
        → (is_fresh r ≡ false) ⊎ IsSent key w'
    fresh_sends r w' (refused e w'' same calm) = inl refl
    fresh_sends r w' (repeated m' w'' found st' same calm) = inl refl
    fresh_sends r w' (failing e m' w'' free found told box) = inl refl
    fresh_sends r w' (sending s m' w'' free fresh found told box) =
        inr (m', at_own m' w'' found, told.0)

    own_wire :
        (w' : World)
        → OneMore c.request.idempotency_key w.wire w'.wire
        → (on_wire key w'.wire ≡ on_wire key w.wire)
          ⊎ (on_wire key w'.wire ≡ suc (on_wire key w.wire))
    own_wire w' more =
        subst
          (λ k.
            (on_wire k w'.wire ≡ on_wire k w.wire) ⊎ (on_wire k w'.wire ≡ suc (on_wire k w.wire)))
          own more.own

    wire_step :
        (r : Result Thrown SendResult) (w' : World)
        → Ending c.deps c.env c.session_id c.request w r w'
        → on_wire key w'.wire
          ≤ on_wire key w.wire + (if is_fresh r then 1 else 0) + (if is_failure r then 1 else 0)
    wire_step r w' (refused e w'' same calm) = ground (arith, ap (on_wire key) calm)
    wire_step r w' (repeated m' w'' found st' same calm) = ground (arith, ap (on_wire key) calm)
    wire_step r w' (failing e m' w'' free found told box) = elim (own_wire w'' box.messages) [
      | inl x ↦ ground (arith, x)
      | inr x ↦ ground (arith, x)
    ]
    wire_step r w' (sending s m' w'' free fresh found told box) = elim (own_wire w'' box.messages) [
      | inl x ↦ ground (arith, x)
      | inr x ↦ ground (arith, x, fresh)
    ]

ending :
    (c : Call) (w : World)
    → Ending c.deps c.env c.session_id c.request w (perform c w).0 (perform c w).1
ending c w = send_text_message-Ending c.deps c.env c.session_id c.request w

none_after_sent :
    (key : String) (cs : List Call) (w : World) → IsSent key w → tally is_fresh key cs w ≡ 0
unfolding tally
none_after_sent key [] w s = refl
none_after_sent key (c ∷ cs) w (m, h, st) =
    let (r, w') = perform c w in
    elim (string_eq.dec c.request.idempotency_key key) [
      | yes own ↦
          let (s', stale, calm) = perform-IsSent c w key own (m, h, st) r w' (ending c w) in
          ground (arith, stale, none_after_sent key cs w' s')
      | no differ ↦
          let (same, calm) = other_keeps c w key differ r w' (ending c w) in
          ground (arith, differ, none_after_sent key cs w' (m, same ∙ h, st))
    ]

-- However many calls are made, on whatever sessions and with whatever failures, at most one call of
-- a key answers that its message has gone out now.
pub send-at_most_once : (key : String) (cs : List Call) (w : World) → tally is_fresh key cs w ≤ 1
unfolding tally
send-at_most_once key [] w = ground arith
send-at_most_once key (c ∷ cs) w =
    let (r, w') = perform c w in
    elim (string_eq.dec c.request.idempotency_key key) [
      | yes own ↦ elim (fresh_sends c w key own r w' (ending c w)) [
        | inl stale ↦ ground (arith, stale, send-at_most_once key cs w')
        | inr s' ↦ ground (arith, none_after_sent key cs w' s')
      ]
      | no differ ↦ ground (arith, differ, send-at_most_once key cs w')
    ]

wire_bound :
    (key : String) (cs : List Call) (w : World)
    → on_wire key (perform_all cs w).wire
      ≤ on_wire key w.wire + tally is_fresh key cs w + tally is_failure key cs w
unfolding tally perform_all
wire_bound key [] w = ground arith
wire_bound key (c ∷ cs) w =
    let (r, w') = perform c w in
    elim (string_eq.dec c.request.idempotency_key key) [
      | yes own ↦ ground (arith, own, wire_step c w key own r w' (ending c w), wire_bound key cs w')
      | no differ ↦
          let (same, calm) = other_keeps c w key differ r w' (ending c w) in
          ground (arith, differ, calm, wire_bound key cs w')
    ]

-- At most one message of a key goes on the wire, and one more for each call of the key that fails:
-- without a failure no key is put on the wire twice.
pub send-wire :
    (key : String) (cs : List Call) (w : World)
    → on_wire key (perform_all cs w).wire ≤ on_wire key w.wire + (1 + tally is_failure key cs w)
send-wire key cs w = ground (arith, wire_bound key cs w, send-at_most_once key cs w)
