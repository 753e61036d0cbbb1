-- ===== src/Messages/Send/Effect.antt =====
-- baileys/src/messages/send.ts: what `sendTextMessage` leaves behind, for each of its endings.
use whatsapp_auto_send.Prelude.{
  String, true, false, Option, none, some, List, [], ◌∷◌, Result, ok, err, ◌≡◌, ◌≢◌, ◌⊎◌, refl, ap,
  ◌∙◌, subst, Option-cases, Result-cases, inl, inr, string_eq, ==-true_of_eq, ==-false_of_ne,
}
use whatsapp_auto_send.Errors.{ErrorCode, code_text, Thrown, api, ApiError}
use whatsapp_auto_send.Phone.{to_user_jid}
use whatsapp_auto_send.ErrorMapping.{map_send_error}
use whatsapp_auto_send.Database.{Db, SentMessageRow, pending, sent, failed}
use whatsapp_auto_send.Sessions.State.{State}
use whatsapp_auto_send.Messages.Repository.{
  ClaimInput, ClaimResult, claim_send, find_by_idempotency_key, mark_sent, mark_failed, sent_row,
  failed_row, find_message,
}
use whatsapp_auto_send.Messages.Repository.Table.{find-mark_sent, find-mark_failed}
use whatsapp_auto_send.Messages.Repository.Claims.{IsFree, claim_send-row, claim_send-frame}
use whatsapp_auto_send.Messages.Repository.Answers.{
  SameRows, Answer, given, told_sent, told_busy, claim_send-Answer,
}
use whatsapp_auto_send.Messages.Send.{
  Deps, Env, SendRequest, SendResult, World, Sent, input_of, attempt, on_failed, caught,
  record_failure, detail_of, after_claim, send_text_message,
}
use whatsapp_auto_send.Messages.Send.Frame.{count-Quiet, outcome-Quiet_twice}
use whatsapp_auto_send.Messages.Send.Outcome.{OneMore, Attempted, broke, went, attempt-Attempted}

-- The row of a key.
abbrev pub row_of : World → String → Option SentMessageRow
row_of w key = find_by_idempotency_key w.state.db key

rows_by_messages : (db db' : Db) → db'.messages ≡ db.messages → SameRows db db'
unfolding find_by_idempotency_key
rows_by_messages db db' h j = ap (find_message j) h

-- A mark on the row of a key, for that key and for every other.
module _ (db : Db) (key : String) (row : SentMessageRow)
    (there : find_by_idempotency_key db key ≡ some row) where
  marked_sent :
      (mid : Option String) (jid : String)
      → find_by_idempotency_key (mark_sent db key mid jid) key ≡ some (sent_row mid jid row)
  marked_sent mid jid = find-mark_sent db key key mid jid ∙ rw (==-true_of_eq key key refl, there)

  marked_failed :
      (code : ErrorCode) (detail : Option String)
      → find_by_idempotency_key (mark_failed db key code detail) key
        ≡ some (failed_row code detail row)
  marked_failed code detail =
      find-mark_failed db key key code detail ∙ rw (==-true_of_eq key key refl, there)

module _ (db : Db) (key j : String) (n : j ≢ key) where
  marked_sent_other :
      (mid : Option String) (jid : String)
      → find_by_idempotency_key (mark_sent db key mid jid) j ≡ find_by_idempotency_key db j
  marked_sent_other mid jid = find-mark_sent db key j mid jid ∙ rw (==-false_of_ne j key n)

  marked_failed_other :
      (code : ErrorCode) (detail : Option String)
      → find_by_idempotency_key (mark_failed db key code detail) j ≡ find_by_idempotency_key db j
  marked_failed_other code detail =
      find-mark_failed db key j code detail ∙ rw (==-false_of_ne j key n)

module _ (deps : Deps) (env : Env) (session_id : String) (request : SendRequest) where
  abbrev key : String
  key = request.idempotency_key

  record_failure_cases :
      (e : ApiError) (db : Db)
      → (record_failure deps env session_id request e db
          ≡ mark_failed db key e.error_code (detail_of deps env session_id request e))
        ⊎ ((record_failure deps env session_id request e db ≡ db)
            × (env.mark_failed_failure ≢ none))
  unfolding record_failure
  record_failure_cases e db = elim (Option-cases env.mark_failed_failure) [
    | inl h ↦ inl (rw (record_failure, h))
    | inr (x, h) ↦ inr (rw (record_failure, h), λ p. cc (h, p))
  ]

  -- The world after: the rows of other keys and their messages are as they were.
  pub record Contained (w w' : World) : Type 0 where
    pub other_rows : (j : String) → j ≢ key → row_of w' j ≡ row_of w j
    pub messages : OneMore key w.wire w'.wire

  pub data Ending (w : World) : Result Thrown SendResult → World → Type 0 where
    -- The number is no number, or the send is in flight.
    refused :
        (e : ApiError) (w' : World)
        → SameRows w.state.db w'.state.db
        → w'.wire ≡ w.wire
        → Ending w (err (api e)) w'
    repeated :
        (m : SentMessageRow) (w' : World)
        → row_of w key ≡ some m
        → m.status ≡ sent
        → SameRows w.state.db w'.state.db
        → w'.wire ≡ w.wire
        → Ending w
            (ok (record {
              idempotency_key = key;
              to = m.to_jid;
              wa_message_id = m.wa_message_id;
              deduplicated = true;
            }))
            w'
    failing :
        (e : ApiError) (m : SentMessageRow) (w' : World)
        → IsFree (row_of w key) w.state.now
        → row_of w' key ≡ some m
        → ((m.status ≡ failed) × (m.error_code ≡ some e.error_code))
          ⊎ ((m.status ≡ pending) × (env.mark_failed_failure ≢ none))
        → Contained w w'
        → Ending w (err (api e)) w'
    sending :
        (r : SendResult) (m : SentMessageRow) (w' : World)
        → IsFree (row_of w key) w.state.now
        → r.deduplicated ≡ false
        → row_of w' key ≡ some m
        → (m.status ≡ sent) × (m.wa_message_id ≡ r.wa_message_id) × (m.to_jid ≡ r.to)
        → Contained w w'
        → Ending w (ok r) w'

  abbrev OfPair : World → Result Thrown SendResult × World → Type 0
  OfPair w p = Ending w p.0 p.1

  -- The row of a claim that was given, and what `attempt` and `caught` then make of it.
  module _ (w v : World) (row : SentMessageRow) (free : IsFree (row_of w key) w.state.now)
      (there : row_of v key ≡ some row) (is_pending : row.status ≡ pending)
      (others : (j : String) → j ≢ key → row_of v j ≡ row_of w j) (calm : v.wire ≡ w.wire) where
    -- The bookkeeping of a failure, once the row is marked or could not be.
    after_failing :
        (e : ApiError) (m : SentMessageRow) (t : State) (wire' : List Sent) (db1 : Db)
        → t.db.messages ≡ db1.messages
        → find_by_idempotency_key db1 key ≡ some m
        → ((m.status ≡ failed) × (m.error_code ≡ some e.error_code))
          ⊎ ((m.status ≡ pending) × (env.mark_failed_failure ≢ none))
        → ((j : String)
            → j ≢ key
            → find_by_idempotency_key db1 j ≡ find_by_idempotency_key v.state.db j)
        → OneMore key v.wire wire'
        → Ending w (err (api e)) (record { state = t; wire = wire' })
    after_failing e m t wire' db1 kept found told rest more =
        failing e m _ free (rows_by_messages db1 t.db kept key ∙ found) told (record {
          other_rows = λ j n. rows_by_messages db1 t.db kept j ∙ rest j n ∙ others j n;
          messages = subst (λ ms. OneMore key ms wire') calm more;
        })

    on_failed-Ending :
        (e : Thrown) (w' : World)
        → w'.state.db.messages ≡ v.state.db.messages
        → OneMore key v.wire w'.wire
        → OfPair w (on_failed deps env session_id request e w')
    unfolding on_failed
    on_failed-Ending e w' same more =
        let e' = map_send_error e session_id in
        let at_rows = rows_by_messages v.state.db w'.state.db same in
        let quiet = λ (db1 : Db).
          (outcome-Quiet_twice session_id (some e'.error_code) deps.metered "baileys_sends_total"
            "baileys_send_failures_total" (("session_id", session_id) ∷ ("outcome", "failed") ∷ [])
            (("session_id", session_id) ∷ ("error_code", code_text e'.error_code) ∷ [])
            (record w'.state { db = db1 })).messages_kept in
        let db1 = record_failure deps env session_id request e' w'.state.db in
        let detail = detail_of deps env session_id request e' in
        elim (record_failure_cases e' w'.state.db) [
          | inl h ↦
              after_failing e' (failed_row e'.error_code detail row) _ w'.wire db1 (quiet db1)
                (ap (λ d. find_by_idempotency_key d key) h
                  ∙ marked_failed w'.state.db key row (at_rows key ∙ there) e'.error_code detail)
                (inl (refl, refl))
                (λ j n.
                  ap (λ d. find_by_idempotency_key d j) h
                  ∙ marked_failed_other w'.state.db key j n e'.error_code detail
                  ∙ at_rows j)
                more
          | inr (h, unwritten) ↦
              after_failing e' row _ w'.wire db1 (quiet db1)
                (ap (λ d. find_by_idempotency_key d key) h ∙ at_rows key ∙ there)
                (inr (is_pending, unwritten))
                (λ j n. ap (λ d. find_by_idempotency_key d j) h ∙ at_rows j) more
        ]

    caught-Ending :
        (r : Result Thrown SendResult) (w' : World)
        → Attempted deps env session_id request v r w'
        → OfPair w (caught deps env session_id request (r, w'))
    caught-Ending r w' (broke e w'' same more) = on_failed-Ending e w'' same more
    caught-Ending r w' (went s w'' fresh same more) =
        let at_rows =
          rows_by_messages (mark_sent v.state.db key s.wa_message_id s.to) w''.state.db same in
        sending s (sent_row s.wa_message_id s.to row) w'' free fresh
          (at_rows key ∙ marked_sent v.state.db key row there s.wa_message_id s.to)
          (refl, refl, refl)
          (record {
            other_rows = λ j n.
                at_rows j ∙ marked_sent_other v.state.db key j n s.wa_message_id s.to ∙ others j n;
            messages = subst (λ ms. OneMore key ms w''.wire) calm more;
          })

  module _ (w : World) (jid : String) where
    abbrev input : ClaimInput
    input = input_of session_id request jid

    abbrev claimed_world : World
    claimed_world = record w {
      state = record w.state { db = (claim_send w.state.db input w.state.now).1 };
    }

    after_claim-Ending :
        (c : Result Thrown ClaimResult)
        → (claim_send w.state.db input w.state.now).0 ≡ c
        → Answer w.state.db input w.state.now c
        → OfPair w (after_claim deps env session_id request c claimed_world)
    unfolding after_claim
    after_claim-Ending c h (given row free) =
        let (there, own) = claim_send-row w.state.db input w.state.now row h in
        let (r, w') = attempt deps env session_id request claimed_world in
        caught-Ending w claimed_world row free there own.is_pending
          (claim_send-frame w.state.db input w.state.now) refl r w'
          (attempt-Attempted deps env session_id request claimed_world)
    after_claim-Ending c h (told_sent row found st same) =
        repeated row _ found st
          (λ j.
            rows_by_messages claimed_world.state.db _
              (count-Quiet deps.metered "baileys_sends_total"
                (("session_id", session_id) ∷ ("outcome", "deduplicated") ∷ [])
                claimed_world.state).messages_kept
              j
            ∙ same j)
          refl
    after_claim-Ending c h (told_busy row found st same) = refused _ claimed_world same refl

  -- Every call of `sendTextMessage` ends in one of four ways. It is refused with nothing changed; or
  -- it repeats the row of a send that went out, with nothing changed; or the key was free, and the
  -- call fails with its row failed under the code it throws (or still pending, if that write
  -- failed); or the key was free, and it succeeds with its row sent under the id and the address it
  -- returns. In the last two at most one message of the key goes on the wire, and no other key is
  -- touched.
  pub send_text_message-Ending :
      (w : World) → OfPair w (send_text_message deps env session_id request w)
  unfolding send_text_message
  send_text_message-Ending w = elim (Result-cases (to_user_jid request.to)) [
    | inr (message, h) ↦ rw (send_text_message, h) (refused _ w (λ j. refl) refl)
    | inl (jid, h) ↦
        rw (send_text_message, h)
          (after_claim-Ending w jid _ refl (claim_send-Answer w.state.db (input w jid) w.state.now))
  ]
