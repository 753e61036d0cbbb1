-- ===== src/Messages/Repository.antt =====
-- baileys/src/messages/repository.ts: a row for each idempotency key, which doubles as the claim to
-- send. Each query is a function of its own, since other requests may run between two of them.
-- `now` is the time of the gateway and of the database.
pub mod Table
pub mod Claims
pub mod Race
pub mod Answers
mod Tests
use whatsapp_auto_send.Prelude.{
  ℕ, suc, ◌-◌, String, Bool, true, false, Option, none, some, List, [], ◌∷◌, ◌++◌, Result, ok, err,
  ◌==◌, string_eq, ltb, if◌then◌else◌,
}
use whatsapp_auto_send.Errors.{ErrorCode, Thrown, other}
use whatsapp_auto_send.Database.{Db, SentMessageRow, SendStatus, pending, sent, failed, Payload}

abbrev pub stale_claim_ms : ℕ
stale_claim_ms = 120_000

pub data ClaimResult : Type 0 where
  claimed duplicate in_flight : SentMessageRow → ClaimResult

pub record ClaimInput : Type 0 where
  pub session_id : String
  pub idempotency_key : String
  pub to_jid : String
  pub payload : Payload

unfoldable pub find_message : String → List SentMessageRow → Option SentMessageRow
find_message key [] = none
find_message key (m ∷ ms) = if m.idempotency_key == key then some m else find_message key ms

unfoldable pub update_message :
    String → (SentMessageRow → SentMessageRow) → List SentMessageRow → List SentMessageRow
update_message key f [] = []
update_message key f (m ∷ ms) =
    (if m.idempotency_key == key then f m else m) ∷ update_message key f ms

unfoldable pub find_by_idempotency_key : Db → String → Option SentMessageRow
find_by_idempotency_key db key = find_message key db.messages

abbrev pub pending_row : ℕ → ClaimInput → ℕ → SentMessageRow
pending_row id input now = record {
  id = id;
  session_id = input.session_id;
  idempotency_key = input.idempotency_key;
  to_jid = input.to_jid;
  payload = input.payload;
  status = pending;
  wa_message_id = none;
  error_code = none;
  error_detail = none;
  created_at = now;
}

-- INSERT … ON CONFLICT (idempotency_key) DO NOTHING RETURNING *. The serial number is drawn before
-- the conflict is seen.
unfoldable pub insert_pending : Db → ClaimInput → ℕ → Option SentMessageRow × Db
insert_pending db input now = elim (find_message input.idempotency_key db.messages) [
  | some m ↦ (none, record db { next_message_id = suc db.next_message_id })
  | none ↦ (
    some (pending_row db.next_message_id input now),
    record db {
      messages = db.messages ++ (pending_row db.next_message_id input now ∷ []);
      next_message_id = suc db.next_message_id;
    },
  )
]

abbrev pub retaken : ClaimInput → ℕ → SentMessageRow → SentMessageRow
retaken input now m = record m {
  to_jid = input.to_jid;
  payload = input.payload;
  status = pending;
  wa_message_id = none;
  error_code = none;
  error_detail = none;
  created_at = now;
}

-- UPDATE … RETURNING *
unfoldable pub retake : Db → ClaimInput → ℕ → Option SentMessageRow × Db
retake db input now = elim (find_message input.idempotency_key db.messages) [
  | none ↦ (none, db)
  | some m ↦ (
    some (retaken input now m),
    record db { messages = update_message input.idempotency_key (retaken input now) db.messages },
  )
]

-- What the row that was found says of the claim; `none` goes on to the update.
unfoldable pub verdict : SentMessageRow → SendStatus → ℕ → Option ClaimResult
verdict existing sent now = some (duplicate existing)
verdict existing pending now =
    if ltb (now - existing.created_at) stale_claim_ms then some (in_flight existing) else none
verdict existing failed now = none

abbrev pub vanished : Thrown
vanished = other none (some "idempotency key vanished mid-claim")

abbrev pub or_crash : Option SentMessageRow → Result Thrown ClaimResult
or_crash none = err (other none (some "Cannot read properties of undefined"))
or_crash (some m) = ok (claimed m)

unfoldable pub after_verdict :
    Db → ClaimInput → ℕ → Option ClaimResult → Result Thrown ClaimResult × Db
after_verdict db input now (some r) = (ok r, db)
after_verdict db input now none = let (row, db') = retake db input now in (or_crash row, db')

unfoldable pub after_insert :
    Option SentMessageRow → Db → ClaimInput → ℕ → Result Thrown ClaimResult × Db
after_insert (some row) db input now = (ok (claimed row), db)
after_insert none db input now = elim (find_by_idempotency_key db input.idempotency_key) [
  | none ↦ (err vanished, db)
  | some existing ↦ after_verdict db input now (verdict existing existing.status now)
]

-- The queries of one claim with nothing between them.
unfoldable pub claim_send : Db → ClaimInput → ℕ → Result Thrown ClaimResult × Db
unfolding after_insert after_verdict
claim_send db input now =
    let (row, db') = insert_pending db input now in after_insert row db' input now

abbrev pub sent_row : Option String → String → SentMessageRow → SentMessageRow
sent_row wa_message_id to_jid m = record m {
  status = sent;
  wa_message_id = wa_message_id;
  to_jid = to_jid;
  error_code = none;
  error_detail = none;
}

unfoldable pub mark_sent : Db → String → Option String → String → Db
mark_sent db key wa_message_id to_jid = record db {
  messages = update_message key (sent_row wa_message_id to_jid) db.messages;
}

abbrev pub failed_row : ErrorCode → Option String → SentMessageRow → SentMessageRow
failed_row code detail m = record m {
  status = failed;
  error_code = some code;
  error_detail = detail;
}

unfoldable pub mark_failed : Db → String → ErrorCode → Option String → Db
mark_failed db key code detail = record db {
  messages = update_message key (failed_row code detail) db.messages;
}
