-- ===== src/Messages/Repository/Tests.antt =====
-- Runs of messages/repository.ts on small tables, and the theorems there.
use whatsapp_auto_send.Prelude.{
  true, false, none, some, [], ◌∷◌, ok, ◌≡◌, ◌↔◌, refl, string_eq, text_runs,
}
use whatsapp_auto_send.Errors.{send_failed}
use whatsapp_auto_send.Database.{Db, SentMessageRow}
use whatsapp_auto_send.Messages.Repository.{
  ClaimInput, claimed, find_message, find_by_idempotency_key, insert_pending, verdict, retake,
  retaken, pending_row, claim_send, failed_row,
}
use whatsapp_auto_send.Messages.Repository.Claims.{IsFree, claim_send_iff}
use whatsapp_auto_send.Messages.Repository.Race.{done, run_pair, waiting, double_claim}

abbrev input : ClaimInput
input = record {
  session_id = "s1";
  idempotency_key = "k1";
  to_jid = "628@s.whatsapp.net";
  payload = record { text = "hi" };
}

abbrev empty_db : Db
empty_db = record { sessions = []; creds = []; keys = []; messages = []; next_message_id = 1 }

abbrev with_row : SentMessageRow → Db
with_row m = record empty_db { messages = m ∷ []; next_message_id = 2 }

abbrev failed_one : SentMessageRow
failed_one = failed_row send_failed none (pending_row 1 input 10)

claim_new : (claim_send empty_db input 10).0 ≡ ok (claimed (pending_row 1 input 10))
unfolding claim_send insert_pending find_message text_runs
claim_new = refl

found_failed : find_by_idempotency_key (with_row failed_one) "k1" ≡ some failed_one
unfolding find_by_idempotency_key find_message text_runs
found_failed = refl

found_pending :
    find_by_idempotency_key (with_row (pending_row 1 input 10)) "k1" ≡ some (pending_row 1 input 10)
unfolding find_by_idempotency_key find_message text_runs
found_pending = refl

stale :
    (claim_send (with_row (pending_row 1 input 10)) input 120_010).0
    ≡ ok (claimed (retaken input 120_010 (pending_row 1 input 10)))
unfolding claim_send insert_pending find_by_idempotency_key find_message verdict retake text_runs
stale = refl

claim_send_iff_example :
    ((row : SentMessageRow) × ((claim_send (with_row failed_one) input 500).0 ≡ ok (claimed row)))
    ↔ IsFree (find_by_idempotency_key (with_row failed_one) "k1") 500
claim_send_iff_example = claim_send_iff (with_row failed_one) input 500

double_claim_example :
    let p =
      run_pair input input 500
        (true ∷ false ∷ true ∷ false ∷ true ∷ false ∷ [])
        (waiting (with_row failed_one)) in
    (p.first ≡ done (ok (claimed (retaken input 500 failed_one))))
    × (p.second ≡ done (ok (claimed (retaken input 500 (retaken input 500 failed_one)))))
double_claim_example =
    double_claim (with_row failed_one) input input 500 failed_one refl found_failed refl
