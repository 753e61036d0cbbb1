-- ===== src/Sessions/MessageEvents/Tests.antt =====
-- Runs of sessions/message-events.ts, and the theorems there.
use whatsapp_auto_send.Prelude.{
  ℕ, String, true, false, Option, none, some, [], ◌∷◌, ◌++◌, ◌≡◌, refl, string_eq, text_runs, ◌==◌,
  nat_eq, if◌then◌else◌,
}
use whatsapp_auto_send.Sessions.MessageEvents.{
  WaMessage, StatusUpdate, Outbox, object, extract_text, field, on_upsert,
}
use whatsapp_auto_send.Sessions.MessageEvents.Delivery.{
  read_keys, inbound, keys_of, ids_of, received_ids, on_upsert-told,
}

abbrev hello : WaMessage
hello = record {
  key = record { from_me = false; id = some "M1"; remote_jid = some "628@s.whatsapp.net" };
  push_name = some "Ana";
  message_timestamp = some 1_786_180_000;
  content =
      some
        (("conversation", none) ∷ ("extendedTextMessage", some (object (some "hello") none)) ∷ []);
}

abbrev own : WaMessage
own = record hello {
  key = record { from_me = true; id = some "M2"; remote_jid = some "628@s.whatsapp.net" };
}

hello_text : extract_text hello ≡ some "hello"
unfolding extract_text field text_runs
hello_text = refl

abbrev empty_box : Outbox
empty_box = record { emitted = []; reads = [] }

on_upsert-told_example :
    let after = on_upsert (λ k. 0) "s1" 5 "notify" (hello ∷ own ∷ []) empty_box in
    (read_keys after.reads ≡ read_keys [] ++ keys_of (inbound (hello ∷ own ∷ [])))
    × (received_ids after.emitted ≡ received_ids [] ++ ids_of (inbound (hello ∷ own ∷ [])))
on_upsert-told_example = on_upsert-told (λ k. 0) "s1" 5 (hello ∷ own ∷ []) empty_box

abbrev names : ℕ → Option String
names s = if s == 0 then some "error" else none

abbrev rejected : StatusUpdate
rejected = record { key = own.key; status = some 0; stub = some "463" }
