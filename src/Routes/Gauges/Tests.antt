-- ===== src/Routes/Gauges/Tests.antt =====
-- A scrape of routes/metrics.ts on a gateway with one session.
use whatsapp_auto_send.Prelude.{none, List, [], ◌∷◌, map, ◌≡◌, refl, string_eq, text_runs}
use whatsapp_auto_send.Database.{SendStatus, sent, failed, SentMessageRow, SendStatus-discrete}
use whatsapp_auto_send.Errors.{error_code_eq}
use whatsapp_auto_send.Sessions.Repository.{list_sessions}
use whatsapp_auto_send.Sessions.State.{State}
use whatsapp_auto_send.Sessions.Manager.Samples.{entry_one, state_one}
use whatsapp_auto_send.Routes.Gauges.{scrape, key_of}
use whatsapp_auto_send.Routes.Gauges.Statuses.{marked, status_gauge, scrape-statuses}
use whatsapp_auto_send.Routes.Gauges.Stored.{rows_with}

abbrev live : State
live = state_one entry_one []

scrape-statuses_example : marked (scrape 0 live) ≡ map (status_gauge live) (list_sessions live.db)
scrape-statuses_example = scrape-statuses 0 live

abbrev message : SendStatus → SentMessageRow
message status = record {
  id = 1;
  session_id = "s1";
  idempotency_key = "k1";
  to_jid = "628@s.whatsapp.net";
  payload = record { text = "hi" };
  status = status;
  wa_message_id = none;
  error_code = none;
  error_detail = none;
  created_at = 5;
}

abbrev messages : List SentMessageRow
messages = message sent ∷ message failed ∷ message sent ∷ []

two_sent : rows_with (key_of (message sent)) messages ≡ 2
unfolding rows_with text_runs SendStatus-discrete error_code_eq
two_sent = refl
