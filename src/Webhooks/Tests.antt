-- ===== src/Webhooks/Tests.antt =====
-- Runs of webhooks/dispatcher.ts and webhooks/signature.ts, with the signed text itself for a digest.
use whatsapp_auto_send.Prelude.{
  ◌+◌, ℕ, String, true, none, [], ◌∷◌, ◌++◌, ◌≡◌, ◌⊎◌, refl, ◌∙◌, arith, length, string_eq,
  template, text_runs, ◌↔◌, ◌-◌, ◌<◌,
}
use whatsapp_auto_send.Database.{connected}
use whatsapp_auto_send.Sessions.Events.{SessionEvent, Body, status_changed, listener_count}
use whatsapp_auto_send.Sessions.Events
use whatsapp_auto_send.Webhooks.{
  Dispatcher, Options, responded, threw, pending, signed_text, sign_payload, verify_signature,
  request_of,
}
use whatsapp_auto_send.Webhooks.Signing.{verify_signature_iff, verify_signature-bound, Collides}
use whatsapp_auto_send.Webhooks.Dispatch.{emit_all, requests_for, emit_all-posted}
use whatsapp_auto_send.Webhooks.Flight.{IsCounted, tells, happen_all, settle_all, settle_all-done}
use whatsapp_auto_send.Webhooks.Receiver.{receive, arrived, max_age_ms, receive-request_of}

abbrev joined : String → String → String
joined secret text = template (secret ∷ text ∷ [])

abbrev told_as : SessionEvent → String
told_as event = event.session_id

abbrev options : Options
options = record { url = "http://api/hooks"; secret = "k"; timeout_ms = 5_000 }

abbrev qr_event : SessionEvent
qr_event = record { session_id = "s1"; at = 5; body = Events.qr "QR" }

abbrev status_event : SessionEvent
status_event = record { session_id = "s1"; at = 6; body = status_changed connected none }

abbrev fresh : Dispatcher
fresh = record { in_flight = 0; open_fetches = []; posted = []; log = []; now = 1_000 }

fresh-IsCounted : IsCounted fresh
fresh-IsCounted = record { in_flight_open = refl; logged_or_open = omega arith }

-- Only the second event is posted.
posted_one :
    (emit_all joined told_as options (qr_event ∷ status_event ∷ []) fresh).posted
    ≡ request_of joined told_as options status_event 1_000 ∷ []
unfolding requests_for request_of sign_payload signed_text text_runs
posted_one = (emit_all-posted joined told_as options (qr_event ∷ status_event ∷ []) fresh).0 ∙ here
  where
    here :
        requests_for joined told_as options (qr_event ∷ status_event ∷ []) 1_000
        ≡ request_of joined told_as options status_event 1_000 ∷ []
    here = refl

emit_all-posted_example :
    ((emit_all joined told_as options (qr_event ∷ status_event ∷ []) fresh).posted
      ≡ fresh.posted ++ requests_for joined told_as options (qr_event ∷ status_event ∷ []) 1_000)
    × (pending (emit_all joined told_as options (qr_event ∷ status_event ∷ []) fresh)
        ≡ pending fresh
          + length (requests_for joined told_as options (qr_event ∷ status_event ∷ []) 1_000))
emit_all-posted_example =
    emit_all-posted joined told_as options (qr_event ∷ status_event ∷ []) fresh

signed_again : verify_signature joined "k" 10 "0" (sign_payload joined "k" 10 "0") ≡ true
signed_again = (verify_signature_iff joined "k" 10 "0" (sign_payload joined "k" 10 "0")).1 refl

verify_signature-bound_example :
    ((◌≡◌ {A = ℕ} 10 10) × (◌≡◌ {A = String} "0" "0"))
    ⊎ Collides joined "k" (signed_text 10 "0") (signed_text 10 "0")
verify_signature-bound_example = verify_signature-bound joined "k" 10 10 "0" "0" signed_again

settle_all-done_example :
    (pending (
        settle_all
          ((1, responded true) ∷ (0, threw) ∷ [])
          (happen_all joined told_as options fresh (tells status_event ∷ tells status_event ∷ [])))
      ≡ 0)
    × (length
          (settle_all ((1, responded true) ∷ (0, threw) ∷ []) (
            happen_all joined told_as options fresh
              (tells status_event ∷ tells status_event ∷ []))).log
        ≡ length
            (settle_all ((1, responded true) ∷ (0, threw) ∷ []) (
              happen_all joined told_as options fresh
                (tells status_event ∷ tells status_event ∷ []))).posted)
unfolding happen_all
settle_all-done_example =
    settle_all-done joined told_as options fresh (tells status_event ∷ tells status_event ∷ [])
      ((1, responded true) ∷ (0, threw) ∷ []) fresh-IsCounted (omega arith, (omega arith, tt))

receive-request_of_example :
    (receive joined "k" 300_999 (arrived (request_of joined told_as options status_event 1_000))
      ≡ 200)
    ↔ ((300_999 - 1_000) + (1_000 - 300_999) < max_age_ms)
receive-request_of_example = receive-request_of joined told_as options status_event 1_000 300_999
