-- ===== src/ErrorMapping/Tests.antt =====
-- Runs of wa/error-mapping.ts, and the theorems at concrete errors.
use whatsapp_auto_send.Prelude.{◌≡◌, refl, none, some, text_runs}
use whatsapp_auto_send.Errors.{
  other, session_not_connected, rate_limited_by_wa, send_failed, send_failed_error,
  session_logged_out_error, session_not_connected_error, rate_limited_by_wa_error,
}
use whatsapp_auto_send.ErrorMapping.{map_send_error}
use whatsapp_auto_send.ErrorMapping.Patterns.{matches_any}

mapping_runs : Unit {0}
unfolding map_send_error matches_any text_runs send_failed_error session_logged_out_error
    session_not_connected_error rate_limited_by_wa_error
mapping_runs = tt

by_text :
    ((map_send_error (other none (some "Rate Limit exceeded")) "s").error_code ≡ rate_limited_by_wa)
    × ((map_send_error (other none (some "rate-overlimit")) "s").error_code ≡ rate_limited_by_wa)
    × ((map_send_error (other none (some "Connection Closed")) "s").error_code
        ≡ session_not_connected)
    × ((map_send_error (other none none) "s").error_code ≡ send_failed)
unfolding mapping_runs
by_text = (refl, refl, refl, refl)
