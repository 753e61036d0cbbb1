-- ===== src/ErrorMapping.antt =====
-- baileys/src/wa/error-mapping.ts: errors of the WhatsApp library as the gateway's own.
pub mod Patterns
pub mod Laws
mod Tests
use whatsapp_auto_send.Prelude.{
  ℕ, String, Bool, true, false, Option, none, some, List, [], ◌∷◌, ◌||◌, ◌==◌, nat_eq, string_eq,
  if◌then◌else◌, template, decimal, codes,
}
use whatsapp_auto_send.Prelude.Dict.{Dict, get}
use whatsapp_auto_send.Errors.{
  ErrorCode, not_on_whatsapp, message_rejected, send_failed, ApiError, Thrown, api, other,
  session_logged_out_error, session_not_connected_error, rate_limited_by_wa_error,
  send_failed_error, pairing_failed_error,
}
use Patterns.{matches_any, rate_patterns, closed_patterns}

unfoldable pub status_code_of : Thrown → Option ℕ
status_code_of (api e) = none
status_code_of (other status message) = status

unfoldable pub is_whatsapp_error : Thrown → Bool
is_whatsapp_error e = elim (status_code_of e) [ none ↦ false | some s ↦ true ]

abbrev ack_error_codes : Dict String ErrorCode
ack_error_codes = ("404", not_on_whatsapp) ∷ ("463", message_rejected) ∷ []

unfoldable pub map_ack_error : Option String → ErrorCode
map_ack_error none = send_failed
map_ack_error (some code) = elim (get code ack_error_codes) [ none ↦ send_failed | some c ↦ c ]

-- `DisconnectReason`, with the values that the comments of the `switch` state.
abbrev pub logged_out_reason : ℕ
logged_out_reason = 401

abbrev pub forbidden_reason : ℕ
forbidden_reason = 403

abbrev pub connection_lost_reason : ℕ
connection_lost_reason = 408

abbrev pub connection_closed_reason : ℕ
connection_closed_reason = 428

abbrev pub unavailable_service_reason : ℕ
unavailable_service_reason = 503

abbrev pub restart_required_reason : ℕ
restart_required_reason = 515

-- `err?.message ?? 'send failed'`
abbrev message_or_default : Option String → String
message_or_default none = "send failed"
message_or_default (some m) = m

abbrev status_text : Option ℕ → String
status_text none = "no-status"
status_text (some s) = decimal s

-- The tests on the text, after the `switch` has fallen through.
map_by_text : Option ℕ → String → String → (String → Option String → ApiError) → ApiError
map_by_text status message session_id fallback =
    if matches_any rate_patterns (codes message)
    then rate_limited_by_wa_error message
    else if matches_any closed_patterns (codes message)
    then session_not_connected_error session_id "disconnected"
    else fallback message (some (template (status_text status ∷ ": " ∷ message ∷ [])))

map_by_status : ℕ → Option ℕ → String → String → (String → Option String → ApiError) → ApiError
unfolding map_by_text
map_by_status s status message session_id fallback =
    if s == logged_out_reason || s == forbidden_reason
    then session_logged_out_error session_id
    else if s == connection_closed_reason
        || s == connection_lost_reason
        || s == restart_required_reason
        || s == unavailable_service_reason
    then session_not_connected_error session_id "disconnected"
    else if s == 429
    then rate_limited_by_wa_error message
    else map_by_text status message session_id fallback

unfoldable pub map_whatsapp_error : Thrown → String → (String → Option String → ApiError) → ApiError
unfolding map_by_status
map_whatsapp_error (api e) session_id fallback = e
map_whatsapp_error (other none message) session_id fallback =
    map_by_text none (message_or_default message) session_id fallback
map_whatsapp_error (other (some s) message) session_id fallback =
    map_by_status s (some s) (message_or_default message) session_id fallback

unfoldable pub map_send_error : Thrown → String → ApiError
unfolding map_whatsapp_error
map_send_error e session_id = map_whatsapp_error e session_id send_failed_error

unfoldable pub map_pairing_error : Thrown → String → ApiError
unfolding map_whatsapp_error
map_pairing_error e session_id = map_whatsapp_error e session_id pairing_failed_error
