-- ===== src/Errors.antt =====
-- baileys/src/errors.ts: the errors that the gateway answers with. `errorCode` takes its values in
-- the list below; `message_rejected` and `internal_error` come from wa/error-mapping.ts and server.ts.
use whatsapp_auto_send.Prelude.{
  ℕ, String, Bool, true, false, Option, none, [], ◌∷◌, Eq, template, decimal, ◌<>◌,
}

pub data ErrorCode : Type 0 where
  unauthorized forbidden not_found session_not_found invalid_payload : ErrorCode
  session_not_connected session_logged_out not_on_whatsapp send_failed : ErrorCode
  rate_limited_by_wa send_in_progress pairing_failed upstream_timeout : ErrorCode
  payload_too_large unsupported_media_type message_rejected internal_error : ErrorCode

pub ErrorCode-discrete : Discrete ErrorCode
ErrorCode-discrete = hlevel

instance unfoldable pub error_code_eq : Eq ErrorCode
unfolding ErrorCode-discrete
error_code_eq = record { dec = ErrorCode-discrete }

-- The text that the code stands for on the wire and in the database.
unfoldable pub code_text : ErrorCode → String
code_text unauthorized = "unauthorized"
code_text forbidden = "forbidden"
code_text not_found = "not_found"
code_text session_not_found = "session_not_found"
code_text invalid_payload = "invalid_payload"
code_text session_not_connected = "session_not_connected"
code_text session_logged_out = "session_logged_out"
code_text not_on_whatsapp = "not_on_whatsapp"
code_text send_failed = "send_failed"
code_text rate_limited_by_wa = "rate_limited_by_wa"
code_text send_in_progress = "send_in_progress"
code_text pairing_failed = "pairing_failed"
code_text upstream_timeout = "upstream_timeout"
code_text payload_too_large = "payload_too_large"
code_text unsupported_media_type = "unsupported_media_type"
code_text message_rejected = "message_rejected"
code_text internal_error = "internal_error"

pub record ErrorBody : Type 0 where
  pub error_code : ErrorCode
  pub message : String
  pub retryable : Bool

pub record ApiError : Type 0 where
  pub status_code : ℕ
  pub error_code : ErrorCode
  pub message : String
  pub retryable : Bool
  pub detail : Option String

unfoldable pub to_body : ApiError → ErrorBody
to_body e = record { error_code = e.error_code; message = e.message; retryable = e.retryable }

abbrev api_error : ℕ → ErrorCode → String → Bool → ApiError
api_error status code message retryable = record {
  status_code = status;
  error_code = code;
  message = message;
  retryable = retryable;
  detail = none;
}

unfoldable pub unauthorized_error : ApiError
unauthorized_error = api_error 401 unauthorized "missing or invalid bearer token" false

unfoldable pub forbidden_error : String → ApiError
forbidden_error message = api_error 403 forbidden message false

unfoldable pub not_found_error : ApiError
not_found_error = api_error 404 not_found "route not found" false

unfoldable pub session_not_found_error : String → ApiError
session_not_found_error id =
    api_error 404 session_not_found (template ("no session with id \"" ∷ id ∷ "\"" ∷ [])) false

unfoldable pub invalid_payload_error : String → ApiError
invalid_payload_error message = api_error 400 invalid_payload message false

unfoldable pub session_not_connected_error : String → String → ApiError
session_not_connected_error id status =
    api_error 409 session_not_connected
      (template ("session \"" ∷ id ∷ "\" is " ∷ status ∷ ", not connected" ∷ [])) true

unfoldable pub session_logged_out_error : String → ApiError
session_logged_out_error id =
    api_error 409 session_logged_out
      (template ("session \"" ∷ id ∷ "\" is logged out and must be re-paired" ∷ [])) false

unfoldable pub not_on_whatsapp_error : String → ApiError
not_on_whatsapp_error to = api_error 422 not_on_whatsapp (to <> " is not a WhatsApp user") false

unfoldable pub send_failed_error : String → Option String → ApiError
send_failed_error message detail = record (api_error 502 send_failed message true) {
  detail = detail;
}

unfoldable pub rate_limited_by_wa_error : String → ApiError
rate_limited_by_wa_error message = api_error 429 rate_limited_by_wa message true

unfoldable pub send_in_progress_error : String → ApiError
send_in_progress_error key =
    api_error 409 send_in_progress
      (template ("idempotency key \"" ∷ key ∷ "\" is already being sent" ∷ [])) true

unfoldable pub pairing_failed_error : String → Option String → ApiError
pairing_failed_error message detail = record (api_error 502 pairing_failed message true) {
  detail = detail;
}

unfoldable pub upstream_timeout_error : String → ℕ → ApiError
upstream_timeout_error operation ms =
    api_error 504 upstream_timeout
      (template (operation ∷ " did not respond within " ∷ decimal ms ∷ "ms" ∷ [])) true

unfoldable pub payload_too_large_error : String → ApiError
payload_too_large_error message = api_error 413 payload_too_large message false

unfoldable pub unsupported_media_type_error : String → ApiError
unsupported_media_type_error message = api_error 415 unsupported_media_type message false

-- What a promise of the gateway may reject with: one of its own errors, or a value from a library
-- below it, of which the program reads `output.statusCode`, where it is a number, and `message`.
pub data Thrown : Type 0 where
  api : ApiError → Thrown
  other : Option ℕ → Option String → Thrown
