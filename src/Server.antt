-- ===== src/Server.antt =====
-- baileys/src/server.ts and routes/health.ts: the answers to an error, to an unknown route, and to a
-- question after the gateway's health.
pub mod Replies
mod Tests
use whatsapp_auto_send.Prelude.{
  ℕ, ◌-◌, ◌+◌, ◌/◌, String, Bool, true, false, ◌&&◌, Option, none, some, List, [], ◌∷◌, ◌==◌,
  nat_eq, if◌then◌else◌, leb, ltb, get_elem?, split_on,
}
use whatsapp_auto_send.Errors.{
  ErrorCode, internal_error, ErrorBody, ApiError, to_body, Thrown, api, other,
  payload_too_large_error, unsupported_media_type_error, invalid_payload_error, not_found_error,
  send_failed_error,
}
use whatsapp_auto_send.ErrorMapping.{map_whatsapp_error}

-- What reaches the error handler: `status_code` is the one that Fastify puts on its errors.
pub record ServerError : Type 0 where
  pub thrown : Thrown
  pub status_code : Option ℕ

abbrev text_of_message : Option String → String
text_of_message none = ""
text_of_message (some m) = m

-- `path.split('/')[2] ?? 'unknown'`
abbrev session_of : String → String
session_of path = elim (get_elem? (split_on 47 path) 2) [ none ↦ "unknown" | some id ↦ id ]

-- `err.statusCode ?? 500`
abbrev pub status_of : Option ℕ → ℕ
status_of none = 500
status_of (some s) = s

unfoldable pub by_status : ℕ → String → ApiError
by_status status message =
    if status == 413
    then payload_too_large_error message
    else if status == 415
    then unsupported_media_type_error message
    else if leb 400 status && ltb status 500
    then invalid_payload_error message
    else record {
      status_code = status;
      error_code = internal_error;
      message = "internal error";
      retryable = true;
      detail = none;
    }

unfoldable pub to_api_error : ServerError → String → ApiError
unfolding by_status
to_api_error e path = elim e.thrown [
  | api a ↦ a
  | other (some status) message ↦
      map_whatsapp_error (other (some status) message) (session_of path) send_failed_error
  | other none message ↦ by_status (status_of e.status_code) (text_of_message message)
]

-- The status and the body of an answer.
abbrev pub Reply : Type 0
Reply = ℕ × ErrorBody

unfoldable pub on_error : ServerError → String → Reply
unfolding to_api_error
on_error e url = let mapped = to_api_error e url in (mapped.status_code, to_body mapped)

unfoldable pub on_not_found : Reply
on_not_found = (not_found_error.status_code, to_body not_found_error)

pub record HealthBody : Type 0 where
  pub status : String
  pub db : String
  pub uptime : ℕ

-- `Math.round((now - startedAt) / 1000)`; the clock does not go back.
unfoldable pub health : Bool → ℕ → ℕ → ℕ × HealthBody
health db_up started_at now =
    let uptime = (now - started_at + 500) / 1_000 in
    if db_up
    then (200, record { status = "ok"; db = "ok"; uptime = uptime })
    else (503, record { status = "degraded"; db = "down"; uptime = uptime })
