-- ===== src/Server/Replies.antt =====
-- Which errors of server.ts blame the client, and what the others give away.
use whatsapp_auto_send.Prelude.{
  ℕ, ◌≤◌, ◌<◌, String, false, Option, none, ◌≡◌, ◌⊎◌, ◌↔◌, arith, nat_eq,
}
use whatsapp_auto_send.Errors.{
  to_body, other, payload_too_large_error, unsupported_media_type_error, invalid_payload_error,
}
use whatsapp_auto_send.Server.{status_of, by_status, to_api_error, on_error}

by_status-blame :
    (status : ℕ) (message : String)
    → ((by_status status message).retryable ≡ false) ↔ ((400 ≤ status) × (status < 500))
unfolding by_status payload_too_large_error unsupported_media_type_error invalid_payload_error
by_status-blame status message = ground arith

by_status-hidden :
    (status : ℕ) (message : String)
    → ((400 ≤ status) × (status < 500)) ⊎ ((by_status status message).message ≡ "internal error")
unfolding by_status
by_status-hidden status message = ground arith

by_status-class :
    (status : ℕ) (message : String)
    → (400 ≤ status)
    → (400 ≤ (by_status status message).status_code)
      × ((500 ≤ status) ↔ (500 ≤ (by_status status message).status_code))
unfolding by_status payload_too_large_error unsupported_media_type_error invalid_payload_error
by_status-class status message h = ground (arith, h)

-- An error that is neither the gateway's own nor the WhatsApp library's is answered as not worth a
-- retry exactly when its status is from 400 to 499. Any other such error shows no more than "internal
-- error", and a status from 400 up keeps to its side of 500.
pub on_error-blame :
    (status : Option ℕ) (message : Option String) (url : String)
    → let reply = on_error (record { thrown = other none message; status_code = status }) url in
      ((reply.1.retryable ≡ false) ↔ ((400 ≤ status_of status) × (status_of status < 500)))
      × (((400 ≤ status_of status) × (status_of status < 500))
          ⊎ (reply.1.message ≡ "internal error"))
      × (400 ≤ status_of status → (500 ≤ status_of status) ↔ (500 ≤ reply.0))
unfolding on_error to_api_error to_body
on_error-blame status message url = (
  by_status-blame (status_of status) _,
  by_status-hidden (status_of status) _,
  λ h. (by_status-class (status_of status) _ h).1,
)
