-- ===== src/ErrorMapping/Laws.antt =====
-- What the mapping guarantees to the callers that decide on a retry by it.
use whatsapp_auto_send.Prelude.{
  string_eq, ne_by_test, ==-false_of_ne, refl, ℕ, String, false, Option, none, some, ◌≡◌, ◌↔◌, ◌⊎◌,
  ◌≢◌, arith,
}
use whatsapp_auto_send.Errors.{
  other, session_logged_out, session_not_connected, rate_limited_by_wa, send_failed,
  not_on_whatsapp, message_rejected, send_failed_error, session_logged_out_error,
  session_not_connected_error, rate_limited_by_wa_error,
}
use whatsapp_auto_send.Prelude.Dict.{get}
use whatsapp_auto_send.ErrorMapping.{map_send_error, map_ack_error}

-- A library's error maps to an error that says not to retry exactly when its status is 401 or 403,
-- and in that case the code is session_logged_out.
pub map_send_error-permanent :
    (status : Option ℕ) (message : Option String) (session_id : String)
    → ((map_send_error (other status message) session_id).retryable ≡ false)
      ↔ ((status ≡ some 401) ⊎ (status ≡ some 403))
unfolding map_send_error send_failed_error session_logged_out_error session_not_connected_error
    rate_limited_by_wa_error
map_send_error-permanent none message session_id = ground arith
map_send_error-permanent (some s) message session_id = ground arith

-- A library's error never maps to a bare 500: the status is 409, 429 or 502, and the code is one of
-- the four that the consumer knows.
pub map_send_error-known :
    (status : Option ℕ) (message : Option String) (session_id : String)
    → let e = map_send_error (other status message) session_id in
      ((e.status_code ≡ 409)
        × ((e.error_code ≡ session_logged_out) ⊎ (e.error_code ≡ session_not_connected)))
      ⊎ (((e.status_code ≡ 429) × (e.error_code ≡ rate_limited_by_wa))
          ⊎ ((e.status_code ≡ 502) × (e.error_code ≡ send_failed)))
unfolding map_send_error send_failed_error session_logged_out_error session_not_connected_error
    rate_limited_by_wa_error
map_send_error-known none message session_id = ground arith
map_send_error-known (some s) message session_id = ground arith

map_ack_error-other : (c : String) → c ≢ "404" → c ≢ "463" → map_ack_error (some c) ≡ send_failed
unfolding map_ack_error get
map_ack_error-other c n m =
    rw (==-false_of_ne c "404" n, map_ack_error) (rw (==-false_of_ne c "463" m))

map_ack_error-404 : map_ack_error (some "404") ≡ not_on_whatsapp
unfolding map_ack_error get string_eq
map_ack_error-404 = refl

map_ack_error-463 : map_ack_error (some "463") ≡ message_rejected
unfolding map_ack_error get string_eq
map_ack_error-463 = refl

-- A rejection's code is not_on_whatsapp exactly for WhatsApp's 404, message_rejected exactly for 463,
-- and send_failed for every other code and for none.
pub map_ack_error_iff :
    (code : Option String)
    → ((map_ack_error code ≡ not_on_whatsapp) ↔ (code ≡ some "404"))
      × ((map_ack_error code ≡ message_rejected) ↔ (code ≡ some "463"))
      × ((map_ack_error code ≡ send_failed) ↔ ((code ≢ some "404") × (code ≢ some "463")))
unfolding map_ack_error
map_ack_error_iff none = ground arith
map_ack_error_iff (some c) = elim (string_eq.dec c "404") [
  | yes p ↦ ground (arith, p, map_ack_error-404, ne_by_test "404" "463" refl)
  | no n ↦ elim (string_eq.dec c "463") [
    | yes q ↦ ground (arith, q, map_ack_error-463, ne_by_test "404" "463" refl)
    | no m ↦ ground (arith, n, m, map_ack_error-other c n m)
  ]
]
