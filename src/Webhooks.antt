-- ===== src/Webhooks.antt =====
-- baileys/src/webhooks/dispatcher.ts and signature.ts: events that are posted to a consumer, signed.
--
-- The keyed digest of node:crypto is the parameter `digest`, from the secret and the signed text to
-- hex digits, and the text of an event is the parameter `json`. A delivery is two steps: `deliver`
-- up to the `await` of `fetch`, and the rest once that settles; `AbortSignal.timeout` makes it
-- settle.
pub mod Signing
pub mod Dispatch
pub mod Flight
pub mod Attach
pub mod Receiver
mod Tests
use Prim.Native.String.{len}
use whatsapp_auto_send.Prelude.{
  ℕ, zero, suc, ◌-◌, String, Bool, true, false, Option, none, some, List, [], ◌∷◌, ◌++◌, Result, ok,
  err, ◌==◌, nat_eq, string_eq, if◌then◌else◌, is_truthy, template, decimal, get_elem?,
}
use whatsapp_auto_send.Config.{Config}
use whatsapp_auto_send.Sessions.Events.{
  SessionEvent, Body, status_changed, message_received, message_status, Listener, EventBus,
  subscribe,
}
use whatsapp_auto_send.Sessions.Events

abbrev pub delivered : Body → Bool
delivered (message_received m) = true
delivered (message_status m) = true
delivered (status_changed status phone) = true
delivered (Events.qr text) = false

abbrev pub event_type : Body → String
event_type (message_received m) = "message.received"
event_type (message_status m) = "message.status"
event_type (status_changed status phone) = "session.status_changed"
event_type (Events.qr text) = "qr"

-- The text that is signed.
unfoldable pub signed_text : ℕ → String → String
signed_text timestamp body = template (decimal timestamp ∷ "." ∷ body ∷ [])

-- A posted request: the headers that tell events apart, and the body.
pub record Request : Type 0 where
  pub url : String
  pub event : String
  pub timestamp : ℕ
  pub signature : String
  pub body : String
  pub timeout_ms : ℕ

pub record Options : Type 0 where
  pub url : String
  pub secret : String
  pub timeout_ms : ℕ

-- How a `fetch` ends: with a status and whether that is one of 200 to 299, or by throwing.
pub data Answer : Type 0 where
  responded : Bool → Answer
  threw : Answer

pub data Line : Type 0 where
  rejected delivered_it failed : Line

-- `in_flight` is the dispatcher's field; `open_fetches` are the requests that have not settled, and
-- `posted` all requests, as the network sees them.
pub record Dispatcher : Type 0 where
  pub in_flight : ℕ
  pub open_fetches : List Request
  pub posted : List Request
  pub log : List Line
  pub now : ℕ

-- Both texts, unless one is missing or empty.
abbrev pub both : Option String → Option String → Option (String × String)
both (some url) (some secret) =
    if is_truthy (some url)
    then if is_truthy (some secret) then some (url, secret) else none
    else none
both _ _ = none

module _ (digest : String → String → String) where
  unfoldable pub sign_payload : String → ℕ → String → String
  sign_payload secret timestamp body = digest secret (signed_text timestamp body)

  -- `len` counts the bytes of the UTF-8, as the buffers' `length` does.
  unfoldable pub verify_signature : String → ℕ → String → String → Bool
  verify_signature secret timestamp body signature =
      let expected = sign_payload secret timestamp body in
      if len expected == len signature then expected == signature else false

  module _ (json : SessionEvent → String) (options : Options) where
    unfoldable pub request_of : SessionEvent → ℕ → Request
    request_of event now = record {
      url = options.url;
      event = event_type event.body;
      timestamp = now;
      signature = template ("sha256=" ∷ sign_payload options.secret now (json event) ∷ []);
      body = json event;
      timeout_ms = options.timeout_ms;
    }

    -- `deliver` up to its `await`.
    unfoldable pub begin_deliver : SessionEvent → Dispatcher → Dispatcher
    unfolding request_of
    begin_deliver event d = record d {
      in_flight = suc d.in_flight;
      open_fetches = d.open_fetches ++ (request_of event d.now ∷ []);
      posted = d.posted ++ (request_of event d.now ∷ []);
    }

    -- The listener that `attach` gives to the bus. `deliver` is not awaited.
    unfoldable pub on_event : Listener Dispatcher
    unfolding begin_deliver
    on_event event d = (ok tt, if delivered event.body then begin_deliver event d else d)

    unfoldable pub attach : EventBus Dispatcher → ℕ × EventBus Dispatcher
    unfolding on_event
    attach bus = subscribe bus on_event

  -- `attachWebhooks`: the dispatcher's options if there is one, and the bus.
  unfoldable pub attach_webhooks :
      (SessionEvent → String)
      → Config
      → EventBus Dispatcher
      → Option (ℕ × Options) × EventBus Dispatcher
  unfolding attach
  attach_webhooks json cfg bus = elim (both cfg.webhook_url cfg.webhook_secret) [
    | none ↦ (none, bus)
    | some (url, secret) ↦
        let options : Options = record {
          url = url;
          secret = secret;
          timeout_ms = cfg.webhook_timeout_ms;
        } in
        let (k, bus') = attach json options bus in (some (k, options), bus')
  ]

unfoldable pub line_of : Answer → Line
line_of (responded true) = delivered_it
line_of (responded false) = rejected
line_of threw = failed

-- The open fetches without the one at a place.
unfoldable pub without : ℕ → List Request → List Request
without k [] = []
without zero (r ∷ rs) = rs
without (suc k) (r ∷ rs) = r ∷ without k rs

abbrev close_fetch : ℕ → Answer → Option Request → Dispatcher → Dispatcher
close_fetch k a none d = d
close_fetch k a (some r) d = record d {
  in_flight = d.in_flight - 1;
  open_fetches = without k d.open_fetches;
  log = d.log ++ (line_of a ∷ []);
}

-- The rest of `deliver`, for the open fetch at place `k`: what it logs, and what `finally` does.
unfoldable pub settle : ℕ → Answer → Dispatcher → Dispatcher
unfolding without line_of
settle k a d = close_fetch k a (get_elem? d.open_fetches k) d

abbrev pub pending : Dispatcher → ℕ
pending d = d.in_flight
