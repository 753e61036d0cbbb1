-- ===== src/Webhooks/Dispatch.antt =====
-- What the dispatcher of dispatcher.ts posts, and how many of its deliveries are in flight.
use whatsapp_auto_send.Prelude.{
  ℕ, ◌+◌, String, List, [], ◌∷◌, ◌++◌, ◌≡◌, refl, ap, sym, ◌∙◌, arith, length, if◌then◌else◌,
  append_nil, append_assoc, length-append, template, decimal,
}
use whatsapp_auto_send.Sessions.Events.{
  SessionEvent, EventBus, subscribe, emit, emit_to, Body, message_received, message_status,
  status_changed,
}
use whatsapp_auto_send.Sessions.Events
use whatsapp_auto_send.Webhooks.{
  Request, Options, Dispatcher, delivered, request_of, begin_deliver, on_event, attach, pending,
  sign_payload, signed_text,
}

abbrev pub no_listeners : EventBus Dispatcher
no_listeners = record { listeners = []; next_listener = 0 }

module _ (digest : String → String → String) (json : SessionEvent → String) where
  module _ (options : Options) where
    -- The events are emitted one after another on a bus to which the dispatcher is attached.
    unfoldable pub emit_all : List SessionEvent → Dispatcher → Dispatcher
    unfolding emit
    emit_all [] d = d
    emit_all (e ∷ es) d = emit_all es (emit (attach digest json options no_listeners).1 e d).1

    -- The request that a consumer is promised for an event of a kind: signed over the time of the
    -- posting, a dot and the text of the event.
    abbrev promised : SessionEvent → String → ℕ → Request
    promised e kind now = record {
      url = options.url;
      event = kind;
      timestamp = now;
      signature =
          template
            ("sha256=" ∷ digest options.secret (template (decimal now ∷ "." ∷ json e ∷ [])) ∷ []);
      body = json e;
      timeout_ms = options.timeout_ms;
    }

    -- The kinds of the events, as the consumer is told; a QR code is for nobody but the pairing user.
    abbrev promised_for : SessionEvent → Body → ℕ → List Request
    promised_for e (message_received m) now = promised e "message.received" now ∷ []
    promised_for e (message_status m) now = promised e "message.status" now ∷ []
    promised_for e (status_changed st phone) now = promised e "session.status_changed" now ∷ []
    promised_for e (Events.qr text) now = []

    unfoldable pub requests_for : List SessionEvent → ℕ → List Request
    requests_for [] now = []
    requests_for (e ∷ es) now = promised_for e e.body now ++ requests_for es now

    abbrev after_one : SessionEvent → Dispatcher → Dispatcher
    after_one e d = if delivered e.body then begin_deliver digest json options e d else d

    Adds : SessionEvent → Dispatcher → Type 0
    Adds e d =
        ((after_one e d).posted ≡ d.posted ++ promised_for e e.body d.now)
        × (pending (after_one e d) ≡ pending d + length (promised_for e e.body d.now))
        × ((after_one e d).now ≡ d.now)

    Adds-one :
        (id : String) (at : ℕ) (b : Body) (d : Dispatcher)
        → Adds (record { session_id = id; at = at; body = b }) d
    unfolding Adds begin_deliver request_of sign_payload signed_text
    Adds-one id at (message_received m) d = (refl, omega arith, refl)
    Adds-one id at (message_status m) d = (refl, omega arith, refl)
    Adds-one id at (status_changed st phone) d = (refl, omega arith, refl)
    Adds-one id at (Events.qr text) d = (sym (append_nil d.posted), omega arith, refl)

    -- Of the events that are emitted the dispatcher posts each one that is not a QR code, once and in
    -- order, behind what was posted before, as the request that is promised for its kind, and as many
    -- more deliveries are in flight.
    pub emit_all-posted :
        (es : List SessionEvent) (d : Dispatcher)
        → ((emit_all es d).posted ≡ d.posted ++ requests_for es d.now)
          × (pending (emit_all es d) ≡ pending d + length (requests_for es d.now))
    unfolding emit_all requests_for emit emit_to attach on_event subscribe Adds
    emit_all-posted [] d = (sym (append_nil d.posted), omega arith)
    emit_all-posted (e ∷ es) d =
        let d' = after_one e d in
        let (posted, count, now) = Adds-one e.session_id e.at e.body d in
        let (later, more) = emit_all-posted es d' in
        let rs = promised_for e e.body d.now in
        (
          later
              ∙ ap (λ n. d'.posted ++ requests_for es n) now
              ∙ ap (λ xs. xs ++ requests_for es d.now) posted
              ∙ append_assoc d.posted rs (requests_for es d.now),
          more
              ∙ ap (λ n. pending d' + length (requests_for es n)) now
              ∙ ap (λ k. k + length (requests_for es d.now)) count
              ∙ omega (arith, length-append {0} rs (requests_for es d.now)),
        )
