-- ===== src/Webhooks/Attach.antt =====
-- When webhooks/dispatcher.ts puts a dispatcher on the bus.
use whatsapp_auto_send.Prelude.{
  ◌+◌, String, Bool, true, false, Option, none, some, [], ◌∷◌, ok, ◌≡◌, refl, arith, length-append,
  if◌then◌else◌, is_truthy,
}
use whatsapp_auto_send.Config.{ProcessEnv, Config, load_config}
use whatsapp_auto_send.Config.Laws.{load_config-IsSound}
use whatsapp_auto_send.Sessions.Events.{SessionEvent, EventBus, Listener, subscribe, listener_count}
use whatsapp_auto_send.Webhooks.{Options, Dispatcher, both, on_event, attach, attach_webhooks}

listener_count-subscribe :
    {S : Type 0} (bus : EventBus S) (l : Listener S)
    → listener_count (subscribe bus l).1 ≡ listener_count bus + 1
unfolding listener_count subscribe
listener_count-subscribe bus l =
    omega (arith, length-append {0} bus.listeners ((bus.next_listener, l) ∷ []))

abbrev pub text_of : Option String → String
text_of none = ""
text_of (some s) = s

-- A URL that comes with a secret decides alone.
both-signed :
    (url secret : Option String)
    → (is_truthy url ≡ true → is_truthy secret ≡ true)
    → both url secret ≡ (if is_truthy url then some (text_of url, text_of secret) else none)
both-signed none none h = refl
both-signed none (some t) h = refl
both-signed (some s) none h = ground (arith, h)
both-signed (some s) (some t) h = ground (arith, h)

abbrev pub options_of : Config → Options
options_of cfg = record {
  url = text_of cfg.webhook_url;
  secret = text_of cfg.webhook_secret;
  timeout_ms = cfg.webhook_timeout_ms;
}

module _ (digest : String → String → String) (json : SessionEvent → String)
    (is_url : String → Bool) where
  pub attached :
      (cfg : Config) (bus : EventBus Dispatcher) (b : Bool)
      → both cfg.webhook_url cfg.webhook_secret
        ≡ (if b then some (text_of cfg.webhook_url, text_of cfg.webhook_secret) else none)
      → ((attach_webhooks digest json cfg bus).0
          ≡ (if b then some (bus.next_listener, options_of cfg) else none))
        × (listener_count (attach_webhooks digest json cfg bus).1
            ≡ listener_count bus + (if b then 1 else 0))
  unfolding attach_webhooks attach subscribe
  attached cfg bus true h =
      rw (attach_webhooks, h)
        (refl, listener_count-subscribe bus (on_event digest json (options_of cfg)))
  attached cfg bus false h = rw (attach_webhooks, h) (refl, omega arith)

  -- With a configuration that `loadConfig` returns, a dispatcher is made and put on the bus exactly
  -- when a webhook URL is set that is not empty, with that URL and the configured secret and timeout.
  pub attach_webhooks-configured :
      (env : ProcessEnv) (cfg : Config) (bus : EventBus Dispatcher)
      → load_config is_url env ≡ ok cfg
      → ((attach_webhooks digest json cfg bus).0
          ≡ (if is_truthy cfg.webhook_url then some (bus.next_listener, options_of cfg) else none))
        × (listener_count (attach_webhooks digest json cfg bus).1
            ≡ listener_count bus + (if is_truthy cfg.webhook_url then 1 else 0))
  attach_webhooks-configured env cfg bus h =
      attached cfg bus (is_truthy cfg.webhook_url) (
        both-signed cfg.webhook_url cfg.webhook_secret
          (load_config-IsSound is_url env cfg h).signed)
