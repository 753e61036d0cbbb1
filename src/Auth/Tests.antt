-- ===== src/Auth/Tests.antt =====
-- Runs of auth.ts, and the theorems at concrete requests.
use mathlib.Core.Option.{some-injective}
use whatsapp_auto_send.Prelude.{
  ◌≡◌, refl, ◌↔◌, String, none, some, ok, err, arith, ne_by_test, text_runs, subst, ◌≤◌,
  utf16_length,
}
use whatsapp_auto_send.Config.{Config}
use whatsapp_auto_send.Config.Laws.{IsSound}
use whatsapp_auto_send.Errors.{unauthorized_error, forbidden_error}
use whatsapp_auto_send.Auth.{send, Request, authorize, extract_bearer, credentials_from, auth_runs}
use whatsapp_auto_send.Auth.Access.{MayCall, authorize-MayCall}

abbrev both_keys : Config
both_keys = record {
  database_url = "postgres://db";
  port = 3000;
  log_level = "info";
  dispatcher_api_key = "dispatcher-key-0001";
  console_api_key = some "console-key-000001";
  webhook_url = none;
  webhook_secret = none;
  webhook_timeout_ms = 5000;
}

both_keys-IsSound : IsSound both_keys
unfolding text_runs
both_keys-IsSound = record {
  long_key = omega arith;
  keys_differ = λ e.
      ne_by_test "console-key-000001" "dispatcher-key-0001" refl
        (some-injective "console-key-000001" "dispatcher-key-0001" e);
  console_long = λ key e.
      subst (λ k. 16 ≤ utf16_length k) (some-injective "console-key-000001" key e) (omega arith);
  signed = λ h. cc;
  port_low = omega arith;
  port_high = omega arith;
  timeout_low = omega arith;
  timeout_high = omega arith;
}

abbrev send_request : String → Request
send_request header = record {
  method = "POST";
  url = "/sessions/abc/send?dry=1";
  authorization = some header;
  route = some "/sessions/:id/send";
}

by_dispatcher :
    authorize (credentials_from both_keys) (send_request "bEARER  dispatcher-key-0001 ") ≡ ok tt
unfolding auth_runs
by_dispatcher = refl

by_console :
    authorize (credentials_from both_keys) (send_request "Bearer console-key-000001")
    ≡ err (forbidden_error "the console credential has no \"send\" capability")
unfolding auth_runs
by_console = refl

by_nobody :
    authorize (credentials_from both_keys) (send_request "Basic dispatcher-key-0001")
    ≡ err unauthorized_error
unfolding auth_runs
by_nobody = refl

authorize-MayCall_example :
    (authorize (credentials_from both_keys) (send_request "Bearer console-key-000001") ≡ ok tt) ↔ (
      (token : String) × (extract_bearer (some "Bearer console-key-000001") ≡ some token)
      × MayCall both_keys token send)
unfolding auth_runs
authorize-MayCall_example =
    authorize-MayCall both_keys both_keys-IsSound (send_request "Bearer console-key-000001") send
      refl refl

abbrev new_route : Request
new_route = record {
  method = "PUT";
  url = "/sessions/abc/label";
  authorization = some "Bearer console-key-000001";
  route = some "/sessions/:id/label";
}
