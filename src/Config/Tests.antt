-- ===== src/Config/Tests.antt =====
-- Runs of config.ts, and the theorem at an environment that is accepted.
use whatsapp_auto_send.Prelude.{◌≡◌, refl, some, [], ◌∷◌, err}
use whatsapp_auto_send.Config.{load_config}
use whatsapp_auto_send.Config.Laws.{IsSound, load_config-IsSound}
use whatsapp_auto_send.Config.Samples.{config_runs, is_http, good_env, good_config, accepted}

shared_key :
    load_config is_http (record good_env { console_api_key = some "dispatcher-key-0001" })
    ≡ err (
        record {
          path = "CONSOLE_API_KEY";
          message =
              some
                "must differ from DISPATCHER_API_KEY — one shared token means neither client can be revoked without breaking the other";
        }
        ∷ [])
unfolding config_runs
shared_key = refl

load_config-IsSound_example : IsSound good_config
load_config-IsSound_example = load_config-IsSound is_http good_env good_config accepted
