-- ===== src/Config/Samples.antt =====
-- An environment that config.ts accepts, and its configuration.
use whatsapp_auto_send.Prelude.{◌≡◌, refl, String, Bool, none, some, ok, starts_with, text_runs}
use whatsapp_auto_send.Config.{
  ProcessEnv, Config, load_config, fields, refined, database_url_field, port_field, log_level_field,
  key_field, optional_key_field, timeout_field, webhook_url_field, is_digits, number_of, config_of,
}

unfoldable pub config_runs : Unit {0}
unfolding load_config fields refined database_url_field port_field log_level_field key_field
    optional_key_field timeout_field webhook_url_field is_digits number_of config_of text_runs
config_runs = tt

abbrev pub is_http : String → Bool
is_http s = starts_with s "http"

abbrev pub good_env : ProcessEnv
good_env = record {
  database_url = some "postgres://db";
  port = some "3000";
  log_level = some "info";
  dispatcher_api_key = some "dispatcher-key-0001";
  console_api_key = some "console-key-000001";
  webhook_url = some "http://api/hooks";
  webhook_secret = some "webhook-secret-01";
  webhook_timeout_ms = none;
}

abbrev pub good_config : Config
good_config = record {
  database_url = "postgres://db";
  port = 3000;
  log_level = "info";
  dispatcher_api_key = "dispatcher-key-0001";
  console_api_key = some "console-key-000001";
  webhook_url = some "http://api/hooks";
  webhook_secret = some "webhook-secret-01";
  webhook_timeout_ms = 5000;
}

pub accepted : load_config is_http good_env ≡ ok good_config
unfolding config_runs
accepted = refl
