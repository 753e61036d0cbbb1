-- ===== src/Config.antt =====
-- baileys/src/config.ts: the environment, checked field by field and then as a whole.
pub mod Laws
pub mod Samples
mod Tests
use Prim.Native.Char.{code}
use whatsapp_auto_send.Prelude.{
  ℕ, zero, suc, ◌+◌, ◌-◌, ◌*◌, String, Bool, true, false, not, ◌&&◌, ◌||◌, Option, none, some, List,
  [], ◌∷◌, ◌++◌, Result, ok, err, ◌==◌, string_eq, nat_eq, leb, ltb, contains, if◌then◌else◌,
  utf16_length, is_digit, option_eq, is_truthy,
}

-- The variables that the schema names; `none` is a variable that is not set.
pub record ProcessEnv : Type 0 where
  pub database_url : Option String
  pub port : Option String
  pub log_level : Option String
  pub dispatcher_api_key : Option String
  pub console_api_key : Option String
  pub webhook_url : Option String
  pub webhook_secret : Option String
  pub webhook_timeout_ms : Option String

pub record Config : Type 0 where
  pub database_url : String
  pub port : ℕ
  pub log_level : String
  pub dispatcher_api_key : String
  pub console_api_key : Option String
  pub webhook_url : Option String
  pub webhook_secret : Option String
  pub webhook_timeout_ms : ℕ

-- A failed check: the variable, and the message where the schema gives one of its own.
pub record Issue : Type 0 where
  pub path : String
  pub message : Option String

abbrev pub Checked : Type 0 → Type 0
Checked A = Result (List Issue) A

abbrev fail : {A : Type 0} → String → Option String → Checked A
fail path message = err (record { path = path; message = message } ∷ [])

-- `^\d+$`
all_digits : String → Bool
all_digits String.[] = true
all_digits (String.◌∷◌ c s) = is_digit (code c) && all_digits s

is_digits : String → Bool
unfolding all_digits
is_digits String.[] = false
is_digits s = all_digits s

-- `Number` of a text of digits.
number_from : ℕ → String → ℕ
number_from acc String.[] = acc
number_from acc (String.◌∷◌ c s) = number_from (acc * 10 + (code c - 48)) s

number_of : String → ℕ
unfolding number_from
number_of s = number_from 0 s

required : String → Option String → Checked String
required path none = fail path none
required path (some s) = ok s

min_length : String → ℕ → String → String → Checked String
min_length path n message s = if ltb (utf16_length s) n then fail path (some message) else ok s

database_url_field : Option String → Checked String
unfolding required min_length
database_url_field none = fail "DATABASE_URL" none
database_url_field (some s) = min_length "DATABASE_URL" 1 "must be a Postgres connection string" s

port_field : Option String → Checked ℕ
port_field none = fail "PORT" none
port_field (some s) =
    if is_digits s
    then if leb (number_of s) 0
      then fail "PORT" none
      else if ltb 65535 (number_of s)
      then fail "PORT" (some "must be at most 65535")
      else ok (number_of s)
    else fail "PORT" (some "must be a port number")

abbrev log_levels : List String
log_levels = "fatal" ∷ "error" ∷ "warn" ∷ "info" ∷ "debug" ∷ "trace" ∷ "silent" ∷ []

log_level_field : Option String → Checked String
log_level_field none = fail "LOG_LEVEL" none
log_level_field (some s) = if contains log_levels s then ok s else fail "LOG_LEVEL" none

key_field : String → Option String → Checked String
unfolding min_length
key_field path none = fail path none
key_field path (some s) = min_length path 16 "must be at least 16 characters" s

optional_key_field : String → Option String → Checked (Option String)
optional_key_field path none = ok none
optional_key_field path (some s) =
    if ltb (utf16_length s) 16
    then fail path (some "must be at least 16 characters")
    else ok (some s)

timeout_field : Option String → Checked ℕ
timeout_field none = ok 5_000
timeout_field (some s) =
    if is_digits s
    then if leb 100 (number_of s) && leb (number_of s) 30_000
      then ok (number_of s)
      else fail "WEBHOOK_TIMEOUT_MS" none
    else fail "WEBHOOK_TIMEOUT_MS" (some "must be a number of milliseconds")

-- An object schema reports the issues of every field.
infixr 20 ◌&◌
abbrev ◌&◌ : {A B : Type 0} → Checked A → Checked B → Checked (A × B)
ok a & ok b = ok (a, b)
ok a & err is = err is
err is & ok b = err is
err is & err js = err (is ++ js)

abbrev map_checked : {A B : Type 0} → (A → B) → Checked A → Checked B
map_checked f (ok a) = ok (f a)
map_checked f (err is) = err is

-- The two `refine` calls, which run once every field is right.
refined : Config → Checked Config
refined cfg =
    if is_truthy cfg.webhook_url && not (is_truthy cfg.webhook_secret)
    then fail "WEBHOOK_SECRET" (some "is required when WEBHOOK_URL is set")
    else if cfg.console_api_key == some cfg.dispatcher_api_key
    then fail "CONSOLE_API_KEY" (
        some
          "must differ from DISPATCHER_API_KEY — one shared token means neither client can be revoked without breaking the other")
    else ok cfg

abbrev Fields : Type 0
Fields =
    String × (ℕ × (String × (String × (Option String × (Option String × (Option String × ℕ))))))

config_of : Fields → Config
config_of (url, (port, (level, (key, (console, (webhook, (secret, timeout))))))) = record {
  database_url = url;
  port = port;
  log_level = level;
  dispatcher_api_key = key;
  console_api_key = console;
  webhook_url = webhook;
  webhook_secret = secret;
  webhook_timeout_ms = timeout;
}

-- `is_url` is the test of `z.url`.
module _ (is_url : String → Bool) where
  webhook_url_field : Option String → Checked (Option String)
  webhook_url_field none = ok none
  webhook_url_field (some s) =
      if is_url s then ok (some s) else fail "WEBHOOK_URL" (some "must be an http(s) URL")

  fields : ProcessEnv → Checked Config
  fields env = map_checked config_of (
      database_url_field env.database_url
      & port_field env.port
      & log_level_field env.log_level
      & key_field "DISPATCHER_API_KEY" env.dispatcher_api_key
      & optional_key_field "CONSOLE_API_KEY" env.console_api_key
      & webhook_url_field env.webhook_url
      & optional_key_field "WEBHOOK_SECRET" env.webhook_secret
      & timeout_field env.webhook_timeout_ms)

  pub load_config : ProcessEnv → Checked Config
  load_config env = elim (fields env) [ ok cfg ↦ refined cfg | err is ↦ err is ]

pub record MigrationConfig : Type 0 where
  pub database_url : String
  pub log_level : String

default_log_level : Option String → Checked String
unfolding log_level_field
default_log_level none = ok "info"
default_log_level (some s) = log_level_field (some s)

migration_config_of : String × String → MigrationConfig
migration_config_of (url, level) = record { database_url = url; log_level = level }

-- The command that only migrates needs the database alone.
unfoldable pub load_migration_config : ProcessEnv → Checked MigrationConfig
unfolding database_url_field default_log_level migration_config_of
load_migration_config env =
    map_checked migration_config_of
      (database_url_field env.database_url & default_log_level env.log_level)
