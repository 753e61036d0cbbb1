-- ===== src/Config/Laws.antt =====
-- What holds of every configuration that `loadConfig` returns.
use whatsapp_auto_send.Prelude.{
  is_truthy, ℕ, ◌≤◌, String, Bool, true, Option, none, some, ok, err, ◌≡◌, ◌≢◌, refl, arith,
  utf16_length, inl, inr, Result-cases, ap, ◌∙◌,
}
use whatsapp_auto_send.Config.{
  ProcessEnv, Config, Checked, refined, fields, load_config, config_of, port_field, key_field,
  optional_key_field, timeout_field, ◌&◌, map_checked,
}

-- The two access keys are long and differ, a webhook has a secret, and the numbers are in range.
pub record IsSound (cfg : Config) : Type 0 where
  pub long_key : 16 ≤ utf16_length cfg.dispatcher_api_key
  pub keys_differ : cfg.console_api_key ≢ some cfg.dispatcher_api_key
  pub console_long : (key : String) → cfg.console_api_key ≡ some key → 16 ≤ utf16_length key
  pub signed : is_truthy cfg.webhook_url ≡ true → is_truthy cfg.webhook_secret ≡ true
  pub port_low : 1 ≤ cfg.port
  pub port_high : cfg.port ≤ 65535
  pub timeout_low : 100 ≤ cfg.webhook_timeout_ms
  pub timeout_high : cfg.webhook_timeout_ms ≤ 30_000

&-eq-ok :
    {A B : Type 0} (x : Checked A) (y : Checked B) (p : A × B)
    → (x & y) ≡ ok p
    → (x ≡ ok p.0) × (y ≡ ok p.1)
&-eq-ok (ok a) (ok b) p h = ground arith
&-eq-ok (ok a) (err is) p h = cc
&-eq-ok (err is) (ok b) p h = cc
&-eq-ok (err is) (err js) p h = cc

map_checked-eq-ok :
    {A B : Type 0} (f : A → B) (x : Checked A) (b : B)
    → map_checked f x ≡ ok b
    → (a : A) × (x ≡ ok a) × (f a ≡ b)
map_checked-eq-ok f (ok a) b h = (a, refl, ground arith)
map_checked-eq-ok f (err is) b h = cc

port_field-range : (o : Option String) (n : ℕ) → port_field o ≡ ok n → (1 ≤ n) × (n ≤ 65535)
unfolding port_field
port_field-range none n h = cc
port_field-range (some s) n h = ground arith

timeout_field-range :
    (o : Option String) (n : ℕ) → timeout_field o ≡ ok n → (100 ≤ n) × (n ≤ 30_000)
unfolding timeout_field
timeout_field-range none n h = ground arith
timeout_field-range (some s) n h = ground arith

key_field-long :
    (path : String) (o : Option String) (s : String) → key_field path o ≡ ok s → 16 ≤ utf16_length s
unfolding key_field
key_field-long path none s h = cc
key_field-long path (some t) s h = ground arith

optional_key_field-long :
    (path : String) (o r : Option String) (s : String)
    → optional_key_field path o ≡ ok r
    → r ≡ some s
    → 16 ≤ utf16_length s
unfolding optional_key_field
optional_key_field-long path none r s h e = cc
optional_key_field-long path (some t) r s h e = ground arith

module _ (is_url : String → Bool) where
  -- The fields of a configuration are the results of the checks.
  fields-eq-ok :
      (env : ProcessEnv) (cfg : Config)
      → fields is_url env ≡ ok cfg
      → (port_field env.port ≡ ok cfg.port)
        × (key_field "DISPATCHER_API_KEY" env.dispatcher_api_key ≡ ok cfg.dispatcher_api_key)
        × (optional_key_field "CONSOLE_API_KEY" env.console_api_key ≡ ok cfg.console_api_key)
        × (timeout_field env.webhook_timeout_ms ≡ ok cfg.webhook_timeout_ms)
  unfolding fields config_of
  fields-eq-ok env cfg h =
      let (p, e, c) = map_checked-eq-ok config_of _ cfg h in
      let (_, e1) = &-eq-ok _ _ p e in
      let (r2, e2) = &-eq-ok _ _ p.1 e1 in
      let (_, e3) = &-eq-ok _ _ p.1.1 e2 in
      let (r4, e4) = &-eq-ok _ _ p.1.1.1 e3 in
      let (r5, e5) = &-eq-ok _ _ p.1.1.1.1 e4 in
      let (_, e6) = &-eq-ok _ _ p.1.1.1.1.1 e5 in
      let (_, r8) = &-eq-ok _ _ p.1.1.1.1.1.1 e6 in rw (← c) (r2, r4, r5, r8)

  refined-eq-ok :
      (c cfg : Config)
      → refined c ≡ ok cfg
      → (c ≡ cfg)
        × (cfg.console_api_key ≢ some cfg.dispatcher_api_key)
        × (is_truthy cfg.webhook_url ≡ true → is_truthy cfg.webhook_secret ≡ true)
  unfolding refined
  refined-eq-ok c cfg h = ground arith

  -- Every configuration that `loadConfig` returns, from any environment, is sound: both keys have 16
  -- characters or more and differ, a webhook URL comes with a secret, and the port and the webhook
  -- timeout lie in their ranges.
  pub load_config-IsSound :
      (env : ProcessEnv) (cfg : Config) → load_config is_url env ≡ ok cfg → IsSound cfg
  unfolding load_config
  load_config-IsSound env cfg h = elim (Result-cases (fields is_url env)) [
    | inr (is, e) ↦ ground (arith, e)
    | inl (c, e) ↦
        let (same, differ, signed) = refined-eq-ok c cfg (ground (arith, e)) in
        let (r2, r4, r5, r8) = fields-eq-ok env cfg (e ∙ ap ok same) in
        let (port_low, port_high) = port_field-range _ _ r2 in
        let (timeout_low, timeout_high) = timeout_field-range _ _ r8 in
        record {
          long_key = key_field-long _ _ _ r4;
          keys_differ = differ;
          console_long = λ key k. optional_key_field-long _ _ _ key r5 k;
          signed = signed;
          port_low = port_low;
          port_high = port_high;
          timeout_low = timeout_low;
          timeout_high = timeout_high;
        }
  ]
