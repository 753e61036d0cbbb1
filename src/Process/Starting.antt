-- ===== src/Process/Starting.antt =====
-- What index.ts has made sure of when the gateway listens, and which registry its routes read.
use whatsapp_auto_send.Prelude.{
  ℕ, String, Bool, false, List, Result, ok, ◌≡◌, ap, sym, ◌∙◌, arith, Bool-cases, Result-cases, inl,
  inr, string_eq, subst,
}
use whatsapp_auto_send.Config.{ProcessEnv, Config, load_config}
use whatsapp_auto_send.Config.Laws.{IsSound, load_config-IsSound}
use whatsapp_auto_send.Database.{Db}
use whatsapp_auto_send.Migrations.{
  ErrnoException, MigrationResult, Store, run_migrations, list_migration_files,
}
use whatsapp_auto_send.Migrations.Done.{AllDone}
use whatsapp_auto_send.Migrations.Runs.{run_migrations_complete}
use whatsapp_auto_send.Sessions.Events.{SessionEvent}
use whatsapp_auto_send.Process.{in_use, Gateway, listens, start, assembled}

module _ {S : Type 0} (digest : String → String → String) (json : SessionEvent → String)
    (is_url : String → Bool) (read : String → Result String String)
    (execute : String → S → Result String S) (env : ProcessEnv)
    (entries : Result ErrnoException (List String)) (binds : Bool) (db : Db) (now : ℕ)
    (store : Store S) where
  -- How the gateway came to listen.
  start-listens :
      (g : Gateway) (store' : Store S)
      → start digest json is_url read execute env entries binds db now store ≡ listens g store'
      → (cfg : Config) × (result : MigrationResult) × (load_config is_url env ≡ ok cfg)
        × (run_migrations read execute entries store ≡ (ok result, store'))
        × (g ≡ assembled digest json cfg db now)
  unfolding start
  start-listens g store' h = elim (Result-cases (load_config is_url env)) [
    | inr (issues, e) ↦ ground (arith, h, e)
    | inl (cfg, e) ↦ elim (Result-cases (run_migrations read execute entries store).0) [
      | inr (failure, m) ↦ ground (arith, h, e, m)
      | inl (result, m) ↦ elim (Bool-cases binds) [
        | inr b ↦ ground (arith, h, e, m, b)
        | inl b ↦ (cfg, result, e, ground (arith, h, e, m, b), ground (arith, h, e, m, b))
      ]
    ]
  ]

  -- When the gateway listens, its configuration is sound, each migration file of the directory has
  -- been applied, in this run or before, the lock of the migrations is free, and the pool is in use.
  pub start-ready :
      (g : Gateway) (store' : Store S) (files : List String)
      → start digest json is_url read execute env entries binds db now store ≡ listens g store'
      → list_migration_files entries ≡ ok files
      → IsSound g.config
        × AllDone store'.versions files
        × (store'.locked ≡ false)
        × (g.pool ≡ in_use)
  start-ready g store' files h listed =
      let (cfg, result, loaded, migrated, made) = start-listens g store' h in
      let (complete, free) =
        run_migrations_complete read execute entries files store result listed
          (ap (λ p. p.0) migrated) in
      (
        subst (λ x. IsSound x.config) (sym made) (load_config-IsSound is_url env cfg loaded),
        subst (λ t. AllDone t.versions files) (ap (λ p. p.1) migrated) complete,
        sym (ap (λ p. p.1.locked) migrated) ∙ free,
        ap (λ x. x.pool) made,
      )
