-- ===== src/Migrations/Runs.antt =====
-- Whole runs of migrate.ts: how one ends, when it succeeds, and the run after it.
use whatsapp_auto_send.Prelude.{
  ℕ, suc, ◌-◌, String, true, false, List, [], ◌∷◌, ◌++◌, Result, ok, ◌≡◌, ap, sym, ◌∙◌, arith,
  Bool-cases, inl, inr, string_eq, contains, append_nil, append_assoc, subst,
}
use whatsapp_auto_send.Migrations.{
  ErrnoException, Failure, MigrationResult, Store, apply_all, list_migration_files, run_migrations,
}
use whatsapp_auto_send.Migrations.Done.{
  missing-old, missing-new, present-old, present-new, AllDone-missing, apply_all-done, AllDone,
}
use whatsapp_auto_send.Migrations.Applied.{
  missing, present, AppliedBy, Ending, apply_all-Ending, apply_all-applied, apply_all-old,
  AppliedBy-versions, AppliedBy-frame,
}

abbrev pub nothing_yet : MigrationResult
nothing_yet = record { applied = []; already_applied = [] }

-- The lock is held, and a client is taken from the pool.
abbrev pub taken : {S : Type 0} → Store S → Store S
taken db = record db { locked = true; clients = suc db.clients }

-- The loop has come through, with these files applied and these there before.
abbrev came_through :
    {S : Type 0}
    → MigrationResult
    → List String
    → List String
    → Store S
    → Result Failure MigrationResult × Store S
came_through result ms ps x = (
  ok (record { applied = result.applied ++ ms; already_applied = result.already_applied ++ ps }),
  x,
)

module _ {S : Type 0} (read : String → Result String String)
    (execute : String → S → Result String S) where
  apply_all-succeeds :
      (done files : List String) (result : MigrationResult) (db x : Store S)
      → AppliedBy read execute (missing done files) db x
      → apply_all read execute done files result db
        ≡ came_through result (missing done files) (present done files) x
  unfolding apply_all missing present
  apply_all-succeeds done [] result db x a =
      ground (arith, a, append_nil result.applied, append_nil result.already_applied)
  apply_all-succeeds done (f ∷ files) result db x a = elim (Bool-cases (contains done f)) [
    | inl old ↦
        apply_all-old read execute done f files result db old
        ∙ apply_all-succeeds done files
            (record result { already_applied = result.already_applied ++ (f ∷ []) }) db x
            (subst (λ ms. AppliedBy read execute ms db x) (missing-old done files f old) a)
        ∙ ap
            (λ ps. (
              ok (record { applied = result.applied ++ missing done files; already_applied = ps }),
              x,
            ))
            (append_assoc result.already_applied (f ∷ []) (present done files))
        ∙ ap (λ ms. came_through result ms (f ∷ present done files) x)
            (sym (missing-old done files f old))
        ∙ ap (λ ps. came_through result (missing done (f ∷ files)) ps x)
            (sym (present-old done files f old))
    | inr new ↦
        let (sql, mid, h, k, rest) =
          subst (λ ms. AppliedBy read execute ms db x) (missing-new done files f new) a in
        apply_all-applied read execute done f sql files result db mid new h k
        ∙ apply_all-succeeds done files (record result { applied = result.applied ++ (f ∷ []) }) mid
            x rest
        ∙ ap
            (λ ms. (
              ok (record {
                applied = ms;
                already_applied = result.already_applied ++ present done files;
              }),
              x,
            ))
            (append_assoc result.applied (f ∷ []) (missing done files))
        ∙ ap (λ ms. came_through result ms (present done files) x)
            (sym (missing-new done files f new))
        ∙ ap (λ ps. came_through result (missing done (f ∷ files)) ps x)
            (sym (present-new done files f new))
  ]

  Ending-frame :
      (ms ps : List String) (result : MigrationResult) (db : Store S)
      (out : Result Failure MigrationResult × Store S)
      → Ending read execute ms ps result db out
      → (out.1.locked ≡ db.locked) × (out.1.clients ≡ db.clients)
  Ending-frame ms ps result db out (inl (e, a)) = AppliedBy-frame read execute ms db out.1 a
  Ending-frame ms ps result db out (inr (before, file, after, e, split, a, fails, is)) =
      AppliedBy-frame read execute before db out.1 a

  module _ (entries : Result ErrnoException (List String)) (files : List String)
      (listed : list_migration_files entries ≡ ok files) (db : Store S) where
    abbrev looped : Result Failure MigrationResult × Store S
    looped = apply_all read execute db.versions files nothing_yet (taken db)

    loop_ends :
        Ending read execute
          (missing db.versions files)
          (present db.versions files)
          nothing_yet
          (taken db)
          looped
    loop_ends = apply_all-Ending read execute db.versions files nothing_yet (taken db)

    run_migrations-looped :
        run_migrations read execute entries db
        ≡ (looped.0, record looped.1 { locked = false; clients = db.clients })
    unfolding run_migrations
    run_migrations-looped =
        let kept : looped.1.clients ≡ suc db.clients =
          (Ending-frame (missing db.versions files) (present db.versions files) nothing_yet
            (taken db) looped loop_ends).1 in
        rw (listed, run_migrations)
          (ap (λ (n : ℕ). (looped.0, record looped.1 { locked = false; clients = n }))
            (let e : looped.1.clients - 1 ≡ db.clients = omega (arith, kept) in e))

    -- A run over a directory that can be listed either applies each file that was missing, in order,
    -- and says so, or stops at the first one that fails, with the error of that file, the files in
    -- front of it applied and nothing else changed. Either way it ends with the lock free and its
    -- client given back.
    pub run_migrations-Ending :
        (x : Store S) × Ending read execute
          (missing db.versions files)
          (present db.versions files)
          nothing_yet
          (taken db)
          ((run_migrations read execute entries db).0, x)
        × ((run_migrations read execute entries db).1
            ≡ record x { locked = false; clients = db.clients })
    run_migrations-Ending = (
      looped.1,
      subst
          (λ r.
            Ending read execute (missing db.versions files) (present db.versions files) nothing_yet
              (taken db) (r, looped.1))
          (sym (ap (λ p. p.0) run_migrations-looped)) loop_ends,
      ap (λ p. p.1) run_migrations-looped,
    )

    -- If every missing file can be read and its transaction goes through, in order, the run comes
    -- through with all of them applied.
    pub run_migrations-succeeds :
        (x : Store S)
        → AppliedBy read execute (missing db.versions files) (taken db) x
        → run_migrations read execute entries db ≡ (
          ok (record {
            applied = missing db.versions files;
            already_applied = present db.versions files;
          }),
          record x { locked = false; clients = db.clients },
        )
    run_migrations-succeeds x a =
        run_migrations-looped
        ∙ ap (λ p. (p.0, record p.1 { locked = false; clients = db.clients }))
            (apply_all-succeeds db.versions files nothing_yet (taken db) x a)

  -- A run of which nothing is missing.
  run_migrations-nothing :
      (entries : Result ErrnoException (List String)) (files : List String)
      → list_migration_files entries ≡ ok files
      → (db : Store S) → AllDone db.versions files
      → db.locked ≡ false
      → run_migrations read execute entries db
        ≡ (ok (record { applied = []; already_applied = files }), db)
  run_migrations-nothing entries files listed db all free =
      run_migrations-looped entries files listed db
      ∙ ap (λ p. (p.0, record p.1 { locked = false; clients = db.clients }))
          (apply_all-done read execute db.versions files nothing_yet (taken db) all)
      ∙ ap (λ b. (ok (record { applied = []; already_applied = files }), record db { locked = b }))
          (sym free)

  -- A run that came through has every file among its versions.
  ended_done :
      (files : List String) (db x : Store S) (r : MigrationResult)
      (answer : Result Failure MigrationResult)
      → answer ≡ ok r
      → Ending read execute
          (missing db.versions files)
          (present db.versions files)
          nothing_yet
          (taken db)
          (answer, x)
      → AllDone x.versions files
  ended_done files db x r answer through (inl (e, a)) =
      subst (λ vs. AllDone vs files)
        (sym (AppliedBy-versions read execute (missing db.versions files) (taken db) x a))
        (AllDone-missing db.versions files)
  ended_done files db x r answer through (inr (before, file, after, e, split, a, fails, is)) = cc

  -- A run that came through leaves the lock free and has every file among its versions.
  pub run_migrations_complete :
      (entries : Result ErrnoException (List String)) (files : List String) (db : Store S)
      (r : MigrationResult)
      → list_migration_files entries ≡ ok files
      → (run_migrations read execute entries db).0 ≡ ok r
      → AllDone (run_migrations read execute entries db).1.versions files
        × ((run_migrations read execute entries db).1.locked ≡ false)
  run_migrations_complete entries files db r listed through =
      let (x, ending, state) = run_migrations-Ending entries files listed db in
      (
        subst (λ t. AllDone t.versions files) (sym state)
            (ended_done files db x r (run_migrations read execute entries db).0 through ending),
        ap (λ t. t.locked) state,
      )

  -- The run after one that came through, over a directory with the same files, applies nothing,
  -- names every file as applied already, and leaves the database as it was.
  pub run_migrations-again :
      (entries : Result ErrnoException (List String)) (files : List String) (db : Store S)
      (r : MigrationResult)
      → list_migration_files entries ≡ ok files
      → (run_migrations read execute entries db).0 ≡ ok r
      → run_migrations read execute entries (run_migrations read execute entries db).1 ≡ (
        ok (record { applied = []; already_applied = files }),
        (run_migrations read execute entries db).1,
      )
  run_migrations-again entries files db r listed through =
      let (complete, free) = run_migrations_complete entries files db r listed through in
      run_migrations-nothing entries files listed (run_migrations read execute entries db).1
        complete free
