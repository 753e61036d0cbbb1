-- ===== src/Migrations/Applied.antt =====
-- Which files a run of migrate.ts applies, and what a second run does.
use whatsapp_auto_send.Prelude.{
  String, true, false, List, [], ◌∷◌, ◌++◌, Result, ok, err, ◌≡◌, ◌⊎◌, refl, ap, sym, ◌∙◌, arith,
  Bool-cases, Result-cases, inl, inr, string_eq, contains, append_nil, append_assoc, subst,
}
use whatsapp_auto_send.Migrations.{
  Failure, reading, migration_failed, MigrationResult, Store, apply_file, apply_all, message_of,
}

-- The files that are not among the versions that are done, and those that are.
unfoldable pub missing : List String → List String → List String
missing done [] = []
missing done (f ∷ fs) = elim (contains done f) [
  | true ↦ missing done fs
  | false ↦ f ∷ missing done fs
]

unfoldable pub present : List String → List String → List String
present done [] = []
present done (f ∷ fs) = elim (contains done f) [
  | true ↦ f ∷ present done fs
  | false ↦ present done fs
]

module _ {S : Type 0} (read : String → Result String String)
    (execute : String → S → Result String S) where
  -- Each of the files is read and its transaction goes through, in order.
  abbrev pub AppliedBy : List String → Store S → Store S → Type 0
  AppliedBy [] db db' = db ≡ db'
  AppliedBy (f ∷ fs) db db' =
      (sql : String) × (mid : Store S) × (read f ≡ ok sql)
      × (apply_file execute f sql db ≡ ok mid)
      × AppliedBy fs mid db'

  -- The file cannot be read, or its transaction is rolled back.
  abbrev pub FailsOn : String → Store S → Failure → Type 0
  FailsOn f db e =
      ((message : String) × (read f ≡ err message) × (e ≡ reading message))
      ⊎ ((sql : String) × (message : String) × (read f ≡ ok sql)
          × (apply_file execute f sql db ≡ err message)
          × (e ≡ migration_failed (message_of f message)))

  -- The missing files `ms` have all been applied, or those in front of one that fails; `ps` are the
  -- files that were there.
  abbrev pub Ending :
      List String
      → List String
      → MigrationResult
      → Store S
      → Result Failure MigrationResult × Store S
      → Type 0
  Ending ms ps result db out =
      ((out.0
          ≡ ok (record {
            applied = result.applied ++ ms;
            already_applied = result.already_applied ++ ps;
          }))
        × AppliedBy ms db out.1)
      ⊎ ((before : List String) × (file : String) × (after : List String) × (e : Failure) × (ms
            ≡ before ++ file ∷ after)
          × AppliedBy before db out.1
          × FailsOn file out.1 e
          × (out.0 ≡ err e))

  -- The loop goes on behind a file that was there, and behind one that was applied.
  skipped :
      (ms ps : List String) (f : String) (result : MigrationResult) (db : Store S)
      (out : Result Failure MigrationResult × Store S)
      → Ending ms ps (record result { already_applied = result.already_applied ++ (f ∷ []) }) db out
      → Ending ms (f ∷ ps) result db out
  skipped ms ps f result db out (inl (e, a)) = inl (
    e
        ∙ ap
            (λ (xs : List String).
              ok (record { applied = result.applied ++ ms; already_applied = xs }))
            (append_assoc result.already_applied (f ∷ []) ps),
    a,
  )
  skipped ms ps f result db out (inr stopped) = inr stopped

  applied_one :
      (ms ps : List String) (f sql : String) (result : MigrationResult) (db mid : Store S)
      (out : Result Failure MigrationResult × Store S)
      → read f ≡ ok sql
      → apply_file execute f sql db ≡ ok mid
      → Ending ms ps (record result { applied = result.applied ++ (f ∷ []) }) mid out
      → Ending (f ∷ ms) ps result db out
  applied_one ms ps f sql result db mid out h k (inl (e, a)) = inl (
    e
        ∙ ap
            (λ (xs : List String).
              ok (record { applied = xs; already_applied = result.already_applied ++ ps }))
            (append_assoc result.applied (f ∷ []) ms),
    (sql, mid, h, k, a),
  )
  applied_one ms ps f sql result db mid out h k
        (inr (before, file, after, e, split, a, fails, is)) =
      inr (f ∷ before, file, after, e, ap (λ xs. f ∷ xs) split, (sql, mid, h, k, a), fails, is)

  pub apply_all-applied :
      (done : List String) (f sql : String) (files : List String) (result : MigrationResult)
      (db mid : Store S)
      → contains done f ≡ false
      → read f ≡ ok sql
      → apply_file execute f sql db ≡ ok mid
      → apply_all read execute done (f ∷ files) result db
        ≡ apply_all read execute done files
            (record result { applied = result.applied ++ (f ∷ []) })
            mid
  unfolding apply_all
  apply_all-applied done f sql files result db mid new h k = rw (new, apply_all) (rw h (rw k refl))

  pub apply_all-old :
      (done : List String) (f : String) (files : List String) (result : MigrationResult)
      (db : Store S)
      → contains done f ≡ true
      → apply_all read execute done (f ∷ files) result db
        ≡ apply_all read execute done files
            (record result { already_applied = result.already_applied ++ (f ∷ []) })
            db
  unfolding apply_all
  apply_all-old done f files result db old = rw (old, apply_all)

  pub apply_all-Ending :
      (done files : List String) (result : MigrationResult) (db : Store S)
      → Ending
          (missing done files)
          (present done files)
          result
          db
          (apply_all read execute done files result db)
  unfolding apply_all missing present
  apply_all-Ending done [] result db =
      inl (ground (arith, append_nil result.applied, append_nil result.already_applied), refl)
  apply_all-Ending done (f ∷ files) result db = elim (Bool-cases (contains done f)) [
    | inl old ↦
        rw (old, apply_all, missing, present)
          (skipped (missing done files) (present done files) f result db _ (
            apply_all-Ending done files
              (record result { already_applied = result.already_applied ++ (f ∷ []) }) db))
    | inr new ↦ elim (Result-cases (read f)) [
      | inr (message, h) ↦
          rw (new, apply_all, missing, present)
            (rw h (
              inr (
                [],
                f,
                missing done files,
                reading message,
                refl,
                refl,
                inl (message, h, refl),
                refl,
              )))
      | inl (sql, h) ↦ elim (Result-cases (apply_file execute f sql db)) [
        | inr (message, k) ↦
            rw (new, apply_all, missing, present)
              (rw h (
                rw k (
                  inr (
                    [],
                    f,
                    missing done files,
                    migration_failed (message_of f message),
                    refl,
                    refl,
                    inr (sql, message, h, k, refl),
                    refl,
                  ))))
        | inl (mid, k) ↦
            rw (new, missing, present)
              (subst (Ending (f ∷ missing done files) (present done files) result db)
                (sym (apply_all-applied done f sql files result db mid new h k))
                (applied_one (missing done files) (present done files) f sql result db mid _ h k (
                  apply_all-Ending done files
                    (record result { applied = result.applied ++ (f ∷ []) }) mid)))
      ]
    ]
  ]

  apply_file-versions :
      (f sql : String) (db mid : Store S)
      → apply_file execute f sql db ≡ ok mid
      → mid.versions ≡ db.versions ++ f ∷ []
  unfolding apply_file
  apply_file-versions f sql db mid h = ground (arith, h)

  -- What is applied is written down.
  pub AppliedBy-versions :
      (fs : List String) (db db' : Store S) → AppliedBy fs db db' → db'.versions ≡ db.versions ++ fs
  AppliedBy-versions [] db db' a = ap (λ d. d.versions) (sym a) ∙ sym (append_nil db.versions)
  AppliedBy-versions (f ∷ fs) db db' (sql, mid, h, k, a) =
      AppliedBy-versions fs mid db' a
      ∙ ap (λ vs. vs ++ fs) (apply_file-versions f sql db mid k)
      ∙ append_assoc db.versions (f ∷ []) fs

  apply_file-frame :
      (f sql : String) (db mid : Store S)
      → apply_file execute f sql db ≡ ok mid
      → (mid.locked ≡ db.locked) × (mid.clients ≡ db.clients)
  unfolding apply_file
  apply_file-frame f sql db mid h = ground (arith, h)

  pub AppliedBy-frame :
      (fs : List String) (db db' : Store S)
      → AppliedBy fs db db'
      → (db'.locked ≡ db.locked) × (db'.clients ≡ db.clients)
  AppliedBy-frame [] db db' a = (ap (λ d. d.locked) (sym a), ap (λ d. d.clients) (sym a))
  AppliedBy-frame (f ∷ fs) db db' (sql, mid, h, k, a) =
      let one = apply_file-frame f sql db mid k in
      let rest = AppliedBy-frame fs mid db' a in (rest.0 ∙ one.0, rest.1 ∙ one.1)
