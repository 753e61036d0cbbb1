-- ===== src/Migrations/Done.antt =====
-- The files that migrate.ts has done, and a run that has nothing to do.
use whatsapp_auto_send.Prelude.{
  String, true, false, List, [], ◌∷◌, ◌++◌, Result, ok, ◌≡◌, refl, ap, sym, ◌∙◌, arith, Bool-cases,
  inl, inr, string_eq, contains, append_nil, append_assoc, subst, All, ◌||◌, ==-true_of_eq,
}
use whatsapp_auto_send.Migrations.{MigrationResult, Store, apply_all}
use whatsapp_auto_send.Migrations.Applied.{missing, present}

contains-append :
    (xs ys : List String) (x : String) → contains (xs ++ ys) x ≡ (contains xs x || contains ys x)
contains-append [] ys x = refl
contains-append (y ∷ xs) ys x = ground (arith, contains-append xs ys x)

-- Every file is among those that are done.
abbrev pub AllDone : List String → List String → Type 0
AllDone done fs = All (λ f. contains done f ≡ true) fs

pub AllDone-more :
    (done more fs : List String)
    → ((x : String) → contains done x ≡ true → contains more x ≡ true)
    → AllDone done fs
    → AllDone more fs
AllDone-more done more [] h a = tt
AllDone-more done more (f ∷ fs) h a = (h f a.0, AllDone-more done more fs h a.1)

pub missing-old :
    (done files : List String) (f : String)
    → contains done f ≡ true
    → missing done (f ∷ files) ≡ missing done files
unfolding missing
missing-old done files f h = rw (h, missing)

pub missing-new :
    (done files : List String) (f : String)
    → contains done f ≡ false
    → missing done (f ∷ files) ≡ f ∷ missing done files
unfolding missing
missing-new done files f h = rw (h, missing)

pub present-old :
    (done files : List String) (f : String)
    → contains done f ≡ true
    → present done (f ∷ files) ≡ f ∷ present done files
unfolding present
present-old done files f h = rw (h, present)

pub present-new :
    (done files : List String) (f : String)
    → contains done f ≡ false
    → present done (f ∷ files) ≡ present done files
unfolding present
present-new done files f h = rw (h, present)

-- A file that is not done is missing.
pub AllDone-missing : (done files : List String) → AllDone (done ++ missing done files) files
AllDone-missing done [] = tt
AllDone-missing done (f ∷ files) = elim (Bool-cases (contains done f)) [
  | inl old ↦
      subst (λ ms. AllDone (done ++ ms) (f ∷ files)) (sym (missing-old done files f old))
        (
          ground (arith, old, contains-append done (missing done files) f),
          AllDone-missing done files,
        )
  | inr new ↦
      let rest = missing done files in
      subst (λ ms. AllDone (done ++ ms) (f ∷ files)) (sym (missing-new done files f new))
        (
          ground (arith, contains-append done (f ∷ rest) f, ==-true_of_eq f f refl),
          AllDone-more (done ++ rest) (done ++ f ∷ rest) files
              (λ x h.
                ground (arith, h, contains-append done rest x, contains-append done (f ∷ rest) x))
              (AllDone-missing done files),
        )
]

module _ {S : Type 0} (read : String → Result String String)
    (execute : String → S → Result String S) where
  pub apply_all-done :
      (done files : List String) (result : MigrationResult) (db : Store S)
      → AllDone done files
      → apply_all read execute done files result db ≡ (
        ok (record { applied = result.applied; already_applied = result.already_applied ++ files }),
        db,
      )
  unfolding apply_all
  apply_all-done done [] result db a =
      ap
        (λ (xs : List String). (ok (record { applied = result.applied; already_applied = xs }), db))
        (sym (append_nil result.already_applied))
  apply_all-done done (f ∷ files) result db a =
      rw (a.0, apply_all)
        (apply_all-done done files
            (record result { already_applied = result.already_applied ++ (f ∷ []) }) db a.1
          ∙ ap
              (λ (xs : List String).
                (ok (record { applied = result.applied; already_applied = xs }), db))
              (append_assoc result.already_applied (f ∷ []) files))
