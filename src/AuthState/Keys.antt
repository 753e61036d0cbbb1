-- ===== src/AuthState/Keys.antt =====
-- The key store of wa/auth-state.ts: what `get` finds after `set`.
use whatsapp_auto_send.Prelude.{
  String, Bool, true, false, ◌&&◌, ◌||◌, Option, none, some, List, [], ◌∷◌, ◌++◌, ◌==◌, string_eq,
  if◌then◌else◌, ◌≡◌, refl, arith, Bool-cases, inl, inr,
}
use whatsapp_auto_send.Database.{KeyRow, Db}
use whatsapp_auto_send.AuthState.{
  SignalDataSet, find_key, upsert_key, remove_key, upsert_all, remove_all, Changes, split_entries,
  split_data, set_keys, is_empty,
}

-- `a ?? b`
abbrev pub or_else : Option String → Option String → Option String
or_else none b = b
or_else (some a) b = some a

module _ (j type id : String) where
  abbrev is_here : String → String → Bool
  is_here t i = type == t && id == i

  find_key-upsert_key :
      (s t i v : String) (ks : List KeyRow)
      → find_key j type id (upsert_key s t i v ks)
        ≡ (if j == s && is_here t i then some v else find_key j type id ks)
  unfolding find_key upsert_key
  find_key-upsert_key s t i v [] = ground arith
  find_key-upsert_key s t i v (k ∷ ks) = ground (arith, find_key-upsert_key s t i v ks)

  find_key-remove_key :
      (s t i : String) (ks : List KeyRow)
      → find_key j type id (remove_key s t i ks)
        ≡ (if j == s && is_here t i then none else find_key j type id ks)
  unfolding find_key remove_key
  find_key-remove_key s t i [] = ground arith
  find_key-remove_key s t i (k ∷ ks) = ground (arith, find_key-remove_key s t i ks)

  -- The last value that is written under the id, and whether the id is deleted.
  unfoldable pub written_in : List (String × String × String) → Option String
  written_in [] = none
  written_in ((t, i, v) ∷ us) = or_else (written_in us) (if is_here t i then some v else none)

  unfoldable pub deleted_in : List (String × String) → Bool
  deleted_in [] = false
  deleted_in ((t, i) ∷ ds) = is_here t i || deleted_in ds

  find_key-upsert_all :
      (s : String) (us : List (String × String × String)) (ks : List KeyRow)
      → find_key j type id (upsert_all s us ks) ≡ (
          if j == s then or_else (written_in us) (find_key j type id ks) else find_key j type id ks)
  unfolding upsert_all written_in
  find_key-upsert_all s [] ks = ground arith
  find_key-upsert_all s ((t, i, v) ∷ us) ks =
      ground
        (arith, find_key-upsert_all s us (upsert_key s t i v ks), find_key-upsert_key s t i v ks)

  find_key-remove_all :
      (s : String) (ds : List (String × String)) (ks : List KeyRow)
      → find_key j type id (remove_all s ds ks)
        ≡ (if j == s && deleted_in ds then none else find_key j type id ks)
  unfolding remove_all deleted_in
  find_key-remove_all s [] ks = ground arith
  find_key-remove_all s ((t, i) ∷ ds) ks =
      ground (arith, find_key-remove_all s ds (remove_key s t i ks), find_key-remove_key s t i ks)

  -- The same for the data that `set` is given.
  unfoldable pub written_entries : String → List (String × Option String) → Option String
  written_entries t [] = none
  written_entries t ((i, none) ∷ es) = written_entries t es
  written_entries t ((i, some v) ∷ es) =
      or_else (written_entries t es) (if is_here t i then some v else none)

  unfoldable pub written : SignalDataSet → Option String
  unfolding written_entries
  written [] = none
  written ((t, es) ∷ data') = or_else (written data') (written_entries t es)

  unfoldable pub deleted_entries : String → List (String × Option String) → Bool
  deleted_entries t [] = false
  deleted_entries t ((i, none) ∷ es) = is_here t i || deleted_entries t es
  deleted_entries t ((i, some v) ∷ es) = deleted_entries t es

  unfoldable pub deleted : SignalDataSet → Bool
  unfolding deleted_entries
  deleted [] = false
  deleted ((t, es) ∷ data') = deleted_entries t es || deleted data'

  written_in-append :
      (us vs : List (String × String × String))
      → written_in (us ++ vs) ≡ or_else (written_in vs) (written_in us)
  unfolding written_in
  written_in-append [] vs = ground arith
  written_in-append ((t, i, v) ∷ us) vs = ground (arith, written_in-append us vs)

  deleted_in-append :
      (ds es : List (String × String)) → deleted_in (ds ++ es) ≡ (deleted_in ds || deleted_in es)
  unfolding deleted_in
  deleted_in-append [] es = refl
  deleted_in-append ((t, i) ∷ ds) es = ground (arith, deleted_in-append ds es)

  one_deleted : (t i : String) → deleted_in ((t, i) ∷ []) ≡ is_here t i
  unfolding deleted_in
  one_deleted t i = ground arith

  one_written :
      (t i v : String) → written_in ((t, i, v) ∷ []) ≡ (if is_here t i then some v else none)
  unfolding written_in
  one_written t i v = refl

  split_entries-told :
      (t : String) (es : List (String × Option String)) (c : Changes)
      → (written_in (split_entries t es c).upserts
          ≡ or_else (written_entries t es) (written_in c.upserts))
        × (deleted_in (split_entries t es c).deletes
            ≡ (deleted_in c.deletes || deleted_entries t es))
  unfolding split_entries written_entries deleted_entries
  split_entries-told t [] c = ground arith
  split_entries-told t ((i, none) ∷ es) c =
      let c' = record c { deletes = c.deletes ++ ((t, i) ∷ []) } in
      ground (
        arith,
        split_entries-told t es c',
        deleted_in-append c.deletes ((t, i) ∷ []),
        one_deleted t i,
      )
  split_entries-told t ((i, some v) ∷ es) c =
      let c' = record c { upserts = c.upserts ++ ((t, i, v) ∷ []) } in
      ground (
        arith,
        split_entries-told t es c',
        written_in-append c.upserts ((t, i, v) ∷ []),
        one_written t i v,
      )

  split_data-told :
      (data' : SignalDataSet) (c : Changes)
      → (written_in (split_data data' c).upserts ≡ or_else (written data') (written_in c.upserts))
        × (deleted_in (split_data data' c).deletes ≡ (deleted_in c.deletes || deleted data'))
  unfolding split_data written deleted
  split_data-told [] c = ground arith
  split_data-told ((t, es) ∷ data') c =
      ground (arith, split_data-told data' (split_entries t es c), split_entries-told t es c)

  nothing_written :
      (us : List (String × String × String)) → is_empty us ≡ true → written_in us ≡ none
  unfolding written_in is_empty
  nothing_written [] h = refl
  nothing_written (u ∷ us) h = cc

  nothing_deleted : (ds : List (String × String)) → is_empty ds ≡ true → deleted_in ds ≡ false
  unfolding deleted_in is_empty
  nothing_deleted [] h = refl
  nothing_deleted (d ∷ ds) h = cc

  nothing_there : (written_in [] ≡ none) × (deleted_in [] ≡ false)
  unfolding written_in deleted_in
  nothing_there = (refl, refl)

  -- After a transaction that went through, `get` finds under a key of the session no value if the data
  -- deletes it, else the value that the data has for it, else what it found before. The keys of every
  -- other session are as they were.
  pub find_key-set_keys :
      (db : Db) (s : String) (data' : SignalDataSet)
      → find_key j type id (set_keys db s data' true).1.keys ≡ (
          if j == s
          then (if deleted data'
              then none
              else or_else (written data') (find_key j type id db.keys))
          else find_key j type id db.keys)
  unfolding set_keys
  find_key-set_keys db s data' =
      let c = split_data data' (record { upserts = []; deletes = [] }) in
      let (up, down) = split_data-told data' (record { upserts = []; deletes = [] }) in
      elim (Bool-cases (is_empty c.upserts && is_empty c.deletes)) [
        | inl b ↦
            rw (set_keys, b)
              (ground (
                arith,
                up,
                down,
                nothing_written c.upserts,
                nothing_deleted c.deletes,
                b,
                nothing_there,
              ))
        | inr b ↦
            rw (set_keys, b)
              (ground (
                arith,
                up,
                down,
                find_key-remove_all s c.deletes (upsert_all s c.upserts db.keys),
                find_key-upsert_all s c.upserts db.keys,
                nothing_there,
              ))
      ]
