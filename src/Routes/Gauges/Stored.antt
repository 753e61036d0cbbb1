-- ===== src/Routes/Gauges/Stored.antt =====
-- The counts of stored messages in a scrape of metrics.ts.
use whatsapp_auto_send.Prelude.{
  ℕ, suc, ◌+◌, Bool, true, false, List, [], ◌∷◌, ◌≡◌, refl, ap, ◌∙◌, sym, arith, nat_eq, string_eq,
  option_eq, if◌then◌else◌, Bool-cases, inl, inr, ==-true_of_eq, length,
}
use whatsapp_auto_send.Errors.{error_code_eq}
use whatsapp_auto_send.Database.{send_status_eq, SentMessageRow}
use whatsapp_auto_send.Routes.Gauges.{StoredKey, key_of, same_key, count_row, count_rows}

same_key-eq : (a b : StoredKey) → same_key a b ≡ true → a ≡ b
same_key-eq a b h = ground (arith, h)

same_key_refl : (a : StoredKey) → same_key a a ≡ true
same_key_refl a = ground (
  arith,
  ==-true_of_eq a.session_id a.session_id refl,
  ==-true_of_eq a.status a.status refl,
  ==-true_of_eq a.error_code a.error_code refl,
)

-- What the groups say of a key; a key without a group counts nothing.
unfoldable pub amount_of : StoredKey → List (StoredKey × ℕ) → ℕ
amount_of j [] = 0
amount_of j ((k, n) ∷ groups) = if same_key k j then n else amount_of j groups

-- The rows with a key.
unfoldable pub rows_with : StoredKey → List SentMessageRow → ℕ
rows_with j [] = 0
rows_with j (row ∷ rows) = (if same_key (key_of row) j then 1 else 0) + rows_with j rows

unfoldable pub total : List (StoredKey × ℕ) → ℕ
total [] = 0
total ((k, n) ∷ groups) = n + total groups

-- The group that is counted in is the one that is looked up.
counted_in :
    (a b : Bool) (n r : ℕ)
    → a ≡ b
    → (if a then suc n else r) ≡ (if a then n else r) + (if b then 1 else 0)
counted_in true true n r h = omega arith
counted_in false false n r h = omega arith
counted_in true false n r h = cc
counted_in false true n r h = cc

if_same : (b : Bool) → ◌≡◌ {A = ℕ} (if b then 0 else 0) 0
if_same true = refl
if_same false = refl

-- It is another one.
counted_past :
    (a b : Bool) (n r r' : ℕ)
    → (a ≡ true → b ≡ false)
    → r' ≡ r + (if b then 1 else 0)
    → (if a then n else r') ≡ (if a then n else r) + (if b then 1 else 0)
counted_past true true n r r' h e = let absurdly = h refl in cc
counted_past true false n r r' h e = omega arith
counted_past false b n r r' h e = e

-- A key equals one of two that differ.
same_key-other :
    (j k key : StoredKey) → same_key k key ≡ false → same_key k j ≡ true → same_key key j ≡ false
same_key-other j k key other h = elim (Bool-cases (same_key key j)) [
  | inr b ↦ b
  | inl b ↦
      let both : same_key k key ≡ true =
        ap (λ x. same_key x key) (same_key-eq k j h ∙ sym (same_key-eq key j b))
        ∙ same_key_refl key in
      absurd (let clash : true ≡ false = sym both ∙ other in cc)
]

amount_of-count_row :
    (j key : StoredKey) (groups : List (StoredKey × ℕ))
    → amount_of j (count_row key groups) ≡ amount_of j groups + (if same_key key j then 1 else 0)
unfolding amount_of count_row
amount_of-count_row j key [] =
    counted_in (same_key key j) (same_key key j) 0 0 refl
    ∙ ap (λ n. n + (if same_key key j then 1 else 0)) (if_same (same_key key j))
amount_of-count_row j key ((k, n) ∷ groups) = elim (Bool-cases (same_key k key)) [
  | inl mine ↦
      rw (mine, count_row)
        (counted_in (same_key k j) (same_key key j) n (amount_of j groups)
          (ap (λ x. same_key x j) (same_key-eq k key mine)))
  | inr other ↦
      rw (other, count_row)
        (counted_past (same_key k j) (same_key key j) n (amount_of j groups)
          (amount_of j (count_row key groups)) (same_key-other j k key other)
          (amount_of-count_row j key groups))
]

total-count_row :
    (key : StoredKey) (groups : List (StoredKey × ℕ))
    → total (count_row key groups) ≡ total groups + 1
unfolding total count_row
total-count_row key [] = refl
total-count_row key ((k, n) ∷ groups) = ground (arith, total-count_row key groups)

-- The groups of the query say of each key how many rows have it, and together they count every row.
pub count_rows-amounts :
    (j : StoredKey) (rows : List SentMessageRow) (groups : List (StoredKey × ℕ))
    → (amount_of j (count_rows rows groups) ≡ amount_of j groups + rows_with j rows)
      × (total (count_rows rows groups) ≡ total groups + length rows)
unfolding count_rows rows_with
count_rows-amounts j [] groups = (omega arith, omega arith)
count_rows-amounts j (row ∷ rows) groups =
    let (amounts, totals) = count_rows-amounts j rows (count_row (key_of row) groups) in
    (
      omega (arith, amounts, amount_of-count_row j (key_of row) groups),
      omega (arith, totals, total-count_row (key_of row) groups),
    )
