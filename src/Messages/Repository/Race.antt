-- ===== src/Messages/Repository/Race.antt =====
-- The queries of `claimSend` one by one, as requests that run at the same time interleave them.
use whatsapp_auto_send.Prelude.{
  ℕ, Option, none, some, List, [], ◌∷◌, Result, ok, err, string_eq, ◌≡◌, refl, arith, Bool, true,
  false,
}
use whatsapp_auto_send.Errors.{Thrown}
use whatsapp_auto_send.Database.{Db, SentMessageRow, failed}
use whatsapp_auto_send.Messages.Repository.{
  ClaimInput, ClaimResult, claimed, find_by_idempotency_key, insert_pending, retaken, retake,
  verdict, claim_send, or_crash, vanished, after_insert, after_verdict,
}
use whatsapp_auto_send.Messages.Repository.Table.{find_message-update}

-- Where a claim stands between two queries.
pub data Phase : Type 0 where
  start conflicted retaking : Phase
  done : Result Thrown ClaimResult → Phase

abbrev after_insert_phase : Option SentMessageRow → Phase
after_insert_phase (some row) = done (ok (claimed row))
after_insert_phase none = conflicted

abbrev after_verdict_phase : Option ClaimResult → Phase
after_verdict_phase (some r) = done (ok r)
after_verdict_phase none = retaking

abbrev after_find_phase : Option SentMessageRow → ℕ → Phase
after_find_phase none now = done (err vanished)
after_find_phase (some m) now = after_verdict_phase (verdict m m.status now)

-- The next query of a claim.
unfoldable pub claim_step : ClaimInput → ℕ → Phase → Db → Phase × Db
claim_step input now start db =
    let (row, db') = insert_pending db input now in (after_insert_phase row, db')
claim_step input now conflicted db =
    (after_find_phase (find_by_idempotency_key db input.idempotency_key) now, db)
claim_step input now retaking db =
    let (row, db') = retake db input now in (done (or_crash row), db')
claim_step input now (done r) db = (done r, db)

-- Two requests, with the request whose query runs next.
pub record Pair : Type 0 where
  pub first : Phase
  pub second : Phase
  pub db : Db

unfoldable pub pair_step : ClaimInput → ClaimInput → ℕ → Bool → Pair → Pair
pair_step a b now true p =
    let (phase, db') = claim_step a now p.first p.db in record p { first = phase; db = db' }
pair_step a b now false p =
    let (phase, db') = claim_step b now p.second p.db in record p { second = phase; db = db' }

unfoldable pub run_pair : ClaimInput → ClaimInput → ℕ → List Bool → Pair → Pair
run_pair a b now [] p = p
run_pair a b now (t ∷ ts) p = run_pair a b now ts (pair_step a b now t p)

module _ (db : Db) (input : ClaimInput) (now : ℕ) where
  abbrev step_from : Phase × Db → Phase × Db
  step_from (phase, d) = claim_step input now phase d

  verdict_steps :
      (d : Db) (v : Option ClaimResult)
      → step_from (after_verdict_phase v, d)
        ≡ (done (after_verdict d input now v).0, (after_verdict d input now v).1)
  unfolding claim_step after_verdict
  verdict_steps d none = refl
  verdict_steps d (some r) = refl

  insert_steps :
      (d : Db) (row found : Option SentMessageRow)
      → find_by_idempotency_key d input.idempotency_key ≡ found
      → step_from (step_from (after_insert_phase row, d))
        ≡ (done (after_insert row d input now).0, (after_insert row d input now).1)
  unfolding claim_step after_insert
  insert_steps d (some row) found e = refl
  insert_steps d none none e = rw (e, after_insert)
  insert_steps d none (some m) e = rw (e, after_insert) (verdict_steps d (verdict m m.status now))

  -- Run to its end with no other request between its queries, the three steps are `claimSend`.
  pub claim_step-claim_send :
      step_from (step_from (step_from (start, db)))
      ≡ (done (claim_send db input now).0, (claim_send db input now).1)
  unfolding claim_step claim_send
  claim_step-claim_send =
      insert_steps (insert_pending db input now).1 (insert_pending db input now).0 _ refl

abbrev pub waiting : Db → Pair
waiting db = record { first = start; second = start; db = db }

-- Two requests whose key has a failed send, and whose queries alternate, are both given the claim:
-- the update that retakes the row does not look at its status.
pub double_claim :
    (db : Db) (a b : ClaimInput) (now : ℕ) (m : SentMessageRow)
    → a.idempotency_key ≡ b.idempotency_key
    → find_by_idempotency_key db a.idempotency_key ≡ some m
    → m.status ≡ failed
    → let p = run_pair a b now (true ∷ false ∷ true ∷ false ∷ true ∷ false ∷ []) (waiting db) in
      (p.first ≡ done (ok (claimed (retaken a now m))))
      × (p.second ≡ done (ok (claimed (retaken b now (retaken a now m)))))
unfolding run_pair pair_step claim_step insert_pending find_by_idempotency_key retake verdict
double_claim db a b now m same e f = ground (
  arith,
  same,
  e,
  f,
  find_message-update b.idempotency_key a.idempotency_key (retaken a now) db.messages (λ n. refl),
)
