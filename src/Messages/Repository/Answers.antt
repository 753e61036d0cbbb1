-- ===== src/Messages/Repository/Answers.antt =====
-- The three answers of `claimSend`, and what each means for the table.
use whatsapp_auto_send.Prelude.{
  ℕ, String, none, some, Result, ok, ◌≡◌, string_eq, refl, arith, Option-cases, inl, inr, subst,
  sym, ap, ◌∙◌,
}
use whatsapp_auto_send.Errors.{Thrown}
use whatsapp_auto_send.Database.{Db, SentMessageRow, SendStatus, pending, sent, failed}
use whatsapp_auto_send.Messages.Repository.{
  ClaimInput, ClaimResult, claimed, duplicate, in_flight, claim_send, find_by_idempotency_key,
  verdict, retaken,
}
use whatsapp_auto_send.Messages.Repository.Claims.{
  claim_fresh, claim_found, after_found, IsFree, claim_send_iff,
}

-- Every key has the row it had.
abbrev pub SameRows : Db → Db → Type 0
SameRows db db' = (j : String) → find_by_idempotency_key db' j ≡ find_by_idempotency_key db j

module _ (db : Db) (input : ClaimInput) (now : ℕ) where
  pub data Answer : Result Thrown ClaimResult → Type 0 where
    given :
        (row : SentMessageRow)
        → IsFree (find_by_idempotency_key db input.idempotency_key) now
        → Answer (ok (claimed row))
    told_sent :
        (row : SentMessageRow)
        → find_by_idempotency_key db input.idempotency_key ≡ some row
        → row.status ≡ sent
        → SameRows db (claim_send db input now).1
        → Answer (ok (duplicate row))
    told_busy :
        (row : SentMessageRow)
        → find_by_idempotency_key db input.idempotency_key ≡ some row
        → row.status ≡ pending
        → SameRows db (claim_send db input now).1
        → Answer (ok (in_flight row))

  same_rows :
      (m : SentMessageRow) (r : ClaimResult)
      → find_by_idempotency_key db input.idempotency_key ≡ some m
      → verdict m m.status now ≡ some r
      → SameRows db (claim_send db input now).1
  same_rows m r e v j = ground (arith, after_found db input now j m e, v)

  of_claimed :
      (row : SentMessageRow)
      → (claim_send db input now).0 ≡ ok (claimed row)
      → Answer (ok (claimed row))
  of_claimed row h = given row ((claim_send_iff db input now).0 (row, h))

  -- A row whose verdict goes on to the update is claimed.
  taken :
      (m : SentMessageRow)
      → find_by_idempotency_key db input.idempotency_key ≡ some m
      → verdict m m.status now ≡ none
      → Answer (claim_send db input now).0
  taken m e v =
      let h : (claim_send db input now).0 ≡ ok (claimed (retaken input now m)) =
        ground (arith, claim_found db input now m e, v) in
      subst Answer (sym h) (of_claimed (retaken input now m) h)

  told :
      (m : SentMessageRow) (r : ClaimResult)
      → find_by_idempotency_key db input.idempotency_key ≡ some m
      → verdict m m.status now ≡ some r
      → (claim_send db input now).0 ≡ ok r
  told m r e v = ground (arith, claim_found db input now m e, v)

  busy_verdict :
      (m : SentMessageRow) (r : ClaimResult) → verdict m pending now ≡ some r → r ≡ in_flight m
  unfolding verdict
  busy_verdict m r v = ground (arith, v)

  judged :
      (m : SentMessageRow) (status : SendStatus)
      → find_by_idempotency_key db input.idempotency_key ≡ some m
      → m.status ≡ status
      → Answer (claim_send db input now).0
  unfolding verdict
  judged m failed e st = taken m e (ap (λ x. verdict m x now) st)
  judged m sent e st =
      let v = ap (λ x. verdict m x now) st in
      subst Answer (sym (told m (duplicate m) e v))
        (told_sent m e st (same_rows m (duplicate m) e v))
  judged m pending e st = elim (Option-cases (verdict m m.status now)) [
    | inl v ↦ taken m e v
    | inr (r, v) ↦
        let busy = v ∙ ap some (busy_verdict m r (sym (ap (λ x. verdict m x now) st) ∙ v)) in
        subst Answer (sym (told m (in_flight m) e busy))
          (told_busy m e st (same_rows m (in_flight m) e busy))
  ]

  pub claim_send-Answer : Answer (claim_send db input now).0
  claim_send-Answer = elim (Option-cases (find_by_idempotency_key db input.idempotency_key)) [
    | inl e ↦
        subst Answer (sym (claim_fresh db input now e)) (of_claimed _ (claim_fresh db input now e))
    | inr (m, e) ↦ judged m m.status e refl
  ]
