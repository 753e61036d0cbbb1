-- ===== src/Messages/Repository/Claims.antt =====
-- Who gets a claim.
use whatsapp_auto_send.Prelude.{
  ℕ, ◌+◌, ◌-◌, ◌<◌, ◌≤◌, String, Option, none, some, ok, ◌==◌, string_eq, if◌then◌else◌, ◌≡◌, refl,
  arith, ◌≢◌, ◌⊎◌, ◌↔◌, Option-cases, inl, inr, ap, ◌∙◌,
}
use whatsapp_auto_send.Database.{Db, SentMessageRow, SendStatus, pending, sent, failed}
use whatsapp_auto_send.Messages.Repository.{
  ClaimInput, ClaimResult, claimed, duplicate, in_flight, find_by_idempotency_key, pending_row,
  insert_pending, retaken, retake, verdict, claim_send, sent_row, mark_sent, stale_claim_ms,
  find_message,
}
use whatsapp_auto_send.Messages.Repository.Table.{
  find_message-update, find_message-append, find_message-append_some, find-mark_sent,
}

-- A claim, for each state of the row of its key.
module _ (db : Db) (input : ClaimInput) (now : ℕ) where
  abbrev found : Option SentMessageRow
  found = find_by_idempotency_key db input.idempotency_key

  pub claim_fresh :
      found ≡ none
      → (claim_send db input now).0 ≡ ok (claimed (pending_row db.next_message_id input now))
  unfolding claim_send find_by_idempotency_key insert_pending
  claim_fresh e = ground (arith, e)

  pub claim_found :
      (m : SentMessageRow)
      → found ≡ some m
      → (claim_send db input now).0 ≡ elim (verdict m m.status now) [
        | none ↦ ok (claimed (retaken input now m))
        | some r ↦ ok r
      ]
  unfolding claim_send find_by_idempotency_key insert_pending retake
  claim_found m e = ground (arith, e)

  -- The table after a claim of a key that has no row.
  pub after_fresh :
      (j : String)
      → found ≡ none
      → find_by_idempotency_key (claim_send db input now).1 j ≡ (
          if input.idempotency_key == j
          then some (pending_row db.next_message_id input now)
          else find_by_idempotency_key db j)
  unfolding claim_send find_by_idempotency_key insert_pending
  after_fresh j e = elim (Option-cases (find_message j db.messages)) [
    | inl none_j ↦ ground (
      arith,
      e,
      none_j,
      find_message-append j (pending_row db.next_message_id input now) db.messages none_j,
    )
    | inr (n, some_j) ↦ ground (
      arith,
      e,
      some_j,
      find_message-append_some j (pending_row db.next_message_id input now) n db.messages some_j,
    )
  ]

  -- The table after a claim of a key that has a row: that row is retaken, or nothing changes.
  pub after_found :
      (j : String) (m : SentMessageRow)
      → found ≡ some m
      → find_by_idempotency_key (claim_send db input now).1 j ≡ elim (verdict m m.status now) [
        | none ↦
            if j == input.idempotency_key
            then some (retaken input now m)
            else find_by_idempotency_key db j
        | some r ↦ find_by_idempotency_key db j
      ]
  unfolding claim_send find_by_idempotency_key insert_pending retake
  after_found j m e = ground (
    arith,
    e,
    find_message-update j input.idempotency_key (retaken input now) db.messages (λ n. refl),
  )

-- No row, a failed send, or a claim that its owner has left for two minutes.
abbrev pub IsFree : Option SentMessageRow → ℕ → Type 0
IsFree none now = Unit {0}
IsFree (some m) now =
    (m.status ≡ failed) ⊎ ((m.status ≡ pending) × (stale_claim_ms ≤ now - m.created_at))

verdict_iff :
    (m : SentMessageRow) (status : SendStatus) (now : ℕ)
    → (verdict m status now ≡ none)
      ↔ ((status ≡ failed) ⊎ ((status ≡ pending) × (stale_claim_ms ≤ now - m.created_at)))
unfolding verdict
verdict_iff m pending now = ground arith
verdict_iff m sent now = ground arith
verdict_iff m failed now = ground arith

verdict-not_claimed :
    (m : SentMessageRow) (status : SendStatus) (now : ℕ) (r : ClaimResult)
    → verdict m status now ≡ some r
    → (row : SentMessageRow) → r ≢ claimed row
unfolding verdict
verdict-not_claimed m pending now r h row = ground arith
verdict-not_claimed m sent now r h row = ground arith
verdict-not_claimed m failed now r h row = cc

module _ (db : Db) (input : ClaimInput) (now : ℕ) where
  claim_found_iff :
      (m : SentMessageRow)
      → find_by_idempotency_key db input.idempotency_key ≡ some m
      → ((row : SentMessageRow) × ((claim_send db input now).0 ≡ ok (claimed row)))
        ↔ IsFree (some m) now
  claim_found_iff m e = elim (Option-cases (verdict m m.status now)) [
    | inl v ↦ (
      λ h. (verdict_iff m m.status now).0 v,
      λ h. (retaken input now m, ground (arith, claim_found db input now m e, v)),
    )
    | inr (r, v) ↦ (
      λ h. absurd (
          verdict-not_claimed m m.status now r v h.0
            (ground (arith, h.1, claim_found db input now m e, v))),
      λ h. cc ((verdict_iff m m.status now).1 h, v),
    )
  ]

  -- A claim is given exactly when the key is free: it has no row, its last send failed, or its row
  -- has been pending for 120 seconds or more.
  pub claim_send_iff :
      ((row : SentMessageRow) × ((claim_send db input now).0 ≡ ok (claimed row)))
      ↔ IsFree (find_by_idempotency_key db input.idempotency_key) now
  claim_send_iff = elim (Option-cases (find_by_idempotency_key db input.idempotency_key)) [
    | inl e ↦
        rw e (λ h. tt, λ h. (pending_row db.next_message_id input now, claim_fresh db input now e))
    | inr (m, e) ↦ rw e (claim_found_iff m e)
  ]

-- The row of a claim that was given at `now`.
pub record IsClaimOf (input : ClaimInput) (now : ℕ) (row : SentMessageRow) : Type 0 where
  pub is_pending : row.status ≡ pending
  pub is_new : row.created_at ≡ now
  pub to_jid_of : row.to_jid ≡ input.to_jid
  pub payload_of : row.payload ≡ input.payload

module _ (db : Db) (input : ClaimInput) (now : ℕ) where
  row_of_fresh :
      (row : SentMessageRow)
      → (claim_send db input now).0 ≡ ok (claimed row)
      → find_by_idempotency_key db input.idempotency_key ≡ none
      → (find_by_idempotency_key (claim_send db input now).1 input.idempotency_key ≡ some row)
        × IsClaimOf input now row
  row_of_fresh row given e =
      let same : pending_row db.next_message_id input now ≡ row = cc (claim_fresh db input now e) in
      (
        ground (arith, same, after_fresh db input now input.idempotency_key e),
        rw (← same)
            (record { is_pending = refl; is_new = refl; to_jid_of = refl; payload_of = refl }),
      )

  row_of_found :
      (row m : SentMessageRow)
      → (claim_send db input now).0 ≡ ok (claimed row)
      → find_by_idempotency_key db input.idempotency_key ≡ some m
      → (find_by_idempotency_key (claim_send db input now).1 input.idempotency_key ≡ some row)
        × IsClaimOf input now row
  row_of_found row m given e = elim (Option-cases (verdict m m.status now)) [
    | inl v ↦
        let same : retaken input now m ≡ row = ground (arith, claim_found db input now m e, v) in
        (
          ground (arith, same, v, after_found db input now input.idempotency_key m e),
          rw (← same)
              (record { is_pending = refl; is_new = refl; to_jid_of = refl; payload_of = refl }),
        )
    | inr (r, v) ↦ absurd (
        verdict-not_claimed m m.status now r v row
          (ground (arith, claim_found db input now m e, v)))
  ]

  -- A claim that is given leaves a fresh pending row of its own under its key.
  pub claim_send-row :
      (row : SentMessageRow)
      → (claim_send db input now).0 ≡ ok (claimed row)
      → (find_by_idempotency_key (claim_send db input now).1 input.idempotency_key ≡ some row)
        × IsClaimOf input now row
  claim_send-row row given =
      elim (Option-cases (find_by_idempotency_key db input.idempotency_key)) [
        | inl e ↦ row_of_fresh row given e
        | inr (m, e) ↦ row_of_found row m given e
      ]

  -- A claim touches no row of another key.
  pub claim_send-frame :
      (j : String)
      → j ≢ input.idempotency_key
      → find_by_idempotency_key (claim_send db input now).1 j ≡ find_by_idempotency_key db j
  claim_send-frame j n = elim (Option-cases (find_by_idempotency_key db input.idempotency_key)) [
    | inl e ↦ ground (arith, after_fresh db input now j e)
    | inr (m, e) ↦ ground (arith, after_found db input now j m e)
  ]

-- While a claim is younger than 120 seconds and its row is as the claim left it, every other claim
-- of the key, in whatever the rest of the database has become, is told that the send is in flight.
pub claim_send-exclusive :
    (db db' : Db) (input other : ClaimInput) (now later : ℕ) (row : SentMessageRow)
    → (claim_send db input now).0 ≡ ok (claimed row)
    → other.idempotency_key ≡ input.idempotency_key
    → find_by_idempotency_key db' input.idempotency_key
      ≡ find_by_idempotency_key (claim_send db input now).1 input.idempotency_key
    → later < now + stale_claim_ms
    → (claim_send db' other later).0 ≡ ok (in_flight row)
unfolding verdict
claim_send-exclusive db db' input other now later row given same_key same_row soon =
    let (there, c) = claim_send-row db input now row given in
    ground (
      arith,
      there,
      c.is_pending,
      c.is_new,
      claim_found db' other later row
          (ap (find_by_idempotency_key db') same_key ∙ same_row ∙ there),
    )

-- Once a send is marked as sent, every claim of its key at every later time is answered with the
-- row that was marked, its message id and its address included.
pub claim_send-after_sent :
    (db : Db) (input : ClaimInput) (now : ℕ) (m : SentMessageRow) (id : Option String)
    (jid : String)
    → find_by_idempotency_key db input.idempotency_key ≡ some m
    → (claim_send (mark_sent db input.idempotency_key id jid) input now).0
      ≡ ok (duplicate (sent_row id jid m))
unfolding verdict
claim_send-after_sent db input now m id jid e = ground (
  arith,
  e,
  find-mark_sent db input.idempotency_key input.idempotency_key id jid,
  claim_found (mark_sent db input.idempotency_key id jid) input now (sent_row id jid m),
)
