-- ===== src/Sessions/Repository/Owned.antt =====
-- baileys/src/sessions/repository.ts: the lists of sessions, and whose they are.
use whatsapp_auto_send.Prelude.{
  String, Bool, true, some, List, [], ◌∷◌, ◌==◌, string_eq, option_eq, ◌≡◌, arith, All, if_cases,
}
use whatsapp_auto_send.Database.{SessionRow, Db}
use whatsapp_auto_send.Sessions.Repository.{
  select_rows, insert_by, order_by, list_sessions_by_owner, list_restorable_sessions, is_restorable,
  created_before, updated_after,
}

module _ {ℓ} (P : SessionRow → Type ℓ) (before : SessionRow → SessionRow → Bool) where
  All-insert_by :
      (r : SessionRow) (rows : List SessionRow) → P r → All P rows → All P (insert_by before r rows)
  unfolding insert_by
  All-insert_by r [] p h = (p, h)
  All-insert_by r (q ∷ qs) p (pq, h) =
      if_cases (All P) (before r q) (r ∷ q ∷ qs) (q ∷ insert_by before r qs) (λ _. (p, (pq, h)))
        (λ _. (pq, All-insert_by r qs p h))

  All-order_by : (rows : List SessionRow) → All P rows → All P (order_by before rows)
  unfolding order_by
  All-order_by [] h = h
  All-order_by (r ∷ rows) (p, h) = All-insert_by r (order_by before rows) p (All-order_by rows h)

All-select_rows :
    (test : SessionRow → Bool) (rows : List SessionRow)
    → All (λ r. test r ≡ true) (select_rows test rows)
unfolding select_rows
All-select_rows test [] = tt
All-select_rows test (r ∷ rows) =
    let rest = All-select_rows test rows in
    if_cases (All (λ q. test q ≡ true)) (test r) (r ∷ select_rows test rows) (select_rows test rows)
      (λ t. (t, rest)) (λ _. rest)

All-map :
    (test : SessionRow → Bool) (owner : String) (rows : List SessionRow)
    → ((r : SessionRow) → test r ≡ true → r.owner_id ≡ some owner)
    → All (λ r. test r ≡ true) rows
    → All (λ r. r.owner_id ≡ some owner) rows
All-map test owner [] f h = h
All-map test owner (r ∷ rows) f (t, h) = (f r t, All-map test owner rows f h)

-- Every session that is listed for an owner is that owner's.
pub list_sessions_by_owner-owned :
    (db : Db) (owner : String)
    → All (λ r. r.owner_id ≡ some owner) (list_sessions_by_owner db owner)
unfolding list_sessions_by_owner
list_sessions_by_owner-owned db owner =
    let test = λ (r : SessionRow). r.owner_id == some owner in
    All-order_by (λ r. r.owner_id ≡ some owner) created_before (select_rows test db.sessions)
      (All-map test owner (select_rows test db.sessions) (λ r t. ground (arith, t))
        (All-select_rows test db.sessions))

-- A restart of the gateway restores no session that is logged out, new or pairing.
pub list_restorable_sessions-restorable :
    (db : Db) → All (λ r. is_restorable r ≡ true) (list_restorable_sessions db)
unfolding list_restorable_sessions
list_restorable_sessions-restorable db =
    All-order_by (λ r. is_restorable r ≡ true) updated_after (select_rows is_restorable db.sessions)
      (All-select_rows is_restorable db.sessions)
