-- ===== src/Messages/Repository/Table.antt =====
-- The table as a map from keys to rows: what each query gives for every key.
use whatsapp_auto_send.Prelude.{
  String, Option, none, some, List, [], ◌∷◌, ◌++◌, ◌==◌, string_eq, if◌then◌else◌, ◌≡◌, refl, arith,
}
use whatsapp_auto_send.Errors.{ErrorCode}
use whatsapp_auto_send.Database.{Db, SentMessageRow}
use whatsapp_auto_send.Messages.Repository.{
  find_message, update_message, find_by_idempotency_key, sent_row, mark_sent, failed_row,
  mark_failed,
}

abbrev pub map_message :
    (SentMessageRow → SentMessageRow) → Option SentMessageRow → Option SentMessageRow
map_message f none = none
map_message f (some m) = some (f m)

-- A row is found under its own key.
pub find_message-key :
    (key : String) (ms : List SentMessageRow) (m : SentMessageRow)
    → find_message key ms ≡ some m
    → m.idempotency_key ≡ key
unfolding find_message
find_message-key key [] m h = cc
find_message-key key (n ∷ ms) m h = ground (arith, find_message-key key ms m)

pub find_message-update :
    (j key : String) (f : SentMessageRow → SentMessageRow) (ms : List SentMessageRow)
    → ((m : SentMessageRow) → (f m).idempotency_key ≡ m.idempotency_key)
    → find_message j (update_message key f ms)
      ≡ (if j == key then map_message f (find_message j ms) else find_message j ms)
unfolding find_message update_message
find_message-update j key f [] keeps = ground arith
find_message-update j key f (m ∷ ms) keeps =
    ground (arith, keeps m, find_message-update j key f ms keeps)

pub find_message-append :
    (j : String) (m : SentMessageRow) (ms : List SentMessageRow)
    → find_message j ms ≡ none
    → find_message j (ms ++ (m ∷ [])) ≡ (if m.idempotency_key == j then some m else none)
unfolding find_message
find_message-append j m [] h = refl
find_message-append j m (n ∷ ms) h = ground (arith, find_message-append j m ms)

pub find_message-append_some :
    (j : String) (m n : SentMessageRow) (ms : List SentMessageRow)
    → find_message j ms ≡ some n
    → find_message j (ms ++ (m ∷ [])) ≡ some n
unfolding find_message
find_message-append_some j m n [] h = cc
find_message-append_some j m n (k ∷ ms) h = ground (arith, find_message-append_some j m n ms)

module _ (db : Db) (key : String) where
  pub find-mark_sent :
      (j : String) (id : Option String) (jid : String)
      → find_by_idempotency_key (mark_sent db key id jid) j ≡ (
          if j == key
          then map_message (sent_row id jid) (find_by_idempotency_key db j)
          else find_by_idempotency_key db j)
  unfolding find_by_idempotency_key mark_sent
  find-mark_sent j id jid = find_message-update j key (sent_row id jid) db.messages (λ m. refl)

  pub find-mark_failed :
      (j : String) (code : ErrorCode) (detail : Option String)
      → find_by_idempotency_key (mark_failed db key code detail) j ≡ (
          if j == key
          then map_message (failed_row code detail) (find_by_idempotency_key db j)
          else find_by_idempotency_key db j)
  unfolding find_by_idempotency_key mark_failed
  find-mark_failed j code detail =
      find_message-update j key (failed_row code detail) db.messages (λ m. refl)
