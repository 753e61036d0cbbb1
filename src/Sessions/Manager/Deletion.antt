-- ===== src/Sessions/Manager/Deletion.antt =====
-- manager.ts: a session whose row cannot be deleted.
use whatsapp_auto_send.Prelude.{
  ℕ, String, true, Option, none, some, ok, ◌≡◌, refl, ◌∙◌, arith, Option-cases, inl, inr, nat_eq,
  ==-true_of_eq, string_eq,
}
use whatsapp_auto_send.Prelude.Dict.{Dict, delete, get-delete}
use whatsapp_auto_send.Database.{session_status_eq, Db}
use whatsapp_auto_send.Sessions.Repository.{has_messages, delete_session}
use whatsapp_auto_send.Sessions.State.{Entry, State, modify, entry_of, clear_timeout, end_socket}
use whatsapp_auto_send.Sessions.Manager.{snapshot}
use whatsapp_auto_send.Sessions.Manager.Lifecycle.{delete_session_of, drop_entry}
use whatsapp_auto_send.Sessions.Manager.Gaps.{entry_of-db}

db-dropped : (s : State) (t k : Option ℕ) → (end_socket k (clear_timeout t s)).db ≡ s.db
db-dropped s none none = refl
db-dropped s none (some k) = refl
db-dropped s (some t) none = refl
db-dropped s (some t) (some k) = refl

db-drop_entry : (s : State) (id : String) → (drop_entry id s).db ≡ s.db
unfolding drop_entry
db-drop_entry s id = elim (Option-cases (entry_of s id)) [
  | inl h ↦ rw (drop_entry, h)
  | inr ((ref, e), h) ↦ rw (drop_entry, h) (db-dropped s e.reconnect_timer e.socket)
]

entry_of-deleted :
    (s' : State) (id : String) (es : Dict String ℕ)
    → s'.entries ≡ delete id es
    → entry_of s' id ≡ none
unfolding entry_of
entry_of-deleted s' id es h = rw (h, get-delete id id es, ==-true_of_eq id id refl)

abbrev gone : State → String → ℕ → Entry → State
gone s id ref e =
    record (modify ref (λ x. record x { reconnect_timer = none; closing = true })
      (end_socket e.socket (clear_timeout e.reconnect_timer s))) { entries = delete id s.entries }

entry_of-drop_entry : (s : State) (id : String) → entry_of (drop_entry id s) id ≡ none
unfolding drop_entry
entry_of-drop_entry s id = elim (Option-cases (entry_of s id)) [
  | inl h ↦ rw (drop_entry, h) h
  | inr ((ref, e), h) ↦ rw (drop_entry, h) (entry_of-deleted (gone s id ref e) id s.entries refl)
]

snapshot-absent : (s : State) (id : String) → entry_of s id ≡ none → snapshot s id ≡ none
unfolding snapshot
snapshot-absent s id h = rw (h, snapshot)

delete_refused :
    (db : Db) (id : String) → has_messages id db.messages ≡ true → (delete_session db id).1 ≡ db
unfolding delete_session
delete_refused db id h = rw (h, delete_session)

module _ (s : State) (id : String) (written : has_messages id s.db.messages ≡ true) where
  refused : has_messages id (drop_entry id s).db.messages ≡ true
  refused = rw (db-drop_entry s id) written

  -- To delete a session that ever recorded a message fails: its live entry is gone by then, and
  -- its row, its credentials and its keys stay as they were.
  pub delete_session_of-recorded :
      ¬ ((delete_session_of id s).0 ≡ ok tt)
      × (snapshot (delete_session_of id s).1 id ≡ none)
      × ((delete_session_of id s).1.db ≡ s.db)
  unfolding delete_session_of delete_session
  delete_session_of-recorded = (
    λ h. ground (arith, refused, h),
    snapshot-absent (delete_session_of id s).1 id (
        entry_of-db (drop_entry id s) (delete_session (drop_entry id s).db id).1 id
        ∙ entry_of-drop_entry s id),
    delete_refused (drop_entry id s).db id refused ∙ db-drop_entry s id,
  )
