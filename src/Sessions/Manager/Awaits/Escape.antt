-- ===== src/Sessions/Manager/Awaits/Escape.antt =====
-- A `connect` of manager.ts that waits for its row while `shutdown` runs.
use whatsapp_auto_send.Prelude.{
  ℕ, String, true, some, List, [], ◌∷◌, ◌++◌, ◌≡◌, ◌≢◌, refl, ap, ◌∙◌, arith, length, string_eq,
}
use whatsapp_auto_send.Prelude.Dict.{put, values}
use whatsapp_auto_send.Database.{SessionRow, logged_out, session_status_eq}
use whatsapp_auto_send.Sessions.Repository.{get_session}
use whatsapp_auto_send.Sessions.State.{State, entry_at}
use whatsapp_auto_send.Sessions.Manager.{Outside}
use whatsapp_auto_send.Sessions.Manager.Lifecycle.{new_entry, shutdown, close_all}
use whatsapp_auto_send.Sessions.Manager.Shutdown.{IsDown, close_one, nobody, shutdown-IsDown}
use whatsapp_auto_send.Sessions.Manager.SecondSocket.{made, made_state}
use whatsapp_auto_send.Sessions.Manager.Invariant.{entry_of-heap}
use whatsapp_auto_send.Sessions.Manager.Awaits.{
  looking, go_on, World, resumes, resume, pick, act, act_all, with_tasks,
}
use whatsapp_auto_send.Sessions.Manager.Awaits.Races.{look-new, entered, entered_entry}

close_one-db : (ref : ℕ) (s : State) → (close_one ref s).db ≡ s.db
close_one-db ref s = ground arith

close_all-db : (refs : List ℕ) (s : State) → (close_all refs s).db ≡ s.db
unfolding close_all
close_all-db [] s = refl
close_all-db (ref ∷ refs) s = close_all-db refs (close_one ref s) ∙ close_one-db ref s

close_one-version : (ref : ℕ) (s : State) → (close_one ref s).version ≡ s.version
close_one-version ref s = ground arith

close_all-version : (refs : List ℕ) (s : State) → (close_all refs s).version ≡ s.version
unfolding close_all
close_all-version [] s = refl
close_all-version (ref ∷ refs) s =
    close_all-version refs (close_one ref s) ∙ close_one-version ref s

-- The manager is down, and the call goes on.
module _ (s : State) (d : IsDown s) (id : String) (row : SessionRow) (v : ℕ) (out : Outside)
    (found : get_session s.db id ≡ some row) (allowed : row.status ≢ logged_out)
    (known : s.version ≡ some v) where
  abbrev went_on : World
  went_on =
      act_all (record { state = s; tasks = looking id ∷ [] }) (resumes 0 out ∷ resumes 0 out ∷ [])

  abbrev entered_place : entry_at (entered s id row) (length s.heap) ≡ some (new_entry row id)
  entered_place =
      entry_of-heap (entered s id row) id (length s.heap) (new_entry row id)
        (entered_entry s id row)

  went_on_state :
      went_on.state
      ≡ made (entered s id row) (length s.heap) (new_entry row id) entered_place out.fresh
  unfolding act_all act resume pick go_on
  went_on_state =
      ap (λ p. (act_all (with_tasks [] p) (resumes 0 out ∷ [])).state)
        (look-new s id row v out found allowed known (nobody s id d))
      ∙ made_state (entered s id row) (length s.heap) (new_entry row id) entered_place out.fresh

  went_on-entries : went_on.state.entries ≡ (id, length s.heap) ∷ []
  unfolding put
  went_on-entries = ap (λ t. t.entries) went_on_state ∙ ap (put id (length s.heap)) d.emptied

  went_on-sockets :
      went_on.state.open_sockets ≡ s.open_sockets ++ ((s.next_handle, length s.heap) ∷ [])
  went_on-sockets = ap (λ t. t.open_sockets) went_on_state

-- A connect that waits for its row while a shutdown runs goes on after it: the manager has the
-- session again, and a socket is made for it that nothing closes. This is so with a row that may
-- connect and a known web version.
pub shutdown-escaped :
    (s : State) (id : String) (row : SessionRow) (v : ℕ) (out : Outside)
    → get_session s.db id ≡ some row
    → row.status ≢ logged_out
    → s.version ≡ some v
    → ((act_all
          (record { state = shutdown s; tasks = looking id ∷ [] })
          (resumes 0 out ∷ resumes 0 out ∷ [])).state.entries
        ≡ (id, length (shutdown s).heap) ∷ [])
      × ((act_all
            (record { state = shutdown s; tasks = looking id ∷ [] })
            (resumes 0 out ∷ resumes 0 out ∷ [])).state.open_sockets
          ≡ (shutdown s).open_sockets
            ++ (((shutdown s).next_handle, length (shutdown s).heap) ∷ []))
unfolding shutdown
shutdown-escaped s id row v out found allowed known =
    let s0 = record s { shutting_down = true } in
    let row_kept : get_session (shutdown s).db id ≡ some row =
      ap (λ db. get_session db id) (close_all-db (values s.entries) s0) ∙ found in
    let version_kept : (shutdown s).version ≡ some v =
      close_all-version (values s.entries) s0 ∙ known in
    (
      went_on-entries (shutdown s) (shutdown-IsDown s) id row v out row_kept allowed version_kept,
      went_on-sockets (shutdown s) (shutdown-IsDown s) id row v out row_kept allowed version_kept,
    )
