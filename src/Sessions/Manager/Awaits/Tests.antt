-- ===== src/Sessions/Manager/Awaits/Tests.antt =====
-- Runs of sessions/manager.ts in pieces on a gateway with one session, and the theorems there.
use whatsapp_auto_send.Prelude.{some, [], ◌∷◌, ◌++◌, ◌≡◌, refl, arith, length, string_eq, text_runs}
use whatsapp_auto_send.Prelude.Dict.{get}
use whatsapp_auto_send.Sessions.Repository.{get_session, find_row}
use whatsapp_auto_send.Sessions.State.{State, entry_of}
use whatsapp_auto_send.Sessions.Manager.Connection.{closed}
use whatsapp_auto_send.Sessions.Manager.Lifecycle.{shutdown}
use whatsapp_auto_send.Sessions.Manager.Invariant.{AllSane}
use whatsapp_auto_send.Sessions.Manager.Awaits.{
  act_all, resumes, calls_connect, rings, hears, looking,
}
use whatsapp_auto_send.Sessions.Manager.Awaits.Together.{idle}
use whatsapp_auto_send.Sessions.Manager.Awaits.Sane.{act_all-AllSane}
use whatsapp_auto_send.Sessions.Manager.Awaits.Races.{
  two_connects, place_or_new, NoSocket, connect-twice,
}
use whatsapp_auto_send.Sessions.Manager.Awaits.Escape.{shutdown-escaped}
use whatsapp_auto_send.Sessions.Manager.Samples.{
  row_one, entry_one, state_one, entry_waiting, state_waiting, outside, update_of,
}

abbrev live : State
live = state_one entry_one []

abbrev parted : State
parted = state_waiting []

parted_entry : entry_of parted "s1" ≡ some (0, entry_waiting)
unfolding entry_of get text_runs
parted_entry = refl

parted_row : get_session parted.db "s1" ≡ some row_one
unfolding get_session find_row text_runs
parted_row = refl

parted-NoSocket : NoSocket parted "s1"
parted-NoSocket ref e h = ground (arith, parted_entry, h)

parted_sane : AllSane parted
parted_sane = (
  record { attempts = ground arith; restarts_capped = ground arith; unhealthy_failed = λ p. cc },
  tt,
)

act_all-AllSane_example :
    AllSane
      (act_all (idle parted) (
        calls_connect "s1"
        ∷ rings 2
        ∷ hears 0 (update_of (some closed) (some 428))
        ∷ resumes 2 outside
        ∷ resumes 1 outside
        ∷ resumes 0 outside
        ∷ [])).state
act_all-AllSane_example =
    act_all-AllSane (idle parted)
      (calls_connect "s1"
        ∷ rings 2
        ∷ hears 0 (update_of (some closed) (some 428))
        ∷ resumes 2 outside
        ∷ resumes 1 outside
        ∷ resumes 0 outside
        ∷ [])
      parted_sane

connect-twice_example :
    (act_all (idle parted) (two_connects "s1" outside)).state.open_sockets
    ≡ (parted.open_sockets ++ ((parted.next_handle, place_or_new parted "s1") ∷ []))
      ++ ((4, place_or_new parted "s1") ∷ [])
connect-twice_example =
    connect-twice parted "s1" row_one 7 outside parted_row (λ p. cc) refl refl parted-NoSocket

shutdown-escaped_example :
    ((act_all
        (record { state = shutdown parted; tasks = looking "s1" ∷ [] })
        (resumes 0 outside ∷ resumes 0 outside ∷ [])).state.entries
      ≡ ("s1", length (shutdown parted).heap) ∷ [])
    × ((act_all
          (record { state = shutdown parted; tasks = looking "s1" ∷ [] })
          (resumes 0 outside ∷ resumes 0 outside ∷ [])).state.open_sockets
        ≡ (shutdown parted).open_sockets
          ++ (((shutdown parted).next_handle, length (shutdown parted).heap) ∷ []))
shutdown-escaped_example = shutdown-escaped parted "s1" row_one 7 outside parted_row (λ p. cc) refl
