-- ===== src/Sessions/Manager/Tests.antt =====
-- Runs of sessions/manager.ts on a gateway with one session, and the theorems there.
use whatsapp_auto_send.Prelude.{
  ◌+◌, ◌≤◌, true, none, some, [], ◌∷◌, ◌++◌, ok, err, ◌≡◌, refl, arith, inl, string_eq, text_runs,
}
use whatsapp_auto_send.Prelude.Dict.{get, values}
use whatsapp_auto_send.Errors.{send_failed, not_on_whatsapp, api, session_logged_out_error}
use whatsapp_auto_send.ErrorMapping.{logged_out_reason}
use whatsapp_auto_send.Database.{SentMessageRow, pending, connected}
use whatsapp_auto_send.Sessions.Repository.{get_session, find_row, has_messages}
use whatsapp_auto_send.Sessions.State.{State, entry_of, remove_handle}
use whatsapp_auto_send.Sessions.Manager.{snapshot, max_reconnect_attempts, max_restarts}
use whatsapp_auto_send.Sessions.Manager.Connection.{closed, on_closed}
use whatsapp_auto_send.Sessions.Manager.Lifecycle.{
  connect, restart, delete_session_of, fire, timer_place, shutdown,
}
use whatsapp_auto_send.Sessions.Manager.Invariant.{AllSane}
use whatsapp_auto_send.Sessions.Manager.Outcomes.{
  Tracked, report_all, faults_in_a_row, report_all-Tracked,
}
use whatsapp_auto_send.Sessions.Manager.Reconnect.{update_all, update_all-retries}
use whatsapp_auto_send.Sessions.Manager.Closing.{IsShut, IsAmong, shutdown-IsShut}
use whatsapp_auto_send.Sessions.Manager.SignedOut.{on_closed-signed_out}
use whatsapp_auto_send.Sessions.Manager.Reopened.{on_closed-reopened}
use whatsapp_auto_send.Sessions.Manager.SecondSocket.{connect-second_socket}
use whatsapp_auto_send.Sessions.Manager.Recovery.{Recovers, on_closed-Recovers}
use whatsapp_auto_send.Sessions.Manager.Deletion.{delete_session_of-recorded}
use whatsapp_auto_send.Sessions.Manager.Samples.{
  row_one, entry_one, state_one, entry_waiting, state_waiting, outside, update_of,
}

abbrev live : State
live = state_one entry_one []

abbrev waiting : State
waiting = state_waiting []

live_entry : entry_of live "s1" ≡ some (0, entry_one)
unfolding entry_of get text_runs
live_entry = refl

waiting_entry : entry_of waiting "s1" ≡ some (0, entry_waiting)
unfolding entry_of get text_runs
waiting_entry = refl

live_row : get_session live.db "s1" ≡ some row_one
unfolding get_session find_row text_runs
live_row = refl

waiting_row : get_session waiting.db "s1" ≡ some row_one
unfolding get_session find_row text_runs
waiting_row = refl

live_sane : AllSane live
live_sane = (
  record { attempts = ground arith; restarts_capped = ground arith; unhealthy_failed = λ p. cc },
  tt,
)

live-Tracked : Tracked live "s1" 0
live-Tracked = record {
  ref = 0;
  entry = entry_one;
  found = live_entry;
  counted = refl;
  judged = refl;
}

report_all-Tracked_example :
    Tracked
      (report_all "s1"
        (some send_failed ∷ some not_on_whatsapp ∷ none ∷ some send_failed ∷ [])
        live)
      "s1"
      (faults_in_a_row 0 (some send_failed ∷ some not_on_whatsapp ∷ none ∷ some send_failed ∷ []))
report_all-Tracked_example =
    report_all-Tracked live "s1" 0
      (some send_failed ∷ some not_on_whatsapp ∷ none ∷ some send_failed ∷ []) live-Tracked

update_all-retries_example :
    (update_all 0
      (update_of (some closed) (some 428) ∷ update_of (some closed) (some 515) ∷ [])
      live).next_handle
    ≤ live.next_handle + (max_reconnect_attempts + max_restarts)
update_all-retries_example =
    update_all-retries 0
      (update_of (some closed) (some 428) ∷ update_of (some closed) (some 515) ∷ []) live
      ((λ p. cc), ((λ p. cc), tt))

among : IsAmong 0 (values live.entries)
unfolding IsAmong values
among = inl refl

shutdown-IsShut_example : IsShut 0 (shutdown live).open_sockets
shutdown-IsShut_example = shutdown-IsShut live 0 0 entry_one among refl refl

on_closed-signed_out_example :
    let s' = on_closed 0 (update_of (some closed) (some logged_out_reason)) live in
    (get "s1" s'.db.creds ≡ none)
    × (s'.timers ≡ live.timers)
    × ((connect "s1" outside s').0 ≡ err (api (session_logged_out_error "s1")))
    × ((restart "s1" outside s').0 ≡ err (api (session_logged_out_error "s1")))
on_closed-signed_out_example =
    on_closed-signed_out live 0 entry_one row_one (update_of (some closed) (some logged_out_reason))
      refl refl refl (λ p. cc) live_row refl outside

no_timer : timer_place 3 live.timers ≡ none
unfolding timer_place
no_timer = refl

on_closed-Recovers_example :
    Recovers 0 3 4
      (remove_handle 0 live.open_sockets)
      outside
      (on_closed 0 (update_of (some closed) none) live)
on_closed-Recovers_example =
    on_closed-Recovers 0 7 outside (update_of (some closed) none) live entry_one refl refl refl refl
      refl refl (λ p. cc) no_timer

timer_two : timer_place 2 waiting.timers ≡ some 0
unfolding timer_place text_runs
timer_two = refl

-- The second socket of a session was made beside its timer, and WhatsApp logs it out.
abbrev overtaken : State
overtaken = record waiting {
  heap = record entry_waiting { socket = some 0; status = connected } ∷ [];
  open_sockets = (0, 0) ∷ [];
}

overtaken_row : get_session overtaken.db "s1" ≡ some row_one
unfolding get_session find_row text_runs
overtaken_row = refl

overtaken_timer : timer_place 2 overtaken.timers ≡ some 0
unfolding timer_place text_runs
overtaken_timer = refl

on_closed-reopened_example :
    (fire 2 outside
      (on_closed 0 (update_of (some closed) (some logged_out_reason)) overtaken)).open_sockets
    ≡ remove_handle 0 overtaken.open_sockets ++ ((3, 0) ∷ [])
on_closed-reopened_example =
    on_closed-reopened overtaken 0 (record entry_waiting { socket = some 0; status = connected })
      row_one (update_of (some closed) (some logged_out_reason)) refl refl refl (λ p. cc)
      overtaken_row refl 7 2 outside refl overtaken_timer

connect-second_socket_example :
    (fire 2 outside (connect "s1" outside waiting).1).open_sockets
    ≡ (waiting.open_sockets ++ ((3, 0) ∷ [])) ++ ((4, 0) ∷ [])
connect-second_socket_example =
    connect-second_socket waiting "s1" 0 entry_waiting waiting_entry row_one 7 2 outside outside
      waiting_row (λ p. cc) refl refl refl timer_two

abbrev message_one : SentMessageRow
message_one = record {
  id = 1;
  session_id = "s1";
  idempotency_key = "k1";
  to_jid = "628@s.whatsapp.net";
  payload = record { text = "hi" };
  status = pending;
  wa_message_id = none;
  error_code = none;
  error_detail = none;
  created_at = 1;
}

recorded : has_messages "s1" (state_one entry_one (message_one ∷ [])).db.messages ≡ true
unfolding text_runs
recorded = refl

delete_session_of-recorded_example :
    let s = state_one entry_one (message_one ∷ []) in
    ¬ ((delete_session_of "s1" s).0 ≡ ok tt)
    × (snapshot (delete_session_of "s1" s).1 "s1" ≡ none)
    × ((delete_session_of "s1" s).1.db ≡ s.db)
delete_session_of-recorded_example =
    delete_session_of-recorded (state_one entry_one (message_one ∷ [])) "s1" recorded
