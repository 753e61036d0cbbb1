-- ===== src/Messages/Send/Tests.antt =====
-- Runs of messages/send.ts on a gateway with one session, and the theorems there.
use whatsapp_auto_send.Prelude.{
  ◌+◌, ◌≤◌, true, none, some, [], ◌∷◌, ok, ◌≡◌, refl, arith, string_eq, text_runs,
}
use whatsapp_auto_send.Prelude.Dict.{get}
use whatsapp_auto_send.Errors.{upstream_timeout_error}
use whatsapp_auto_send.Phone.{to_user_jid, normalise_phone_number}
use whatsapp_auto_send.Timeout.{settles, never, with_timeout}
use whatsapp_auto_send.Database.{SessionStatus-discrete}
use whatsapp_auto_send.Sessions.State.{entry_of, modify_at}
use whatsapp_auto_send.ErrorMapping.{map_send_error, map_whatsapp_error}
use whatsapp_auto_send.Sessions.Manager.{record_send_outcome}
use whatsapp_auto_send.Sessions.Manager.Sockets.{require_connected_socket}
use whatsapp_auto_send.Sessions.Manager.Samples.{entry_one, state_one}
use whatsapp_auto_send.Messages.Repository.{
  claimed, in_flight, claim_send, find_by_idempotency_key, find_message, insert_pending,
  pending_row,
}
use whatsapp_auto_send.Messages.Send.{
  Deps, Env, SendRequest, World, default_timeouts, input_of, send_text_message, after_claim,
  attempt, deliver, on_failed,
}
use whatsapp_auto_send.Messages.Send.Outcome.{on_wire}
use whatsapp_auto_send.Messages.Send.Effect.{Ending, send_text_message-Ending}
use whatsapp_auto_send.Messages.Send.Once.{
  Call, perform_all, tally, is_fresh, is_failure, send-at_most_once, send-wire,
}
use whatsapp_auto_send.Messages.Send.Time.{send_text_message-claim_lasts}
use whatsapp_auto_send.Messages.Send.Twice.{Reaches, send-sent_twice}

abbrev deps : Deps
deps = record { timeouts = default_timeouts; metered = true }

abbrev good : Env
good = record {
  on_whatsapp =
      settles 100 (ok (record { is_there = true; jid = "6281234567890@s.whatsapp.net" } ∷ []));
  composing = settles 10 (ok tt);
  paused = settles 10 (ok tt);
  send_message = settles 200 (ok (some "WA1"));
  stamp = "Sat, 8 Aug 2026 07.00";
  mark_sent_failure = none;
  mark_failed_failure = none;
}

-- The answer to `sendMessage` never comes.
abbrev silent : Env
silent = record good { send_message = never }

abbrev request : SendRequest
request = record { idempotency_key = "k1"; to = "+62 812-3456-7890"; text = "hi" }

abbrev world : World
world = record { state = state_one entry_one []; wire = [] }

abbrev call : Env → Call
call env = record { deps = deps; env = env; session_id = "s1"; request = request }

send-at_most_once_example : tally is_fresh "k1" (call good ∷ call good ∷ []) world ≤ 1
send-at_most_once_example = send-at_most_once "k1" (call good ∷ call good ∷ []) world

send-wire_example :
    on_wire "k1" (perform_all (call silent ∷ call good ∷ []) world).wire
    ≤ on_wire "k1" world.wire + (1 + tally is_failure "k1" (call silent ∷ call good ∷ []) world)
send-wire_example = send-wire "k1" (call silent ∷ call good ∷ []) world

send_text_message-Ending_example :
    Ending deps good "s1" request world
      (send_text_message deps good "s1" request world).0
      (send_text_message deps good "s1" request world).1
send_text_message-Ending_example = send_text_message-Ending deps good "s1" request world

claim_first :
    (claim_send world.state.db (input_of "s1" request "6281234567890@s.whatsapp.net") 1_000).0
    ≡ ok (claimed (pending_row 1 (input_of "s1" request "6281234567890@s.whatsapp.net") 1_000))
unfolding claim_send insert_pending find_message text_runs
claim_first = refl

send_text_message-claim_lasts_example :
    (claim_send
      (claim_send world.state.db (input_of "s1" request "6281234567890@s.whatsapp.net") 1_000).1
      (input_of "s1" request "6281234567890@s.whatsapp.net")
      (send_text_message deps silent "s1" request world).1.state.now).0
    ≡ ok (in_flight (pending_row 1 (input_of "s1" request "6281234567890@s.whatsapp.net") 1_000))
send_text_message-claim_lasts_example =
    send_text_message-claim_lasts deps silent "s1" request world "6281234567890@s.whatsapp.net"
      (pending_row 1 (input_of "s1" request "6281234567890@s.whatsapp.net") 1_000)
      (claim_send world.state.db (input_of "s1" request "6281234567890@s.whatsapp.net") 1_000).1
      (input_of "s1" request "6281234567890@s.whatsapp.net")
      (send_text_message deps silent "s1" request world).1.state.now refl claim_first refl refl
      (ground arith)

valid : to_user_jid request.to ≡ ok "6281234567890@s.whatsapp.net"
unfolding to_user_jid normalise_phone_number text_runs
valid = refl

no_row : find_by_idempotency_key world.state.db "k1" ≡ none
unfolding find_by_idempotency_key find_message
no_row = refl

socket_zero : require_connected_socket world.state "s1" ≡ ok 0
unfolding require_connected_socket entry_of get SessionStatus-discrete text_runs
socket_zero = refl

answered :
    with_timeout "onWhatsApp" 15_000 silent.on_whatsapp
    ≡ ok (record { is_there = true; jid = "6281234567890@s.whatsapp.net" } ∷ [])
unfolding with_timeout
answered = refl

reaches : Reaches deps silent "s1" request world
reaches = record {
  jid = "6281234567890@s.whatsapp.net";
  valid = valid;
  free = rw no_row tt;
  socket = 0;
  held = socket_zero;
  there = "6281234567890@s.whatsapp.net";
  known = (record { is_there = true; jid = "6281234567890@s.whatsapp.net" } ∷ [], answered, refl);
}

times_out : is_failure (send_text_message deps silent "s1" request world).0 ≡ true
unfolding send_text_message after_claim attempt deliver on_failed claim_send insert_pending
    find_message require_connected_socket entry_of get to_user_jid normalise_phone_number
    with_timeout SessionStatus-discrete text_runs
times_out = refl

still_usable :
    require_connected_socket (send_text_message deps silent "s1" request world).1.state "s1" ≡ ok 0
unfolding send_text_message after_claim attempt deliver on_failed claim_send insert_pending
    find_message require_connected_socket entry_of get to_user_jid normalise_phone_number
    with_timeout record_send_outcome modify_at map_send_error map_whatsapp_error
    upstream_timeout_error SessionStatus-discrete text_runs
still_usable = refl

send-sent_twice_example :
    on_wire "k1"
      (send_text_message deps good "s1" request
        (send_text_message deps silent "s1" request world).1).1.wire
    ≡ 2 + on_wire "k1" world.wire
send-sent_twice_example =
    send-sent_twice deps silent good "s1" request world "6281234567890@s.whatsapp.net" 0 reaches
      times_out refl still_usable
      (record { is_there = true; jid = "6281234567890@s.whatsapp.net" } ∷ [], answered, refl)
