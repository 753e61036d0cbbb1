-- ===== src/QrStream/Tests.antt =====
-- Runs of routes/qr-stream.ts on the stream of one session.
use whatsapp_auto_send.Prelude.{
  true, false, none, ok, some, [], ◌∷◌, ◌++◌, ◌≡◌, refl, string_eq, template, text_runs,
}
use whatsapp_auto_send.Database.{connected}
use whatsapp_auto_send.Sessions.Events.{SessionEvent, Body, status_changed}
use whatsapp_auto_send.Sessions.Events
use whatsapp_auto_send.Sessions.Repository.{get_session, find_row}
use whatsapp_auto_send.Sessions.State.{State, entry_of}
use whatsapp_auto_send.Sessions.Manager.Samples.{row_one, entry_one, state_one}
use whatsapp_auto_send.QrStream.{
  Stream, status_frame, qr_frame, paired_frame, hears, beats, hangs_up, happen_all, opened,
  open_stream, early_send,
}
use whatsapp_auto_send.QrStream.Closing.{IsTidy}
use whatsapp_auto_send.QrStream.Opening.{open_stream-IsTidy}
use whatsapp_auto_send.Sessions.Manager.{snapshot}
use whatsapp_auto_send.Prelude.Dict.{get}
use whatsapp_auto_send.QrStream.Telling.{hear_all, told, happen_all-told}
use whatsapp_auto_send.QrStream.Frames.{
  frame_text, frame_text-lines, object_text, members_of, IsOneLine,
}

abbrev live : State
live = state_one entry_one []

live_row : get_session live.db "s1" ≡ some row_one
unfolding get_session find_row text_runs
live_row = refl

abbrev running : Stream
running = record {
  closed = false;
  ended = false;
  heartbeat = true;
  subscribed = true;
  written = [];
}

running-IsTidy : IsTidy running
running-IsTidy = record { ends = refl; listens = refl; pings = refl }

abbrev qr_event : SessionEvent
qr_event = record { session_id = "s1"; at = 5; body = Events.qr "QR" }

abbrev other_event : SessionEvent
other_event = record { session_id = "s2"; at = 6; body = Events.qr "QR2" }

abbrev paired_event : SessionEvent
paired_event = record { session_id = "s1"; at = 7; body = status_changed connected (some "628") }

shown : told "s1" (qr_event ∷ other_event ∷ paired_event ∷ qr_event ∷ []) ≡ (
  qr_frame "s1" "QR"
      ∷ status_frame "s1" connected (some "628")
      ∷ paired_frame "s1" (some "628")
      ∷ [],
  true,
)
unfolding told text_runs
shown = refl

escaped :
    frame_text (qr_frame "s\"1" "a\nb")
    ≡ "event: qr\ndata: {\"id\":\"s\\\"1\",\"qr\":\"a\\nb\"}\n\n"
unfolding frame_text text_runs
escaped = refl

abbrev shown_first : Stream
shown_first = record running { written = status_frame "s1" connected none ∷ [] }

opened-live : open_stream "s1" true true live ≡ ok (opened shown_first)
unfolding open_stream early_send get_session find_row snapshot entry_of get text_runs
opened-live = refl

open_stream-IsTidy_example : IsTidy (
    happen_all "s1" shown_first
      (hears qr_event true true ∷ beats false ∷ hears paired_event true false ∷ hangs_up ∷ []))
open_stream-IsTidy_example =
    open_stream-IsTidy "s1" true true live shown_first
      (hears qr_event true true ∷ beats false ∷ hears paired_event true false ∷ hangs_up ∷ [])
      opened-live

happen_all-told_example :
    ((happen_all "s1" running (hear_all (qr_event ∷ paired_event ∷ []))).written
      ≡ [] ++ (told "s1" (qr_event ∷ paired_event ∷ [])).0)
    × ((happen_all "s1" running (hear_all (qr_event ∷ paired_event ∷ []))).closed
        ≡ (told "s1" (qr_event ∷ paired_event ∷ [])).1)
happen_all-told_example =
    happen_all-told "s1" (qr_event ∷ paired_event ∷ []) running running-IsTidy refl

frame_text-lines_example :
    (frame_text (qr_frame "s1" "a\nb")
      ≡ template (
          "event: "
          ∷ "qr"
          ∷ "\ndata: "
          ∷ object_text (members_of (qr_frame "s1" "a\nb"))
          ∷ "\n\n"
          ∷ []))
    × IsOneLine "qr"
    × IsOneLine (object_text (members_of (qr_frame "s1" "a\nb")))
frame_text-lines_example = frame_text-lines (qr_frame "s1" "a\nb") (λ p. cc)
