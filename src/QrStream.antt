-- ===== src/QrStream.antt =====
-- baileys/src/routes/qr-stream.ts: the event stream of a session that is being paired.
--
-- `closed` and the heartbeat are the handler's variables, `subscribed` tells whether its listener is
-- on the bus, and `ended` is the response's `writableEnded`. Whether a write of `send` throws is an
-- argument, for the heartbeat's own write too.
pub mod Frames
pub mod Closing
pub mod Telling
pub mod Opening
mod Tests
use Prim.Native.Char.{code}
use whatsapp_auto_send.Prelude.{
  ℕ, String, Bool, true, false, ◌||◌, Option, none, some, List, [], ◌∷◌, ◌++◌, Result, ok, err,
  ◌==◌, map, nat_eq, string_eq, if◌then◌else◌, is_truthy, template, join, ltb, ◌<>◌, ◌/◌, ◌%◌,
}
use whatsapp_auto_send.Errors.{ApiError, session_not_found_error}
use whatsapp_auto_send.Database.{
  SessionStatus, connected, logged_out, new, pairing, disconnected, unhealthy, status_name,
  SessionRow,
}
use whatsapp_auto_send.Sessions.Events.{
  SessionEvent, Body, status_changed, message_received, message_status,
}
use whatsapp_auto_send.Sessions.Events
use whatsapp_auto_send.Sessions.Repository.{get_session}
use whatsapp_auto_send.Sessions.State.{State}
use whatsapp_auto_send.Sessions.Manager.{Snapshot, snapshot}

-- What the stream can hold. A phone number that is not known is left out of the text.
pub data Frame : Type 0 where
  status_frame : String → SessionStatus → Option String → Frame
  qr_frame : String → String → Frame
  paired_frame : String → Option String → Frame
  failed_frame : String → Frame
  ping : Frame

pub record Stream : Type 0 where
  pub closed : Bool
  pub ended : Bool
  pub heartbeat : Bool
  pub subscribed : Bool
  pub written : List Frame

unfoldable pub cleanup : Stream → Stream
cleanup s =
    if s.closed
    then s
    else record s { closed = true; heartbeat = false; subscribed = false; ended = true }

-- `went` tells whether `res.write` returns.
unfoldable pub send : Frame → Bool → Stream → Stream
unfolding cleanup
send frame went s =
    if s.closed || s.ended
    then s
    else if went
    then record s { written = s.written ++ (frame ∷ []) }
    else cleanup s

unfoldable pub on_status : String → SessionStatus → Option String → Bool → Bool → Stream → Stream
unfolding send cleanup
on_status id connected phone first second s =
    cleanup (send (paired_frame id phone) second (send (status_frame id connected phone) first s))
on_status id logged_out phone first second s =
    cleanup (send (failed_frame id) second (send (status_frame id logged_out phone) first s))
on_status id status phone first second s = send (status_frame id status phone) first s

unfoldable pub on_body : String → Body → Bool → Bool → Stream → Stream
unfolding on_status send
on_body id (Events.qr text) first second s = send (qr_frame id text) first s
on_body id (status_changed status phone) first second s = on_status id status phone first second s
on_body id (message_received m) first second s = s
on_body id (message_status m) first second s = s

-- The listener, while it is on the bus.
unfoldable pub hear : String → SessionEvent → Bool → Bool → Stream → Stream
unfolding on_body
hear id event first second s =
    if s.subscribed
    then if event.session_id == id then on_body id event.body first second s else s
    else s

-- A write that throws leaves the timer's callback, and the stream as it was.
unfoldable pub beat : Bool → Stream → Stream
beat went s =
    if s.heartbeat
    then if s.closed || s.ended
      then s
      else if went
      then record s { written = s.written ++ (ping ∷ []) }
      else s
    else s

pub data Happening : Type 0 where
  hears : SessionEvent → Bool → Bool → Happening
  beats : Bool → Happening
  hangs_up : Happening

unfoldable pub happen : String → Stream → Happening → Stream
unfolding hear beat cleanup
happen id s (hears event first second) = hear id event first second s
happen id s (beats went) = beat went s
happen id s hangs_up = cleanup s

unfoldable pub happen_all : String → Stream → List Happening → Stream
unfolding happen
happen_all id s [] = s
happen_all id s (h ∷ hs) = happen_all id (happen id s h) hs

-- Headers are out, and neither the listener nor the heartbeat is there yet.
abbrev pub hijacked : Stream
hijacked = record {
  closed = false;
  ended = false;
  heartbeat = false;
  subscribed = false;
  written = [];
}

-- What `send` answers before the `const`s that `cleanup` names are initialised: `cleanup` sets
-- `closed` and then throws, and the error leaves the handler.
pub data Opened : Type 0 where
  opened : Stream → Opened
  reference_error : Stream → Opened

unfoldable pub early_send : Frame → Bool → Stream → Opened
early_send frame went s =
    if s.closed || s.ended
    then opened s
    else if went
    then opened (record s { written = s.written ++ (frame ∷ []) })
    else reference_error (record s { closed = true })

abbrev attached : Opened → Opened
attached (opened s) = opened (record s { subscribed = true; heartbeat = true })
attached (reference_error s) = reference_error s

abbrev then_qr : String → Option String → Bool → Opened → Opened
then_qr id none second o = o
then_qr id (some text) second (reference_error s) = reference_error s
then_qr id (some text) second (opened s) =
    if is_truthy (some text) then early_send (qr_frame id text) second s else opened s

abbrev pub live_status : Option Snapshot → SessionRow → SessionStatus
live_status none row = row.status
live_status (some v) row = v.status

abbrev live_qr : Option Snapshot → Option String
live_qr none = none
live_qr (some v) = v.qr

-- The handler up to its end, for the state of the manager and the outcomes of its two writes.
unfoldable pub open_stream : String → Bool → Bool → State → Result ApiError Opened
unfolding early_send
open_stream id first second s = elim (get_session s.db id) [
  | none ↦ err (session_not_found_error id)
  | some row ↦
      let live = snapshot s id in
      ok (
        attached (
          then_qr id (live_qr live) second
            (early_send (status_frame id (live_status live row) none) first hijacked)))
]
