-- ===== src/QrStream/Opening.antt =====
-- How the handler of qr-stream.ts ends: with a stream that is set up, or with a write that throws.
use whatsapp_auto_send.Prelude.{
  List, ◌||◌, ◌≡◌, if_cases, arith, is_truthy, Option-cases, inl, inr, String, Bool, true, false,
  Option, none, some, [], ok, refl, ap, string_eq,
}
use whatsapp_auto_send.Database.{SessionRow}
use whatsapp_auto_send.Sessions.Repository.{get_session}
use whatsapp_auto_send.Sessions.State.{State}
use whatsapp_auto_send.Sessions.Manager.{snapshot}
use whatsapp_auto_send.QrStream.Closing.{IsTidy, happen_all-IsTidy}
use whatsapp_auto_send.QrStream.{
  opened, Opened, Frame, Happening, happen_all, qr_frame, hijacked, live_status, status_frame,
  Stream, reference_error, open_stream, early_send, then_qr, attached, live_qr,
}

then_qr-error :
    (id : String) (o : Option String) (second : Bool) (s : Stream)
    → then_qr id o second (reference_error s) ≡ reference_error s
then_qr-error id none second s = refl
then_qr-error id (some text) second s = refl

-- The first write of the stream is one of `send`, and `cleanup` names what is not there yet: if it
-- throws, the handler leaves with an error, the stream counts as closed, and the response is not
-- ended.
pub open_stream-first_write :
    (id : String) (second : Bool) (s : State) (row : SessionRow)
    → get_session s.db id ≡ some row
    → open_stream id false second s
      ≡ ok (
          reference_error (record {
            closed = true;
            ended = false;
            heartbeat = false;
            subscribed = false;
            written = [];
          }))
unfolding open_stream early_send
open_stream-first_write id second s row found =
    rw (found, open_stream)
      (ap (λ o. ok (attached o))
        (then_qr-error id (live_qr (snapshot s id)) second (record {
          closed = true;
          ended = false;
          heartbeat = false;
          subscribed = false;
          written = [];
        })))

-- What stands before the listener and the heartbeat are there, unless an error left the handler.
abbrev IsFresh : Opened → Type 0
IsFresh (opened s) = (s.closed ≡ false) × (s.ended ≡ false)
IsFresh (reference_error s) = Unit

early_send-IsFresh :
    (f : Frame) (went : Bool) (s : Stream)
    → s.closed ≡ false
    → s.ended ≡ false
    → IsFresh (early_send f went s)
unfolding early_send
early_send-IsFresh f went s c e =
    if_cases IsFresh (s.closed || s.ended) _ _ (λ _. (c, e))
      (λ _. if_cases IsFresh went _ _ (λ _. (c, e)) (λ _. tt))

then_qr-IsFresh :
    (id : String) (o : Option String) (second : Bool) (x : Opened)
    → IsFresh x
    → IsFresh (then_qr id o second x)
then_qr-IsFresh id none second x h = h
then_qr-IsFresh id (some text) second (reference_error s) h = tt
then_qr-IsFresh id (some text) second (opened s) (c, e) =
    if_cases IsFresh (is_truthy (some text)) _ _
      (λ _. early_send-IsFresh (qr_frame id text) second s c e) (λ _. (c, e))

attached-IsTidy : (x : Opened) (s : Stream) → IsFresh x → attached x ≡ opened s → IsTidy s
attached-IsTidy (opened t) s f h = ground (arith, f, h)
attached-IsTidy (reference_error t) s f h = cc

-- The stream of a handler that ends without an error: through all events, heartbeats and hang-ups
-- that follow, and whatever writes throw then, once it has closed it has ended its response, stopped
-- its heartbeat and left the bus, and before that it has done none of these.
pub open_stream-IsTidy :
    (id : String) (first second : Bool) (state : State) (s : Stream) (hs : List Happening)
    → open_stream id first second state ≡ ok (opened s)
    → IsTidy (happen_all id s hs)
unfolding open_stream
open_stream-IsTidy id first second state s hs h =
    happen_all-IsTidy id s hs (elim (Option-cases (get_session state.db id)) [
      | inl e ↦ ground (arith, h, e)
      | inr (row, e) ↦
          let live = snapshot state id in
          let sent = early_send (status_frame id (live_status live row) none) first hijacked in
          let gives : open_stream id first second state
              ≡ ok (attached (then_qr id (live_qr live) second sent)) =
            rw (e, open_stream) in
          attached-IsTidy (then_qr id (live_qr live) second sent) s
            (then_qr-IsFresh id (live_qr live) second sent (
              early_send-IsFresh (status_frame id (live_status live row) none) first hijacked refl
                refl))
            (cc (gives, h))
    ])
