-- ===== src/QrStream/Closing.antt =====
-- When the stream of qr-stream.ts closes, and that nothing is left open behind it.
use whatsapp_auto_send.Prelude.{
  String, Bool, true, false, Option, List, [], ◌∷◌, ◌≡◌, refl, ap, ◌∙◌, arith, ◌==◌, string_eq,
  if◌then◌else◌, if_cases,
}
use whatsapp_auto_send.Database.{
  SessionStatus, connected, logged_out, new, pairing, disconnected, unhealthy,
}
use whatsapp_auto_send.Sessions.Events.{
  SessionEvent, Body, status_changed, message_received, message_status,
}
use whatsapp_auto_send.Sessions.Events
use whatsapp_auto_send.QrStream.{
  Frame, Stream, cleanup, send, on_status, on_body, hear, beat, Happening, hears, beats, hangs_up,
  happen, happen_all,
}

-- A stream that is closed has ended its response, stopped its heartbeat and left the bus; one that
-- is not has done none of these.
pub record IsTidy (s : Stream) : Type 0 where
  pub ends : s.ended ≡ s.closed
  pub listens : s.subscribed ≡ (if s.closed then false else true)
  pub pings : s.heartbeat ≡ (if s.closed then false else true)

cleanup-IsTidy : (s : Stream) → IsTidy s → IsTidy (cleanup s)
unfolding cleanup
cleanup-IsTidy s t = ground (arith, t)

send-IsTidy : (f : Frame) (went : Bool) (s : Stream) → IsTidy s → IsTidy (send f went s)
unfolding send
send-IsTidy f went s t = ground (arith, t)

on_status-IsTidy :
    (id : String) (status : SessionStatus) (phone : Option String) (a b : Bool) (s : Stream)
    → IsTidy s
    → IsTidy (on_status id status phone a b s)
unfolding on_status
on_status-IsTidy id connected phone a b s t =
    cleanup-IsTidy _ (send-IsTidy _ b _ (send-IsTidy _ a s t))
on_status-IsTidy id logged_out phone a b s t =
    cleanup-IsTidy _ (send-IsTidy _ b _ (send-IsTidy _ a s t))
on_status-IsTidy id new phone a b s t = send-IsTidy _ a s t
on_status-IsTidy id pairing phone a b s t = send-IsTidy _ a s t
on_status-IsTidy id disconnected phone a b s t = send-IsTidy _ a s t
on_status-IsTidy id unhealthy phone a b s t = send-IsTidy _ a s t

pub on_body-IsTidy :
    (id : String) (body : Body) (a b : Bool) (s : Stream)
    → IsTidy s
    → IsTidy (on_body id body a b s)
unfolding on_body
on_body-IsTidy id (Events.qr text) a b s t = send-IsTidy _ a s t
on_body-IsTidy id (status_changed status phone) a b s t = on_status-IsTidy id status phone a b s t
on_body-IsTidy id (message_received m) a b s t = t
on_body-IsTidy id (message_status m) a b s t = t

happen-IsTidy : (id : String) (s : Stream) (h : Happening) → IsTidy s → IsTidy (happen id s h)
unfolding happen hear beat
happen-IsTidy id s (hears e a b) t =
    if_cases IsTidy s.subscribed _ _
      (λ _.
        if_cases IsTidy (e.session_id == id) _ _ (λ _. on_body-IsTidy id e.body a b s t) (λ _. t))
      (λ _. t)
happen-IsTidy id s (beats went) t = ground (arith, t)
happen-IsTidy id s hangs_up t = cleanup-IsTidy s t

-- Through all events, heartbeats and hang-ups, and whatever writes throw, a stream that has closed
-- has ended its response, stopped its heartbeat and left the bus, and one that has not closed has
-- done none of these.
pub happen_all-IsTidy :
    (id : String) (s : Stream) (hs : List Happening) → IsTidy s → IsTidy (happen_all id s hs)
unfolding happen_all
happen_all-IsTidy id s [] t = t
happen_all-IsTidy id s (h ∷ hs) t = happen_all-IsTidy id (happen id s h) hs (happen-IsTidy id s h t)

-- A closed stream is not written again.
happen-closed :
    (id : String) (s : Stream) (h : Happening) → IsTidy s → s.closed ≡ true → happen id s h ≡ s
unfolding happen hear beat cleanup
happen-closed id s (hears e a b) t c = ground (arith, t, c)
happen-closed id s (beats went) t c = ground (arith, t, c)
happen-closed id s hangs_up t c = ground (arith, c)

pub happen_all-closed :
    (id : String) (s : Stream) (hs : List Happening)
    → IsTidy s
    → s.closed ≡ true
    → happen_all id s hs ≡ s
unfolding happen_all
happen_all-closed id s [] t c = refl
happen_all-closed id s (h ∷ hs) t c =
    ap (λ x. happen_all id x hs) (happen-closed id s h t c) ∙ happen_all-closed id s hs t c
