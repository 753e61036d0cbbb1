-- ===== src/QrStream/Telling.antt =====
-- Which events the stream of qr-stream.ts shows.
use whatsapp_auto_send.Prelude.{
  String, Bool, true, false, List, [], ◌∷◌, ◌++◌, ◌≡◌, refl, ap, sym, ◌∙◌, arith, ◌==◌, string_eq,
  if◌then◌else◌, append_nil, append_assoc, subst,
}
use whatsapp_auto_send.Database.{connected, logged_out, new, pairing, disconnected, unhealthy}
use whatsapp_auto_send.Sessions.Events.{
  SessionEvent, Body, status_changed, message_received, message_status,
}
use whatsapp_auto_send.Sessions.Events
use whatsapp_auto_send.QrStream.{
  Frame, status_frame, qr_frame, paired_frame, failed_frame, Stream, cleanup, send, on_status,
  on_body, hear, Happening, hears, happen, happen_all,
}
use whatsapp_auto_send.QrStream.Closing.{IsTidy, on_body-IsTidy, happen_all-closed}

-- What the consumer is told of one event of the session, and whether it is the last.
abbrev pub frames_of : String → Body → List Frame
frames_of id (Events.qr text) = qr_frame id text ∷ []
frames_of id (status_changed connected phone) =
    status_frame id connected phone ∷ paired_frame id phone ∷ []
frames_of id (status_changed logged_out phone) =
    status_frame id logged_out phone ∷ failed_frame id ∷ []
frames_of id (status_changed status phone) = status_frame id status phone ∷ []
frames_of id (message_received m) = []
frames_of id (message_status m) = []

abbrev pub is_last : Body → Bool
is_last (status_changed connected phone) = true
is_last (status_changed logged_out phone) = true
is_last _ = false

-- The frames for the events up to the one that ends the pairing, and whether there is such a one.
unfoldable pub told : String → List SessionEvent → List Frame × Bool
told id [] = ([], false)
told id (e ∷ es) =
    let rest = told id es in
    if e.session_id == id
    then if is_last e.body
      then (frames_of id e.body, true)
      else (frames_of id e.body ++ rest.0, rest.1)
    else rest

unfoldable pub hear_all : List SessionEvent → List Happening
hear_all [] = []
hear_all (e ∷ es) = hears e true true ∷ hear_all es

-- One event of the session on an open stream.
module _ (id : String) (s : Stream) (t : IsTidy s) (still : s.closed ≡ false) where
  on_body-told :
      (body : Body)
      → ((on_body id body true true s).written ≡ s.written ++ frames_of id body)
        × ((on_body id body true true s).closed ≡ is_last body)
  unfolding on_body on_status send cleanup
  on_body-told (Events.qr text) = ground (arith, t, still)
  on_body-told (status_changed new phone) = ground (arith, t, still)
  on_body-told (status_changed pairing phone) = ground (arith, t, still)
  on_body-told (status_changed connected phone) = ground (
    arith,
    t,
    still,
    append_assoc s.written (status_frame id connected phone ∷ []) (paired_frame id phone ∷ []),
  )
  on_body-told (status_changed disconnected phone) = ground (arith, t, still)
  on_body-told (status_changed logged_out phone) = ground (
    arith,
    t,
    still,
    append_assoc s.written (status_frame id logged_out phone ∷ []) (failed_frame id ∷ []),
  )
  on_body-told (status_changed unhealthy phone) = ground (arith, t, still)
  on_body-told (message_received m) = (sym (append_nil s.written), still)
  on_body-told (message_status m) = (sym (append_nil s.written), still)

  happen-hears :
      (e : SessionEvent)
      → happen id s (hears e true true)
        ≡ (if e.session_id == id then on_body id e.body true true s else s)
  unfolding happen hear
  happen-hears e = ground (arith, t.listens, still)

abbrev Tells : String → Stream → List SessionEvent → Type 0
Tells id s es =
    ((happen_all id s (hear_all es)).written ≡ s.written ++ (told id es).0)
    × ((happen_all id s (hear_all es)).closed ≡ (told id es).1)

module _ (id : String) (e : SessionEvent) (es : List SessionEvent) (s : Stream) (t : IsTidy s)
    (still : s.closed ≡ false)
    (ih : (x : Stream) → IsTidy x → x.closed ≡ false → Tells id x es) where
  abbrev after_it : Stream
  after_it = on_body id e.body true true s

  by_tests :
      (mine last : Bool)
      → is_last e.body ≡ last
      → let s' = if mine then after_it else s in
        let rest = told id es in
        let out =
          if mine
          then if last then (frames_of id e.body, true) else (frames_of id e.body ++ rest.0, rest.1)
          else rest in
        ((happen_all id s' (hear_all es)).written ≡ s.written ++ out.0)
        × ((happen_all id s' (hear_all es)).closed ≡ out.1)
  by_tests false last h = ih s t still
  by_tests true true h =
      let (wrote, shut) = on_body-told id s t still e.body in
      let rest =
        happen_all-closed id after_it (hear_all es) (on_body-IsTidy id e.body true true s t)
          (shut ∙ h) in
      (ap (λ x. x.written) rest ∙ wrote, ap (λ x. x.closed) rest ∙ shut ∙ h)
  by_tests true false h =
      let (wrote, shut) = on_body-told id s t still e.body in
      let (later, ends) = ih after_it (on_body-IsTidy id e.body true true s t) (shut ∙ h) in
      (
        later
            ∙ ap (λ fs. fs ++ (told id es).0) wrote
            ∙ append_assoc s.written (frames_of id e.body) (told id es).0,
        ends,
      )

-- While no write throws and nobody hangs up, an open stream shows the events of its session, and of
-- no other, in order: each QR code and each status, up to the first that the session is connected or
-- logged out, which is shown with its outcome; exactly then the stream closes.
pub happen_all-told :
    (id : String) (es : List SessionEvent) (s : Stream)
    → IsTidy s
    → s.closed ≡ false
    → ((happen_all id s (hear_all es)).written ≡ s.written ++ (told id es).0)
      × ((happen_all id s (hear_all es)).closed ≡ (told id es).1)
unfolding happen_all hear_all told
happen_all-told id [] s t still = (sym (append_nil s.written), still)
happen_all-told id (e ∷ es) s t still =
    subst
      (λ x.
        ((happen_all id x (hear_all es)).written ≡ s.written ++ (told id (e ∷ es)).0)
        × ((happen_all id x (hear_all es)).closed ≡ (told id (e ∷ es)).1))
      (sym (happen-hears id s t still e))
      (by_tests id e es s t still (happen_all-told id es) (e.session_id == id) (is_last e.body)
        refl)
