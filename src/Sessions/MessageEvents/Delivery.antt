-- ===== src/Sessions/MessageEvents/Delivery.antt =====
-- baileys/src/sessions/message-events.ts: which messages and updates reach the event bus.
use whatsapp_auto_send.Prelude.{
  ℕ, ◌+◌, length, String, Bool, true, false, not, ◌&&◌, Option, none, some, List, [], ◌∷◌, ◌++◌,
  ◌==◌, nat_eq, string_eq, if◌then◌else◌, ◌≡◌, refl, ap, ◌∙◌, sym, arith, is_truthy, Option-cases,
  Bool-cases, inl, inr, ==-true_of_eq, option_eq, append_nil, append_assoc,
}
use whatsapp_auto_send.Errors.{ErrorCode}
use whatsapp_auto_send.ErrorMapping.{map_ack_error}
use whatsapp_auto_send.Sessions.Events.{SessionEvent, Body, message_received, message_status}
use whatsapp_auto_send.Sessions.MessageEvents.{
  WaMessage, MessageKey, StatusUpdate, Outbox, to_received_event, upsert_loop, on_upsert,
  mark_as_read, read_delay, to_status_event, on_update, received_of,
}

-- The text, or the empty one.
abbrev pub text_of : Option String → String
text_of none = ""
text_of (some t) = t

-- The messages of others that say which they are and from whom.
abbrev pub is_inbound : WaMessage → Bool
is_inbound m = not m.key.from_me && (is_truthy m.key.id && is_truthy m.key.remote_jid)

unfoldable pub inbound : List WaMessage → List WaMessage
inbound [] = []
inbound (m ∷ ms) = let rest = inbound ms in if is_inbound m then m ∷ rest else rest

unfoldable pub keys_of : List WaMessage → List MessageKey
keys_of [] = []
keys_of (m ∷ ms) = m.key ∷ keys_of ms

-- The keys that the armed timers mark as read.
unfoldable pub read_keys : List (MessageKey × ℕ) → List MessageKey
read_keys [] = []
read_keys ((key, due) ∷ rs) = key ∷ read_keys rs

read_keys-append :
    (rs ts : List (MessageKey × ℕ)) → read_keys (rs ++ ts) ≡ read_keys rs ++ read_keys ts
unfolding read_keys
read_keys-append [] ts = refl
read_keys-append ((key, due) ∷ rs) ts = ap (λ ks. key ∷ ks) (read_keys-append rs ts)

-- The ids of the messages that a list of events tells of as received.
abbrev received_id : Body → List String
received_id (message_received r) = r.message_id ∷ []
received_id _ = []

unfoldable pub received_ids : List SessionEvent → List String
received_ids [] = []
received_ids (e ∷ es) = received_id e.body ++ received_ids es

unfoldable pub ids_of : List WaMessage → List String
ids_of [] = []
ids_of (m ∷ ms) = text_of m.key.id ∷ ids_of ms

received_ids-append :
    (es fs : List SessionEvent) → received_ids (es ++ fs) ≡ received_ids es ++ received_ids fs
unfolding received_ids
received_ids-append [] fs = refl
received_ids-append (e ∷ es) fs =
    ap (λ xs. received_id e.body ++ xs) (received_ids-append es fs)
    ∙ sym (append_assoc (received_id e.body) (received_ids es) (received_ids fs))

module _ (random : ℕ → ℕ) (session_id : String) (now : ℕ) where
  outbound_event :
      (m : WaMessage) → is_inbound m ≡ false → to_received_event session_id m now ≡ none
  unfolding to_received_event
  outbound_event m b = elim (Option-cases m.key.id) [
    | inl h ↦ ground (arith, h)
    | inr (id, h) ↦ elim (Option-cases m.key.remote_jid) [
      | inl k ↦ ground (arith, h, k)
      | inr (jid, k) ↦ ground (arith, h, k, b)
    ]
  ]

  inbound_event :
      (m : WaMessage)
      → is_inbound m ≡ true
      → (event : SessionEvent) × (to_received_event session_id m now ≡ some event)
        × (received_id event.body ≡ text_of m.key.id ∷ [])
  unfolding to_received_event
  inbound_event m b = elim (Option-cases m.key.id) [
    | inl h ↦ ground (arith, h, b)
    | inr (id, h) ↦ elim (Option-cases m.key.remote_jid) [
      | inl k ↦ ground (arith, h, k, b)
      | inr (jid, k) ↦ (received_of session_id m now id jid, ground (arith, h, k, b), rw h)
    ]
  ]

  abbrev kept : Outbox → WaMessage → SessionEvent → Outbox
  kept o m event = record {
    emitted = o.emitted ++ (event ∷ []);
    reads = mark_as_read random now m.key o.reads;
  }

  upsert_loop-told :
      (ms : List WaMessage) (o : Outbox)
      → ((read_keys (upsert_loop random session_id now ms o).reads)
          ≡ read_keys o.reads ++ keys_of (inbound ms))
        × (received_ids (upsert_loop random session_id now ms o).emitted
            ≡ received_ids o.emitted ++ ids_of (inbound ms))
  unfolding upsert_loop inbound keys_of ids_of received_ids read_keys mark_as_read
  upsert_loop-told [] o =
      (sym (append_nil (read_keys o.reads)), sym (append_nil (received_ids o.emitted)))
  upsert_loop-told (m ∷ ms) o = elim (Bool-cases (is_inbound m)) [
    | inr b ↦ rw (upsert_loop, outbound_event m b, b) (upsert_loop-told ms o)
    | inl b ↦
        let (event, ev, told) = inbound_event m b in
        let (read, ids) = upsert_loop-told ms (kept o m event) in
        rw (upsert_loop, ev, b)
          (
            read
                ∙ ap (λ ks. ks ++ keys_of (inbound ms))
                    (read_keys-append o.reads
                      ((m.key, now + read_delay (random (length o.reads))) ∷ []))
                ∙ append_assoc (read_keys o.reads) (m.key ∷ []) (keys_of (inbound ms)),
            ids
                ∙ ap (λ xs. xs ++ ids_of (inbound ms)) (received_ids-append o.emitted (event ∷ []))
                ∙ append_assoc (received_ids o.emitted) (received_id event.body ++ [])
                    (ids_of (inbound ms))
                ∙ ap (λ xs. received_ids o.emitted ++ ((xs ++ []) ++ ids_of (inbound ms))) told,
          )
  ]

-- Of the messages that a socket is notified of, each one that is not one's own and that has an id and
-- an address is told on the bus, in order, and a timer that marks it as read is armed for it, in the
-- same order, once each and for no other message.
pub on_upsert-told :
    (random : ℕ → ℕ) (session_id : String) (now : ℕ) (ms : List WaMessage) (o : Outbox)
    → let after = on_upsert random session_id now "notify" ms o in
      (read_keys after.reads ≡ read_keys o.reads ++ keys_of (inbound ms))
      × (received_ids after.emitted ≡ received_ids o.emitted ++ ids_of (inbound ms))
unfolding on_upsert
on_upsert-told random session_id now ms o =
    rw (on_upsert, ==-true_of_eq {A = String} "notify" "notify" refl)
      (upsert_loop-told random session_id now ms o)

-- The ids and codes of the failures that a list of events tells of.
abbrev failure_of : Body → List (String × ErrorCode)
failure_of (message_status st) = elim st.error_code [ none ↦ [] | some c ↦ (st.message_id, c) ∷ [] ]
failure_of _ = []

unfoldable pub failures : List SessionEvent → List (String × ErrorCode)
failures [] = []
failures (e ∷ es) = failure_of e.body ++ failures es

failures-append : (es fs : List SessionEvent) → failures (es ++ fs) ≡ failures es ++ failures fs
unfolding failures
failures-append [] fs = refl
failures-append (e ∷ es) fs =
    ap (λ xs. failure_of e.body ++ xs) (failures-append es fs)
    ∙ sym (append_assoc (failure_of e.body) (failures es) (failures fs))

module _ (status_names : ℕ → Option String) (error_status : ℕ) where
  -- What an update says of a rejected message of one's own.
  abbrev pub rejection : StatusUpdate → List (String × ErrorCode)
  rejection u = elim u.key.id [
    | none ↦ []
    | some id ↦
        if (is_truthy (some id) && u.key.from_me) && u.status == some error_status
        then (id, map_ack_error u.stub) ∷ []
        else []
  ]

  unfoldable pub rejections : List StatusUpdate → List (String × ErrorCode)
  rejections [] = []
  rejections (u ∷ us) = rejection u ++ rejections us

  event_failure :
      (session_id : String) (now : ℕ) (u : StatusUpdate)
      → elim (to_status_event status_names error_status session_id now u) [
        | none ↦ []
        | some event ↦ failure_of event.body
      ]
        ≡ rejection u
  unfolding to_status_event
  event_failure session_id now u = ground arith

  quiet :
      (session_id : String) (now : ℕ) (u : StatusUpdate)
      → to_status_event status_names error_status session_id now u ≡ none
      → [] ≡ rejection u
  quiet session_id now u h =
      sym (ap (λ t. elim t [ none ↦ [] | some event ↦ failure_of event.body ]) h)
      ∙ event_failure session_id now u

  loud :
      (session_id : String) (now : ℕ) (u : StatusUpdate) (event : SessionEvent)
      → to_status_event status_names error_status session_id now u ≡ some event
      → failure_of event.body ≡ rejection u
  loud session_id now u event h =
      sym (ap (λ t. elim t [ none ↦ [] | some event ↦ failure_of event.body ]) h)
      ∙ event_failure session_id now u

  -- The bus is told of the rejections of one's own messages, each with the code that its reason stands
  -- for, once and in order, and of no other failure.
  pub on_update-rejections :
      (session_id : String) (now : ℕ) (us : List StatusUpdate) (o : Outbox)
      → failures (on_update status_names error_status session_id now us o).emitted
        ≡ failures o.emitted ++ rejections us
  unfolding on_update rejections failures
  on_update-rejections session_id now [] o = sym (append_nil (failures o.emitted))
  on_update-rejections session_id now (u ∷ us) o =
      elim (Option-cases (to_status_event status_names error_status session_id now u)) [
        | inl h ↦
            rw (on_update, h)
              (on_update-rejections session_id now us o
                ∙ ap (λ xs. failures o.emitted ++ (xs ++ rejections us)) (quiet session_id now u h))
        | inr (event, h) ↦
            rw (on_update, h)
              (on_update-rejections session_id now us
                  (record o { emitted = o.emitted ++ (event ∷ []) })
                ∙ ap (λ xs. xs ++ rejections us) (failures-append o.emitted (event ∷ []))
                ∙ append_assoc (failures o.emitted) (failure_of event.body ++ []) (rejections us)
                ∙ ap (λ xs. failures o.emitted ++ (xs ++ rejections us))
                    (append_nil (failure_of event.body) ∙ loud session_id now u event h))
      ]
