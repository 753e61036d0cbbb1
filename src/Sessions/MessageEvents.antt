-- ===== src/Sessions/MessageEvents.antt =====
-- baileys/src/sessions/message-events.ts: what the messages of a socket become on the event bus.
--
-- `status_names` is the library's enumeration `proto.WebMessageInfo.Status`, from numbers to names in
-- lower case, and `error_status` its `ERROR`. The events that are emitted are a list, and so are the
-- timers that `markAsRead` arms, each with its key and the time at which it is due; `random` gives the
-- random number that is drawn for each of them, in parts of 2^53.
pub mod Delivery
mod Tests
use whatsapp_auto_send.Prelude.{
  ℕ, ◌+◌, ◌*◌, ◌/◌, String, Bool, true, false, not, ◌&&◌, Option, none, some, List, [], ◌∷◌, ◌++◌,
  ◌==◌, string_eq, nat_eq, if◌then◌else◌, length, is_truthy, template, decimal,
}
use whatsapp_auto_send.Errors.{ErrorCode}
use whatsapp_auto_send.ErrorMapping.{map_ack_error}
use whatsapp_auto_send.Sessions.Events.{
  SessionEvent, Body, message_received, message_status, Received, MessageStatus,
}

-- A field of a message's content: `conversation` is a text, the others are objects of which the
-- program reads a text and a caption.
pub data Part : Type 0 where
  plain : String → Part
  object : Option String → Option String → Part

pub record MessageKey : Type 0 where
  pub from_me : Bool
  pub id : Option String
  pub remote_jid : Option String

-- The content has its fields in order; a field may be there with no value.
pub record WaMessage : Type 0 where
  pub key : MessageKey
  pub push_name : Option String
  pub message_timestamp : Option ℕ
  pub content : Option (List (String × Option Part))

unfoldable pub status_name_of : (ℕ → Option String) → Option ℕ → String
status_name_of status_names none = "unknown"
status_name_of status_names (some s) = elim (status_names s) [
  | none ↦ template ("status_" ∷ decimal s ∷ [])
  | some name ↦ name
]

unfoldable pub field : String → List (String × Option Part) → Option Part
field name [] = none
field name ((k, part) ∷ fields) = if k == name then part else field name fields

abbrev plain_of : Option Part → Option String
plain_of (some (plain t)) = some t
plain_of _ = none

abbrev text_of : Option Part → Option String
text_of (some (object text caption)) = text
text_of _ = none

abbrev caption_of : Option Part → Option String
caption_of (some (object text caption)) = caption
caption_of _ = none

-- `a ?? b`
abbrev or_else : Option String → Option String → Option String
or_else none b = b
or_else (some a) b = some a

unfoldable pub extract_text : WaMessage → Option String
unfolding field
extract_text m = elim m.content [
  | none ↦ none
  | some c ↦ or_else (plain_of (field "conversation" c)) (
      or_else (text_of (field "extendedTextMessage" c)) (
        or_else (caption_of (field "imageMessage" c))
          (or_else (caption_of (field "videoMessage" c)) (caption_of (field "documentMessage" c)))))
]

first_present : List (String × Option Part) → String
first_present [] = "unknown"
first_present ((k, none) ∷ fields) = first_present fields
first_present ((k, some part) ∷ fields) = k

unfoldable pub message_type : WaMessage → String
unfolding first_present
message_type m = elim m.content [ none ↦ "unknown" | some c ↦ first_present c ]

-- `message.messageTimestamp ? … : undefined`
abbrev timestamp_of : Option ℕ → Option ℕ
timestamp_of none = none
timestamp_of (some t) = if t == 0 then none else some t

abbrev pub received_of : String → WaMessage → ℕ → String → String → SessionEvent
received_of session_id m now id jid = record {
  session_id = session_id;
  at = now;
  body = message_received (record {
    message_id = id;
    sender = jid;
    push_name = m.push_name;
    timestamp = timestamp_of m.message_timestamp;
    message_type = message_type m;
    text = extract_text m;
  });
}

-- The id and the address, if neither is missing nor empty.
abbrev pub addressed : MessageKey → Option (String × String)
addressed k = elim k.id [
  | none ↦ none
  | some id ↦ elim k.remote_jid [
    | none ↦ none
    | some jid ↦ if is_truthy (some id) && is_truthy (some jid) then some (id, jid) else none
  ]
]

unfoldable pub to_received_event : String → WaMessage → ℕ → Option SessionEvent
to_received_event session_id m now = if m.key.from_me then none else elim (addressed m.key) [
  | none ↦ none
  | some (id, jid) ↦ some (received_of session_id m now id jid)
]

abbrev pub read_delay : ℕ → ℕ
read_delay random = 1_000 + random * 3_000 / 9_007_199_254_740_992

-- What the subscriptions do, in order.
pub record Outbox : Type 0 where
  pub emitted : List SessionEvent
  pub reads : List (MessageKey × ℕ)

unfoldable pub mark_as_read :
    (ℕ → ℕ) → ℕ → MessageKey → List (MessageKey × ℕ) → List (MessageKey × ℕ)
mark_as_read random now key reads = reads ++ ((key, now + read_delay (random (length reads))) ∷ [])

unfoldable pub upsert_loop : (ℕ → ℕ) → String → ℕ → List WaMessage → Outbox → Outbox
unfolding mark_as_read
upsert_loop random session_id now [] o = o
upsert_loop random session_id now (m ∷ ms) o = elim (to_received_event session_id m now) [
  | none ↦ upsert_loop random session_id now ms o
  | some event ↦ upsert_loop random session_id now ms (record {
    emitted = o.emitted ++ (event ∷ []);
    reads = mark_as_read random now m.key o.reads;
  })
]

unfoldable pub on_upsert : (ℕ → ℕ) → String → ℕ → String → List WaMessage → Outbox → Outbox
unfolding upsert_loop
on_upsert random session_id now type messages o =
    if type == "notify" then upsert_loop random session_id now messages o else o

-- An element of `messages.update`: `stub` is the first of `messageStubParameters`.
pub record StatusUpdate : Type 0 where
  pub key : MessageKey
  pub status : Option ℕ
  pub stub : Option String

abbrev text_or_empty : Option String → String
text_or_empty none = ""
text_or_empty (some t) = t

module _ (status_names : ℕ → Option String) (error_status : ℕ) where
  abbrev pub status_event : String → ℕ → StatusUpdate → String → ℕ → SessionEvent
  status_event session_id now u id s = record {
    session_id = session_id;
    at = now;
    body = message_status (record {
      message_id = id;
      to = text_or_empty u.key.remote_jid;
      status = status_name_of status_names (some s);
      error_code = if s == error_status then some (map_ack_error u.stub) else none;
    });
  }

  unfoldable pub to_status_event : String → ℕ → StatusUpdate → Option SessionEvent
  to_status_event session_id now u = elim u.key.id [
    | none ↦ none
    | some id ↦ elim u.status [
      | none ↦ none
      | some s ↦
          if is_truthy (some id) && u.key.from_me
          then some (status_event session_id now u id s)
          else none
    ]
  ]

  unfoldable pub on_update : String → ℕ → List StatusUpdate → Outbox → Outbox
  unfolding to_status_event
  on_update session_id now [] o = o
  on_update session_id now (u ∷ us) o = elim (to_status_event session_id now u) [
    | none ↦ on_update session_id now us o
    | some event ↦ on_update session_id now us (record o { emitted = o.emitted ++ (event ∷ []) })
  ]
