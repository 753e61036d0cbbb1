-- ===== src/Database.antt =====
-- The tables of baileys/migrations as their rows: wa_sessions, wa_auth_creds, wa_auth_keys and
-- wa_sent_messages. The row types are the ones that the repositories declare.
use whatsapp_auto_send.Prelude.{ℕ, String, Bool, Option, List, Eq}
use whatsapp_auto_send.Prelude.Dict.{Dict}
use whatsapp_auto_send.Errors.{ErrorCode}

-- baileys/src/sessions/repository.ts
pub data SessionStatus : Type 0 where
  new pairing connected disconnected logged_out unhealthy : SessionStatus

unfoldable pub SessionStatus-discrete : Discrete SessionStatus
SessionStatus-discrete = hlevel

instance abbrev pub session_status_eq : Eq SessionStatus
session_status_eq = record { dec = SessionStatus-discrete }

unfoldable pub status_name : SessionStatus → String
status_name new = "new"
status_name pairing = "pairing"
status_name connected = "connected"
status_name disconnected = "disconnected"
status_name logged_out = "logged_out"
status_name unhealthy = "unhealthy"

pub record SessionRow : Type 0 where
  pub id : String
  pub label : String
  pub status : SessionStatus
  pub phone_number : Option String
  pub owner_id : Option String
  pub created_at : ℕ
  pub updated_at : ℕ

-- baileys/src/messages/repository.ts
pub data SendStatus : Type 0 where
  pending sent failed : SendStatus

unfoldable pub SendStatus-discrete : Discrete SendStatus
SendStatus-discrete = hlevel

instance abbrev pub send_status_eq : Eq SendStatus
send_status_eq = record { dec = SendStatus-discrete }

pub record Payload : Type 0 where
  pub text : String

pub record SentMessageRow : Type 0 where
  pub id : ℕ
  pub session_id : String
  pub idempotency_key : String
  pub to_jid : String
  pub payload : Payload
  pub status : SendStatus
  pub wa_message_id : Option String
  pub error_code : Option ErrorCode
  pub error_detail : Option String
  pub created_at : ℕ

-- What the program reads of the library's `AuthenticationCreds`; the rest is `secrets`.
pub record Creds : Type 0 where
  pub me_id : Option String
  pub has_account : Bool
  pub signal_identities : ℕ
  pub secrets : String

pub record KeyRow : Type 0 where
  pub session_id : String
  pub key_type : String
  pub key_id : String
  pub key_data : String

pub record Db : Type 0 where
  pub sessions : List SessionRow
  pub creds : Dict String Creds
  pub keys : List KeyRow
  pub messages : List SentMessageRow
  pub next_message_id : ℕ
