-- ===== src/Sessions/Manager/Samples.antt =====
-- A gateway with one session, for the runs of baileys/src/sessions and baileys/src/messages.
use whatsapp_auto_send.Prelude.{ℕ, false, Option, none, some, List, [], ◌∷◌, ok}
use whatsapp_auto_send.Database.{connected, disconnected, SessionRow, SentMessageRow, Creds, Db}
use whatsapp_auto_send.Metrics.{empty_registry}
use whatsapp_auto_send.Sessions.State.{Entry, State}
use whatsapp_auto_send.Sessions.Manager.{Outside}
use whatsapp_auto_send.Sessions.Manager.Connection.{Update, Connection}

abbrev pub row_one : SessionRow
row_one = record {
  id = "s1";
  label = "Sales";
  status = connected;
  phone_number = some "628";
  owner_id = some "u1";
  created_at = 10;
  updated_at = 20;
}

abbrev pub no_creds : Creds
no_creds = record { me_id = none; has_account = false; signal_identities = 0; secrets = "" }

abbrev pub db_one : List SentMessageRow → Db
db_one messages = record {
  sessions = row_one ∷ [];
  creds = ("s1", no_creds) ∷ [];
  keys = [];
  messages = messages;
  next_message_id = 1;
}

abbrev pub entry_one : Entry
entry_one = record {
  id = "s1";
  status = connected;
  qr = none;
  phone_number = some "628";
  last_connected_at = some 900;
  reconnect_attempts = 0;
  socket = some 0;
  restarts = 0;
  reconnect_timer = none;
  closing = false;
  pending_creds = 0;
  last_successful_send_at = none;
  last_failed_send_at = none;
  consecutive_failures = 0;
  last_error_code = none;
  reconnect_due_at = none;
}

abbrev pub state_one : Entry → List SentMessageRow → State
state_one e messages = record {
  heap = e ∷ [];
  entries = ("s1", 0) ∷ [];
  version = some 7;
  shutting_down = false;
  next_handle = 3;
  open_sockets = (0, 0) ∷ [];
  timers = [];
  events = [];
  metrics = empty_registry;
  served = empty_registry;
  db = db_one messages;
  now = 1_000;
}

-- The entry between two connections, with timer 2 armed.
abbrev pub entry_waiting : Entry
entry_waiting = record entry_one {
  socket = none;
  status = disconnected;
  reconnect_timer = some 2;
  reconnect_due_at = some 3_000;
}

abbrev pub state_waiting : List SentMessageRow → State
state_waiting messages = record (state_one entry_waiting messages) {
  open_sockets = [];
  timers = (2, 0) ∷ [];
}

abbrev pub outside : Outside
outside = record { fetched = ok 7; fresh = no_creds }

abbrev pub update_of : Option Connection → Option ℕ → Update
update_of connection status = record {
  socket = 0;
  qr = none;
  connection = connection;
  status = status;
  user_id = some "628:1@s.whatsapp.net";
  random = 0;
}
