-- ===== src/Routes/Gauges.antt =====
-- baileys/src/routes/metrics.ts: the gauges of a scrape.
--
-- A gauge holds a whole number, but for the time to the next reconnect, which is in thousandths of a
-- second. The groups of the query on wa_sent_messages come in the order of their first row. The text
-- is made by the registry.
pub mod Statuses
pub mod Stored
pub mod Described
mod Tests
use whatsapp_auto_send.Prelude.{
  ℕ, suc, ◌+◌, ◌-◌, ◌/◌, String, Bool, true, false, ◌&&◌, Option, none, some, List, [], ◌∷◌, ◌++◌,
  map, ◌==◌, nat_eq, string_eq, option_eq, if◌then◌else◌, length,
}
use whatsapp_auto_send.Errors.{ErrorCode, error_code_eq, code_text}
use whatsapp_auto_send.Database.{
  SessionStatus, new, pairing, connected, disconnected, logged_out, unhealthy, session_status_eq,
  status_name, SessionRow, SendStatus, pending, sent, failed, send_status_eq, SentMessageRow, Db,
}
use whatsapp_auto_send.Metrics.{Registry, MetricType, counter, gauge, describe, Labels}
use whatsapp_auto_send.Sessions.Repository.{list_sessions}
use whatsapp_auto_send.Sessions.State.{State}
use whatsapp_auto_send.Sessions.Manager.{Snapshot, snapshot}

pub data Amount : Type 0 where
  whole thousandths : ℕ → Amount

pub record Gauge : Type 0 where
  pub name : String
  pub labels : Labels
  pub value : Amount

abbrev pub all_statuses : List SessionStatus
all_statuses = new ∷ pairing ∷ connected ∷ disconnected ∷ logged_out ∷ unhealthy ∷ []

-- `Math.round(ms / 1000)`
abbrev pub rounded_seconds : ℕ → ℕ
rounded_seconds ms = (ms + 500) / 1_000

abbrev pub flag : Bool → Amount
flag b = whole (if b then 1 else 0)

-- `live?.status ?? row.status`
abbrev pub status_of : Option Snapshot → SessionRow → SessionStatus
status_of none row = row.status
status_of (some live) row = live.status

abbrev is_up : Option Snapshot → Bool
is_up none = false
is_up (some live) = live.socket_connected

abbrev failures_of : Option Snapshot → ℕ
failures_of none = 0
failures_of (some live) = live.consecutive_failures

abbrev attempts_of : Option Snapshot → ℕ
attempts_of none = 0
attempts_of (some live) = live.reconnect_attempts

abbrev labels_of : SessionRow → Labels
labels_of row = ("session_id", row.id) ∷ ("label", row.label) ∷ []

-- One gauge for each status there is.
unfoldable pub status_gauges : Labels → SessionStatus → List SessionStatus → List Gauge
status_gauges labels status [] = []
status_gauges labels status (candidate ∷ candidates) =
    record {
      name = "baileys_session_status";
      labels = labels ++ (("status", status_name candidate) ∷ []);
      value = flag (status == candidate);
    }
    ∷ status_gauges labels status candidates

abbrev since : String → Labels → ℕ → Option ℕ → List Gauge
since name labels now none = []
since name labels now (some at) =
    record { name = name; labels = labels; value = whole (rounded_seconds (now - at)) } ∷ []

abbrev next_reconnect_gauge : Labels → Option ℕ → List Gauge
next_reconnect_gauge labels none = []
next_reconnect_gauge labels (some ms) =
    record {
      name = "baileys_session_next_reconnect_seconds";
      labels = labels;
      value = thousandths ms;
    }
    ∷ []

abbrev times_of : Option Snapshot → Labels → ℕ → List Gauge
times_of none labels now = []
times_of (some live) labels now =
    next_reconnect_gauge labels live.next_reconnect_in_ms
    ++ (since "baileys_session_last_connected_seconds" labels now live.last_connected_at
        ++ since "baileys_session_last_successful_send_seconds" labels now
            live.last_successful_send_at)

abbrev count_gauges : Option Snapshot → Labels → ℕ → List Gauge
count_gauges live labels now =
    record {
      name = "baileys_session_consecutive_send_failures";
      labels = labels;
      value = whole (failures_of live);
    }
    ∷ record {
      name = "baileys_session_reconnect_attempts";
      labels = labels;
      value = whole (attempts_of live);
    }
    ∷ times_of live labels now

-- The round of the loop for one row.
unfoldable pub row_gauges : State → SessionRow → List Gauge
unfolding status_gauges
row_gauges s row =
    let live = snapshot s row.id in
    let labels = labels_of row in
    record { name = "baileys_session_up"; labels = labels; value = flag (is_up live) }
    ∷ (status_gauges labels (status_of live row) all_statuses ++ count_gauges live labels s.now)

unfoldable pub all_row_gauges : State → List SessionRow → List Gauge
unfolding row_gauges
all_row_gauges s [] = []
all_row_gauges s (row ∷ rows) = row_gauges s row ++ all_row_gauges s rows

-- The columns that the query groups by.
pub record StoredKey : Type 0 where
  pub session_id : String
  pub status : SendStatus
  pub error_code : Option ErrorCode

abbrev pub key_of : SentMessageRow → StoredKey
key_of row = record {
  session_id = row.session_id;
  status = row.status;
  error_code = row.error_code;
}

abbrev pub same_key : StoredKey → StoredKey → Bool
same_key a b =
    a.session_id == b.session_id && (a.status == b.status && a.error_code == b.error_code)

-- A row counts in the group of its key.
unfoldable pub count_row : StoredKey → List (StoredKey × ℕ) → List (StoredKey × ℕ)
count_row key [] = (key, 1) ∷ []
count_row key ((k, n) ∷ groups) = elim (same_key k key) [
  | true ↦ (k, suc n) ∷ groups
  | false ↦ (k, n) ∷ count_row key groups
]

unfoldable pub count_rows : List SentMessageRow → List (StoredKey × ℕ) → List (StoredKey × ℕ)
unfolding count_row
count_rows [] groups = groups
count_rows (row ∷ rows) groups = count_rows rows (count_row (key_of row) groups)

unfoldable pub send_status_name : SendStatus → String
send_status_name pending = "pending"
send_status_name sent = "sent"
send_status_name failed = "failed"

-- `error_code ?? ''`
abbrev code_or_empty : Option ErrorCode → String
code_or_empty none = ""
code_or_empty (some code) = code_text code

unfoldable pub stored_gauge : StoredKey × ℕ → Gauge
unfolding send_status_name
stored_gauge (key, n) = record {
  name = "baileys_messages_stored_total";
  labels =
      ("session_id", key.session_id)
      ∷ ("status", send_status_name key.status)
      ∷ ("error_code", code_or_empty key.error_code)
      ∷ [];
  value = whole n;
}

-- The gauges that the route gives to `render`.
unfoldable pub scrape : ℕ → State → List Gauge
unfolding all_row_gauges count_rows stored_gauge
scrape started_at s =
    let rows = list_sessions s.db in
    record {
      name = "baileys_uptime_seconds";
      labels = [];
      value = whole (rounded_seconds (s.now - started_at));
    }
    ∷ record { name = "baileys_sessions_total"; labels = []; value = whole (length rows) }
    ∷ (all_row_gauges s rows ++ map stored_gauge (count_rows s.db.messages []))

unfoldable pub describe_metrics : Registry → Registry
describe_metrics r0 =
    let r1 = describe r0 "baileys_uptime_seconds" "Seconds since the process started" gauge in
    let r2 = describe r1 "baileys_sessions_total" "Sessions known to the database" gauge in
    let r3 = describe r2 "baileys_session_up" "One when the session socket is open" gauge in
    let r4 = describe r3 "baileys_session_status" "One for the session current status" gauge in
    let r5 =
      describe r4 "baileys_session_consecutive_send_failures"
        "Consecutive session-fault send failures; drives the unhealthy status" gauge in
    let r6 =
      describe r5 "baileys_session_reconnect_attempts"
        "Reconnect attempts since the session last connected" gauge in
    let r7 =
      describe r6 "baileys_session_next_reconnect_seconds"
        "Seconds until the scheduled reconnect; absent when none is pending" gauge in
    let r8 =
      describe r7 "baileys_session_last_connected_seconds"
        "Seconds since the session last connected" gauge in
    let r9 =
      describe r8 "baileys_session_last_successful_send_seconds"
        "Seconds since the session last sent successfully" gauge in
    let r10 = describe r9 "baileys_sends_total" "Send attempts by outcome" counter in
    let r11 = describe r10 "baileys_send_failures_total" "Failed sends by error code" counter in
    let r12 = describe r11 "baileys_reconnects_total" "Reconnect attempts started" counter in
    let r13 =
      describe r12 "baileys_webhook_deliveries_total" "Webhook deliveries by outcome" counter in
    describe r13 "baileys_messages_stored_total"
      "Rows in wa_sent_messages by status, surviving restarts" gauge
