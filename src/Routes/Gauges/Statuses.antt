-- ===== src/Routes/Gauges/Statuses.antt =====
-- The status gauges of a scrape of metrics.ts.
use whatsapp_auto_send.Prelude.{
  ℕ, Bool, false, ◌&&◌, Option, none, some, Option-cases, inl, inr, List, [], ◌∷◌, ◌++◌, map, ◌≡◌,
  refl, ap, ◌∙◌, arith, ◌==◌, nat_eq, string_eq, if◌then◌else◌, append_nil, text_runs,
}
use whatsapp_auto_send.Database.{
  SessionStatus, new, pairing, connected, disconnected, logged_out, unhealthy, session_status_eq,
  SessionStatus-discrete, status_name, SessionRow,
}
use whatsapp_auto_send.Metrics.{Labels}
use whatsapp_auto_send.Sessions.Repository.{list_sessions}
use whatsapp_auto_send.Sessions.State.{State, entry_of}
use whatsapp_auto_send.Sessions.Manager.{Snapshot, snapshot}
use whatsapp_auto_send.Routes.Gauges.{
  Amount, whole, thousandths, Gauge, all_statuses, status_of, labels_of, status_gauges, since,
  count_gauges, next_reconnect_gauge, times_of, row_gauges, all_row_gauges, stored_gauge, scrape,
  StoredKey, count_rows,
}

abbrev is_one : Amount → Bool
is_one (whole n) = n == 1
is_one (thousandths n) = false

abbrev pub is_marked : Gauge → Bool
is_marked g = g.name == "baileys_session_status" && is_one g.value

-- The status gauges that are one.
unfoldable pub marked : List Gauge → List Gauge
marked [] = []
marked (g ∷ gs) = let rest = marked gs in if is_marked g then g ∷ rest else rest

marked-append : (gs hs : List Gauge) → marked (gs ++ hs) ≡ marked gs ++ marked hs
unfolding marked
marked-append [] hs = refl
marked-append (g ∷ gs) hs = ground (arith, marked-append gs hs)

-- The status of the entry that the map has for an id, or else the one of the row.
abbrev pub live_or_stored : State → SessionRow → SessionStatus
live_or_stored s row = elim (entry_of s row.id) [ none ↦ row.status | some (ref, e) ↦ e.status ]

status_of-snapshot :
    (s : State) (row : SessionRow) → status_of (snapshot s row.id) row ≡ live_or_stored s row
unfolding snapshot
status_of-snapshot s row = elim (Option-cases (entry_of s row.id)) [
  | inl h ↦ rw (snapshot, live_or_stored, h)
  | inr ((ref, e), h) ↦ rw (snapshot, live_or_stored, h)
]

-- The gauge that says which status a session has.
abbrev pub status_gauge : State → SessionRow → Gauge
status_gauge s row = record {
  name = "baileys_session_status";
  labels =
      ("session_id", row.id)
      ∷ ("label", row.label)
      ∷ ("status", status_name (live_or_stored s row))
      ∷ [];
  value = whole 1;
}

marked-status_gauges :
    (labels : Labels) (status : SessionStatus)
    → marked (status_gauges labels status all_statuses)
      ≡ record {
        name = "baileys_session_status";
        labels = labels ++ (("status", status_name status) ∷ []);
        value = whole 1;
      }
        ∷ []
unfolding marked status_gauges SessionStatus-discrete text_runs
marked-status_gauges labels new = refl
marked-status_gauges labels pairing = refl
marked-status_gauges labels connected = refl
marked-status_gauges labels disconnected = refl
marked-status_gauges labels logged_out = refl
marked-status_gauges labels unhealthy = refl

marked-next_reconnect :
    (labels : Labels) (o : Option ℕ) → marked (next_reconnect_gauge labels o) ≡ []
unfolding marked text_runs
marked-next_reconnect labels none = refl
marked-next_reconnect labels (some ms) = refl

marked-connected_since :
    (labels : Labels) (now : ℕ) (o : Option ℕ)
    → marked (since "baileys_session_last_connected_seconds" labels now o) ≡ []
unfolding marked text_runs
marked-connected_since labels now none = refl
marked-connected_since labels now (some at) = refl

marked-sent_since :
    (labels : Labels) (now : ℕ) (o : Option ℕ)
    → marked (since "baileys_session_last_successful_send_seconds" labels now o) ≡ []
unfolding marked text_runs
marked-sent_since labels now none = refl
marked-sent_since labels now (some at) = refl

-- Neither part has a mark.
unmarked : (gs hs : List Gauge) → marked gs ≡ [] → marked hs ≡ [] → marked (gs ++ hs) ≡ []
unmarked gs hs h k = marked-append gs hs ∙ ground (arith, h, k)

marked-times :
    (live : Option Snapshot) (labels : Labels) (now : ℕ) → marked (times_of live labels now) ≡ []
unfolding marked
marked-times none labels now = refl
marked-times (some live) labels now =
    unmarked (next_reconnect_gauge labels live.next_reconnect_in_ms) _
      (marked-next_reconnect labels live.next_reconnect_in_ms)
      (unmarked (since "baileys_session_last_connected_seconds" labels now live.last_connected_at)
        (since "baileys_session_last_successful_send_seconds" labels now
          live.last_successful_send_at)
        (marked-connected_since labels now live.last_connected_at)
        (marked-sent_since labels now live.last_successful_send_at))

marked-row : (s : State) (row : SessionRow) → marked (row_gauges s row) ≡ status_gauge s row ∷ []
unfolding marked row_gauges text_runs
marked-row s row =
    let live = snapshot s row.id in
    let labels = labels_of row in
    let statuses = status_gauges labels (status_of live row) all_statuses in
    let counts = count_gauges live labels s.now in
    marked-append statuses counts
    ∙ ap (λ gs. gs ++ marked counts)
        (marked-status_gauges labels (status_of live row)
          ∙ ap
              (λ st.
                record {
                  name = "baileys_session_status";
                  labels = labels ++ (("status", status_name st) ∷ []);
                  value = whole 1;
                }
                ∷ [])
              (status_of-snapshot s row))
    ∙ ap (λ gs. status_gauge s row ∷ gs) (marked-times live labels s.now)

marked-rows :
    (s : State) (rows : List SessionRow)
    → marked (all_row_gauges s rows) ≡ map (status_gauge s) rows
unfolding marked all_row_gauges
marked-rows s [] = refl
marked-rows s (row ∷ rows) =
    marked-append (row_gauges s row) (all_row_gauges s rows)
    ∙ ap (λ gs. gs ++ marked (all_row_gauges s rows)) (marked-row s row)
    ∙ ap (λ gs. status_gauge s row ∷ gs) (marked-rows s rows)

marked-stored : (groups : List (StoredKey × ℕ)) → marked (map stored_gauge groups) ≡ []
unfolding marked stored_gauge text_runs
marked-stored [] = refl
marked-stored (g ∷ groups) = marked-stored groups

-- Of the status gauges of a scrape exactly one is 1 for each session that listSessions gives, in that
-- order, with the id and the label of its row: the one for the status of its live entry, or of its
-- row if it has none.
pub scrape-statuses :
    (started_at : ℕ) (s : State)
    → marked (scrape started_at s) ≡ map (status_gauge s) (list_sessions s.db)
unfolding marked scrape text_runs
scrape-statuses started_at s =
    marked-append (all_row_gauges s (list_sessions s.db))
      (map stored_gauge (count_rows s.db.messages []))
    ∙ ap (λ gs. marked (all_row_gauges s (list_sessions s.db)) ++ gs)
        (marked-stored (count_rows s.db.messages []))
    ∙ append_nil (marked (all_row_gauges s (list_sessions s.db)))
    ∙ marked-rows s (list_sessions s.db)
