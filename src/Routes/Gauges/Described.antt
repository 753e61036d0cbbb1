-- ===== src/Routes/Gauges/Described.antt =====
-- Every gauge that metrics.ts gives out has its help text.
use whatsapp_auto_send.Prelude.{
  ℕ, Bool, true, false, Option, none, some, List, [], ◌∷◌, map, ◌≡◌, refl, string_eq, All,
  All-append, text_runs,
}
use whatsapp_auto_send.Prelude.Dict.{get, put}
use whatsapp_auto_send.Database.{SessionStatus, SessionRow}
use whatsapp_auto_send.Metrics.{Labels, Meta, MetricType, counter, gauge, empty_registry, describe}
use whatsapp_auto_send.Sessions.Repository.{list_sessions}
use whatsapp_auto_send.Sessions.State.{State}
use whatsapp_auto_send.Sessions.Manager.{Snapshot, snapshot}
use whatsapp_auto_send.Routes.Gauges.{
  Gauge, all_statuses, status_of, labels_of, status_gauges, since, count_gauges,
  next_reconnect_gauge, times_of, row_gauges, all_row_gauges, stored_gauge, scrape, StoredKey,
  count_rows, describe_metrics,
}

abbrev says_gauge : Option Meta → Bool
says_gauge none = false
says_gauge (some m) = is_gauge m.type
  where
    is_gauge : MetricType → Bool
    is_gauge gauge = true
    is_gauge counter = false

-- The registry that `describeMetrics` fills has the name as that of a gauge.
abbrev pub IsDescribed : Gauge → Type 0
IsDescribed g = says_gauge (get g.name (describe_metrics empty_registry).help) ≡ true

module _ (labels : Labels) where
  status_gauges-IsDescribed :
      (status : SessionStatus) (candidates : List SessionStatus)
      → All IsDescribed (status_gauges labels status candidates)
  unfolding status_gauges describe_metrics describe get put text_runs
  status_gauges-IsDescribed status [] = tt
  status_gauges-IsDescribed status (c ∷ cs) = (refl, status_gauges-IsDescribed status cs)

  next-IsDescribed : (o : Option ℕ) → All IsDescribed (next_reconnect_gauge labels o)
  unfolding describe_metrics describe get put text_runs
  next-IsDescribed none = tt
  next-IsDescribed (some ms) = (refl, tt)

  connected-IsDescribed :
      (now : ℕ) (o : Option ℕ)
      → All IsDescribed (since "baileys_session_last_connected_seconds" labels now o)
  unfolding describe_metrics describe get put text_runs
  connected-IsDescribed now none = tt
  connected-IsDescribed now (some at) = (refl, tt)

  sent-IsDescribed :
      (now : ℕ) (o : Option ℕ)
      → All IsDescribed (since "baileys_session_last_successful_send_seconds" labels now o)
  unfolding describe_metrics describe get put text_runs
  sent-IsDescribed now none = tt
  sent-IsDescribed now (some at) = (refl, tt)

  times-IsDescribed :
      (live : Option Snapshot) (now : ℕ) → All IsDescribed (times_of live labels now)
  times-IsDescribed none now = tt
  times-IsDescribed (some live) now =
      All-append IsDescribed (next_reconnect_gauge labels live.next_reconnect_in_ms) _
        (next-IsDescribed live.next_reconnect_in_ms)
        (All-append IsDescribed
          (since "baileys_session_last_connected_seconds" labels now live.last_connected_at) _
          (connected-IsDescribed now live.last_connected_at)
          (sent-IsDescribed now live.last_successful_send_at))

  counts-IsDescribed :
      (live : Option Snapshot) (now : ℕ) → All IsDescribed (count_gauges live labels now)
  unfolding describe_metrics describe get put text_runs
  counts-IsDescribed live now = (refl, (refl, times-IsDescribed live now))

row-IsDescribed : (s : State) (row : SessionRow) → All IsDescribed (row_gauges s row)
unfolding row_gauges describe_metrics describe get put text_runs
row-IsDescribed s row =
    let live = snapshot s row.id in
    let labels = labels_of row in
    (
      refl,
      All-append IsDescribed (status_gauges labels (status_of live row) all_statuses)
          (count_gauges live labels s.now)
          (status_gauges-IsDescribed labels (status_of live row) all_statuses)
          (counts-IsDescribed labels live s.now),
    )

rows-IsDescribed : (s : State) (rows : List SessionRow) → All IsDescribed (all_row_gauges s rows)
unfolding all_row_gauges
rows-IsDescribed s [] = tt
rows-IsDescribed s (row ∷ rows) =
    All-append IsDescribed (row_gauges s row) (all_row_gauges s rows) (row-IsDescribed s row)
      (rows-IsDescribed s rows)

stored-IsDescribed : (groups : List (StoredKey × ℕ)) → All IsDescribed (map stored_gauge groups)
unfolding stored_gauge describe_metrics describe get put text_runs
stored-IsDescribed [] = tt
stored-IsDescribed (g ∷ groups) = (refl, stored-IsDescribed groups)

-- Every gauge of a scrape is one that `describeMetrics` has described as a gauge.
pub scrape-IsDescribed : (started_at : ℕ) (s : State) → All IsDescribed (scrape started_at s)
unfolding scrape describe_metrics describe get put text_runs
scrape-IsDescribed started_at s = (
  refl,
  (
    refl,
    All-append IsDescribed (all_row_gauges s (list_sessions s.db)) _
        (rows-IsDescribed s (list_sessions s.db))
        (stored-IsDescribed (count_rows s.db.messages [])),
  ),
)
