-- ===== src/Metrics/Counting.antt =====
-- The counters of metrics/registry.ts: what they are worth after any number of increments.
use whatsapp_auto_send.Prelude.{
  ℕ, ◌+◌, String, Option, none, some, List, [], ◌∷◌, ◌==◌, string_eq, if◌then◌else◌, ◌≡◌, arith,
  Option-cases, inl, inr,
}
use whatsapp_auto_send.Prelude.Dict.{get, get-put}
use whatsapp_auto_send.Metrics.{Labels, Series, Registry, series_key, increment}

abbrev worth : Option Series → ℕ
worth none = 0
worth (some s) = s.value

-- The value of a series; one that was never touched is worth 0.
abbrev pub value_of : String → Registry → ℕ
value_of key r = worth (get key r.counters)

increment-value :
    (key : String) (r : Registry) (name : String) (labels : Labels) (by : ℕ)
    → value_of key (increment r name labels by)
      ≡ (if key == series_key name labels then value_of key r + by else value_of key r)
unfolding increment
increment-value key r name labels by =
    elim (Option-cases (get (series_key name labels) r.counters)) [
      | inl h ↦ ground (
        arith,
        h,
        get-put key (series_key name labels) (record { name = name; labels = labels; value = by })
            r.counters,
      )
      | inr (s, h) ↦ ground (
        arith,
        h,
        get-put key (series_key name labels) (record s { value = s.value + by }) r.counters,
      )
    ]

pub record Increment : Type 0 where
  pub name : String
  pub labels : Labels
  pub by : ℕ

unfoldable pub increment_all : List Increment → Registry → Registry
increment_all [] r = r
increment_all (i ∷ is) r = increment_all is (increment r i.name i.labels i.by)

-- The sum of the increments of a key.
unfoldable pub total : String → List Increment → ℕ
total key [] = 0
total key (i ∷ is) =
    let rest = total key is in if key == series_key i.name i.labels then i.by + rest else rest

-- A series is worth what it was and the sum of its own increments, whatever other series are
-- incremented between them and in whatever order its labels are given.
pub increment_all-value :
    (key : String) (is : List Increment) (r : Registry)
    → value_of key (increment_all is r) ≡ value_of key r + total key is
unfolding increment_all total
increment_all-value key [] r = ground arith
increment_all-value key (i ∷ is) r = ground (
  arith,
  increment_all-value key is (increment r i.name i.labels i.by),
  increment-value key r i.name i.labels i.by,
)
