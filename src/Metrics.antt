-- ===== src/Metrics.antt =====
-- baileys/src/metrics/registry.ts: counters by name and labels, and their text form.
pub mod Counting
pub mod Grouping
mod Tests
use Prim.Native.Char.{code}
use Prim.Native.String.{compare}
use Prim.Native.Nat.{Ordering}
use whatsapp_auto_send.Prelude.{
  ℕ, ◌+◌, String, Bool, true, false, Option, none, some, List, [], ◌∷◌, ◌++◌, map, ◌==◌, string_eq,
  nat_eq, if◌then◌else◌, template, join, decimal, ◌<>◌,
}
use whatsapp_auto_send.Prelude.Dict.{Dict, get, put, keys, values}

abbrev pub Labels : Type 0
Labels = Dict String String

pub record Series : Type 0 where
  pub name : String
  pub labels : Labels
  pub value : ℕ

-- `.replace(/c/g, by)` for one character.
replace_char : ℕ → String → String → String
replace_char c by String.[] = String.[]
replace_char c by (String.◌∷◌ d s) =
    let rest = replace_char c by s in if code d == c then by <> rest else String.◌∷◌ d rest

unfoldable pub escape_label_value : String → String
unfolding replace_char
escape_label_value value =
    replace_char 10 "\\n" (replace_char 34 "\\\"" (replace_char 92 "\\\\" value))

-- Labels with an empty value are left out.
shown_labels : Labels → Labels
shown_labels [] = []
shown_labels ((k, v) ∷ ls) = let rest = shown_labels ls in if v == "" then rest else (k, v) ∷ rest

abbrev label_text : String × String → String
label_text (k, v) = template (k ∷ "=\"" ∷ escape_label_value v ∷ "\"" ∷ [])

abbrev braced : List String → String
braced [] = ""
braced (t ∷ ts) = template ("{" ∷ join "," (t ∷ ts) ∷ "}" ∷ [])

unfoldable pub format_labels : Labels → String
unfolding shown_labels
format_labels labels = braced (map label_text (shown_labels labels))

abbrev before : String → String → Bool
before s t = elim (compare s t) [ Ordering.gt ↦ false | _ ↦ true ]

insert_sorted : String → List String → List String
insert_sorted k [] = k ∷ []
insert_sorted k (j ∷ js) = if before k j then k ∷ j ∷ js else j ∷ insert_sorted k js

sorted : List String → List String
unfolding insert_sorted
sorted [] = []
sorted (k ∷ ks) = insert_sorted k (sorted ks)

abbrev or_empty : Option String → String
or_empty none = ""
or_empty (some v) = v

unfoldable pub series_key : String → Labels → String
unfolding sorted
series_key name labels = template (
    name
    ∷ "|"
    ∷ join "," (map (λ k. template (k ∷ "=" ∷ or_empty (get k labels) ∷ [])) (sorted (keys labels)))
    ∷ [])

pub data MetricType : Type 0 where
  counter gauge : MetricType

pub record Meta : Type 0 where
  pub help : String
  pub type : MetricType

pub record Registry : Type 0 where
  pub counters : Dict String Series
  pub help : Dict String Meta

abbrev pub empty_registry : Registry
empty_registry = record { counters = []; help = [] }

unfoldable pub describe : Registry → String → String → MetricType → Registry
describe r name help type = record r {
  help = put name (record { help = help; type = type }) r.help;
}

unfoldable pub increment : Registry → String → Labels → ℕ → Registry
increment r name labels by = elim (get (series_key name labels) r.counters) [
  | some s ↦ record r {
    counters = put (series_key name labels) (record s { value = s.value + by }) r.counters;
  }
  | none ↦ record r {
    counters =
        put (series_key name labels) (record { name = name; labels = labels; value = by })
          r.counters;
  }
]

unfoldable pub ensure : Registry → String → Labels → Registry
ensure r name labels = elim (get (series_key name labels) r.counters) [
  | some s ↦ r
  | none ↦ record r {
    counters =
        put (series_key name labels) (record { name = name; labels = labels; value = 0 })
          r.counters;
  }
]

unfoldable pub snapshot_counters : Registry → List Series
snapshot_counters r = values r.counters

-- The loop that fills `byName`.
unfoldable pub add_series : Series → Dict String (List Series) → Dict String (List Series)
add_series s groups = elim (get s.name groups) [
  | some list ↦ put s.name (list ++ (s ∷ [])) groups
  | none ↦ put s.name (s ∷ []) groups
]

unfoldable pub group_by_name : List Series → Dict String (List Series) → Dict String (List Series)
unfolding add_series
group_by_name [] groups = groups
group_by_name (s ∷ ss) groups = group_by_name ss (add_series s groups)

type_text : MetricType → String
type_text counter = "counter"
type_text gauge = "gauge"

meta_lines : String → Option Meta → List String
unfolding type_text
meta_lines name none = []
meta_lines name (some m) =
    template ("# HELP " ∷ name ∷ " " ∷ m.help ∷ [])
    ∷ template ("# TYPE " ∷ name ∷ " " ∷ type_text m.type ∷ [])
    ∷ []

series_lines : String → List Series → List String
series_lines name [] = []
series_lines name (s ∷ ss) =
    template (name ∷ format_labels s.labels ∷ " " ∷ decimal s.value ∷ []) ∷ series_lines name ss

group_lines : Registry → Dict String (List Series) → List String
unfolding meta_lines series_lines
group_lines r [] = []
group_lines r ((name, list) ∷ groups) =
    meta_lines name (get name r.help) ++ (series_lines name list ++ group_lines r groups)

unfoldable pub render : Registry → List Series → String
unfolding group_by_name group_lines
render r gauges =
    template
      (join "\n" (group_lines r (group_by_name (values r.counters ++ gauges) [])) ∷ "\n" ∷ [])

abbrev pub gauge_of : String → Labels → ℕ → Series
gauge_of name labels value = record { name = name; labels = labels; value = value }
