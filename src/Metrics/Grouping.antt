-- ===== src/Metrics/Grouping.antt =====
-- The grouping in `render` of metrics/registry.ts.
use whatsapp_auto_send.Prelude.{
  String, Option, none, some, List, [], ◌∷◌, ◌++◌, ◌==◌, string_eq, if◌then◌else◌, ◌≡◌, ap, ◌∙◌,
  sym, arith, Option-cases, inl, inr, Bool-cases, append_nil, append_assoc,
}
use whatsapp_auto_send.Prelude.Dict.{Dict, get, get-put}
use whatsapp_auto_send.Metrics.{Series, add_series, group_by_name}

abbrev pub or_nil : Option (List Series) → List Series
or_nil none = []
or_nil (some xs) = xs

-- The series of a name, in order.
unfoldable pub named : String → List Series → List Series
named name [] = []
named name (s ∷ ss) = let rest = named name ss in if name == s.name then s ∷ rest else rest

add_series-named :
    (name : String) (s : Series) (groups : Dict String (List Series))
    → or_nil (get name (add_series s groups))
      ≡ (if name == s.name then or_nil (get name groups) ++ (s ∷ []) else or_nil (get name groups))
unfolding add_series
add_series-named name s groups = elim (Option-cases (get s.name groups)) [
  | inl h ↦ ground (arith, h, get-put name s.name (s ∷ []) groups)
  | inr (list, h) ↦ ground (arith, h, get-put name s.name (list ++ (s ∷ [])) groups)
]

regroup :
    (name : String) (s : Series) (ss xs : List Series)
    → (if name == s.name then xs ++ (s ∷ []) else xs) ++ named name ss ≡ xs ++ named name (s ∷ ss)
unfolding named
regroup name s ss xs = elim (Bool-cases (name == s.name)) [
  | inl b ↦ rw b (append_assoc xs (s ∷ []) (named name ss))
  | inr b ↦ rw b
]

-- The lines of a name are those of its series, all of them, once and in order, wherever in the list
-- they stand.
pub group_by_name-named :
    (name : String) (ss : List Series) (groups : Dict String (List Series))
    → or_nil (get name (group_by_name ss groups)) ≡ or_nil (get name groups) ++ named name ss
unfolding group_by_name named
group_by_name-named name [] groups = sym (append_nil (or_nil (get name groups)))
group_by_name-named name (s ∷ ss) groups =
    group_by_name-named name ss (add_series s groups)
    ∙ ap (λ xs. xs ++ named name ss) (add_series-named name s groups)
    ∙ regroup name s ss (or_nil (get name groups))
