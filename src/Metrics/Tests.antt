-- ===== src/Metrics/Tests.antt =====
-- Runs of metrics/registry.ts, and the theorems there.
use whatsapp_auto_send.Prelude.{String, List, [], ◌∷◌, string_eq}
use whatsapp_auto_send.Metrics.{Series, gauge_of}
use whatsapp_auto_send.Metrics.Counting.{Increment}

abbrev sent_twice : List Increment
sent_twice =
    record { name = "sends"; labels = ("id", "a") ∷ ("outcome", "sent") ∷ []; by = 1 }
    ∷ record { name = "sends"; labels = ("outcome", "sent") ∷ ("id", "a") ∷ []; by = 1 }
    ∷ []

abbrev mixed : List Series
mixed = gauge_of "up" [] 1 ∷ gauge_of "sends" [] 2 ∷ gauge_of "up" (("id", "b") ∷ []) 0 ∷ []

abbrev up : String
up = "up"
