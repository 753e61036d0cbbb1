-- ===== src/Webhooks/Flight.antt =====
-- How many deliveries of webhooks/dispatcher.ts are in flight.
use whatsapp_auto_send.Prelude.{
  ℕ, zero, suc, ◌+◌, ◌<◌, String, Bool, true, false, some, List, [], ◌∷◌, ◌≡◌, refl, sym, arith,
  Option-cases, inl, inr, length, length-append, get_elem?, if◌then◌else◌,
}
use whatsapp_auto_send.Sessions.Events.{SessionEvent}
use whatsapp_auto_send.Webhooks.{
  Request, Options, Answer, Dispatcher, delivered, request_of, begin_deliver, on_event, without,
  settle, pending, line_of,
}

-- One open fetch is left out.
length-without :
    (k : ℕ) (rs : List Request) (r : Request)
    → get_elem? rs k ≡ some r
    → length (without k rs) + 1 ≡ length rs
unfolding without
length-without k [] r h = cc
length-without zero (x ∷ rs) r h = omega arith
length-without (suc k) (x ∷ rs) r h = omega (arith, length-without k rs r h)

get_elem?-lt {ℓ} :
    {A : Type ℓ} (xs : List A) (k : ℕ) → k < length xs → (a : A) × (get_elem? xs k ≡ some a)
get_elem?-lt [] k h = absurd (omega arith)
get_elem?-lt (x ∷ xs) zero h = (x, refl)
get_elem?-lt (x ∷ xs) (suc k) h = get_elem?-lt xs k (omega arith)

-- The field counts the open fetches, and every request is open or has its line in the log.
pub record IsCounted (d : Dispatcher) : Type 0 where
  pub in_flight_open : d.in_flight ≡ length d.open_fetches
  pub logged_or_open : length d.posted ≡ length d.log + length d.open_fetches

-- What may happen to a dispatcher: an event, an open fetch that settles, time.
pub data Happening : Type 0 where
  tells : SessionEvent → Happening
  settles : ℕ → Answer → Happening
  passes : ℕ → Happening

module _ (digest : String → String → String) (json : SessionEvent → String)
    (options : Options) where
  unfoldable pub happen : Dispatcher → Happening → Dispatcher
  unfolding on_event settle
  happen d (tells e) = (on_event digest json options e d).1
  happen d (settles k a) = settle k a d
  happen d (passes ms) = record d { now = d.now + ms }

  unfoldable pub happen_all : Dispatcher → List Happening → Dispatcher
  unfolding happen
  happen_all d [] = d
  happen_all d (h ∷ hs) = happen_all (happen d h) hs

settle-IsCounted : (k : ℕ) (a : Answer) (d : Dispatcher) → IsCounted d → IsCounted (settle k a d)
unfolding settle
settle-IsCounted k a d c = elim (Option-cases (get_elem? d.open_fetches k)) [
  | inl h ↦ rw (settle, h) c
  | inr (r, h) ↦
      rw (settle, h)
        (record {
          in_flight_open = omega (arith, c.in_flight_open, length-without k d.open_fetches r h);
          logged_or_open = omega (
            arith,
            c.logged_or_open,
            length-without k d.open_fetches r h,
            length-append {0} d.log (line_of a ∷ []),
          );
        })
]

-- Each open fetch settles, one after another: each time a place among those that are open then.
abbrev pub SettleEach : ℕ → List (ℕ × Answer) → Type 0
SettleEach zero [] = Unit
SettleEach zero (x ∷ xs) = ⊥
SettleEach (suc n) [] = ⊥
SettleEach (suc n) ((k, a) ∷ ks) = (k < suc n) × SettleEach n ks

unfoldable pub settle_all : List (ℕ × Answer) → Dispatcher → Dispatcher
unfolding settle
settle_all [] d = d
settle_all ((k, a) ∷ ks) d = settle_all ks (settle k a d)

settle-fewer :
    (k : ℕ) (a : Answer) (d : Dispatcher)
    → k < length d.open_fetches
    → length (settle k a d).open_fetches + 1 ≡ length d.open_fetches
unfolding settle
settle-fewer k a d h =
    let (r, found) = get_elem?-lt d.open_fetches k h in
    rw (settle, found) (length-without k d.open_fetches r found)

settle_all-closes :
    (n : ℕ) (ks : List (ℕ × Answer)) (d : Dispatcher)
    → length d.open_fetches ≡ n
    → SettleEach n ks
    → IsCounted d
    → IsCounted (settle_all ks d) × (length (settle_all ks d).open_fetches ≡ 0)
unfolding settle_all
settle_all-closes zero [] d e ok_ c = (c, e)
settle_all-closes zero (x ∷ xs) d e bad c = absurd bad
settle_all-closes (suc n) [] d e bad c = absurd bad
settle_all-closes (suc n) ((k, a) ∷ ks) d e each c =
    settle_all-closes n ks (settle k a d)
      (omega (arith, e, settle-fewer k a d (omega (arith, e, each.0)))) each.1
      (settle-IsCounted k a d c)

module _ (digest : String → String → String) (json : SessionEvent → String)
    (options : Options) where
  on_event-IsCounted :
      (e : SessionEvent) (d : Dispatcher)
      → IsCounted d
      → IsCounted (on_event digest json options e d).1
  unfolding on_event begin_deliver
  on_event-IsCounted e d c = by_test (delivered e.body)
    where
      by_test : (b : Bool) → IsCounted (if b then begin_deliver digest json options e d else d)
      by_test true = record {
        in_flight_open = omega (
          arith,
          c.in_flight_open,
          length-append {0} d.open_fetches (request_of digest json options e d.now ∷ []),
        );
        logged_or_open = omega (
          arith,
          c.logged_or_open,
          length-append {0} d.open_fetches (request_of digest json options e d.now ∷ []),
          length-append {0} d.posted (request_of digest json options e d.now ∷ []),
        );
      }
      by_test false = c

  -- Through all events, settling fetches and time, `pending` counts the fetches that are open, and
  -- of the posted requests each is open or has its one line in the log.
  pub happen_all-IsCounted :
      (d : Dispatcher) (hs : List Happening)
      → IsCounted d
      → IsCounted (happen_all digest json options d hs)
  unfolding happen_all happen
  happen_all-IsCounted d [] c = c
  happen_all-IsCounted d (tells e ∷ hs) c = happen_all-IsCounted _ hs (on_event-IsCounted e d c)
  happen_all-IsCounted d (settles k a ∷ hs) c = happen_all-IsCounted _ hs (settle-IsCounted k a d c)
  happen_all-IsCounted d (passes ms ∷ hs) c =
      happen_all-IsCounted (record d { now = d.now + ms }) hs
        (record { in_flight_open = c.in_flight_open; logged_or_open = c.logged_or_open })

  -- Whatever has come before, from a dispatcher whose counts are right, once each open fetch has
  -- settled, in any order and with any answers, no delivery is in flight and each posted request has
  -- its one line in the log.
  pub settle_all-done :
      (d : Dispatcher) (hs : List Happening) (ks : List (ℕ × Answer))
      → IsCounted d
      → SettleEach (pending (happen_all digest json options d hs)) ks
      → (pending (settle_all ks (happen_all digest json options d hs)) ≡ 0)
        × (length (settle_all ks (happen_all digest json options d hs)).log
            ≡ length (settle_all ks (happen_all digest json options d hs)).posted)
  settle_all-done d hs ks c each =
      let now = happen_all digest json options d hs in
      let c' = happen_all-IsCounted d hs c in
      let (counted, closed) =
        settle_all-closes (pending now) ks now (sym c'.in_flight_open) each c' in
      (omega (arith, counted.in_flight_open, closed), omega (arith, counted.logged_or_open, closed))
