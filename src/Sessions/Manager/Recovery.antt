-- ===== src/Sessions/Manager/Recovery.antt =====
-- manager.ts: a connection that closes while retries are left, up to the socket that follows it.
use whatsapp_auto_send.Prelude.{
  ℕ, suc, ◌+◌, false, Option, none, some, List, [], ◌∷◌, ◌++◌, ◌≡◌, ◌≢◌, refl, sym, ap, subst, ◌∙◌,
  arith, ◌==◌, ◌||◌, leb, nat_eq, option_eq, ==-false_of_ne, get_elem?, if_cases,
}
use whatsapp_auto_send.Database.{SessionStatus, disconnected}
use whatsapp_auto_send.ErrorMapping.{logged_out_reason, restart_required_reason}
use whatsapp_auto_send.Metrics.{Registry, increment}
use whatsapp_auto_send.Sessions.State.{Entry, State, modify, entry_at, clear_timeout, remove_handle}
use whatsapp_auto_send.Sessions.Manager.{
  Outside, set_status, emit_status, schedule_reconnect, max_reconnect_attempts, max_restarts,
  restart_delay_ms,
}
use whatsapp_auto_send.Sessions.Manager.Backoff.{backoff_delay}
use whatsapp_auto_send.Sessions.Manager.Connection.{
  Update, on_closed, after_close, on_restart_required, on_lost, retry,
}
use whatsapp_auto_send.Sessions.Manager.Lifecycle.{fire, timer_place}
use whatsapp_auto_send.Sessions.Manager.Heap.{get_elem?-modify_at, heap-set_status}
use whatsapp_auto_send.Sessions.Manager.Frame.{SameFrame, set_status-SameFrame}
use whatsapp_auto_send.Sessions.Manager.Reconnect.{
  next_handle-set_status, socket_gone, on_closed_found,
}
use whatsapp_auto_send.Sessions.Manager.SecondSocket.{fires_one}

timer_place-remove_handle :
    (t k : ℕ) (ks : List (ℕ × ℕ))
    → timer_place t ks ≡ none
    → timer_place t (remove_handle k ks) ≡ none
unfolding timer_place remove_handle
timer_place-remove_handle t k [] h = refl
timer_place-remove_handle t k ((j, ref) ∷ ks) h =
    ground (arith, h, timer_place-remove_handle t k ks)

timer_place_last :
    (t ref : ℕ) (ks : List (ℕ × ℕ))
    → timer_place t ks ≡ none
    → timer_place t (ks ++ ((t, ref) ∷ [])) ≡ some ref
unfolding timer_place
timer_place_last t ref [] h = ground arith
timer_place_last t ref ((j, place) ∷ ks) h = ground (arith, h, timer_place_last t ref ks)

-- A state in which timer `t` is armed for the entry at `ref`, and its callback, once it runs, makes
-- socket `k` for it, beside the sockets `others`.
pub record Recovers (ref t k : ℕ) (others : List (ℕ × ℕ)) (out : Outside) (s : State) : Type 0 where
  pub armed : timer_place t s.timers ≡ some ref
  pub reopened : (fire t out s).open_sockets ≡ others ++ ((k, ref) ∷ [])

module _ (ref : ℕ) (s : State) where
  pub version-set_status : (status : SessionStatus) → (set_status ref status s).version ≡ s.version
  unfolding set_status emit_status
  version-set_status status = ground arith

-- What `schedule_reconnect` makes of a state whose old timer has been cleared.
module _ (ref t due : ℕ) (metrics : Registry) (s : State) where
  abbrev rearmed : State
  rearmed =
      record (modify ref (λ x. record x { reconnect_due_at = some due; reconnect_timer = some t })
        s) { metrics = metrics; timers = s.timers ++ ((t, ref) ∷ []); next_handle = suc t }

  rearmed-Recovers :
      (x : Entry) (v : ℕ) (out : Outside)
      → entry_at s ref ≡ some x
      → s.version ≡ some v
      → s.shutting_down ≡ false
      → x.closing ≡ false
      → timer_place t s.timers ≡ none
      → Recovers ref t (suc t) s.open_sockets out rearmed
  rearmed-Recovers x v out here known up live unused =
      let armed = timer_place_last t ref s.timers unused in
      record {
        armed = armed;
        reopened =
            fires_one rearmed ref
              (record x { reconnect_due_at = some due; reconnect_timer = some t })
              (get_elem?-modify_at ref
                (λ x. record x { reconnect_due_at = some due; reconnect_timer = some t }) s.heap x
                here)
              v t out known up live armed;
      }

module _ (ref v : ℕ) (out : Outside) (s : State) (x : Entry) (here : entry_at s ref ≡ some x)
    (known : s.version ≡ some v) (up : s.shutting_down ≡ false) (live : x.closing ≡ false)
    (unused : timer_place s.next_handle s.timers ≡ none) where
  abbrev Reopens : State → Type 0
  Reopens = Recovers ref s.next_handle (suc s.next_handle) s.open_sockets out

  clear_timeout-Recovers :
      (t : Option ℕ) (due : ℕ) (metrics : Registry)
      → Reopens (rearmed ref s.next_handle due metrics (clear_timeout t s))
  clear_timeout-Recovers none due metrics =
      rearmed-Recovers ref s.next_handle due metrics s x v out here known up live unused
  clear_timeout-Recovers (some t) due metrics =
      rearmed-Recovers ref s.next_handle due metrics (clear_timeout (some t) s) x v out here known
        up live (timer_place-remove_handle s.next_handle t s.timers unused)

  schedule_reconnect-Recovers : (delay_ms : ℕ) → Reopens (schedule_reconnect ref delay_ms s)
  unfolding schedule_reconnect
  schedule_reconnect-Recovers delay_ms =
      rw (schedule_reconnect, here)
        (clear_timeout-Recovers x.reconnect_timer (s.now + delay_ms)
          (increment s.metrics "baileys_reconnects_total" (("session_id", x.id) ∷ []) 1))

module _ (ref v : ℕ) (out : Outside) (s : State) (x : Entry) (here : entry_at s ref ≡ some x)
    (known : s.version ≡ some v) (up : s.shutting_down ≡ false) (live : x.closing ≡ false)
    (unused : timer_place s.next_handle s.timers ≡ none) where
  on_restart_required-Recovers :
      (e : Entry)
      → leb max_restarts e.restarts ≡ false
      → Reopens ref v out s x here known up live unused (on_restart_required ref e s)
  unfolding on_restart_required
  on_restart_required-Recovers e few =
      rw (on_restart_required, few)
        (schedule_reconnect-Recovers ref v out
          (modify ref (λ x. record x { restarts = x.restarts + 1 }) s)
          (record x { restarts = x.restarts + 1 })
          (get_elem?-modify_at ref (λ x. record x { restarts = x.restarts + 1 }) s.heap x here)
          known up live unused restart_delay_ms)

  on_lost-Recovers :
      (random : ℕ)
      → leb max_reconnect_attempts x.reconnect_attempts ≡ false
      → Reopens ref v out s x here known up live unused (on_lost ref random s)
  unfolding on_lost retry
  on_lost-Recovers random few =
      let s' = set_status ref disconnected s in
      let frame = set_status-SameFrame ref s disconnected in
      let x' = record x { status = disconnected } in
      let f = λ (x : Entry). record x { reconnect_attempts = x.reconnect_attempts + 1 } in
      let there =
        ap (λ es. get_elem? es ref) (heap-set_status ref s disconnected)
        ∙ get_elem?-modify_at ref (λ x. record x { status = disconnected }) s.heap x here in
      rw (on_lost, retry, there, few)
        (subst
          (λ t. Recovers ref t (suc t) s.open_sockets out (
            schedule_reconnect ref (backoff_delay (x.reconnect_attempts + 1) random)
              (modify ref f s')))
          (next_handle-set_status ref s disconnected)
          (subst
            (λ ks. Recovers ref s'.next_handle (suc s'.next_handle) ks out (
              schedule_reconnect ref (backoff_delay (x.reconnect_attempts + 1) random)
                (modify ref f s')))
            (SameFrame.sockets_kept frame)
            (schedule_reconnect-Recovers ref v out (modify ref f s') (f x')
              (get_elem?-modify_at ref f s'.heap x' there)
              (version-set_status ref s disconnected ∙ known) (SameFrame.flag_kept frame ∙ up) live
              (ap (λ t. timer_place t s'.timers) (next_handle-set_status ref s disconnected)
                ∙ (ap (timer_place s.next_handle) (SameFrame.timers_kept frame) ∙ unused))
              (backoff_delay (x.reconnect_attempts + 1) random))))

-- A connection that closes for any reason but a logout, while the entry is live and has both kinds
-- of retry left, no shutdown has begun, the web version is known and the next handle is no armed
-- timer's: a timer is armed for the entry, and when it fires, a new socket is made for it, beside
-- those that stayed open.
pub on_closed-Recovers :
    (ref v : ℕ) (out : Outside) (u : Update) (s : State) (e : Entry)
    → entry_at s ref ≡ some e
    → e.closing ≡ false
    → s.shutting_down ≡ false
    → s.version ≡ some v
    → leb max_restarts e.restarts ≡ false
    → leb max_reconnect_attempts e.reconnect_attempts ≡ false
    → u.status ≢ some logged_out_reason
    → timer_place s.next_handle s.timers ≡ none
    → Recovers ref s.next_handle
        (suc s.next_handle)
        (remove_handle u.socket s.open_sockets)
        out
        (on_closed ref u s)
unfolding after_close
on_closed-Recovers ref v out u s e here live up known restarts attempts kept unused =
    let s' = socket_gone ref s u in
    let x = record e { socket = none } in
    let there = get_elem?-modify_at ref (λ x. record x { socket = none }) s.heap e here in
    let P = Recovers ref s'.next_handle (suc s'.next_handle) s'.open_sockets out in
    subst P (sym (on_closed_found ref s u e here)) (
      if_cases P (e.closing || s'.shutting_down) s' _ (λ ends. ground (arith, ends, live, up))
        (λ _.
          if_cases P (u.status == some logged_out_reason) _ _
            (λ h. cc (==-false_of_ne u.status (some logged_out_reason) kept, h))
            (λ _.
              if_cases P (u.status == some restart_required_reason) (on_restart_required ref e s')
                (on_lost ref u.random s')
                (λ _.
                  on_restart_required-Recovers ref v out s' x there known up live unused e restarts)
                (λ _.
                  on_lost-Recovers ref v out s' x there known up live unused u.random attempts))))
