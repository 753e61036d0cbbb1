-- ===== src/Process/Stopping.antt =====
-- What the signals of index.ts do.
use whatsapp_auto_send.Prelude.{
  ◌≤◌, Bool, true, false, ◌&&◌, some, List, [], ◌∷◌, ◌≡◌, refl, ap, sym, subst, ◌∙◌, arith, length,
  Bool-cases, inl, inr, if◌then◌else◌,
}
use whatsapp_auto_send.Sessions.Manager.Lifecycle.{shutdown, Command, run}
use whatsapp_auto_send.Sessions.Manager.Shutdown.{shutdown-run}
use whatsapp_auto_send.Process.{Gateway, ended, on_signal, on_signals}

on_signal-flag :
    (app_closes pool_ends : Bool) (g : Gateway)
    → (on_signal app_closes pool_ends g).shutting_down ≡ true
unfolding on_signal
on_signal-flag app_closes pool_ends g = elim (Bool-cases g.shutting_down) [
  | inl h ↦ ground (arith, h)
  | inr h ↦ ground (arith, h)
]

on_signals-ignored :
    (signals : List (Bool × Bool)) (g : Gateway) → g.shutting_down ≡ true → on_signals signals g ≡ g
unfolding on_signals on_signal
on_signals-ignored [] g h = refl
on_signals-ignored ((app_closes, pool_ends) ∷ signals) g h =
    let same : on_signal app_closes pool_ends g ≡ g = ground (arith, h) in
    ap (on_signals signals) same ∙ on_signals-ignored signals g h

-- The process has exited, with 0 exactly when the server and the pool both closed; then the pool has
-- ended, and the manager has no session and opens no socket in commands that still run whole.
abbrev pub HasStopped : Bool → Bool → List Command → Gateway → Type 0
HasStopped app_closes pool_ends cs g =
    (g.exit_code ≡ some (if app_closes && pool_ends then 0 else 1))
    × (if app_closes && pool_ends
        then (g.pool ≡ ended)
          × ((run g.sessions cs).entries ≡ [])
          × (length (run g.sessions cs).open_sockets ≤ length g.sessions.open_sockets)
        else Unit)

stopped_by_flag :
    (app_closes pool_ends : Bool) (cs : List Command) (g : Gateway) (down : Bool)
    → down ≡ false
    → HasStopped app_closes pool_ends cs (
        if down
        then g
        else if app_closes
        then if pool_ends
          then record g {
            shutting_down = true;
            sessions = shutdown g.sessions;
            pool = ended;
            exit_code = some 0;
          }
          else record g { shutting_down = true; sessions = shutdown g.sessions; exit_code = some 1 }
        else record g { shutting_down = true; exit_code = some 1 })
stopped_by_flag app_closes pool_ends cs g true h = cc
stopped_by_flag true true cs g false h =
    (refl, (refl, (shutdown-run g.sessions cs).0, (shutdown-run g.sessions cs).1))
stopped_by_flag true false cs g false h = (refl, tt)
stopped_by_flag false true cs g false h = (refl, tt)
stopped_by_flag false false cs g false h = (refl, tt)

-- Of the signals to a running gateway the first one decides, and the others change nothing. The
-- process exits with 0 exactly when the server and the pool both close; then the pool has ended, and
-- the manager has no session and opens no socket in any commands, updates and timers that still run
-- whole.
pub on_signals-first :
    (app_closes pool_ends : Bool) (signals : List (Bool × Bool)) (g : Gateway) (cs : List Command)
    → g.shutting_down ≡ false
    → (on_signals ((app_closes, pool_ends) ∷ signals) g ≡ on_signal app_closes pool_ends g)
      × HasStopped app_closes pool_ends cs (on_signals ((app_closes, pool_ends) ∷ signals) g)
unfolding on_signals on_signal
on_signals-first app_closes pool_ends signals g cs up =
    let first : on_signals ((app_closes, pool_ends) ∷ signals) g
        ≡ on_signal app_closes pool_ends g =
      on_signals-ignored signals (on_signal app_closes pool_ends g)
        (on_signal-flag app_closes pool_ends g) in
    (
      first,
      subst (HasStopped app_closes pool_ends cs) (sym first)
          (stopped_by_flag app_closes pool_ends cs g g.shutting_down up),
    )
