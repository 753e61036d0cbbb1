-- ===== src/Process.antt =====
-- baileys/src/index.ts: how the process starts, and what a signal does to it; with the default
-- registries of server.ts and manager.ts.
--
-- `digest` and `json` are those of the webhooks, `is_url` the test of the configuration, and `read`
-- and `execute` what the migrations read and do. Whether the port can be bound, and whether closing
-- the server and the pool goes through, are arguments.
pub mod Starting
pub mod Stopping
mod Tests
use whatsapp_auto_send.Prelude.{
  ℕ, String, Bool, true, false, Option, none, some, List, [], ◌∷◌, Result, ok, err, if◌then◌else◌,
}
use whatsapp_auto_send.Config.{ProcessEnv, Config, load_config}
use whatsapp_auto_send.Database.{Db}
use whatsapp_auto_send.Metrics.{Registry, empty_registry}
use whatsapp_auto_send.Migrations.{ErrnoException, Store, run_migrations}
use whatsapp_auto_send.Sessions.Events.{SessionEvent, EventBus}
use whatsapp_auto_send.Sessions.State.{State}
use whatsapp_auto_send.Sessions.Manager.Lifecycle.{shutdown}
use whatsapp_auto_send.Webhooks.{Options, Dispatcher, attach_webhooks}
use whatsapp_auto_send.Routes.Gauges.{describe_metrics}

abbrev or_new : Option Registry → Registry
or_new none = empty_registry
or_new (some r) = r

-- `new SessionManager(pool, logger, events, metrics)`: the registry is its own if none is given.
-- `served` is the registry of the server that is built beside it.
unfoldable pub new_manager : Option Registry → Registry → Db → ℕ → State
new_manager metrics served db now = record {
  heap = [];
  entries = [];
  version = none;
  shutting_down = false;
  next_handle = 0;
  open_sockets = [];
  timers = [];
  events = [];
  metrics = or_new metrics;
  served = served;
  db = db;
  now = now;
}

-- The registry that the server's routes read: its own if none is given.
unfoldable pub build_server : Option Registry → Registry
build_server metrics = describe_metrics (or_new metrics)

pub data PoolState : Type 0 where
  not_made in_use ended : PoolState

pub record Gateway : Type 0 where
  pub config : Config
  pub sessions : State
  pub dispatcher : Option (ℕ × Options)
  pub bus : EventBus Dispatcher
  pub pool : PoolState
  pub shutting_down : Bool
  pub exit_code : Option ℕ

-- The process has ended with a code, or it listens.
pub data Started (S : Type 0) : Type 0 where
  exited : ℕ → PoolState → Started S
  listens : Gateway → Store S → Started S

abbrev no_listeners : EventBus Dispatcher
no_listeners = record { listeners = []; next_listener = 0 }

abbrev assembled : (String → String → String) → (SessionEvent → String) → Config → Db → ℕ → Gateway
assembled digest json cfg db now =
    let (dispatcher, bus) = attach_webhooks digest json cfg no_listeners in
    record {
      config = cfg;
      sessions = new_manager none (build_server none) db now;
      dispatcher = dispatcher;
      bus = bus;
      pool = in_use;
      shutting_down = false;
      exit_code = none;
    }

module _ {S : Type 0} (digest : String → String → String) (json : SessionEvent → String)
    (is_url : String → Bool) (read : String → Result String String)
    (execute : String → S → Result String S) where
  -- `main` up to `restoreAll`, which it does not wait for.
  unfoldable pub start :
      ProcessEnv → Result ErrnoException (List String) → Bool → Db → ℕ → Store S → Started S
  unfolding new_manager build_server
  start env entries binds db now store = elim (load_config is_url env) [
    | err issues ↦ exited 1 not_made
    | ok cfg ↦
        let (migrated, store') = run_migrations read execute entries store in
        elim migrated [
          | err failure ↦ exited 1 ended
          | ok result ↦
              if binds then listens (assembled digest json cfg db now) store' else exited 1 ended
        ]
  ]

-- A SIGTERM or SIGINT.
unfoldable pub on_signal : Bool → Bool → Gateway → Gateway
on_signal app_closes pool_ends g =
    if g.shutting_down
    then g
    else if app_closes
    then if pool_ends
      then record g {
        shutting_down = true;
        sessions = shutdown g.sessions;
        pool = ended;
        exit_code = some 0;
      }
      else record g { shutting_down = true; sessions = shutdown g.sessions; exit_code = some 1 }
    else record g { shutting_down = true; exit_code = some 1 }

unfoldable pub on_signals : List (Bool × Bool) → Gateway → Gateway
unfolding on_signal
on_signals [] g = g
on_signals ((app_closes, pool_ends) ∷ signals) g =
    on_signals signals (on_signal app_closes pool_ends g)
