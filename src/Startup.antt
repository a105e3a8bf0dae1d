-- ===== src/Startup.antt =====
-- cmd/main.go and `StartCollectorServer` of pkgs/service/collector.go: the start of the process, up to
-- the wait that never ends.
pub mod Serving
use libp2p_submission_sequen.Prelude.{Bytes, codes, Bool, true, false, List, Option, none, some}
use libp2p_submission_sequen.Config.{Settings, Environment, Loaded, fatal, loaded, load_config}
use libp2p_submission_sequen.Redis.Client.{Options, new_redis_client}
use libp2p_submission_sequen.Relayer.{
  Platform, Relayed, up, exited, no_host, no_peer, configure_relayer,
}
use libp2p_submission_sequen.Hosting.{Libp2p}

-- The environment, `ethclient.Dial` by its error, and what the relayer calls.
pub record Machine (PrivKey Part : Type 0) : Type 0 where
  pub getenv : Environment
  pub dial : Bytes → Option Bytes
  pub platform : Platform PrivKey
  pub libp2p : Libp2p PrivKey Part

-- The process exits for missing settings or another error, panics, or waits with a handler for the
-- streams of a protocol.
pub data Started : Type 0 where
  missing_settings : List Bytes → Started
  failed : Bytes → Started
  incorrect_redis_db : Started
  relayer_not_initialized : Started
  panicked : Bytes → Started
  serving : Bytes → Started

-- Whether `RelayerHost` is set.
unfoldable pub start_collector_server : Bool → Started
start_collector_server false = relayer_not_initialized
start_collector_server true = serving (codes "/collect")

abbrev pub after_relayer : Relayed → Started
after_relayer (up running) = start_collector_server true
after_relayer (exited e) = failed e
after_relayer (no_host e) = panicked e
after_relayer no_peer = panicked (codes "invalid memory address or nil pointer dereference")

module _ {PrivKey Part : Type 0} (machine : Machine PrivKey Part) where
  abbrev pub after_redis : Settings → Option Options → Started
  after_redis settings none = incorrect_redis_db
  after_redis settings (some options) = after_relayer (
      configure_relayer machine.platform machine.libp2p settings.relayer_rendezvous_point
        settings.relayer_private_key)

  -- `ConfigureClient`, then `ConfigureContractInstance`, whose error is not looked at.
  abbrev pub after_dial : Settings → Option Bytes → Started
  after_dial settings (some e) = failed e
  after_dial settings none = after_redis settings (new_redis_client settings)

  abbrev pub after_settings : Loaded → Started
  after_settings (fatal names) = missing_settings names
  after_settings (loaded settings warned) = after_dial settings (machine.dial settings.client_url)

  unfoldable pub main : Started
  unfolding start_collector_server
  main = after_settings (load_config machine.getenv)
