-- ===== src/Startup/Serving.antt =====
-- When the process comes to serve.
use mathlib.Core.Option.{some-ne-none}
use libp2p_submission_sequen.Prelude.{
  ◌≡◌, ◌≢◌, ◌↔◌, ◌∙◌, refl, sym, ap, Bytes, codes, List, [], ◌∷◌, Option, none, some, Option-cases,
  inl, inr,
}
use libp2p_submission_sequen.Golang.Decimal.{atoi}
use libp2p_submission_sequen.Config.Laws.{required, unset, expected, settings_of, load_config_lem}
use libp2p_submission_sequen.Redis.Client.{Options, options_for, new_redis_client}
use libp2p_submission_sequen.Relayer.{
  Platform, Identity, identity, unwritten, Running, Relayed, up, exited, no_host, no_peer,
  with_discovery, with_host, with_identity, choose_key, configure_relayer,
}
use libp2p_submission_sequen.Hosting.{Libp2p, host_options}
use libp2p_submission_sequen.Discovery.Dht.{ConfiguredDht, ready, dht_failed, nil_peer}
use libp2p_submission_sequen.Discovery.Bootstrap.{Known, configure_dht-Known, Known-configure_dht}
use libp2p_submission_sequen.Startup.{
  Machine, Started, serving, after_relayer, after_redis, after_dial, after_settings, main,
}

-- What a process needs to serve.
pub record CanServe {PrivKey Part : Type 0} (machine : Machine PrivKey Part) : Type 0 where
  pub settings : unset machine.getenv required ≡ []
  pub dialled : machine.dial (machine.getenv (codes "PROST_RPC_URL")) ≡ none
  pub database : atoi (machine.getenv (codes "REDIS_DB")) ≢ none
  pub key : Option PrivKey
  pub files : List Bytes
  pub chosen :
      choose_key machine.platform (machine.getenv (codes "RELAYER_PRIVATE_KEY"))
      ≡ identity key files
  pub host : machine.libp2p.new_host (host_options machine.libp2p key) ≡ none
  pub dht : machine.libp2p.dht.new_dht ≡ none
  pub bootstrapped : machine.libp2p.dht.bootstrap ≡ none
  pub peers : Known machine.libp2p.dht machine.libp2p.dht.default_bootstrap_peers

module _ {PrivKey Part : Type 0} (machine : Machine PrivKey Part) where
  abbrev platform : Platform PrivKey
  platform = machine.platform

  abbrev libp2p : Libp2p PrivKey Part
  libp2p = machine.libp2p

  abbrev rendezvous_point : Bytes
  rendezvous_point = machine.getenv (codes "RELAYER_RENDEZVOUS_POINT")

  abbrev configured : Relayed
  configured =
      configure_relayer platform libp2p rendezvous_point
        (machine.getenv (codes "RELAYER_PRIVATE_KEY"))

  abbrev collect : Started
  collect = serving (codes "/collect")

  discovery_up :
      (rendezvous : Bytes) (d : ConfiguredDht) (r : Running)
      → with_discovery platform libp2p rendezvous d ≡ up r
      → (fs : List (Option Bytes)) × (d ≡ ready fs)
  discovery_up rendezvous (ready fs) r h = (fs, refl)
  discovery_up rendezvous (dht_failed e) r h = absurd cc
  discovery_up rendezvous nil_peer r h = absurd cc

  host_up :
      (rendezvous : Bytes) (h : Option Bytes) (r : Running)
      → with_host platform libp2p rendezvous h ≡ up r
      → (h ≡ none)
        × (libp2p.dht.new_dht ≡ none)
        × (libp2p.dht.bootstrap ≡ none)
        × Known libp2p.dht libp2p.dht.default_bootstrap_peers
  host_up rendezvous (some e) r h = absurd cc
  host_up rendezvous none r h =
      let (fs, e) = discovery_up rendezvous _ r h in
      let (d, b, known) = configure_dht-Known libp2p.dht fs e in (refl, d, b, known)

  identity_up :
      (rendezvous : Bytes) (chosen : Identity PrivKey) (r : Running)
      → with_identity platform libp2p rendezvous chosen ≡ up r
      → (key : Option PrivKey) × (files : List Bytes) × (chosen ≡ identity key files)
        × (libp2p.new_host (host_options libp2p key) ≡ none)
        × (libp2p.dht.new_dht ≡ none)
        × (libp2p.dht.bootstrap ≡ none)
        × Known libp2p.dht libp2p.dht.default_bootstrap_peers
  identity_up rendezvous (unwritten e) r h = absurd cc
  identity_up rendezvous (identity key files) r h =
      let (n, d, b, known) = host_up rendezvous _ r h in (key, files, refl, n, d, b, known)

  after_relayer_up : (r : Relayed) → after_relayer r ≡ collect → (s : Running) × (r ≡ up s)
  after_relayer_up (up s) h = (s, refl)
  after_relayer_up (exited e) h = absurd cc
  after_relayer_up (no_host e) h = absurd cc
  after_relayer_up no_peer h = absurd cc

  from_redis :
      (o : Option Options)
      → after_redis machine (settings_of machine.getenv) o ≡ collect
      → (o ≢ none) × ((r : Running) × (configured ≡ up r))
  from_redis none h = absurd cc
  from_redis (some options) h = (some-ne-none options, after_relayer_up _ h)

  from_dial :
      (d : Option Bytes)
      → after_dial machine (settings_of machine.getenv) d ≡ collect
      → (d ≡ none)
        × (new_redis_client (settings_of machine.getenv) ≢ none)
        × ((r : Running) × (configured ≡ up r))
  from_dial (some e) h = absurd cc
  from_dial none h = let (c, r) = from_redis _ h in (refl, c, r)

  from_settings :
      (names : List Bytes)
      → after_settings machine (expected machine.getenv names) ≡ collect
      → (names ≡ [])
        × (machine.dial (machine.getenv (codes "PROST_RPC_URL")) ≡ none)
        × (new_redis_client (settings_of machine.getenv) ≢ none)
        × ((r : Running) × (configured ≡ up r))
  from_settings (name ∷ names) h = absurd cc
  from_settings [] h = let (d, c, r) = from_dial _ h in (refl, d, c, r)

  database_set :
      new_redis_client (settings_of machine.getenv) ≢ none
      → atoi (machine.getenv (codes "REDIS_DB")) ≢ none
  unfolding new_redis_client
  database_set h e = h (rw (e, new_redis_client) refl)

  main-CanServe : main machine ≡ collect → CanServe machine
  unfolding main configure_relayer
  main-CanServe h =
      let (settings, dialled, client, relayed) =
        from_settings (unset machine.getenv required)
          (ap (after_settings machine) (sym (load_config_lem machine.getenv)) ∙ h) in
      let (running, up_with) = relayed in
      let (key, files, chosen, host, dht, bootstrapped, peers) =
        identity_up rendezvous_point _ running up_with in
      record {
        settings = settings;
        dialled = dialled;
        database = database_set client;
        key = key;
        files = files;
        chosen = chosen;
        host = host;
        dht = dht;
        bootstrapped = bootstrapped;
        peers = peers;
      }

  client_given :
      atoi (machine.getenv (codes "REDIS_DB")) ≢ none
      → (o : Options) × (new_redis_client (settings_of machine.getenv) ≡ some o)
  unfolding new_redis_client
  client_given h = elim (Option-cases (atoi (machine.getenv (codes "REDIS_DB")))) [
    | inl missing ↦ absurd (h missing)
    | inr (db, e) ↦ (options_for (settings_of machine.getenv) db, rw (e, new_redis_client) refl)
  ]

  CanServe-main : CanServe machine → main machine ≡ collect
  unfolding main configure_relayer
  CanServe-main c =
      let (o, client) = client_given c.database in
      let (fs, ready_dht) = Known-configure_dht libp2p.dht c.dht c.bootstrapped c.peers in
      rw
        (load_config_lem machine.getenv, c.settings, c.dialled, client, c.chosen, c.host, ready_dht)
        refl

  -- The process waits with a handler for the protocol of the collector exactly if no required
  -- variable is empty, the client of the node is made without an error (ethclient.Dial), the
  -- database is a number, the host starts with its options and the chosen key, its DHT is made and
  -- bootstrapped, and every default bootstrap peer has an address that parses.
  pub main_lem : (main machine ≡ serving (codes "/collect")) ↔ CanServe machine
  main_lem = (main-CanServe, CanServe-main)
