-- ===== src/Hosting.antt =====
-- pkgs/service/relayer.go: what `ConfigureRelayer` passes to libp2p. The objects that libp2p makes of
-- it are of a type of their own, and none is a nil pointer.
use libp2p_submission_sequen.Prelude.{
  ℕ, ◌*◌, ◌^◌, Bytes, codes, List, [], ◌∷◌, Option, none, some, Result, ok, err,
}
use libp2p_submission_sequen.Golang.Decimal.{ℤ}
use libp2p_submission_sequen.Discovery.Dht.{DhtNode}

-- `syscall.Rlimit`
pub record Rlimit : Type 0 where
  pub cur : ℕ
  pub max : ℕ

-- `rcmgr.ResourceLimits`
pub record ResourceLimits : Type 0 where
  pub streams : ℤ
  pub streams_outbound : ℤ
  pub streams_inbound : ℤ
  pub conns : ℤ
  pub conns_inbound : ℤ
  pub conns_outbound : ℤ
  pub fd : ℤ
  pub memory : ℤ

-- `rcmgr.PartialLimitConfig`, of which only the limits of the system are set.
pub record PartialLimitConfig : Type 0 where
  pub system : ResourceLimits

-- The options of `libp2p.New`.
pub data HostOption (PrivKey Part : Type 0) : Type 0 where
  enable_relay default_transports nat_port_map : HostOption PrivKey Part
  enable_nat_service enable_hole_punching : HostOption PrivKey Part
  host_identity : Option PrivKey → HostOption PrivKey Part
  connection_manager listen_addrs resource_manager : Option Part → HostOption PrivKey Part
  security muxer : Bytes → HostOption PrivKey Part

-- What the relayer calls of libp2p. `new_host` is `libp2p.New`, by its error; of
-- `connmgr.NewConnManager` and `rcmgr.NewResourceManager` there is the value, which is nil after an
-- error; `unlimited`, `tls`, `noise` and `yamux` are constants.
pub record Libp2p (PrivKey Part : Type 0) : Type 0 where
  pub new_multiaddr : Bytes → Result Bytes Part
  pub new_conn_manager : ℕ → ℕ → ℕ → Option Part
  pub default_limits : Part
  pub set_default_service_limits : Part → Part
  pub auto_scale : Part → Part
  pub getrlimit : Result Bytes Rlimit
  pub unlimited : ℤ
  pub build : PartialLimitConfig → Part → Part
  pub new_fixed_limiter : Part → Part
  pub new_resource_manager : Part → Option Part
  pub tls : Bytes
  pub noise : Bytes
  pub yamux : Bytes
  pub new_host : List (HostOption PrivKey Part) → Option Bytes
  pub dht : DhtNode Part

abbrev pub minute : ℕ
minute = 60 * 10 ^ 9

-- What `Setrlimit` gets: what `Getrlimit` read, or zeros after its error, which is only logged.
abbrev pub rlimit : Result Bytes Rlimit → Rlimit
rlimit (ok rlim) = rlim
rlimit (err e) = record { cur = 0; max = 0 }

-- An error of `ma.NewMultiaddr` is only logged.
abbrev pub address_or_nil : {Part : Type 0} → Result Bytes Part → Option Part
address_or_nil (ok addr) = some addr
address_or_nil (err e) = none

module _ {PrivKey Part : Type 0} (libp2p : Libp2p PrivKey Part) where
  abbrev pub partial_limits : PartialLimitConfig
  partial_limits = record {
    system = record {
      streams = libp2p.unlimited;
      streams_outbound = libp2p.unlimited;
      streams_inbound = libp2p.unlimited;
      conns = libp2p.unlimited;
      conns_inbound = libp2p.unlimited;
      conns_outbound = libp2p.unlimited;
      fd = libp2p.unlimited;
      memory = libp2p.unlimited;
    };
  }

  abbrev pub scaled_default_limits : Part
  scaled_default_limits =
      let scaling_limits = libp2p.set_default_service_limits libp2p.default_limits in
      libp2p.auto_scale scaling_limits

  abbrev pub managed_resources : Option Part
  managed_resources =
      let limits = libp2p.build partial_limits scaled_default_limits in
      libp2p.new_resource_manager (libp2p.new_fixed_limiter limits)

  abbrev pub host_options : Option PrivKey → List (HostOption PrivKey Part)
  host_options pk =
      enable_relay
      ∷ host_identity pk
      ∷ connection_manager (libp2p.new_conn_manager 409600 819200 (5 * minute))
      ∷ listen_addrs (address_or_nil (libp2p.new_multiaddr (codes "/ip4/0.0.0.0/tcp/9100")))
      ∷ security libp2p.tls
      ∷ security libp2p.noise
      ∷ default_transports
      ∷ nat_port_map
      ∷ enable_nat_service
      ∷ resource_manager managed_resources
      ∷ enable_hole_punching
      ∷ muxer libp2p.yamux
      ∷ []
