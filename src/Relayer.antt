-- ===== src/Relayer.antt =====
-- pkgs/service/relayer.go: the host's identity, its start, and the count of its connections. The
-- keys' algebra, base64, the file system, and libp2p are parameters.
pub mod Connections
pub mod Restart
pub mod Races
use libp2p_submission_sequen.Prelude.{
  Bytes, codes, ◌+◌, ◌^◌, ℕ, zero, suc, ◌-◌, ◌*◌, ◌==◌, if◌then◌else◌, List, [], ◌∷◌, Option, none,
  some, Result, ok, err,
}
use libp2p_submission_sequen.Golang.Decimal.{ℤ, pos, negsuc}
use libp2p_submission_sequen.Discovery.Dht.{
  ConfiguredDht, ready, dht_failed, nil_peer, configure_dht,
}
use libp2p_submission_sequen.Hosting.{Rlimit, Libp2p, minute, rlimit, host_options}

-- `activeConnections` is an int of 64 bits: from this number on it would be negative.
abbrev pub int_limit : ℕ
int_limit = 2 ^ 63

-- What `++` and `--` put in place of the value that they read.
unfoldable pub handle_connection_established : ℤ → ℤ
handle_connection_established (pos n) =
    if n + 1 == int_limit then negsuc (int_limit - 1) else pos (n + 1)
handle_connection_established (negsuc zero) = pos 0
handle_connection_established (negsuc (suc n)) = negsuc n

unfoldable pub handle_connection_closed : ℤ → ℤ
handle_connection_closed (pos zero) = negsuc 0
handle_connection_closed (pos (suc n)) = pos n
handle_connection_closed (negsuc n) =
    if n + 1 == int_limit then pos (int_limit - 1) else negsuc (n + 1)

-- What the relayer calls. `marshal` is `crypto.MarshalPrivateKey`, a pair of its bytes and error;
-- `write_file` is `os.WriteFile("/keys/key.txt", …)`, by its error.
pub record Platform (PrivKey : Type 0) : Type 0 where
  pub generate : Result Bytes PrivKey
  pub marshal : PrivKey → Bytes × Option Bytes
  pub unmarshal : Bytes → Result Bytes PrivKey
  pub encode : Bytes → Bytes
  pub decode : Bytes → Result Bytes Bytes
  pub write_file : Bytes → Option Bytes

-- The key that the host gets, with what was written to the file; or the end of the process.
pub data Identity (PrivKey : Type 0) : Type 0 where
  identity : Option PrivKey → List Bytes → Identity PrivKey
  unwritten : Bytes → Identity PrivKey

-- The goroutines that `ConfigureRelayer` starts: `ConnectToPeers` for a rendezvous point, and
-- `DiscoverAtInterval` with a ticker of an interval.
pub data Routine : Type 0 where
  connecting : Bytes → Routine
  discovering : Bytes → ℕ → Routine

-- What `ConfigureRelayer` leaves behind, with the results of the connections of `ConfigureDHT`.
pub record Running : Type 0 where
  pub rlimit : Rlimit
  pub bootstrap_failures : List (Option Bytes)
  pub routines : List Routine

-- How `ConfigureRelayer` ends: the host is up, a fatal error, a panic on the nil host, or one on the
-- nil address of a bootstrap peer.
pub data Relayed : Type 0 where
  up : Running → Relayed
  exited : Bytes → Relayed
  no_host : Bytes → Relayed
  no_peer : Relayed

module _ {PrivKey : Type 0} (platform : Platform PrivKey) where
  -- An error of the marshalling is logged, and its bytes are used all the same.
  unfoldable pub private_key_to_string : PrivKey → Bytes
  private_key_to_string priv_key = platform.encode (platform.marshal priv_key).0

  abbrev pub saved : PrivKey → Bytes → Option Bytes → Identity PrivKey
  saved priv encoded_key (some e) = unwritten e
  saved priv encoded_key none = identity (some priv) (encoded_key ∷ [])

  abbrev pub save : Result Bytes PrivKey → Identity PrivKey
  save (err e) = identity none []
  save (ok priv) =
      let encoded_key = private_key_to_string priv in
      saved priv encoded_key (platform.write_file encoded_key)

  unfoldable pub generate_and_save_key : Identity PrivKey
  generate_and_save_key = save platform.generate

  abbrev pub unmarshalled : Result Bytes PrivKey → Identity PrivKey
  unmarshalled (err e) = identity none []
  unmarshalled (ok pk) = identity (some pk) []

  abbrev pub decoded_key : Result Bytes Bytes → Identity PrivKey
  decoded_key (err e) = identity none []
  decoded_key (ok pk_bytes) = unmarshalled (platform.unmarshal pk_bytes)

  -- The private key of the settings, or a new one if that is empty. After an error of the decoding
  -- the key stays nil.
  unfoldable pub choose_key : Bytes → Identity PrivKey
  choose_key [] = generate_and_save_key
  choose_key (c ∷ relayer_private_key) = decoded_key (platform.decode (c ∷ relayer_private_key))

module _ {PrivKey Part : Type 0} (platform : Platform PrivKey) (libp2p : Libp2p PrivKey Part) where
  abbrev pub with_discovery : Bytes → ConfiguredDht → Relayed
  with_discovery rendezvous_point (dht_failed e) = exited e
  with_discovery rendezvous_point nil_peer = no_peer
  with_discovery rendezvous_point (ready failures) = up (record {
    rlimit = rlimit libp2p.getrlimit;
    bootstrap_failures = failures;
    routines = connecting rendezvous_point ∷ discovering rendezvous_point (5 * minute) ∷ [];
  })

  -- The error of `libp2p.New` is not looked at, and the nil host is used for its network.
  abbrev pub with_host : Bytes → Option Bytes → Relayed
  with_host rendezvous_point (some e) = no_host e
  with_host rendezvous_point none = with_discovery rendezvous_point (configure_dht libp2p.dht)

  abbrev pub with_identity : Bytes → Identity PrivKey → Relayed
  with_identity rendezvous_point (unwritten e) = exited e
  with_identity rendezvous_point (identity pk files) =
      with_host rendezvous_point (libp2p.new_host (host_options libp2p pk))

  -- For the rendezvous point and the private key of the settings.
  unfoldable pub configure_relayer : Bytes → Bytes → Relayed
  configure_relayer rendezvous_point relayer_private_key =
      with_identity rendezvous_point (choose_key platform relayer_private_key)
