-- ===== src/Discovery/Dht.antt =====
-- pkgs/service/discovery.go: `ConfigureDHT`. The DHT and the host are parameters.
use libp2p_submission_sequen.Prelude.{Bytes, List, [], ◌∷◌, Option, none, some}
use libp2p_submission_sequen.Discovery.{Peer}

-- `dht.New`, `Bootstrap` and `host.Connect` by their errors; `addr_info` is `AddrInfoFromP2pAddr`,
-- whose error is dropped: its address is then nil.
pub record DhtNode (Multiaddr : Type 0) : Type 0 where
  pub new_dht : Option Bytes
  pub bootstrap : Option Bytes
  pub default_bootstrap_peers : List Multiaddr
  pub addr_info : Multiaddr → Option Peer
  pub connect : Peer → Option Bytes

-- The DHT with the results of the connections, a fatal error, or the panic on a nil address.
pub data ConfiguredDht : Type 0 where
  ready : List (Option Bytes) → ConfiguredDht
  dht_failed : Bytes → ConfiguredDht
  nil_peer : ConfiguredDht

-- One goroutine connects to each peer, and the function waits for all of them. A panic of any ends
-- the process; an error is only logged.
module _ {Multiaddr : Type 0} (node : DhtNode Multiaddr) where
  abbrev pub and_peer : Option Bytes → ConfiguredDht → ConfiguredDht
  and_peer failure (ready failures) = ready (failure ∷ failures)
  and_peer failure (dht_failed e) = dht_failed e
  and_peer failure nil_peer = nil_peer

  abbrev pub connect_peer : Option Peer → ConfiguredDht → ConfiguredDht
  connect_peer none rest = nil_peer
  connect_peer (some peerinfo) rest = and_peer (node.connect peerinfo) rest

  abbrev pub connect_peers : List Multiaddr → ConfiguredDht
  connect_peers [] = ready []
  connect_peers (peer_addr ∷ peers) = connect_peer (node.addr_info peer_addr) (connect_peers peers)

  abbrev pub bootstrapped : Option Bytes → ConfiguredDht
  bootstrapped (some e) = dht_failed e
  bootstrapped none = connect_peers node.default_bootstrap_peers

  abbrev pub with_dht : Option Bytes → ConfiguredDht
  with_dht (some e) = dht_failed e
  with_dht none = bootstrapped node.bootstrap

  unfoldable pub configure_dht : ConfiguredDht
  configure_dht = with_dht node.new_dht
