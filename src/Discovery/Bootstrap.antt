-- ===== src/Discovery/Bootstrap.antt =====
-- When `ConfigureDHT` returns.
use mathlib.Core.Option.{some-ne-none}
use libp2p_submission_sequen.Prelude.{
  ◌≡◌, ◌≢◌, ◌∙◌, refl, ap, Bytes, List, [], ◌∷◌, Option, none, some, All,
}
use libp2p_submission_sequen.Discovery.{Peer}
use libp2p_submission_sequen.Discovery.Dht.{
  DhtNode, ConfiguredDht, ready, dht_failed, nil_peer, and_peer, connect_peer, connect_peers,
  bootstrapped, with_dht, configure_dht,
}

module _ {Multiaddr : Type 0} (node : DhtNode Multiaddr) where
  -- Every address has its peer.
  abbrev pub Known : List Multiaddr → Type 0
  Known = All (λ a. node.addr_info a ≢ none)

  and_peer_ready :
      (failure : Option Bytes) (rest : ConfiguredDht) (fs : List (Option Bytes))
      → and_peer node failure rest ≡ ready fs
      → (gs : List (Option Bytes)) × (rest ≡ ready gs)
  and_peer_ready failure (ready gs) fs e = (gs, refl)
  and_peer_ready failure (dht_failed x) fs e = absurd cc
  and_peer_ready failure nil_peer fs e = absurd cc

  connect_peer_ready :
      (peer : Option Peer) (rest : ConfiguredDht) (fs : List (Option Bytes))
      → connect_peer node peer rest ≡ ready fs
      → (peer ≢ none) × ((gs : List (Option Bytes)) × (rest ≡ ready gs))
  connect_peer_ready none rest fs e = absurd cc
  connect_peer_ready (some peer) rest fs e = (some-ne-none peer, and_peer_ready _ rest fs e)

  connect_peers-Known :
      (peers : List Multiaddr) (fs : List (Option Bytes))
      → connect_peers node peers ≡ ready fs
      → Known peers
  connect_peers-Known [] fs e = tt
  connect_peers-Known (a ∷ peers) fs e =
      let (known, (gs, later)) = connect_peer_ready (node.addr_info a) _ fs e in
      (known, connect_peers-Known peers gs later)

  connected :
      (peer : Option Peer) (rest : ConfiguredDht) (fs : List (Option Bytes))
      → peer ≢ none
      → rest ≡ ready fs
      → (gs : List (Option Bytes)) × (connect_peer node peer rest ≡ ready gs)
  connected none rest fs known e = absurd (known refl)
  connected (some peer) rest fs known e =
      (node.connect peer ∷ fs, ap (and_peer node (node.connect peer)) e)

  Known-connect_peers :
      (peers : List Multiaddr)
      → Known peers
      → (fs : List (Option Bytes)) × (connect_peers node peers ≡ ready fs)
  Known-connect_peers [] known = ([], refl)
  Known-connect_peers (a ∷ peers) known =
      let (fs, later) = Known-connect_peers peers known.1 in
      connected (node.addr_info a) _ fs known.0 later

  bootstrapped_ready :
      (b : Option Bytes) (fs : List (Option Bytes))
      → bootstrapped node b ≡ ready fs
      → (b ≡ none) × Known node.default_bootstrap_peers
  bootstrapped_ready (some x) fs e = absurd cc
  bootstrapped_ready none fs e = (refl, connect_peers-Known node.default_bootstrap_peers fs e)

  with_dht_ready :
      (d : Option Bytes) (fs : List (Option Bytes))
      → with_dht node d ≡ ready fs
      → (d ≡ none) × (node.bootstrap ≡ none) × Known node.default_bootstrap_peers
  with_dht_ready (some x) fs e = absurd cc
  with_dht_ready none fs e =
      let (b, known) = bootstrapped_ready node.bootstrap fs e in (refl, b, known)

  -- What the return of `ConfigureDHT` shows.
  pub configure_dht-Known :
      (fs : List (Option Bytes))
      → configure_dht node ≡ ready fs
      → (node.new_dht ≡ none) × (node.bootstrap ≡ none) × Known node.default_bootstrap_peers
  unfolding configure_dht
  configure_dht-Known = with_dht_ready node.new_dht

  -- When it returns.
  pub Known-configure_dht :
      node.new_dht ≡ none
      → node.bootstrap ≡ none
      → Known node.default_bootstrap_peers
      → (fs : List (Option Bytes)) × (configure_dht node ≡ ready fs)
  unfolding configure_dht
  Known-configure_dht d b known =
      let (fs, e) = Known-connect_peers node.default_bootstrap_peers known in
      (fs, ap (with_dht node) d ∙ ap (bootstrapped node) b ∙ e)
