-- ===== src/Discovery.antt =====
-- pkgs/service/discovery.go: the search for relayer peers. The host's network, the routing discovery
-- and the retry of `backoff` are parameters.
pub mod Runs
pub mod Contacts
pub mod Dht
pub mod Bootstrap
use libp2p_submission_sequen.Prelude.{
  ℕ, Bytes, Bool, true, false, not, ◌||◌, List, [], ◌∷◌, ◌++◌, Option, none, some, Result, ok, err,
  bytes_eq, is_nil, if◌then◌else◌,
}
use libp2p_submission_sequen.Backoff.{Operation, Retry}

-- `peer.AddrInfo`
pub record Peer : Type 0 where
  pub id : Bytes
  pub addrs : List Bytes

-- The calls that reach another host, and their errors, the oldest first.
pub data Action : Type 0 where
  connect reserve : Peer → Action

pub record Contact : Type 0 where
  pub action : Action
  pub failure : Option Bytes

abbrev pub History : Type 0
History = List Contact

-- The host: its own identity, whether a peer is connected, and the error of a call, both given the
-- contacts so far.
pub record Host : Type 0 where
  pub id : Bytes
  pub is_connected : History → Peer → Bool
  pub answer : History → Action → Option Bytes

unfoldable pub contact : Host → Action → Operation History
contact host a h =
    let failure = host.answer h a in (failure, h ++ record { action = a; failure = failure } ∷ [])

abbrev pub then_reserve : Host → Peer → Option Bytes × History → Option Bytes × History
then_reserve host peer (some e, h) = (some e, h)
then_reserve host peer (none, h) = contact host (reserve peer) h

-- `operation`: connect unless connected, then reserve a slot.
unfoldable pub operation : Host → Peer → Operation History
unfolding contact
operation host peer h =
    if not (host.is_connected h peer)
    then then_reserve host peer (contact host (connect peer) h)
    else contact host (reserve peer) h

-- What the loop logs of a peer.
pub data Report : Type 0 where
  reached : Peer → Report
  unreachable : Peer → Bytes → Report

abbrev pub report_of : Peer → Option Bytes → Report
report_of peer none = reached peer
report_of peer (some e) = unreachable peer e

-- The test of the `continue`.
unfoldable pub is_skipped : Host → Peer → Bool
is_skipped host peer = bytes_eq peer.id host.id || is_nil peer.addrs

abbrev pub max_retries : ℕ
max_retries = 3

module _ (retry : Retry History) (host : Host) where
  abbrev pub with_report :
      Peer → Option Bytes × History → List Report × History → List Report × History
  with_report peer (failure, _) (reports, h) = (report_of peer failure ∷ reports, h)

  -- The loop over the channel of peers, with `backoff.Retry(operation, backoff.WithMaxRetries(…, 3))`.
  unfoldable pub contact_peers : List Peer → History → List Report × History
  contact_peers [] h = ([], h)
  contact_peers (peer ∷ peers) h =
      let result = retry max_retries (operation host peer) h in
      let skipping = contact_peers peers h in
      let rest = contact_peers peers result.1 in
      if is_skipped host peer then skipping else with_report peer result rest

  -- `FindPeers` fails, or gives the peers of the rendezvous point.
  unfoldable pub connect_to_peers : Result Bytes (List Peer) → History → List Report × History
  connect_to_peers (err e) h = ([], h)
  connect_to_peers (ok peers) h = contact_peers peers h

-- Which case the `select` of `DiscoverAtInterval` takes: a tick, with what `FindPeers` returns then,
-- or the end of the context.
pub data Tick : Type 0 where
  tick : Result Bytes (List Peer) → Tick
  cancelled : Tick

-- Whether the function has returned, which stops its ticker, and what it did.
pub record Rounds : Type 0 where
  pub returned : Bool
  pub reports : List Report
  pub history : History

module _ (retry : Retry History) (host : Host) where
  unfoldable pub discover_at_interval : List Tick → History → Rounds
  discover_at_interval [] h = record { returned = false; reports = []; history = h }
  discover_at_interval (cancelled ∷ ticks) h = record { returned = true; reports = []; history = h }
  discover_at_interval (tick peers ∷ ticks) h =
      let (reports, h') = connect_to_peers retry host peers h in
      let rest = discover_at_interval ticks h' in record rest { reports = reports ++ rest.reports }
