-- ===== src/Contract/CallerSessions/Markets.antt =====
-- pkgs/contract/contract.go: the methods of `ContractCallerSession` on data markets and the contract itself.
use libp2p_submission_sequen.Prelude.{ℕ}
use libp2p_submission_sequen.Contract.Event.{Address}
use libp2p_submission_sequen.Contract.Values.{GoType, Meaning}
use libp2p_submission_sequen.Contract.Bound.{Returned}
use libp2p_submission_sequen.Contract.Outputs.{DataMarketInfo}
use libp2p_submission_sequen.Contract.Sessions.Session.{ContractCallerSession}
use libp2p_submission_sequen.Contract.Callers.Markets

module _ {C T Tx : Type 0} (session : ContractCallerSession C T Tx) where
  abbrev pub upgrade_interface_version : Returned (Meaning GoType.string)
  upgrade_interface_version =
      Markets.upgrade_interface_version session.contract.contract session.call_opts

  abbrev pub data_market_count : Returned (Meaning GoType.uint8)
  data_market_count = Markets.data_market_count session.contract.contract session.call_opts

  abbrev pub data_market_enabled : Address → Returned (Meaning GoType.bool)
  data_market_enabled data_market_address =
      Markets.data_market_enabled session.contract.contract session.call_opts data_market_address

  abbrev pub data_market_factory : Returned (Meaning GoType.address)
  data_market_factory = Markets.data_market_factory session.contract.contract session.call_opts

  abbrev pub data_market_id_to_address : ℕ → Returned (Meaning GoType.address)
  data_market_id_to_address data_market_id =
      Markets.data_market_id_to_address session.contract.contract session.call_opts data_market_id

  abbrev pub data_markets : Address → Returned DataMarketInfo
  data_markets key = Markets.data_markets session.contract.contract session.call_opts key

  abbrev pub owner : Returned (Meaning GoType.address)
  owner = Markets.owner session.contract.contract session.call_opts

  abbrev pub proxiable_uuid : Returned (Meaning GoType.bytes32)
  proxiable_uuid = Markets.proxiable_uuid session.contract.contract session.call_opts
