-- ===== src/Contract/Conformance/Members.antt =====
-- What the reads on sequencers, validators and snapshotters promise.
use libp2p_submission_sequen.Prelude.{codes, [], ◌∷◌, refl}
use libp2p_submission_sequen.Contract.Event.{Address}
use libp2p_submission_sequen.Contract.Values.{GoType, any}
use libp2p_submission_sequen.Contract.Serving.{CallSpec, OneOutput, Calls, call_one_lem}
use libp2p_submission_sequen.Contract.Sessions.Session.{ContractSession}
use libp2p_submission_sequen.Contract.Sessions.Members

pub record ReadsMembers {C T Tx : Type 0} (P : CallSpec C) (session : ContractSession C T Tx)
    : Type 0 where
  pub all_snapshotters :
      (addr : Address)
      → OneOutput P GoType.bool session.call_opts
          (codes "allSnapshotters")
          (any GoType.address addr ∷ [])
          (Members.all_snapshotters session addr)
  pub get_sequencer_id :
      (data_market : Address)
      → OneOutput P GoType.string session.call_opts
          (codes "getSequencerId")
          (any GoType.address data_market ∷ [])
          (Members.get_sequencer_id session data_market)
  pub get_sequencers :
      (data_market : Address)
      → OneOutput P GoType.addresses session.call_opts
          (codes "getSequencers")
          (any GoType.address data_market ∷ [])
          (Members.get_sequencers session data_market)
  pub get_total_sequencers_count :
      (data_market : Address)
      → OneOutput P GoType.big_int session.call_opts
          (codes "getTotalSequencersCount")
          (any GoType.address data_market ∷ [])
          (Members.get_total_sequencers_count session data_market)
  pub get_total_snapshotter_count :
      OneOutput P GoType.big_int session.call_opts
        (codes "getTotalSnapshotterCount")
        []
        (Members.get_total_snapshotter_count session)
  pub get_total_validators_count :
      (data_market : Address)
      → OneOutput P GoType.big_int session.call_opts
          (codes "getTotalValidatorsCount")
          (any GoType.address data_market ∷ [])
          (Members.get_total_validators_count session data_market)
  pub get_validators :
      (data_market : Address)
      → OneOutput P GoType.addresses session.call_opts
          (codes "getValidators")
          (any GoType.address data_market ∷ [])
          (Members.get_validators session data_market)
  pub snapshotter_state :
      OneOutput P GoType.address session.call_opts
        (codes "snapshotterState")
        []
        (Members.snapshotter_state session)

pub Session-ReadsMembers :
    {C T Tx : Type 0} {P : CallSpec C} (session : ContractSession C T Tx)
    → Calls P session.contract.contract_caller.contract
    → ReadsMembers P session
Session-ReadsMembers session law = record {
  all_snapshotters = λ addr. call_one_lem law GoType.bool _ _ _ _ refl refl refl refl refl;
  get_sequencer_id = λ data_market. call_one_lem law GoType.string _ _ _ _ refl refl refl refl refl;
  get_sequencers =
      λ data_market. call_one_lem law GoType.addresses _ _ _ _ refl refl refl refl refl;
  get_total_sequencers_count =
      λ data_market. call_one_lem law GoType.big_int _ _ _ _ refl refl refl refl refl;
  get_total_snapshotter_count = call_one_lem law GoType.big_int _ _ _ _ refl refl refl refl refl;
  get_total_validators_count =
      λ data_market. call_one_lem law GoType.big_int _ _ _ _ refl refl refl refl refl;
  get_validators =
      λ data_market. call_one_lem law GoType.addresses _ _ _ _ refl refl refl refl refl;
  snapshotter_state = call_one_lem law GoType.address _ _ _ _ refl refl refl refl refl;
}
