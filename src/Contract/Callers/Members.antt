-- ===== src/Contract/Callers/Members.antt =====
-- pkgs/contract/contract.go: the methods of `ContractCaller` on sequencers, validators and snapshotters.
use libp2p_submission_sequen.Prelude.{codes, [], ◌∷◌}
use libp2p_submission_sequen.Contract.Event.{Address}
use libp2p_submission_sequen.Contract.Values.{GoType, Meaning, any}
use libp2p_submission_sequen.Contract.Bound.{BoundCalls, Returned, call_one}

module _ {C T Tx : Type 0} (bound : BoundCalls C T Tx) where
  abbrev pub all_snapshotters : C → Address → Returned (Meaning GoType.bool)
  all_snapshotters opts addr =
      call_one bound GoType.bool opts (codes "allSnapshotters") (any GoType.address addr ∷ [])

  abbrev pub get_sequencer_id : C → Address → Returned (Meaning GoType.string)
  get_sequencer_id opts data_market =
      call_one bound GoType.string opts (codes "getSequencerId")
        (any GoType.address data_market ∷ [])

  abbrev pub get_sequencers : C → Address → Returned (Meaning GoType.addresses)
  get_sequencers opts data_market =
      call_one bound GoType.addresses opts (codes "getSequencers")
        (any GoType.address data_market ∷ [])

  abbrev pub get_total_sequencers_count : C → Address → Returned (Meaning GoType.big_int)
  get_total_sequencers_count opts data_market =
      call_one bound GoType.big_int opts (codes "getTotalSequencersCount")
        (any GoType.address data_market ∷ [])

  abbrev pub get_total_snapshotter_count : C → Returned (Meaning GoType.big_int)
  get_total_snapshotter_count opts =
      call_one bound GoType.big_int opts (codes "getTotalSnapshotterCount") []

  abbrev pub get_total_validators_count : C → Address → Returned (Meaning GoType.big_int)
  get_total_validators_count opts data_market =
      call_one bound GoType.big_int opts (codes "getTotalValidatorsCount")
        (any GoType.address data_market ∷ [])

  abbrev pub get_validators : C → Address → Returned (Meaning GoType.addresses)
  get_validators opts data_market =
      call_one bound GoType.addresses opts (codes "getValidators")
        (any GoType.address data_market ∷ [])

  abbrev pub snapshotter_state : C → Returned (Meaning GoType.address)
  snapshotter_state opts = call_one bound GoType.address opts (codes "snapshotterState") []
