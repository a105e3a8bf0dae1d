-- ===== src/Contract/Callers/Snapshots.antt =====
-- pkgs/contract/contract.go: the methods of `ContractCaller` on snapshots.
use libp2p_submission_sequen.Prelude.{Bytes, codes, [], ◌∷◌, none, some}
use libp2p_submission_sequen.Contract.Event.{Address}
use libp2p_submission_sequen.Contract.Values.{GoType, Meaning, BigInt, any}
use libp2p_submission_sequen.Contract.Outputs.{SnapshotState, no_snapshot_status}
use libp2p_submission_sequen.Contract.Bound.{BoundCalls, Returned, convert_at, call_with, call_one}

module _ {C T Tx : Type 0} (bound : BoundCalls C T Tx) where
  abbrev pub allowed_project_types : C → Address → Bytes → Returned (Meaning GoType.bool)
  allowed_project_types opts data_market project_type =
      call_one bound GoType.bool opts (codes "allowedProjectTypes")
        (any GoType.address data_market ∷ any GoType.string project_type ∷ [])

  abbrev pub daily_snapshot_quota : C → Address → Returned (Meaning GoType.big_int)
  daily_snapshot_quota opts data_market =
      call_one bound GoType.big_int opts (codes "dailySnapshotQuota")
        (any GoType.address data_market ∷ [])

  abbrev pub last_finalized_snapshot : C → Address → Bytes → Returned (Meaning GoType.big_int)
  last_finalized_snapshot opts data_market project_id =
      call_one bound GoType.big_int opts (codes "lastFinalizedSnapshot")
        (any GoType.address data_market ∷ any GoType.string project_id ∷ [])

  abbrev pub max_snapshots_cid : C → Address → Bytes → BigInt → Returned (Meaning GoType.string)
  max_snapshots_cid opts data_market project_id epoch_id =
      call_one bound GoType.string opts (codes "maxSnapshotsCid") (
        any GoType.address data_market
        ∷ any GoType.string project_id
        ∷ any GoType.big_int epoch_id
        ∷ [])

  abbrev pub min_submissions_for_consensus : C → Address → Returned (Meaning GoType.big_int)
  min_submissions_for_consensus opts data_market =
      call_one bound GoType.big_int opts (codes "minSubmissionsForConsensus")
        (any GoType.address data_market ∷ [])

  abbrev pub project_first_epoch_id : C → Address → Bytes → Returned (Meaning GoType.big_int)
  project_first_epoch_id opts data_market project_id =
      call_one bound GoType.big_int opts (codes "projectFirstEpochId")
        (any GoType.address data_market ∷ any GoType.string project_id ∷ [])

  abbrev pub snapshot_status : C → Address → Bytes → BigInt → Returned SnapshotState
  snapshot_status opts data_market project_id epoch_id =
      call_with bound no_snapshot_status
        (λ out. convert_at bound GoType.uint8 0 out (λ status.
          convert_at bound GoType.string 1 out (λ snapshot_cid.
            convert_at bound GoType.big_int 2 out (λ timestamp. some (
              record { status = status; snapshot_cid = snapshot_cid; timestamp = timestamp },
              none,
            )))))
        opts (codes "snapshotStatus")
        (any GoType.address data_market
          ∷ any GoType.string project_id
          ∷ any GoType.big_int epoch_id
          ∷ [])

  abbrev pub snapshot_submission_window : C → Address → Returned (Meaning GoType.big_int)
  snapshot_submission_window opts data_market =
      call_one bound GoType.big_int opts (codes "snapshotSubmissionWindow")
        (any GoType.address data_market ∷ [])
