-- ===== src/Contract/Conformance/Snapshots.antt =====
-- What the reads on snapshots promise.
use libp2p_submission_sequen.Prelude.{Bytes, codes, [], ◌∷◌, some, refl}
use libp2p_submission_sequen.Golang.Decimal.{ℤ}
use libp2p_submission_sequen.Contract.Event.{Address}
use libp2p_submission_sequen.Contract.Values.{GoType, any}
use libp2p_submission_sequen.Contract.Serving.{CallSpec, OneOutput, Calls, call_one_lem}
use libp2p_submission_sequen.Contract.Conformance.Structs.{values_of_snapshot_status}
use libp2p_submission_sequen.Contract.Outputs.{SnapshotState, no_snapshot_status}
use libp2p_submission_sequen.Contract.Sessions.Session.{ContractSession}
use libp2p_submission_sequen.Contract.Sessions.Snapshots

pub record ReadsSnapshots {C T Tx : Type 0} (P : CallSpec C) (session : ContractSession C T Tx)
    : Type 0 where
  pub allowed_project_types :
      (data_market : Address) (project_type : Bytes)
      → OneOutput P GoType.bool session.call_opts
          (codes "allowedProjectTypes")
          (any GoType.address data_market ∷ any GoType.string project_type ∷ [])
          (Snapshots.allowed_project_types session data_market project_type)
  pub daily_snapshot_quota :
      (data_market : Address)
      → OneOutput P GoType.big_int session.call_opts
          (codes "dailySnapshotQuota")
          (any GoType.address data_market ∷ [])
          (Snapshots.daily_snapshot_quota session data_market)
  pub last_finalized_snapshot :
      (data_market : Address) (project_id : Bytes)
      → OneOutput P GoType.big_int session.call_opts
          (codes "lastFinalizedSnapshot")
          (any GoType.address data_market ∷ any GoType.string project_id ∷ [])
          (Snapshots.last_finalized_snapshot session data_market project_id)
  pub max_snapshots_cid :
      (data_market : Address) (project_id : Bytes) (epoch_id : ℤ)
      → OneOutput P GoType.string session.call_opts
          (codes "maxSnapshotsCid")
          (any GoType.address data_market
            ∷ any GoType.string project_id
            ∷ any GoType.big_int (some epoch_id)
            ∷ [])
          (Snapshots.max_snapshots_cid session data_market project_id (some epoch_id))
  pub min_submissions_for_consensus :
      (data_market : Address)
      → OneOutput P GoType.big_int session.call_opts
          (codes "minSubmissionsForConsensus")
          (any GoType.address data_market ∷ [])
          (Snapshots.min_submissions_for_consensus session data_market)
  pub project_first_epoch_id :
      (data_market : Address) (project_id : Bytes)
      → OneOutput P GoType.big_int session.call_opts
          (codes "projectFirstEpochId")
          (any GoType.address data_market ∷ any GoType.string project_id ∷ [])
          (Snapshots.project_first_epoch_id session data_market project_id)
  pub snapshot_status :
      (data_market : Address) (project_id : Bytes) (epoch_id : ℤ)
      → P SnapshotState no_snapshot_status values_of_snapshot_status session.call_opts
          (codes "snapshotStatus")
          (any GoType.address data_market
            ∷ any GoType.string project_id
            ∷ any GoType.big_int (some epoch_id)
            ∷ [])
          (Snapshots.snapshot_status session data_market project_id (some epoch_id))
  pub snapshot_submission_window :
      (data_market : Address)
      → OneOutput P GoType.big_int session.call_opts
          (codes "snapshotSubmissionWindow")
          (any GoType.address data_market ∷ [])
          (Snapshots.snapshot_submission_window session data_market)

pub Session-ReadsSnapshots :
    {C T Tx : Type 0} {P : CallSpec C} (session : ContractSession C T Tx)
    → Calls P session.contract.contract_caller.contract
    → ReadsSnapshots P session
Session-ReadsSnapshots session law = record {
  allowed_project_types =
      λ data_market project_type. call_one_lem law GoType.bool _ _ _ _ refl refl refl refl refl;
  daily_snapshot_quota =
      λ data_market. call_one_lem law GoType.big_int _ _ _ _ refl refl refl refl refl;
  last_finalized_snapshot =
      λ data_market project_id. call_one_lem law GoType.big_int _ _ _ _ refl refl refl refl refl;
  max_snapshots_cid = λ data_market project_id epoch_id.
      call_one_lem law GoType.string _ _ _ _ refl refl refl refl refl;
  min_submissions_for_consensus =
      λ data_market. call_one_lem law GoType.big_int _ _ _ _ refl refl refl refl refl;
  project_first_epoch_id =
      λ data_market project_id. call_one_lem law GoType.big_int _ _ _ _ refl refl refl refl refl;
  snapshot_status = λ data_market project_id epoch_id.
      law.gives _ _ _ _ _ _ _ (GoType.uint8 ∷ GoType.string ∷ GoType.big_int ∷ []) refl refl refl
        refl refl
        (λ xs. (
          record { status = xs.0; snapshot_cid = (xs.1).0; timestamp = ((xs.1).1).0 },
          rw
              (
                law.keeps (any GoType.uint8 (xs.0)),
                law.keeps (any GoType.string ((xs.1).0)),
                law.keeps (any GoType.big_int (((xs.1).1).0)),
              )
              refl,
          refl,
        ));
  snapshot_submission_window =
      λ data_market. call_one_lem law GoType.big_int _ _ _ _ refl refl refl refl refl;
}
