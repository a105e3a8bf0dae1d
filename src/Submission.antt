-- ===== src/Submission.antt =====
-- pkgs/submission.pb.go: the messages that the collector reads, and their getters on nil pointers.
use libp2p_submission_sequen.Prelude.{ℕ, Bytes, [], Option, none, some}

-- The numbers are uint64.
pub record Request : Type 0 where
  pub slot_id : ℕ
  pub deadline : ℕ
  pub snapshot_cid : Bytes
  pub epoch_id : ℕ
  pub project_id : Bytes

-- `Request` and `NodeVersion` are pointers, which may be nil.
pub record SnapshotSubmission : Type 0 where
  pub request : Option Request
  pub signature : Bytes
  pub header : Bytes
  pub data_market : Bytes
  pub node_version : Option Bytes

pub record SubmissionResponse : Type 0 where
  pub message : Bytes

unfoldable pub get_slot_id : Option Request → ℕ
get_slot_id none = 0
get_slot_id (some x) = x.slot_id

unfoldable pub get_deadline : Option Request → ℕ
get_deadline none = 0
get_deadline (some x) = x.deadline

unfoldable pub get_snapshot_cid : Option Request → Bytes
get_snapshot_cid none = []
get_snapshot_cid (some x) = x.snapshot_cid

unfoldable pub get_epoch_id : Option Request → ℕ
get_epoch_id none = 0
get_epoch_id (some x) = x.epoch_id

unfoldable pub get_project_id : Option Request → Bytes
get_project_id none = []
get_project_id (some x) = x.project_id

unfoldable pub get_request : Option SnapshotSubmission → Option Request
get_request none = none
get_request (some x) = x.request

unfoldable pub get_signature : Option SnapshotSubmission → Bytes
get_signature none = []
get_signature (some x) = x.signature

unfoldable pub get_header : Option SnapshotSubmission → Bytes
get_header none = []
get_header (some x) = x.header

unfoldable pub get_data_market : Option SnapshotSubmission → Bytes
get_data_market none = []
get_data_market (some x) = x.data_market

abbrev or_empty : Option Bytes → Bytes
or_empty none = []
or_empty (some s) = s

unfoldable pub get_node_version : Option SnapshotSubmission → Bytes
get_node_version none = []
get_node_version (some x) = or_empty x.node_version

unfoldable pub get_message : Option SubmissionResponse → Bytes
get_message none = []
get_message (some x) = x.message
