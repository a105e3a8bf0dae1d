-- ===== src/Contract/Values.antt =====
-- The Go values that pkgs/contract/contract.go hands to go-ethereum and gets from it.
use libp2p_submission_sequen.Prelude.{ℕ, Bytes, Bool, false, List, [], none, map, replicate}
pub use libp2p_submission_sequen.Contract.Event.{BigInt}
use libp2p_submission_sequen.Contract.Event.{Address}

pub record DataMarketRequest : Type 0 where
  pub slot_id : BigInt
  pub deadline : BigInt
  pub snapshot_cid : Bytes
  pub epoch_id : BigInt
  pub project_id : Bytes

pub record DataMarketSlotInfo : Type 0 where
  pub slot_id : BigInt
  pub snapshotter_address : Address
  pub reward_points : BigInt
  pub current_day_snapshot_count : BigInt

-- The types of the values; `bytes32` is an array of 32 bytes. The struct without a name that
-- go-ethereum makes of a tuple counts as the one of the same fields that has a name.
pub data GoType : Type 0 where
  address uint8 big_int bool string bytes bytes32 : GoType
  addresses big_ints bools strings : GoType
  request slot_info : GoType

abbrev pub Meaning : GoType → Type 0
Meaning address = Address
Meaning uint8 = ℕ
Meaning big_int = BigInt
Meaning bool = Bool
Meaning string = Bytes
Meaning bytes = Bytes
Meaning bytes32 = Bytes
Meaning addresses = List Address
Meaning big_ints = List BigInt
Meaning bools = List Bool
Meaning strings = List Bytes
Meaning request = DataMarketRequest
Meaning slot_info = DataMarketSlotInfo

-- `*new(T)`, the zero value.
abbrev pub zero_of : (t : GoType) → Meaning t
zero_of address = replicate 20 0
zero_of uint8 = 0
zero_of big_int = none
zero_of bool = false
zero_of string = []
zero_of bytes = []
zero_of bytes32 = replicate 32 0
zero_of addresses = []
zero_of big_ints = []
zero_of bools = []
zero_of strings = []
zero_of request = record {
  slot_id = none;
  deadline = none;
  snapshot_cid = [];
  epoch_id = none;
  project_id = [];
}
zero_of slot_info = record {
  slot_id = none;
  snapshotter_address = replicate 20 0;
  reward_points = none;
  current_day_snapshot_count = none;
}

-- `interface{}`: a value with its type.
pub record Any : Type 0 where
  pub go_type : GoType
  pub value : Meaning go_type

abbrev pub any : (t : GoType) → Meaning t → Any
any t x = record { go_type = t; value = x }

abbrev pub types_of : List Any → List GoType
types_of = map (λ (v : Any). v.go_type)
