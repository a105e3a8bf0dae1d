-- ===== src/Contract/Abi/Types.antt =====
-- Methods of an ABI, and the Go types to which go-ethereum binds its types.
use libp2p_submission_sequen.Prelude.{
  ℕ, Bytes, codes, String, bytes_eq, Bool, true, false, List, Option, none, some, ◌==◌,
  if◌then◌else◌,
}
use libp2p_submission_sequen.Contract.Values.{GoType}

-- A struct is named by its Solidity type.
pub data AbiType : Type 0 where
  address bool string bytes : AbiType
  uint fixed_bytes : ℕ → AbiType
  array : AbiType → AbiType
  struct : Bytes → AbiType

pub record AbiMethod : Type 0 where
  pub name : Bytes
  pub inputs : List AbiType
  pub outputs : List AbiType
  pub is_view : Bool

abbrev pub view : String → List AbiType → List AbiType → AbiMethod
view name inputs outputs = record {
  name = codes name;
  inputs = inputs;
  outputs = outputs;
  is_view = true;
}

abbrev pub transaction : String → List AbiType → List AbiType → AbiMethod
transaction name inputs outputs = record {
  name = codes name;
  inputs = inputs;
  outputs = outputs;
  is_view = false;
}

abbrev array_type : Option GoType → Option GoType
array_type (some GoType.address) = some GoType.addresses
array_type (some GoType.big_int) = some GoType.big_ints
array_type (some GoType.bool) = some GoType.bools
array_type (some GoType.string) = some GoType.strings
array_type _ = none

-- Of the types that the ABI has.
abbrev pub bound_type : AbiType → Option GoType
bound_type address = some GoType.address
bound_type bool = some GoType.bool
bound_type string = some GoType.string
bound_type bytes = some GoType.bytes
bound_type (uint w) =
    if w == 8 then some GoType.uint8 else if w == 256 then some GoType.big_int else none
bound_type (fixed_bytes n) = if n == 32 then some GoType.bytes32 else none
bound_type (array t) = array_type (bound_type t)
bound_type (struct s) =
    if bytes_eq s (codes "PowerloomDataMarket.Request")
    then some GoType.request
    else if bytes_eq s (codes "PowerloomDataMarket.SlotInfo")
    then some GoType.slot_info
    else none
