-- ===== src/Contract/Binding.antt =====
-- pkgs/contract/contract.go: `NewContract` and the functions like it.
use libp2p_submission_sequen.Prelude.{Bytes, Option, none, some, Result, ok, err}
use libp2p_submission_sequen.Contract.Event.{Address}

-- `ContractMetaData.GetAbi`, which parses the text of the ABI, and `bind.NewBoundContract` with its
-- caller, transactor and filterer, which may be nil.
pub record Bind (Abi Backend Bound : Type 0) : Type 0 where
  pub get_abi : Result Bytes Abi
  pub new_bound_contract : Address → Abi → Option Backend → Option Backend → Option Backend → Bound

pub record ContractCaller (Bound : Type 0) : Type 0 where
  pub contract : Bound

pub record ContractTransactor (Bound : Type 0) : Type 0 where
  pub contract : Bound

pub record ContractFilterer (Bound : Type 0) : Type 0 where
  pub contract : Bound

-- `Contract`, by its three parts.
pub record WholeContract (Bound : Type 0) : Type 0 where
  pub contract_caller : ContractCaller Bound
  pub contract_transactor : ContractTransactor Bound
  pub contract_filterer : ContractFilterer Bound

abbrev pub contract_of : {Bound : Type 0} → Bound → WholeContract Bound
contract_of contract = record {
  contract_caller = record { contract = contract };
  contract_transactor = record { contract = contract };
  contract_filterer = record { contract = contract };
}

abbrev made : {A B : Type 0} → (A → B) → Result Bytes A → Result Bytes B
made f (ok a) = ok (f a)
made f (err e) = err e

module _ {Abi Backend Bound : Type 0} (bind : Bind Abi Backend Bound) where
  abbrev pub bind_contract :
      Address → Option Backend → Option Backend → Option Backend → Result Bytes Bound
  bind_contract address caller transactor filterer =
      made (λ parsed. bind.new_bound_contract address parsed caller transactor filterer)
        bind.get_abi

  abbrev pub new_contract : Address → Backend → Result Bytes (WholeContract Bound)
  new_contract address backend =
      made contract_of (bind_contract address (some backend) (some backend) (some backend))

  abbrev pub new_contract_caller : Address → Backend → Result Bytes (ContractCaller Bound)
  new_contract_caller address caller =
      made (λ contract. record { contract = contract })
        (bind_contract address (some caller) none none)

  abbrev pub new_contract_transactor : Address → Backend → Result Bytes (ContractTransactor Bound)
  new_contract_transactor address transactor =
      made (λ contract. record { contract = contract })
        (bind_contract address none (some transactor) none)

  abbrev pub new_contract_filterer : Address → Backend → Result Bytes (ContractFilterer Bound)
  new_contract_filterer address filterer =
      made (λ contract. record { contract = contract })
        (bind_contract address none none (some filterer))
