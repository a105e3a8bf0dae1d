-- ===== src/Contract/Raw.antt =====
-- pkgs/contract/contract.go: the raw methods, `ContractRaw`, `ContractCallerRaw` and
-- `ContractTransactorRaw`, over the bound contract.
use libp2p_submission_sequen.Prelude.{Bytes, List, Result}
use libp2p_submission_sequen.Contract.Values.{Any}
use libp2p_submission_sequen.Contract.Binding.{WholeContract, ContractCaller, ContractTransactor}
use libp2p_submission_sequen.Contract.Bound.{BoundCalls}

pub record ContractRaw (C T Tx : Type 0) : Type 0 where
  pub contract : WholeContract (BoundCalls C T Tx)

pub record ContractCallerRaw (C T Tx : Type 0) : Type 0 where
  pub contract : ContractCaller (BoundCalls C T Tx)

pub record ContractTransactorRaw (C T Tx : Type 0) : Type 0 where
  pub contract : ContractTransactor (BoundCalls C T Tx)

module _ {C T Tx : Type 0} where
  -- The new value of `result`, or the error.
  abbrev pub raw_call : ContractRaw C T Tx → C → Bytes → List Any → Result Bytes (List Any)
  raw_call raw opts method params = raw.contract.contract_caller.contract.call opts method params

  abbrev pub raw_transfer : ContractRaw C T Tx → T → Result Bytes Tx
  raw_transfer raw opts = raw.contract.contract_transactor.contract.transfer opts

  abbrev pub raw_transact : ContractRaw C T Tx → T → Bytes → List Any → Result Bytes Tx
  raw_transact raw opts method params =
      raw.contract.contract_transactor.contract.transact opts method params

  abbrev pub caller_raw_call :
      ContractCallerRaw C T Tx → C → Bytes → List Any → Result Bytes (List Any)
  caller_raw_call raw opts method params = raw.contract.contract.call opts method params

  abbrev pub transactor_raw_transfer : ContractTransactorRaw C T Tx → T → Result Bytes Tx
  transactor_raw_transfer raw opts = raw.contract.contract.transfer opts

  abbrev pub transactor_raw_transact :
      ContractTransactorRaw C T Tx → T → Bytes → List Any → Result Bytes Tx
  transactor_raw_transact raw opts method params = raw.contract.contract.transact opts method params
