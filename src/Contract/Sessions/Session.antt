-- ===== src/Contract/Sessions/Session.antt =====
-- pkgs/contract/contract.go: the three kinds of session, with options set before.
use libp2p_submission_sequen.Contract.Binding.{ContractCaller, ContractTransactor, WholeContract}
use libp2p_submission_sequen.Contract.Bound.{BoundCalls}

pub record ContractSession (CallOpts TransactOpts Transaction : Type 0) : Type 0 where
  pub contract : WholeContract (BoundCalls CallOpts TransactOpts Transaction)
  pub call_opts : CallOpts
  pub transact_opts : TransactOpts

pub record ContractCallerSession (CallOpts TransactOpts Transaction : Type 0) : Type 0 where
  pub contract : ContractCaller (BoundCalls CallOpts TransactOpts Transaction)
  pub call_opts : CallOpts

pub record ContractTransactorSession (CallOpts TransactOpts Transaction : Type 0) : Type 0 where
  pub contract : ContractTransactor (BoundCalls CallOpts TransactOpts Transaction)
  pub transact_opts : TransactOpts
