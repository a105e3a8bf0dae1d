-- ===== src/Contract/Conformance/Whole.antt =====
-- What a session gives, all its methods together.
use libp2p_submission_sequen.Contract.Serving.{UnpacksAbi, Calls, Returns, CallSpec, Calls-Returns}
use libp2p_submission_sequen.Prelude.{◌≡◌, refl, some, ok}
use libp2p_submission_sequen.Contract.Event.{Address}
use libp2p_submission_sequen.Contract.Bound.{BoundCalls}
use libp2p_submission_sequen.Contract.Binding.{Bind, WholeContract, contract_of, new_contract}
use libp2p_submission_sequen.Contract.Sessions.Session.{ContractSession}
use libp2p_submission_sequen.Contract.Conformance.Epochs.{ReadsEpochs, Session-ReadsEpochs}
use libp2p_submission_sequen.Contract.Conformance.Batches.{ReadsBatches, Session-ReadsBatches}
use libp2p_submission_sequen.Contract.Conformance.Snapshots.{ReadsSnapshots, Session-ReadsSnapshots}
use libp2p_submission_sequen.Contract.Conformance.Slots.{ReadsSlots, Session-ReadsSlots}
use libp2p_submission_sequen.Contract.Conformance.Members.{ReadsMembers, Session-ReadsMembers}
use libp2p_submission_sequen.Contract.Conformance.Markets.{ReadsMarkets, Session-ReadsMarkets}
use libp2p_submission_sequen.Contract.Conformance.Submitting.{
  SendsSubmitting, Session-SendsSubmitting,
}
use libp2p_submission_sequen.Contract.Conformance.Administration.{
  SendsAdministration, Session-SendsAdministration,
}
use libp2p_submission_sequen.Contract.Conformance.Tuning.{SendsTuning, Session-SendsTuning}

pub record ReadsContract {C T Tx : Type 0} (P : CallSpec C) (session : ContractSession C T Tx)
    : Type 0 where
  pub epochs : ReadsEpochs P session
  pub batches : ReadsBatches P session
  pub snapshots : ReadsSnapshots P session
  pub slots : ReadsSlots P session
  pub members : ReadsMembers P session
  pub markets : ReadsMarkets P session

pub record SendsContract {C T Tx : Type 0} (bound : BoundCalls C T Tx)
    (session : ContractSession C T Tx) : Type 0 where
  pub submitting : SendsSubmitting bound session
  pub administration : SendsAdministration bound session
  pub tuning : SendsTuning bound session

abbrev pub session_of :
    {C T Tx : Type 0} → WholeContract (BoundCalls C T Tx) → C → T → ContractSession C T Tx
session_of contract call_opts transact_opts = record {
  contract = contract;
  call_opts = call_opts;
  transact_opts = transact_opts;
}

reads_contract :
    {C T Tx : Type 0} {P : CallSpec C} (session : ContractSession C T Tx)
    → Calls P session.contract.contract_caller.contract
    → ReadsContract P session
reads_contract session law = record {
  epochs = Session-ReadsEpochs session law;
  batches = Session-ReadsBatches session law;
  snapshots = Session-ReadsSnapshots session law;
  slots = Session-ReadsSlots session law;
  members = Session-ReadsMembers session law;
  markets = Session-ReadsMarkets session law;
}

sends_contract :
    {C T Tx : Type 0} (session : ContractSession C T Tx)
    → SendsContract session.contract.contract_transactor.contract session
sends_contract session = record {
  submitting = Session-SendsSubmitting session;
  administration = Session-SendsAdministration session;
  tuning = Session-SendsTuning session;
}

-- If the text of the ABI parses, NewContract succeeds, and each of the 34 transactions of a session
-- with its contract, for any arguments, returns what the bound contract for the address and the
-- backend, with the options of the session, returns for the name of a method of the ABI that is no
-- view and for the arguments of the transaction, which are in the order and of the types of the
-- inputs of that method.
pub new_contract-SendsContract :
    {Abi Backend C T Tx : Type 0} (bind : Bind Abi Backend (BoundCalls C T Tx)) (address : Address)
    (backend : Backend) (parsed : Abi) (call_opts : C) (transact_opts : T)
    → bind.get_abi ≡ ok parsed
    → (contract : WholeContract (BoundCalls C T Tx)) × (new_contract bind address backend
        ≡ ok contract)
      × SendsContract
          (bind.new_bound_contract address parsed (some backend) (some backend) (some backend))
          (session_of contract call_opts transact_opts)
new_contract-SendsContract bind address backend parsed call_opts transact_opts e =
    let contract =
      contract_of
        (bind.new_bound_contract address parsed (some backend) (some backend) (some backend)) in
    (contract, rw e refl, sends_contract (session_of contract call_opts transact_opts))

-- Whatever the node answers and whichever calls fail, if answers without an error have the types of
-- the outputs of the ABI, each of the 59 reads of a session, for any integers that are not nil,
-- returns either the zero value with the error of its call or, without an error, the outputs of its
-- call, each in its place; so none panics.
pub session-Returns :
    {C T Tx : Type 0} (session : ContractSession C T Tx)
    → UnpacksAbi session.contract.contract_caller.contract
    → ReadsContract (Returns session.contract.contract_caller.contract) session
session-Returns session law =
    reads_contract session (Calls-Returns session.contract.contract_caller.contract law)
