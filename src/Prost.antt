-- ===== src/Prost.antt =====
-- pkgs/prost/contract.go: the instance of the contract, and a query of it, repeated until it succeeds
-- or time is up.
pub mod Laws
use libp2p_submission_sequen.Prelude.{Bytes, Option, none, some, Result, ok, err}
use libp2p_submission_sequen.Config.{Settings}
use libp2p_submission_sequen.Contract.Event.{Address}
use libp2p_submission_sequen.Contract.Binding.{Bind, WholeContract, new_contract}
use libp2p_submission_sequen.Backoff.{Operation, TimedRetry}

-- The error is dropped, and the instance is then nil.
abbrev pub instance_of :
    {Bound : Type 0} → Result Bytes (WholeContract Bound) → Option (WholeContract Bound)
instance_of (ok contract) = some contract
instance_of (err e) = none

abbrev pub configure_contract_instance :
    {Abi Client Bound : Type 0}
    → Bind Abi Client Bound
    → (Bytes → Address)
    → Settings
    → Client
    → Option (WholeContract Bound)
configure_contract_instance bind hex_to_address settings client =
    instance_of (new_contract bind (hex_to_address settings.contract_address) client)

-- A Go pair of a value and an error.
pub record Answer (K : Type 0) : Type 0 where
  pub val : K
  pub failure : Option Bytes

-- The variable `val` that the closure assigns, and the state of what it calls.
pub record Query (K S : Type 0) : Type 0 where
  pub val : K
  pub outside : S

module _ {K S : Type 0} where
  -- `operation` assigns what `call` returned, also with an error.
  unfoldable pub operation : (S → Answer K × S) → Operation (Query K S)
  operation call q = (
    (call q.outside).0.failure,
    record { val = (call q.outside).0.val; outside = (call q.outside).1 },
  )

  -- On an error the zero value is returned, and not what the last call left in `val`.
  abbrev pub finish : K → Option Bytes × Query K S → Answer K × S
  finish zero_value (none, q) = (record { val = q.val; failure = none }, q.outside)
  finish zero_value (some e, q) = (record { val = zero_value; failure = some e }, q.outside)

  unfoldable pub must_query : K → TimedRetry (Query K S) → (S → Answer K × S) → S → Answer K × S
  must_query zero_value retry call s =
      finish zero_value (retry (operation call) (record { val = zero_value; outside = s }))
