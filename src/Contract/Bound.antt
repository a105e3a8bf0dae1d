-- ===== src/Contract/Bound.antt =====
-- Calls and transactions through the bound contract of go-ethereum, which is a parameter.
use libp2p_submission_sequen.Prelude.{
  ℕ, zero, suc, Bytes, List, [], ◌∷◌, Option, none, some, Result, ok, err,
}
use libp2p_submission_sequen.Contract.Values.{GoType, Meaning, zero_of, Any}

-- `BoundContract.Call` by what it puts into `out` or its error, `BoundContract.Transact`, and
-- `abi.ConvertType` with the type assertion behind it, whose panic is none.
pub record BoundCalls (CallOpts TransactOpts Transaction : Type 0) : Type 0 where
  pub call : CallOpts → Bytes → List Any → Result Bytes (List Any)
  pub transact : TransactOpts → Bytes → List Any → Result Bytes Transaction
  pub transfer : TransactOpts → Result Bytes Transaction
  pub convert_type : (t : GoType) → Any → Option (Meaning t)

-- What a method of the binding returns: a value and an error, or none for a panic.
abbrev pub Returned : Type 0 → Type 0
Returned A = Option (A × Option Bytes)

module _ {C T Tx : Type 0} (bound : BoundCalls C T Tx) where
  abbrev with_converted {ℓ} : {A : Type 0} {B : Type ℓ} → Option B → (B → Returned A) → Returned A
  with_converted none go = none
  with_converted (some x) go = go x

  -- `*abi.ConvertType(out[i], new(T)).(*T)`, and what follows.
  abbrev pub convert_at :
      {A : Type 0} (t : GoType) → ℕ → List Any → (Meaning t → Returned A) → Returned A
  convert_at t i [] go = none
  convert_at t zero (v ∷ out) go = with_converted (bound.convert_type t v) go
  convert_at t (suc i) (v ∷ out) go = convert_at t i out go

  abbrev pub after_call :
      {A : Type 0} → A → (List Any → Returned A) → Result Bytes (List Any) → Returned A
  after_call zero_value read (err e) = some (zero_value, some e)
  after_call zero_value read (ok out) = read out

  -- A call whose outputs `read` puts together.
  unfoldable pub call_with :
      {A : Type 0} → A → (List Any → Returned A) → C → Bytes → List Any → Returned A
  call_with zero_value read opts method params =
      after_call zero_value read (bound.call opts method params)

  -- A call with one output.
  unfoldable pub call_one : (t : GoType) → C → Bytes → List Any → Returned (Meaning t)
  unfolding call_with
  call_one t = call_with (zero_of t) (λ out. convert_at t 0 out (λ x. some (x, none)))
