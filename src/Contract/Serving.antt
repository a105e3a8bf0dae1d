-- ===== src/Contract/Serving.antt =====
-- What go-ethereum gives for the contract's ABI, and what the binding's calls make of it.
use mathlib.Core.Path.{subst}
use mathlib.Core.Option.{some-injective}
use libp2p_submission_sequen.Prelude.{
  ◌≡◌, ◌∙◌, refl, ap, ap₂, ◌⊎◌, inl, inr, Bytes, bytes_eq, true, false, List, [], ◌∷◌, ◌++◌, map,
  Option, none, some, Result, ok, err, if◌then◌else◌,
}
use libp2p_submission_sequen.Contract.Values.{GoType, Meaning, zero_of, Any, any, types_of}
use libp2p_submission_sequen.Contract.Abi.{views, transactions}
use libp2p_submission_sequen.Contract.Abi.Types.{AbiType, AbiMethod, bound_type}
use libp2p_submission_sequen.Contract.Packing.{can_pack_all}
use libp2p_submission_sequen.Contract.Bound.{BoundCalls, Returned, after_call, call_with, call_one}

abbrev pub find_method : Bytes → List AbiMethod → Option AbiMethod
find_method name [] = none
find_method name (m ∷ methods) = if bytes_eq name m.name then some m else find_method name methods

abbrev pub method_named : Bytes → Option AbiMethod
method_named name = find_method name (views ++ transactions)

-- Values of the Go types of some types of the ABI.
abbrev pub HasTypes : List Any → List AbiType → Type 0
HasTypes values types = map some (types_of values) ≡ map bound_type types

-- What go-ethereum documents of `BoundContract.Call` and of `abi.ConvertType`: an answer without an
-- error to a view has values of the types that the ABI gives its outputs, and a value of the wanted
-- type is left as it is.
pub record UnpacksAbi {C T Tx : Type 0} (bound : BoundCalls C T Tx) : Type 0 where
  pub unpacks :
      (opts : C) (m : AbiMethod) (name : Bytes) (params out : List Any)
      → method_named name ≡ some m
      → m.is_view ≡ true
      → bound.call opts name params ≡ ok out
      → HasTypes out m.outputs
  pub keeps : (v : Any) → bound.convert_type v.go_type v ≡ some v.value

-- A method that returns an `A`, or its zero value with an error, and passes some arguments to the
-- method of a name: what it is to return, where `values` are the outputs that a result stands for.
abbrev pub CallSpec : Type 0 → Type 1
CallSpec C = (A : Type 0) → A → (A → List Any) → C → Bytes → List Any → Returned A → Type 0

-- The outputs that the call has, with no error.
abbrev pub Answered : {C T Tx : Type 0} → BoundCalls C T Tx → CallSpec C
Answered bound A zero_value values opts name params r =
    (x : A) × (bound.call opts name params ≡ ok (values x)) × (r ≡ some (x, none))

-- The zero value with the error of the call.
abbrev pub Failed : {C T Tx : Type 0} → BoundCalls C T Tx → CallSpec C
Failed bound A zero_value values opts name params r =
    (e : Bytes) × (bound.call opts name params ≡ err e) × (r ≡ some (zero_value, some e))

-- Either of them, and so no panic.
abbrev pub Returns : {C T Tx : Type 0} → BoundCalls C T Tx → CallSpec C
Returns bound A zero_value values opts name params r =
    Failed bound A zero_value values opts name params r
    ⊎ Answered bound A zero_value values opts name params r

abbrev pub OneOutput :
    {C : Type 0} → CallSpec C → (t : GoType) → C → Bytes → List Any → Returned (Meaning t) → Type 0
OneOutput P t = P (Meaning t) (zero_of t) (λ x. any t x ∷ [])

-- The result, an error or a transaction, of handing over the name of a method of the ABI that is no
-- view, with arguments of the types of its inputs.
abbrev pub Sent :
    {C T Tx : Type 0} → BoundCalls C T Tx → T → Bytes → List Any → Result Bytes Tx → Type 0
Sent bound opts name params r =
    (m : AbiMethod) × (method_named name ≡ some m)
    × (m.is_view ≡ false)
    × HasTypes params m.inputs
    × (r ≡ bound.transact opts name params)

-- Values of some types.
abbrev pub Outputs : List GoType → Type 0
Outputs [] = Unit
Outputs (t ∷ ts) = Meaning t × Outputs ts

abbrev pub anys : (ts : List GoType) → Outputs ts → List Any
anys [] xs = []
anys (t ∷ ts) xs = any t xs.0 ∷ anys ts xs.1

any_of : (t : GoType) (v : Any) → v.go_type ≡ t → (x : Meaning t) × (v ≡ any t x)
any_of t v e = subst (λ u. (x : Meaning u) × (v ≡ any u x)) e (v.value, refl)

anys_of :
    (ts : List GoType) (out : List Any)
    → map some (types_of out) ≡ map some ts
    → (xs : Outputs ts) × (out ≡ anys ts xs)
anys_of [] [] e = (tt, refl)
anys_of [] (v ∷ out) e = absurd cc
anys_of (t ∷ ts) [] e = absurd cc
anys_of (t ∷ ts) (v ∷ out) e =
    let first : some v.go_type ≡ some t = cc in
    let others : map some (types_of out) ≡ map some ts = cc in
    let (x, same) = any_of t v (some-injective _ _ first) in
    let (xs, rest) = anys_of ts out others in ((x, xs), ap₂ (◌∷◌) same rest)

-- What a method of `ContractCaller` gives, once its name and its arguments are a view's of the ABI
-- and it reads the view's outputs.
pub record Calls {C T Tx : Type 0} (P : CallSpec C) (bound : BoundCalls C T Tx) : Type 1 where
  pub keeps : (v : Any) → bound.convert_type v.go_type v ≡ some v.value
  pub gives :
      {A : Type 0} (zero_value : A) (values : A → List Any) (read : List Any → Returned A)
      (opts : C) (name : Bytes) (params : List Any) (m : AbiMethod) (ts : List GoType)
      → method_named name ≡ some m
      → m.is_view ≡ true
      → HasTypes params m.inputs
      → can_pack_all params ≡ true
      → map bound_type m.outputs ≡ map some ts
      → ((xs : Outputs ts)
          → (x : A) × (read (anys ts xs) ≡ some (x, none)) × (anys ts xs ≡ values x))
      → P A zero_value values opts name params (call_with bound zero_value read opts name params)

module _ {C T Tx A : Type 0} (bound : BoundCalls C T Tx) (zero_value : A) (values : A → List Any)
    (read : List Any → Returned A) (opts : C) (name : Bytes) (params : List Any) (m : AbiMethod)
    (ts : List GoType) (found : method_named name ≡ some m) (is_view : m.is_view ≡ true)
    (outputs : map bound_type m.outputs ≡ map some ts)
    (h : (xs : Outputs ts)
      → (x : A) × (read (anys ts xs) ≡ some (x, none)) × (anys ts xs ≡ values x)) where
  decoded :
      UnpacksAbi bound
      → (out : List Any) → bound.call opts name params ≡ ok out
      → (x : A) × (out ≡ values x) × (read out ≡ some (x, none))
  decoded law out called =
      let (xs, e) =
        anys_of ts out (law.unpacks opts m name params out found is_view called ∙ outputs) in
      let (x, reads, same) = h xs in (x, e ∙ same, ap read e ∙ reads)

  result_of :
      UnpacksAbi bound
      → (r : Result Bytes (List Any)) → bound.call opts name params ≡ r
      → Returns bound A zero_value values opts name params (after_call bound zero_value read r)
  result_of law (err e) called = inl (e, called, refl)
  result_of law (ok out) called =
      let (x, same, reads) = decoded law out called in inr (x, called ∙ ap ok same, reads)

pub Calls-Returns :
    {C T Tx : Type 0} (bound : BoundCalls C T Tx) → UnpacksAbi bound → Calls (Returns bound) bound
unfolding call_with
Calls-Returns bound law = record {
  keeps = law.keeps;
  gives = λ zero_value values read opts name params m ts found is_view typed packed outputs h.
      result_of bound zero_value values read opts name params m ts found is_view outputs h law _
        refl;
}

module _ {C T Tx : Type 0} {P : CallSpec C} {bound : BoundCalls C T Tx} (law : Calls P bound) where
  pub call_one_lem :
      (t : GoType) (opts : C) (name : Bytes) (params : List Any) (m : AbiMethod)
      → method_named name ≡ some m
      → m.is_view ≡ true
      → HasTypes params m.inputs
      → can_pack_all params ≡ true
      → map bound_type m.outputs ≡ some t ∷ []
      → OneOutput P t opts name params (call_one bound t opts name params)
  unfolding call_one
  call_one_lem t opts name params m found is_view typed packed outputs =
      law.gives (zero_of t) _ _ opts name params m (t ∷ []) found is_view typed packed outputs
        (λ xs. (xs.0, rw (law.keeps (any t xs.0)) refl, refl))
