-- ===== src/Tests/Node.antt =====
-- A node that answers every view with the zero values of its outputs, and a session with it.
use mathlib.Core.Path.{subst}
use mathlib.Core.Option.{some-injective}
use libp2p_submission_sequen.Prelude.{
  ℕ, ◌≡◌, ◌∙◌, refl, sym, ap, ap₂, Bytes, bytes_eq, codes, Bool, true, false, ◌&&◌, List, [], ◌∷◌,
  ◌++◌, Option, none, some, Result, ok, err, if◌then◌else◌,
}
use libp2p_submission_sequen.Contract.Values.{GoType, Meaning, zero_of, Any, any}
use libp2p_submission_sequen.Contract.Abi.{views, transactions}
use libp2p_submission_sequen.Contract.Abi.Types.{AbiType, AbiMethod, bound_type}
use libp2p_submission_sequen.Contract.Bound.{BoundCalls}
use libp2p_submission_sequen.Contract.Serving.{
  method_named, find_method, HasTypes, UnpacksAbi, Returns,
}
use libp2p_submission_sequen.Contract.Binding.{Bind, WholeContract, contract_of, new_contract}
use libp2p_submission_sequen.Contract.Conformance.Whole.{
  session_of, ReadsContract, SendsContract, new_contract-SendsContract, session-Returns,
}

abbrev convert_value : (t u : GoType) → Meaning u → Option (Meaning t)
convert_value GoType.address GoType.address x = some x
convert_value GoType.uint8 GoType.uint8 x = some x
convert_value GoType.big_int GoType.big_int x = some x
convert_value GoType.bool GoType.bool x = some x
convert_value GoType.string GoType.string x = some x
convert_value GoType.bytes GoType.bytes x = some x
convert_value GoType.bytes32 GoType.bytes32 x = some x
convert_value GoType.addresses GoType.addresses x = some x
convert_value GoType.big_ints GoType.big_ints x = some x
convert_value GoType.bools GoType.bools x = some x
convert_value GoType.strings GoType.strings x = some x
convert_value GoType.request GoType.request x = some x
convert_value GoType.slot_info GoType.slot_info x = some x
convert_value _ _ x = none

convert_value-same : (t : GoType) (x : Meaning t) → convert_value t t x ≡ some x
convert_value-same GoType.address x = refl
convert_value-same GoType.uint8 x = refl
convert_value-same GoType.big_int x = refl
convert_value-same GoType.bool x = refl
convert_value-same GoType.string x = refl
convert_value-same GoType.bytes x = refl
convert_value-same GoType.bytes32 x = refl
convert_value-same GoType.addresses x = refl
convert_value-same GoType.big_ints x = refl
convert_value-same GoType.bools x = refl
convert_value-same GoType.strings x = refl
convert_value-same GoType.request x = refl
convert_value-same GoType.slot_info x = refl

abbrev with_value : Option GoType → Option (List Any) → Option (List Any)
with_value (some t) (some vs) = some (any t (zero_of t) ∷ vs)
with_value _ _ = none

abbrev values_of : List AbiType → Option (List Any)
values_of [] = some []
values_of (t ∷ ts) = with_value (bound_type t) (values_of ts)

with_value-HasTypes :
    (t : AbiType) (ts : List AbiType) (g : Option GoType) (vs : Option (List Any)) (out : List Any)
    → bound_type t ≡ g
    → ((rest : List Any) → vs ≡ some rest → HasTypes rest ts)
    → with_value g vs ≡ some out
    → HasTypes out (t ∷ ts)
with_value-HasTypes t ts none vs out bound h e = absurd cc
with_value-HasTypes t ts (some g) none out bound h e = absurd cc
with_value-HasTypes t ts (some g) (some vs) out bound h e =
    subst (λ o. HasTypes o (t ∷ ts)) (some-injective _ _ e) (ap₂ (◌∷◌) (sym bound) (h vs refl))

values_of-HasTypes :
    (ts : List AbiType) (out : List Any) → values_of ts ≡ some out → HasTypes out ts
values_of-HasTypes [] out e = subst (λ o. HasTypes o []) (some-injective _ _ e) refl
values_of-HasTypes (t ∷ ts) out e = with_value-HasTypes t ts _ _ out refl (values_of-HasTypes ts) e

abbrev answer : Option (List Any) → Result Bytes (List Any)
answer (some out) = ok out
answer none = err (codes "no values")

abbrev answer_of : Option AbiMethod → Result Bytes (List Any)
answer_of (some m) = answer (values_of m.outputs)
answer_of none = err (codes "no such method")

abbrev Valued : AbiMethod → Type 0
Valued m = (out : List Any) × (values_of m.outputs ≡ some out)

abbrev valued : Option (List Any) → Bool
valued (some vs) = true
valued none = false

abbrev all_valued : List AbiMethod → Bool
all_valued [] = true
all_valued (m ∷ ms) = valued (values_of m.outputs) && all_valued ms

valued-both :
    (n : AbiMethod) (ms : List AbiMethod) (vs : Option (List Any))
    → values_of n.outputs ≡ vs
    → valued vs && all_valued ms ≡ true
    → Valued n × (all_valued ms ≡ true)
valued-both n ms (some vs) e all = ((vs, e), all)
valued-both n ms none e all = absurd cc

found-Valued :
    (b : Bool) (n m : AbiMethod) (rest : Option AbiMethod)
    → Valued n
    → (rest ≡ some m → Valued m)
    → (if b then some n else rest) ≡ some m
    → Valued m
found-Valued true n m rest here later e = subst Valued (some-injective _ _ e) here
found-Valued false n m rest here later e = later e

find_method-Valued :
    (ms : List AbiMethod) (name : Bytes) (m : AbiMethod)
    → all_valued ms ≡ true
    → find_method name ms ≡ some m
    → Valued m
find_method-Valued [] name m all e = absurd cc
find_method-Valued (n ∷ ms) name m all e =
    let (here, rest) = valued-both n ms _ refl all in
    found-Valued (bytes_eq name n.name) n m _ here (find_method-Valued ms name m rest) e

abbrev node : BoundCalls ℕ ℕ ℕ
node = record {
  call = λ opts name params. answer_of (method_named name);
  transact = λ nonce name params. ok nonce;
  transfer = λ nonce. ok nonce;
  convert_type = λ t v. convert_value t v.go_type v.value;
}

same_answer : {r : Result Bytes (List Any)} {vs out : List Any} → r ≡ ok vs → r ≡ ok out → vs ≡ out
same_answer p q = cc

node-unpacks :
    (opts : ℕ) (m : AbiMethod) (name : Bytes) (params out : List Any)
    → method_named name ≡ some m
    → m.is_view ≡ true
    → node.call opts name params ≡ ok out
    → HasTypes out m.outputs
node-unpacks opts m name params out found is_view e =
    let (vs, values) = find_method-Valued (views ++ transactions) name m refl found in
    let answered : answer_of (method_named name) ≡ ok vs = ap answer_of found ∙ ap answer values in
    subst (λ o. HasTypes o m.outputs) (same_answer answered e)
      (values_of-HasTypes m.outputs vs values)

node_unpacks : UnpacksAbi node
node_unpacks = record { unpacks = node-unpacks; keeps = λ v. convert_value-same v.go_type v.value }

-- The address and the backend are not looked at.
abbrev bind : Bind ℕ ℕ (BoundCalls ℕ ℕ ℕ)
bind = record {
  get_abi = ok 93;
  new_bound_contract = λ address parsed caller transactor filterer. node;
}

abbrev contract : WholeContract (BoundCalls ℕ ℕ ℕ)
contract = contract_of node

new_contract-SendsContract_example :
    (made : WholeContract (BoundCalls ℕ ℕ ℕ)) × (new_contract bind (codes "0xE8") 1 ≡ ok made)
    × SendsContract node (session_of made 0 7)
new_contract-SendsContract_example = new_contract-SendsContract bind (codes "0xE8") 1 93 0 7 refl

session-Returns_example : ReadsContract (Returns node) (session_of contract 0 7)
session-Returns_example = session-Returns (session_of contract 0 7) node_unpacks
