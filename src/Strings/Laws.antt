-- ===== src/Strings/Laws.antt =====
-- What `ExtractField` returns, and when it panics.
use libp2p_submission_sequen.Prelude.{
  ℕ, suc, ◌+◌, ◌-◌, ◌≤◌, ◌<◌, length-drop, true, ◌≡◌, ◌≢◌, ◌↔◌, refl, arith, Bytes, codes, [], ◌∷◌,
  ◌++◌, none, some, ltb, length, length-append, drop, All, take-append, Option-cases, Bool-cases,
  inl, inr,
}
use mathlib.Core.Path.{subst}
use mathlib.Core.Option.{some-injective}
use libp2p_submission_sequen.Golang.Index.{
  has_prefix, index, index_byte, index_byte-All, index-has_prefix,
}
use libp2p_submission_sequen.Strings.{quote, up_to_quote, value_at, extract_field}

abbrev pub LacksQuote : Bytes → Type 0
LacksQuote = All (λ b. b ≢ b'"')

up_to_quote_lem : (v rest : Bytes) → LacksQuote v → up_to_quote (v ++ b'"' ∷ rest) ≡ v
unfolding up_to_quote
up_to_quote_lem v rest h = rw (index_byte b'"' v rest h, up_to_quote) (take-append v _)

drop-suc :
    (before tail : Bytes) (opening : ℕ)
    → drop (suc (length before)) (before ++ opening ∷ tail) ≡ tail
drop-suc [] tail opening = refl
drop-suc (b ∷ before) tail opening = drop-suc before tail opening

-- Any one byte may stand where the opening quote is expected.
value_at_lem :
    (before v rest : Bytes) (opening start : ℕ)
    → LacksQuote v
    → start ≡ suc (length before)
    → value_at (before ++ opening ∷ (v ++ b'"' ∷ rest)) start ≡ some v
unfolding value_at
value_at_lem before v rest opening start h e =
    rw (e, drop-suc, up_to_quote_lem v rest h)
      (ground (arith, length-append before (opening ∷ (v ++ b'"' ∷ rest))))

-- If the first occurrence of the name and its colon is followed by one byte, a value without quotes
-- and a quote, the result is the value.
pub extract_field_found :
    (before field_name v rest : Bytes) (opening : ℕ)
    → index
        ((before ++ (field_name ++ codes ":")) ++ opening ∷ (v ++ b'"' ∷ rest))
        (field_name ++ codes ":")
      ≡ some (length before)
    → LacksQuote v
    → extract_field
        ((before ++ (field_name ++ codes ":")) ++ opening ∷ (v ++ b'"' ∷ rest))
        field_name
      ≡ some v
unfolding extract_field
extract_field_found before field_name v rest opening first h =
    rw (first, extract_field)
      (value_at_lem (before ++ (field_name ++ codes ":")) v rest opening _ h (
        omega (
          arith,
          length-append before (field_name ++ codes ":"),
          length-append field_name (codes ":"),
        )))

has_prefix-length : (s t : Bytes) → has_prefix s t ≡ true → length t ≤ length s
has_prefix-length s [] h = omega arith
has_prefix-length [] (b ∷ t) h = cc
has_prefix-length (a ∷ s) (b ∷ t) h = ground (arith, has_prefix-length s t)

index-length : (s t : Bytes) (i : ℕ) → index s t ≡ some i → i + length t ≤ length s
index-length s t i h =
    let (found, inside) = index-has_prefix s t i h in
    omega (arith, has_prefix-length (drop i s) t found, length-drop i s)

value_at-none : (str : Bytes) (start : ℕ) → (value_at str start ≡ none) ↔ (length str < start)
unfolding value_at
value_at-none str start = ground arith

-- The call panics exactly when the name and its colon occur and their first occurrence ends the
-- text.
pub extract_field_panics :
    (str field_name : Bytes)
    → (extract_field str field_name ≡ none)
      ↔ (index str (field_name ++ codes ":") ≡ some (length str - length (field_name ++ codes ":")))
unfolding extract_field
extract_field_panics str field_name = elim (Option-cases (index str (field_name ++ codes ":"))) [
  | inl missing ↦ rw (missing, extract_field) (ground arith)
  | inr (i, found) ↦
      rw (found, extract_field)
        (ground (
          arith,
          value_at-none str (i + (length field_name + 2)),
          index-length str (field_name ++ codes ":") i found,
          length-append field_name (codes ":"),
        ))
]

up_to_quote-LacksQuote : (s : Bytes) → LacksQuote (up_to_quote s)
unfolding up_to_quote
up_to_quote-LacksQuote s = elim (Option-cases (index s quote)) [
  | inl missing ↦ rw (missing, up_to_quote) tt
  | inr (i, found) ↦ rw (found, up_to_quote) (index_byte-All b'"' s i found)
]

value_at-LacksQuote :
    (str : Bytes) (start : ℕ) (v : Bytes) → value_at str start ≡ some v → LacksQuote v
unfolding value_at
value_at-LacksQuote str start v h = elim (Bool-cases (ltb (length str) start)) [
  | inl past ↦ ground (arith)
  | inr inside ↦
      subst LacksQuote (some-injective _ _ (rw (inside, value_at) at h))
        (up_to_quote-LacksQuote (drop start str))
]

-- A value that is returned holds no quote.
pub extract_field-LacksQuote :
    (str field_name v : Bytes) → extract_field str field_name ≡ some v → LacksQuote v
unfolding extract_field
extract_field-LacksQuote str field_name v h =
    elim (Option-cases (index str (field_name ++ codes ":"))) [
      | inl missing ↦ subst LacksQuote (some-injective [] v (rw (missing, extract_field) at h)) tt
      | inr (i, found) ↦ value_at-LacksQuote str _ v (rw (found, extract_field) at h)
    ]
