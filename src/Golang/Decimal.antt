-- ===== src/Golang/Decimal.antt =====
-- Decimal numbers: `%d` of an unsigned integer, `strconv.ParseUint` in base 10, `strconv.Atoi`.
use libp2p_submission_sequen.Prelude.{
  ℕ, zero, suc, ◌+◌, ◌-◌, ◌*◌, ◌/◌, ◌%◌, ◌^◌, ◌≤◌, ◌<◌, ◌≡◌, ◌≢◌, refl, ◌∙◌, sym, ap, arith, Bytes,
  Bool, ◌&&◌, [], ◌∷◌, ◌++◌, Option, none, some, ltb, leb, ◌==◌, All, All-append, Bool-cases, inl,
  inr, if◌then◌else◌,
}

-- The digits, the most significant first; the fuel bounds how many there are.
digits : ℕ → ℕ → Bytes
digits zero n = []
digits (suc fuel) n =
    let front = digits fuel (n / 10) in
    let last = b'0' + n % 10 in if ltb n 10 then last ∷ [] else front ++ last ∷ []

-- `fmt.Sprintf("%d", n)` of an unsigned integer.
unfoldable pub format_uint : ℕ → Bytes
unfolding digits
format_uint n = digits (suc n) n

abbrev pub IsDigit : ℕ → Type 0
IsDigit c = (b'0' ≤ c) × (c ≤ b'9')

abbrev is_digit : ℕ → Bool
is_digit c = leb b'0' c && leb c b'9'

-- The number that digits spell behind `n`.
abbrev pub value : ℕ → Bytes → ℕ
value n [] = n
value n (c ∷ s) = value (n * 10 + (c - b'0')) s

value-append : (n : ℕ) (s : Bytes) (c : ℕ) → value n (s ++ c ∷ []) ≡ value n s * 10 + (c - b'0')
value-append n [] c = refl
value-append n (d ∷ s) c = value-append (n * 10 + (d - b'0')) s c

value-digits : (fuel n : ℕ) → n < fuel → value 0 (digits fuel n) ≡ n
unfolding digits
value-digits zero n h = absurd (omega arith)
value-digits (suc fuel) n h = elim (Bool-cases (ltb n 10)) [
  | inl small ↦ rw small (ground arith)
  | inr large ↦ rw (large, value-append) (ground (arith, value-digits fuel (n / 10)))
]

-- Reading the digits of a number gives the number.
pub value-format_uint : (n : ℕ) → value 0 (format_uint n) ≡ n
unfolding format_uint
value-format_uint n = value-digits (suc n) n (omega arith)

digits-IsDigit : (fuel n : ℕ) → All IsDigit (digits fuel n)
unfolding digits
digits-IsDigit zero n = tt
digits-IsDigit (suc fuel) n = elim (Bool-cases (ltb n 10)) [
  | inl small ↦ rw small (omega arith)
  | inr large ↦
      rw large
        (All-append IsDigit (digits fuel (n / 10)) _ (digits-IsDigit fuel (n / 10)) (omega arith))
]

pub format_uint-IsDigit : (n : ℕ) → All IsDigit (format_uint n)
unfolding format_uint
format_uint-IsDigit n = digits-IsDigit (suc n) n

pub format_uint_injective : (m n : ℕ) → format_uint m ≡ format_uint n → m ≡ n
format_uint_injective m n h = sym (value-format_uint m) ∙ ap (value 0) h ∙ value-format_uint n

-- The loop of `ParseUint`: a byte that is no digit, or a value above `max`, is an error.
scan_uint : ℕ → Bytes → ℕ → Option ℕ
scan_uint max [] n = some n
scan_uint max (c ∷ s) n =
    let m = n * 10 + (c - b'0') in
    let rest = scan_uint max s m in if is_digit c && leb m max then rest else none

-- `strconv.ParseUint(s, 10, bits)` with `max` the largest number of that many bits.
unfoldable pub parse_uint : ℕ → Bytes → Option ℕ
unfolding scan_uint
parse_uint max [] = none
parse_uint max (c ∷ s) = scan_uint max (c ∷ s) 0

le-value : (n : ℕ) (s : Bytes) → n ≤ value n s
le-value n [] = omega arith
le-value n (c ∷ s) = omega (arith, le-value (n * 10 + (c - b'0')) s)

scan_uint_lem :
    (max : ℕ) (s : Bytes) (n r : ℕ)
    → n ≤ max
    → scan_uint max s n ≡ some r
    → All IsDigit s × (r ≡ value n s) × (r ≤ max)
unfolding scan_uint
scan_uint_lem max [] n r fits h = ground arith
scan_uint_lem max (c ∷ s) n r fits h = ground (arith, scan_uint_lem max s (n * 10 + (c - b'0')) r)

-- A number that is read is spelled by digits and within the bound.
pub parse_uint_lem :
    (max : ℕ) (s : Bytes) (r : ℕ)
    → parse_uint max s ≡ some r
    → All IsDigit s × (r ≡ value 0 s) × (r ≤ max)
unfolding parse_uint
parse_uint_lem max [] r h = cc
parse_uint_lem max (c ∷ s) r h = scan_uint_lem max (c ∷ s) 0 r (omega arith) h

scan_uint_complete :
    (max : ℕ) (s : Bytes) (n : ℕ)
    → All IsDigit s
    → value n s ≤ max
    → scan_uint max s n ≡ some (value n s)
unfolding scan_uint
scan_uint_complete max [] n d fits = refl
scan_uint_complete max (c ∷ s) n d fits =
    let m = n * 10 + (c - b'0') in ground (arith, scan_uint_complete max s m d.1 fits, le-value m s)

pub parse_uint_complete :
    (max : ℕ) (s : Bytes)
    → s ≢ []
    → All IsDigit s
    → value 0 s ≤ max
    → parse_uint max s ≡ some (value 0 s)
unfolding parse_uint
parse_uint_complete max [] nonempty d fits = absurd (nonempty refl)
parse_uint_complete max (c ∷ s) nonempty d fits = scan_uint_complete max (c ∷ s) 0 d fits

pub data ℤ : Type 0 where
  pos : ℕ → ℤ
  negsuc : ℕ → ℤ

abbrev pub negate : ℕ → ℤ
negate zero = pos zero
negate (suc n) = negsuc n

abbrev map_ℤ : (ℕ → ℤ) → Option ℕ → Option ℤ
map_ℤ f none = none
map_ℤ f (some n) = some (f n)

-- `strconv.Atoi`: an optional sign, then digits, within the range of an int64.
unfoldable pub atoi : Bytes → Option ℤ
unfolding parse_uint
atoi [] = none
atoi (c ∷ s) =
    if c == b'-'
    then map_ℤ negate (parse_uint (2 ^ 63) s)
    else if c == b'+'
    then map_ℤ pos (parse_uint (2 ^ 63 - 1) s)
    else map_ℤ pos (parse_uint (2 ^ 63 - 1) (c ∷ s))
