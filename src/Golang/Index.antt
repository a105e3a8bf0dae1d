-- ===== src/Golang/Index.antt =====
-- `strings.Index`: where a text first occurs in another.
use libp2p_submission_sequen.Prelude.{
  ℕ, zero, suc, ◌≤◌, ◌≡◌, ◌≢◌, refl, arith, Bytes, Bool, true, false, ◌&&◌, [], ◌∷◌, ◌++◌, Option,
  none, some, ◌==◌, length, drop, take, All, if◌then◌else◌,
}

abbrev pub has_prefix : Bytes → Bytes → Bool
has_prefix s [] = true
has_prefix [] (_ ∷ _) = false
has_prefix (a ∷ s) (b ∷ t) = a == b && has_prefix s t

abbrev pub shift : Option ℕ → Option ℕ
shift none = none
shift (some i) = some (suc i)

-- `none` stands for the result -1.
unfoldable pub index : Bytes → Bytes → Option ℕ
index [] t = if has_prefix [] t then some 0 else none
index (a ∷ s) t = if has_prefix (a ∷ s) t then some 0 else shift (index s t)

pub has_prefix-append : (t s : Bytes) → has_prefix (t ++ s) t ≡ true
has_prefix-append [] s = refl
has_prefix-append (b ∷ t) s = ground (arith, has_prefix-append t s)

pub has_prefix_lem : (s t : Bytes) → has_prefix s t ≡ true → t ++ drop (length t) s ≡ s
has_prefix_lem s [] h = refl
has_prefix_lem [] (b ∷ t) h = cc
has_prefix_lem (a ∷ s) (b ∷ t) h = ground (arith, has_prefix_lem s t)

-- The text occurs at the index.
pub index-has_prefix :
    (s t : Bytes) (i : ℕ) → index s t ≡ some i → (has_prefix (drop i s) t ≡ true) × (i ≤ length s)
unfolding index
index-has_prefix [] t i h = ground arith
index-has_prefix (a ∷ s) t zero h = ground arith
index-has_prefix (a ∷ s) t (suc i) h = ground (arith, index-has_prefix s t i)

-- The text does not occur before the index.
pub index_first :
    (s t : Bytes) (i j : ℕ) → index s t ≡ some i → suc j ≤ i → has_prefix (drop j s) t ≡ false
unfolding index
index_first [] t i j h lt = ground arith
index_first (a ∷ s) t zero j h lt = absurd (omega arith)
index_first (a ∷ s) t (suc i) zero h lt = ground arith
index_first (a ∷ s) t (suc i) (suc j) h lt = ground (arith, index_first s t i j)

pub index-none :
    (s t : Bytes) (j : ℕ) → index s t ≡ none → j ≤ length s → has_prefix (drop j s) t ≡ false
unfolding index
index-none [] t zero h le = ground arith
index-none [] t (suc j) h le = absurd (omega arith)
index-none (a ∷ s) t zero h le = ground arith
index-none (a ∷ s) t (suc j) h le = ground (arith, index-none s t j)

-- A single byte is found behind the bytes that differ from it.
pub index_byte :
    (c : ℕ) (v rest : Bytes) → All (λ b. b ≢ c) v → index (v ++ c ∷ rest) (c ∷ []) ≡ some (length v)
unfolding index
index_byte c [] rest h = ground arith
index_byte c (b ∷ v) rest h = ground (arith, index_byte c v rest h.1)

-- The bytes before the first occurrence of a byte differ from it.
pub index_byte-All :
    (c : ℕ) (s : Bytes) (i : ℕ) → index s (c ∷ []) ≡ some i → All (λ b. b ≢ c) (take i s)
unfolding index
index_byte-All c [] i h = ground arith
index_byte-All c (a ∷ s) zero h = tt
index_byte-All c (a ∷ s) (suc i) h = ground (arith, index_byte-All c s i)
