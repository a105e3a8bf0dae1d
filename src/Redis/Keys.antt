-- ===== src/Redis/Keys.antt =====
-- pkgs/redis/keys.go and the key names of pkgs/constants.go that it uses.
use libp2p_submission_sequen.Prelude.{
  ℕ, ◌≡◌, refl, ◌∙◌, sym, arith, Bytes, codes, [], ◌∷◌, ◌++◌, All, append_assoc,
}
use mathlib.Core.Path.{subst}
use mathlib.Core.List.{append_cancel_left, tail-eq_of_cons-eq}
use libp2p_submission_sequen.Golang.Decimal.{
  IsDigit, format_uint, format_uint-IsDigit, format_uint_injective,
}

abbrev pub epoch_submission_counts_prefix : Bytes
epoch_submission_counts_prefix = codes "EpochSubmissionCountsReceivedInSlotKey"

-- `fmt.Sprintf("%s.%s.%d.%d", …)`
unfoldable pub epoch_submission_counts_received_in_slot_key : Bytes → ℕ → ℕ → Bytes
epoch_submission_counts_received_in_slot_key data_market_address slot_id epoch_id =
    epoch_submission_counts_prefix
    ++ (b'.'
        ∷ (data_market_address ++ (b'.' ∷ (format_uint slot_id ++ b'.' ∷ format_uint epoch_id))))

dot_no_digit : (t v : Bytes) → All IsDigit (t ++ b'.' ∷ v) → ⊥
dot_no_digit [] v h = omega arith
dot_no_digit (b ∷ t) v h = dot_no_digit t v h.1

-- A text behind the last dot of two equal texts is the same, and so is what stands before the dot.
dotted_injective :
    (s t u v : Bytes)
    → All IsDigit u
    → All IsDigit v
    → s ++ b'.' ∷ u ≡ t ++ b'.' ∷ v
    → (s ≡ t) × (u ≡ v)
dotted_injective [] [] u v hu hv h = (refl, cc)
dotted_injective [] (b ∷ t) u v hu hv h =
    let e : u ≡ t ++ b'.' ∷ v = cc in absurd (dot_no_digit t v (subst (All IsDigit) e hu))
dotted_injective (a ∷ s) [] u v hu hv h =
    let e : v ≡ s ++ b'.' ∷ u = cc in absurd (dot_no_digit s u (subst (All IsDigit) e hv))
dotted_injective (a ∷ s) (b ∷ t) u v hu hv h =
    let e : s ++ b'.' ∷ u ≡ t ++ b'.' ∷ v = cc in
    let (e1, e2) = dotted_injective s t u v hu hv e in (cc, e2)

-- The key with its last separators outside.
key_regrouped :
    (market : Bytes) (slot epoch : ℕ)
    → epoch_submission_counts_received_in_slot_key market slot epoch
      ≡ ((epoch_submission_counts_prefix ++ (b'.' ∷ market)) ++ b'.' ∷ format_uint slot)
        ++ b'.' ∷ format_uint epoch
unfolding epoch_submission_counts_received_in_slot_key
key_regrouped market slot epoch = simp append_assoc

market_injective :
    (s t : Bytes)
    → epoch_submission_counts_prefix ++ (b'.' ∷ s) ≡ epoch_submission_counts_prefix ++ (b'.' ∷ t)
    → s ≡ t
market_injective s t h =
    tail-eq_of_cons-eq (append_cancel_left epoch_submission_counts_prefix (b'.' ∷ s) (b'.' ∷ t) h)

-- Two counters have one key only if they are of one data market, slot and epoch, whatever bytes the
-- name of the data market holds.
pub epoch_submission_counts_key_injective :
    (market market' : Bytes) (slot slot' epoch epoch' : ℕ)
    → epoch_submission_counts_received_in_slot_key market slot epoch
      ≡ epoch_submission_counts_received_in_slot_key market' slot' epoch'
    → (market ≡ market') × (slot ≡ slot') × (epoch ≡ epoch')
epoch_submission_counts_key_injective market market' slot slot' epoch epoch' h =
    let e = sym (key_regrouped market slot epoch) ∙ h ∙ key_regrouped market' slot' epoch' in
    let (front, last) =
      dotted_injective _ _ _ _ (format_uint-IsDigit epoch) (format_uint-IsDigit epoch') e in
    let (name, middle) =
      dotted_injective (epoch_submission_counts_prefix ++ (b'.' ∷ market))
        (epoch_submission_counts_prefix ++ (b'.' ∷ market')) _ _ (format_uint-IsDigit slot)
        (format_uint-IsDigit slot') front in
    (
      market_injective market market' name,
      format_uint_injective slot slot' middle,
      format_uint_injective epoch epoch' last,
    )
