-- ===== src/Contract/Packing.antt =====
-- Which arguments go-ethereum packs: those without a nil `*big.Int`, of which it would panic.
use libp2p_submission_sequen.Prelude.{
  Bytes, Bool, true, false, ◌&&◌, List, [], ◌∷◌, map, none, some, ◌≡◌, refl,
}
use libp2p_submission_sequen.Golang.Decimal.{ℤ}
use libp2p_submission_sequen.Contract.Values.{GoType, Meaning, BigInt, DataMarketRequest, Any}

abbrev present : BigInt → Bool
present none = false
present (some x) = true

abbrev pub all_present : List BigInt → Bool
all_present [] = true
all_present (x ∷ xs) = present x && all_present xs

abbrev can_pack : (t : GoType) → Meaning t → Bool
can_pack GoType.big_int x = present x
can_pack GoType.big_ints xs = all_present xs
can_pack GoType.request r = present r.slot_id && present r.deadline && present r.epoch_id
can_pack GoType.slot_info s =
    present s.slot_id && present s.reward_points && present s.current_day_snapshot_count
can_pack _ x = true

abbrev pub can_pack_all : List Any → Bool
can_pack_all [] = true
can_pack_all (v ∷ vs) = can_pack v.go_type v.value && can_pack_all vs

abbrev pub request_of : ℤ → ℤ → Bytes → ℤ → Bytes → DataMarketRequest
request_of slot deadline cid epoch project = record {
  slot_id = some slot;
  deadline = some deadline;
  snapshot_cid = cid;
  epoch_id = some epoch;
  project_id = project;
}

pub all_present-map : (xs : List ℤ) → all_present (map some xs) ≡ true
all_present-map [] = refl
all_present-map (x ∷ xs) = all_present-map xs
