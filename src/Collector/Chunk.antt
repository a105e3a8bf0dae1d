-- ===== src/Collector/Chunk.antt =====
-- The framing of one read.
use libp2p_submission_sequen.Prelude.{
  ℕ, ◌-◌, ◌≤◌, ◌<◌, ◌≡◌, refl, arith, Bytes, none, some, leb, length, length-append,
  length-replicate, length-drop, take, drop, replicate, take_at, take-append_left, drop-append_left,
  if◌then◌else◌,
}
use native.Mathlib.Decide.{dec_le}
use libp2p_submission_sequen.Golang.Slice.{
  slice_range, slice_range_in, slice_from_out, slice_from_in,
}
use libp2p_submission_sequen.Collector.{buffer_size, uuid_size, parse_submission_bytes, filled}

filled-length :
    (received : Bytes)
    → length received ≤ buffer_size
    → length (filled received).array ≡ buffer_size
unfolding filled
filled-length received h = omega (
  arith,
  length-append received (replicate (buffer_size - length received) 0),
  length-replicate {A = ℕ} (buffer_size - length received) 0,
)

filled-len : (received : Bytes) → (filled received).len ≡ length received
unfolding filled
filled-len received = refl

-- The first slice expression never panics, since the buffer's capacity is beyond the identifier.
uuid_slice :
    (received : Bytes)
    → length received ≤ buffer_size
    → slice_range (filled received) 0 uuid_size
      ≡ some (record { array = (filled received).array; len = uuid_size })
uuid_slice received h =
    slice_range_in (filled received) 0 uuid_size (omega arith)
      (omega (arith, filled-length received h))

-- A read of fewer bytes than an identifier panics.
pub parse_short :
    (received : Bytes)
    → length received < uuid_size
    → parse_submission_bytes (filled received) ≡ none
unfolding parse_submission_bytes
parse_short received h = rw (
  uuid_slice received (omega arith),
  slice_from_out (filled received) uuid_size (omega (arith, filled-len received)),
)

filled_head :
    (received : Bytes)
    → uuid_size ≤ length received
    → take uuid_size (filled received).array ≡ take uuid_size received
unfolding filled
filled_head received h = take-append_left uuid_size received _ h

filled_tail :
    (received : Bytes)
    → uuid_size ≤ length received
    → take (length received - uuid_size) (drop uuid_size (filled received).array)
      ≡ drop uuid_size received
unfolding filled
filled_tail received h = rw (drop-append_left uuid_size received _ h) (
    take_at (length received - uuid_size) (drop uuid_size received) _
      (length-drop uuid_size received))

-- Any other read is its first 36 bytes and all the rest.
pub parse_long :
    (received : Bytes)
    → uuid_size ≤ length received
    → length received ≤ buffer_size
    → parse_submission_bytes (filled received)
      ≡ some (take uuid_size received, drop uuid_size received)
unfolding parse_submission_bytes
parse_long received h fits = rw (
  uuid_slice received fits,
  slice_from_in (filled received) uuid_size (omega (arith, filled-len received))
      (omega (arith, filled-len received, filled-length received fits)),
  filled-len received,
  filled_head received h,
  filled_tail received h,
)

-- Of a read of at most a buffer the first 36 bytes are split from the rest, exactly when it has 36
-- bytes; otherwise the slice expression panics.
pub parse_submission_bytes_lem :
    (received : Bytes)
    → length received ≤ buffer_size
    → parse_submission_bytes (filled received) ≡ (
        if leb uuid_size (length received)
        then some (take uuid_size received, drop uuid_size received)
        else none)
parse_submission_bytes_lem received fits = elim (dec_le uuid_size (length received)) [
  | yes long ↦ rw (parse_long received long fits) (ground arith)
  | no short ↦ rw (parse_short received (omega arith)) (ground arith)
]
