-- ===== src/Golang/Slice.antt =====
-- Byte slices: an array, of which the first `len` elements are in the slice. An index expression
-- `s[lo:hi]` may reach up to the capacity; one without `hi` ends at the length.
use libp2p_submission_sequen.Prelude.{
  ℕ, ◌-◌, ◌≤◌, ◌<◌, ◌≡◌, arith, Bytes, Option, none, some, leb, ◌&&◌, length, take, drop,
  if◌then◌else◌,
}

pub record Slice : Type 0 where
  pub array : Bytes
  pub len : ℕ

abbrev pub contents : Slice → Bytes
contents s = take s.len s.array

-- `s[lo:hi]`; `none` is the panic "slice bounds out of range".
unfoldable pub slice_range : Slice → ℕ → ℕ → Option Slice
slice_range s lo hi =
    if leb lo hi && leb hi (length s.array)
    then some (record { array = drop lo s.array; len = hi - lo })
    else none

-- `s[lo:]`
unfoldable pub slice_from : Slice → ℕ → Option Slice
unfolding slice_range
slice_from s lo = slice_range s lo s.len

pub slice_range_in :
    (s : Slice) (lo hi : ℕ)
    → lo ≤ hi
    → hi ≤ length s.array
    → slice_range s lo hi ≡ some (record { array = drop lo s.array; len = hi - lo })
unfolding slice_range
slice_range_in s lo hi h k = ground arith

pub slice_from_out : (s : Slice) (lo : ℕ) → s.len < lo → slice_from s lo ≡ none
unfolding slice_from
slice_from_out s lo h = ground arith

pub slice_from_in :
    (s : Slice) (lo : ℕ)
    → lo ≤ s.len
    → s.len ≤ length s.array
    → slice_from s lo ≡ some (record { array = drop lo s.array; len = s.len - lo })
unfolding slice_from
slice_from_in s lo h k = ground arith
