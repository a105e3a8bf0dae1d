-- ===== src/Strings.antt =====
-- pkgs/utils/strings.go: the value of a quoted field in a text.
pub mod Laws
use libp2p_submission_sequen.Prelude.{
  ℕ, ◌+◌, Bytes, codes, [], ◌∷◌, ◌++◌, Option, none, some, ltb, length, take, drop, if◌then◌else◌,
}
use libp2p_submission_sequen.Golang.Index.{index}

abbrev pub quote : Bytes
quote = codes "\""

-- `str[start : start+end]`, or the empty text if no quote follows.
unfoldable pub up_to_quote : Bytes → Bytes
up_to_quote rest = elim (index rest quote) [ none ↦ [] | some stop ↦ take stop rest ]

-- `str[start:]` panics (`none`) if `start` is past the end.
unfoldable pub value_at : Bytes → ℕ → Option Bytes
value_at str start = if ltb (length str) start then none else some (up_to_quote (drop start str))

unfoldable pub extract_field : Bytes → Bytes → Option Bytes
unfolding value_at
extract_field str field_name = elim (index str (field_name ++ codes ":")) [
  | none ↦ some []
  | some start ↦ value_at str (start + (length field_name + 2))
]
