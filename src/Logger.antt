-- ===== src/Logger.antt =====
-- pkgs/utils/logger.go: the level of the log, and where its entries go.
use libp2p_submission_sequen.Prelude.{
  ℕ, ◌-◌, ◌^◌, ◌≡◌, ◌≢◌, arith, Bytes, Bool, true, List, [], ◌∷◌, Option, none, some, Option-cases,
  inl, inr, ◌<◌, ltb, leb, All, if◌then◌else◌,
}
use native.Mathlib.Decide.{dec_le}
use libp2p_submission_sequen.Golang.Decimal.{
  IsDigit, value, parse_uint, parse_uint_lem, parse_uint_complete,
}

-- The levels of logrus, the most severe first.
abbrev pub panic_level : ℕ
panic_level = 0

abbrev pub fatal_level : ℕ
fatal_level = 1

abbrev pub error_level : ℕ
error_level = 2

abbrev pub warn_level : ℕ
warn_level = 3

abbrev pub info_level : ℕ
info_level = 4

abbrev pub debug_level : ℕ
debug_level = 5

abbrev pub trace_level : ℕ
trace_level = 6

pub data Writer : Type 0 where
  stderr stdout : Writer

pub record Hook : Type 0 where
  pub writer : Writer
  pub levels : List ℕ

-- The state of the logger that is set; its own output is discarded.
pub record Logger : Type 0 where
  pub discards_output : Bool
  pub report_caller : Bool
  pub hooks : List Hook
  pub level : ℕ
  pub full_timestamp : Bool

-- `log.Level(logLevel)`, unless the argument is no number of 32 bits or above 6.
abbrev pub level_of : Option ℕ → ℕ
level_of none = debug_level
level_of (some n) = if ltb 6 n then debug_level else n

-- `os.Args`, the program's name first.
abbrev pub chosen_level : List Bytes → ℕ
chosen_level (program ∷ argument ∷ rest) = level_of (parse_uint (2 ^ 32 - 1) argument)
chosen_level _ = debug_level

unfoldable pub init_logger : List Bytes → Logger
init_logger args = record {
  discards_output = true;
  report_caller = true;
  hooks =
      record { writer = stderr; levels = panic_level ∷ fatal_level ∷ error_level ∷ warn_level ∷ [] }
      ∷ record { writer = stdout; levels = trace_level ∷ info_level ∷ debug_level ∷ [] }
      ∷ [];
  level = chosen_level args;
  full_timestamp = true;
}

parse_uint_large : (max : ℕ) (s : Bytes) → max < value 0 s → parse_uint max s ≡ none
parse_uint_large max s h = elim (Option-cases (parse_uint max s)) [
  | inl e ↦ e
  | inr (r, e) ↦ let (digits, exact, fits) = parse_uint_lem max s r e in absurd (omega arith)
]

-- If the first argument is spelled by digits, the level is its number where that is at most 6, and
-- the debug level otherwise.
pub init_logger-level :
    (program argument : Bytes) (rest : List Bytes)
    → argument ≢ []
    → All IsDigit argument
    → (init_logger (program ∷ argument ∷ rest)).level
      ≡ (if leb (value 0 argument) 6 then value 0 argument else debug_level)
unfolding init_logger
init_logger-level program argument rest nonempty digits =
    elim (dec_le (value 0 argument) (2 ^ 32 - 1)) [
      | yes fits ↦
          rw (parse_uint_complete (2 ^ 32 - 1) argument nonempty digits fits) (ground arith)
      | no large ↦ rw (parse_uint_large (2 ^ 32 - 1) argument (omega arith)) (ground arith)
    ]
