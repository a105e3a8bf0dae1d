-- ===== src/Backoff.antt =====
-- The retries of `backoff` as the program relies on them, over the state that an operation changes.
use libp2p_submission_sequen.Prelude.{ℕ, suc, ◌≡◌, Bytes, Option, some}

-- An operation returns its error.
abbrev pub Operation : Type 0 → Type 0
Operation S = S → Option Bytes × S

-- One or more runs of an operation, with at most `n` repetitions: a run is repeated only if it
-- failed, and the result is that of the last run.
pub data Attempts {S : Type 0} (op : Operation S) : ℕ → S → Option Bytes × S → Type 0 where
  last : {n : ℕ} {s : S} {result : Option Bytes × S} → result ≡ op s → Attempts op n s result
  again :
      {n : ℕ} {s : S} {result : Option Bytes × S} (e : Bytes)
      → (op s).0 ≡ some e
      → Attempts op n (op s).1 result
      → Attempts op (suc n) s result

-- `backoff.Retry` with a number of repetitions, and with a limit of time only.
abbrev pub Retry : Type 0 → Type 0
Retry S = ℕ → Operation S → Operation S

abbrev pub TimedRetry : Type 0 → Type 0
TimedRetry S = Operation S → Operation S

-- The documented behaviour of the first. It may give up early, since it also looks at the time; a
-- failure is what it returns then.
pub record IsRetry {S : Type 0} (retry : Retry S) : Type 0 where
  pub attempts : (n : ℕ) (op : Operation S) (s : S) → Attempts op n s (retry n op s)

-- One or more runs, until one succeeds, the time is up, or the context ends: then the error is the
-- context's, in place of that of the last run.
pub data TimedAttempts {S : Type 0} (op : Operation S) : S → Option Bytes × S → Type 0 where
  final : {s : S} {result : Option Bytes × S} → result ≡ op s → TimedAttempts op s result
  cancelled :
      {s : S} {result : Option Bytes × S} (e context_error : Bytes)
      → (op s).0 ≡ some e
      → result ≡ (some context_error, (op s).1)
      → TimedAttempts op s result
  repeated :
      {s : S} {result : Option Bytes × S} (e : Bytes)
      → (op s).0 ≡ some e
      → TimedAttempts op (op s).1 result
      → TimedAttempts op s result

-- The documented behaviour of the second, which comes to an end.
pub record IsTimedRetry {S : Type 0} (retry : TimedRetry S) : Type 0 where
  pub attempts : (op : Operation S) (s : S) → TimedAttempts op s (retry op s)
