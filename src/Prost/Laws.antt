-- ===== src/Prost/Laws.antt =====
-- What a repeated query returns.
use libp2p_submission_sequen.Prelude.{◌≡◌, ◌≢◌, ◌∙◌, refl, sym, Bytes, Option, none, some}
use mathlib.Core.Path.{subst}
use mathlib.Core.Option.{some-ne-none}
use libp2p_submission_sequen.Backoff.{
  TimedRetry, TimedAttempts, final, cancelled, repeated, IsTimedRetry,
}
use libp2p_submission_sequen.Prost.{Answer, Query, operation, finish, must_query}

module _ {K S : Type 0} (zero_value : K) where
  -- Of an answer: `at` is the state of the call that left the state `after`. Without an error the
  -- answer is that call's; with one, that call failed and the value is the zero value.
  abbrev pub FromCall : (S → Answer K × S) → Answer K × S → Type 0
  FromCall call (answer, after) =
      (at : S) × ((call at).1 ≡ after)
      × (answer.failure ≡ none → ((call at).0.failure ≡ none) × (answer.val ≡ (call at).0.val))
      × (answer.failure ≢ none → ((call at).0.failure ≢ none) × (answer.val ≡ zero_value))

  finish-FromCall :
      (call : S → Answer K × S) (q : Query K S) (f : Option Bytes)
      → (f ≡ none → (call q.outside).0.failure ≡ none)
      → (f ≢ none → (call q.outside).0.failure ≢ none)
      → FromCall call (
          finish zero_value
            (f, record { val = (call q.outside).0.val; outside = (call q.outside).1 }))
  finish-FromCall call q none good bad =
      (q.outside, refl, λ _. (good refl, refl), λ k. absurd (k refl))
  finish-FromCall call q (some e) good bad =
      (q.outside, refl, λ k. absurd (some-ne-none e k), λ _. (bad (some-ne-none e), refl))

  TimedAttempts-FromCall :
      (call : S → Answer K × S) {q : Query K S} {result : Option Bytes × Query K S}
      → TimedAttempts (operation call) q result
      → FromCall call (finish zero_value result)
  unfolding operation
  TimedAttempts-FromCall call {q = q} (final e) =
      subst (λ r. FromCall call (finish zero_value r)) (sym e)
        (finish-FromCall call q (call q.outside).0.failure (λ h. h) (λ h. h))
  TimedAttempts-FromCall call {q = q} (cancelled e context_error failed is) =
      subst (λ r. FromCall call (finish zero_value r)) (sym is)
        (finish-FromCall call q (some context_error) (λ h. absurd (some-ne-none context_error h))
          (λ _ k. some-ne-none e (sym failed ∙ k)))
  TimedAttempts-FromCall call (repeated e failed rest) = TimedAttempts-FromCall call rest

  -- With a retry as documented, the answer of a query without an error is that of its last call;
  -- with an error the last call failed and the value is the zero value.
  pub must_query-FromCall :
      (retry : TimedRetry (Query K S))
      → IsTimedRetry retry
      → (call : S → Answer K × S) (s : S) → FromCall call (must_query zero_value retry call s)
  unfolding must_query
  must_query-FromCall retry law call s =
      TimedAttempts-FromCall call (law.attempts (operation call) _)
