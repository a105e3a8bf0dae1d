-- ===== src/Redis/Errors.antt =====
-- Errors of the client functions: what was sent before them, and the alert for each.
use libp2p_submission_sequen.Prelude.{
  ℕ, ◌≡◌, refl, Bytes, codes, [], ◌∷◌, ◌++◌, Option, none, some, ok, err, append_assoc,
}
use libp2p_submission_sequen.Alerts.{Channel, send_failure_notification}
use libp2p_submission_sequen.Redis.Server.{
  exchange, Command, RedisError, Value, Reply, Server, World, answered, call, error_text, notify,
}
use libp2p_submission_sequen.Redis.Client.{report_error, store_submission, set_submission}

-- The channel after one more alert of high severity.
abbrev pub alerted : Bytes → Bytes → Bytes → Channel → Channel
alerted process_name error_msg now alerts =
    (send_failure_notification process_name error_msg now (codes "High") alerts).1

-- The three ways in which `SetSubmission` ends: the result `r` and the world `w'` that it leaves.
pub data Submitted (w : World) (now key value members : Bytes) (expiration : ℕ)
    (r : Option RedisError) (w' : World) : Type 0 where
  stored :
      (v v' : Value)
      → r ≡ none
      → w' ≡ record w {
        history =
            w.history
            ++ (exchange (Command.s_add members (key ∷ [])) (ok v)
                ∷ exchange (Command.set key value expiration) (ok v')
                ∷ []);
      }
      → Submitted w now key value members expiration r w'
  not_added :
      (e : RedisError)
      → r ≡ some e
      → w' ≡ record {
        history = w.history ++ exchange (Command.s_add members (key ∷ [])) (err e) ∷ [];
        alerts = alerted (codes "Redis error") (error_text e) now w.alerts;
      }
      → Submitted w now key value members expiration r w'
  added_only :
      (v : Value) (e : RedisError)
      → r ≡ some e
      → w' ≡ record {
        history =
            w.history
            ++ (exchange (Command.s_add members (key ∷ [])) (ok v)
                ∷ exchange (Command.set key value expiration) (err e)
                ∷ []);
        alerts = alerted (codes "Redis error") (error_text e) now w.alerts;
      }
      → Submitted w now key value members expiration r w'

module _ (server : Server) (now key value members : Bytes) (expiration : ℕ) (w : World) where
  abbrev adding : Command
  adding = Command.s_add members (key ∷ [])

  abbrev storing : Command
  storing = Command.set key value expiration

  second_reply :
      (v : Value) (r : Reply)
      → let (e, w') = report_error server now r (answered storing r (answered adding (ok v) w)) in
        Submitted w now key value members expiration e w'
  unfolding report_error notify
  second_reply v (ok v') = stored v v' refl (rw append_assoc)
  second_reply v (err e) = added_only v e refl (rw append_assoc)

  first_reply :
      (r : Reply)
      → let (e, w') = store_submission server now key value expiration r (answered adding r w) in
        Submitted w now key value members expiration e w'
  unfolding store_submission call report_error notify
  first_reply (ok v) = second_reply v (server _ storing)
  first_reply (err e) = not_added e refl refl

  -- SetSubmission returns no error only after both commands succeeded in order without an alert;
  -- otherwise it returns and reports the error of the command that failed, after which nothing is
  -- sent.
  pub set_submission-Submitted :
      let (e, w') = set_submission server now key value members expiration w in
      Submitted w now key value members expiration e w'
  unfolding set_submission call
  set_submission-Submitted = first_reply (server w.history adding)
