-- ===== src/Failures.antt =====
-- How an error of the Redis client reaches the reporting service: pkgs/redis/client.go sends an alert
-- to the channel of pkgs/common/alerts.go, and the listener of pkgs/service/reporting.go posts it.
use mathlib.Core.Path.{subst}
use mathlib.Core.Option.{some-injective, some-ne-none}
use libp2p_submission_sequen.Prelude.{
  ℕ, ◌≡◌, ◌<◌, ◌∙◌, refl, sym, ap, arith, Bytes, codes, true, List, [], ◌∷◌, ◌++◌, some,
  append_assoc, length,
}
use libp2p_submission_sequen.Alerts.{
  SequencerAlert, Channel, capacity, select_send, send_failure_notification,
}
use libp2p_submission_sequen.Redis.Server.{RedisError, Server, World, error_text}
use libp2p_submission_sequen.Redis.Client.{set_submission}
use libp2p_submission_sequen.Redis.Errors.{
  alerted, Submitted, stored, not_added, added_only, set_submission-Submitted,
}
use libp2p_submission_sequen.Reporting.{Request, ReportingService, start_listening}
use libp2p_submission_sequen.Reporting.Delivery.{requests, start_listening_lem}

-- The alert for an error of the client.
abbrev pub alert_of : RedisError → Bytes → SequencerAlert
alert_of e now = record {
  process_name = codes "Redis error";
  error_msg = error_text e;
  timestamp = now;
  severity = codes "High";
}

alerted_lem :
    (e : RedisError) (now : Bytes) (alerts : Channel)
    → length alerts < capacity
    → alerted (codes "Redis error") (error_text e) now alerts ≡ alerts ++ alert_of e now ∷ []
unfolding send_failure_notification select_send
alerted_lem e now alerts room = ground arith

requests-append :
    (s : ReportingService) (xs ys : List SequencerAlert)
    → requests s (xs ++ ys) ≡ requests s xs ++ requests s ys
requests-append s [] ys = refl
requests-append s (x ∷ xs) ys =
    rw (requests-append s xs ys) (sym (append_assoc _ (requests s xs) (requests s ys)))

one_more :
    (e e' : RedisError) (now : Bytes) (w w' : World)
    → length w.alerts < capacity
    → some e ≡ some e'
    → w'.alerts ≡ alerted (codes "Redis error") (error_text e') now w.alerts
    → w'.alerts ≡ w.alerts ++ alert_of e now ∷ []
one_more e e' now w w' room is left =
    left
    ∙ alerted_lem e' now w.alerts room
    ∙ ap (λ x. w.alerts ++ alert_of x now ∷ []) (sym (some-injective _ _ is))

Submitted-alerts :
    {w w' : World} {now key value members : Bytes} {expiration : ℕ} {e : RedisError}
    → length w.alerts < capacity
    → Submitted w now key value members expiration (some e) w'
    → w'.alerts ≡ w.alerts ++ alert_of e now ∷ []
Submitted-alerts {e = e} room (stored v v' is left) = absurd (some-ne-none e is)
Submitted-alerts {w = w} {w' = w'} {now = now} {e = e} room (not_added e' is left) =
    one_more e e' now w w' room is (ap (λ (u : World). u.alerts) left)
Submitted-alerts {w = w} {w' = w'} {now = now} {e = e} room (added_only v e' is left) =
    one_more e e' now w w' room is (ap (λ (u : World). u.alerts) left)

-- If the channel has room and the URL of the service parses, a SetSubmission that returns an error
-- makes the listener post one request more than it would have, behind all the others: the one for
-- the error, its time and a high severity, if that alert can be marshalled.
pub start_listening-set_submission :
    (server : Server) (service : ReportingService) (now key value members : Bytes) (expiration : ℕ)
    (w : World) (e : RedisError) (history : List Request)
    → length w.alerts < capacity
    → service.valid_url service.url ≡ true
    → (set_submission server now key value members expiration w).0 ≡ some e
    → let w' = (set_submission server now key value members expiration w).1 in
      (start_listening service w'.alerts history).1
      ≡ (start_listening service w.alerts history).1 ++ requests service (alert_of e now ∷ [])
start_listening-set_submission server service now key value members expiration w e history room
      valid failed =
    let w' = (set_submission server now key value members expiration w).1 in
    let submitted =
      subst (λ r. Submitted w now key value members expiration r w') failed
        (set_submission-Submitted server now key value members expiration w) in
    (start_listening_lem service w'.alerts history valid).0
    ∙ ap (λ c. history ++ requests service c) (Submitted-alerts room submitted)
    ∙ ap (λ r. history ++ r) (requests-append service w.alerts (alert_of e now ∷ []))
    ∙ sym (append_assoc history (requests service w.alerts) _)
    ∙ ap (λ r. r ++ requests service (alert_of e now ∷ []))
        (sym (start_listening_lem service w.alerts history valid).0)
