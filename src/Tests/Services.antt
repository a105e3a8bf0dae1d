-- ===== src/Tests/Services.antt =====
-- The reporter, the discovery and the queries at work.
use mathlib.Core.Path.{subst}
use libp2p_submission_sequen.Prelude.{
  ℕ, zero, suc, ◌≡◌, refl, sym, ap, Bytes, codes, bytes_eq, Bool, true, false, List, [], ◌∷◌, ◌++◌,
  Option, none, some, ok, err, length, arith, is_nil, if◌then◌else◌,
}
use libp2p_submission_sequen.Alerts.{SequencerAlert}
use libp2p_submission_sequen.Reporting.{
  ReportingService, not_marshalled, panicked, start_listening, send_failure_notification, post,
  new_request,
}
use libp2p_submission_sequen.Reporting.Delivery.{
  requests, start_listening_lem, Stops, start_listening_panics,
}
use libp2p_submission_sequen.Redis.Server.{message, call, notify}
use libp2p_submission_sequen.Redis.Client.{set_submission, store_submission, report_error}
use libp2p_submission_sequen.Failures.{alert_of, start_listening-set_submission}
use libp2p_submission_sequen.Tests.Data.{broken_server, start}
use libp2p_submission_sequen.Backoff.{
  Operation, Retry, TimedRetry, TimedAttempts, final, repeated, IsTimedRetry,
}
use libp2p_submission_sequen.Discovery.{
  Peer, Host, reached, unreachable, Action, connect, reserve, tick, cancelled, contact_peers,
  discover_at_interval, operation, contact, is_skipped,
}
use libp2p_submission_sequen.Prost.{Answer, Query, must_query}
use libp2p_submission_sequen.Prost.Laws.{FromCall, must_query-FromCall}

abbrev service : Bool → ReportingService
service valid = record {
  url = codes "http://hook";
  marshal = λ a. ok a.error_msg;
  valid_url = λ _. valid;
  respond = λ _ _. err (codes "timeout");
}

abbrev alert : SequencerAlert
alert = record { process_name = codes "p"; error_msg = codes "m"; timestamp = []; severity = [] }

start_listening_lem_example :
    ((start_listening (service true) (alert ∷ alert ∷ []) []).1
      ≡ [] ++ requests (service true) (alert ∷ alert ∷ []))
    × (length (start_listening (service true) (alert ∷ alert ∷ []) []).0
        ≡ length (alert ∷ alert ∷ []))
start_listening_lem_example = start_listening_lem (service true) (alert ∷ alert ∷ []) [] refl

-- Alerts without a message cannot be marshalled.
abbrev wary : ReportingService
wary = record (service false) {
  marshal = λ a. if is_nil a.error_msg then err (codes "empty") else ok a.error_msg;
}

abbrev mute : SequencerAlert
mute = record alert { error_msg = [] }

start_listening_panics_example :
    ((start_listening wary (mute ∷ alert ∷ alert ∷ []) []).1 ≡ [])
    × Stops wary (mute ∷ alert ∷ alert ∷ []) (start_listening wary (mute ∷ alert ∷ alert ∷ []) []).0
start_listening_panics_example = start_listening_panics wary (mute ∷ alert ∷ alert ∷ []) [] refl

one_unmarshalled :
    (start_listening wary (mute ∷ alert ∷ alert ∷ []) []).0 ≡ not_marshalled ∷ panicked ∷ []
unfolding start_listening send_failure_notification post new_request
one_unmarshalled = refl

-- A refused connection is reported.
refused_submission :
    (set_submission broken_server (codes "now") (codes "k") (codes "v") (codes "all") 60 start).0
    ≡ some (message (codes "connection refused"))
unfolding set_submission store_submission report_error call notify
refused_submission = refl

start_listening-set_submission_example :
    (start_listening
      (service true)
      (set_submission broken_server
        (codes "now")
        (codes "k")
        (codes "v")
        (codes "all")
        60
        start).1.alerts
      []).1
    ≡ (start_listening (service true) start.alerts []).1
      ++ requests
          (service true)
          (alert_of (message (codes "connection refused")) (codes "now") ∷ [])
start_listening-set_submission_example =
    start_listening-set_submission broken_server (service true) (codes "now") (codes "k")
      (codes "v") (codes "all") 60 start (message (codes "connection refused")) [] (omega arith)
      refl refused_submission

-- Retries without waiting.
module _ {S : Type 0} (op : Operation S) where
  abbrev repeat : Option Bytes × S → (S → Option Bytes × S) → Option Bytes × S
  repeat (none, s) rest = (none, s)
  repeat (some e, s) rest = rest s

  abbrev retry_at_once : ℕ → S → Option Bytes × S
  retry_at_once zero s = op s
  retry_at_once (suc n) s = repeat (op s) (retry_at_once n)

  repeat-TimedAttempts :
      (n : ℕ) (s : S) (p : Option Bytes × S)
      → p ≡ op s
      → ((t : S) → TimedAttempts op t (retry_at_once n t))
      → TimedAttempts op s (repeat p (retry_at_once n))
  repeat-TimedAttempts n s (none, t) e rest = final e
  repeat-TimedAttempts n s (some x, t) e rest =
      repeated x (ap (λ (u : Option Bytes × S). u.0) (sym e)) (
        subst (λ u. TimedAttempts op u (retry_at_once n t)) (ap (λ (u : Option Bytes × S). u.1) e)
          (rest t))

  retry_at_once-TimedAttempts : (n : ℕ) (s : S) → TimedAttempts op s (retry_at_once n s)
  retry_at_once-TimedAttempts zero s = final refl
  retry_at_once-TimedAttempts (suc n) s =
      repeat-TimedAttempts n s (op s) refl (retry_at_once-TimedAttempts n)

abbrev at_once : {S : Type 0} → Retry S
at_once n op s = retry_at_once op n s

abbrev five_times : {S : Type 0} → TimedRetry S
five_times op s = retry_at_once op 4 s

five_times-IsTimedRetry : {S : Type 0} → IsTimedRetry (five_times {S = S})
five_times-IsTimedRetry = record { attempts = λ op s. retry_at_once-TimedAttempts op 4 s }

-- A network in which one peer refuses every call, and the others grant a slot at the second try.
abbrev peer_named : Bytes → Peer
peer_named name = record { id = name; addrs = codes "/ip4/10.0.0.1" ∷ [] }

abbrev refuses : Bool → ℕ → Option Bytes
refuses true n = some (codes "refused")
refuses false zero = some (codes "busy")
refuses false (suc n) = none

abbrev target : Action → Peer
target (connect p) = p
target (reserve p) = p

abbrev host : Host
host = record {
  id = codes "self";
  is_connected = λ h p. false;
  answer = λ h a. refuses (bytes_eq (target a).id (codes "closed")) (length h);
}

abbrev peers : List Peer
peers =
    peer_named (codes "self")
    ∷ record { id = codes "mute"; addrs = [] }
    ∷ peer_named (codes "open")
    ∷ peer_named (codes "closed")
    ∷ []

-- The open peer is reached at the second try, and the closed one is given up after four.
two_reports :
    (contact_peers at_once host peers []).0
    ≡ reached (peer_named (codes "open"))
      ∷ unreachable (peer_named (codes "closed")) (codes "refused")
      ∷ []
unfolding contact_peers operation contact is_skipped
two_reports = refl

-- What is drawn after the end of the context is not looked at.
discovery_ends :
    (discover_at_interval at_once host (cancelled ∷ tick (ok peers) ∷ []) []).returned ≡ true
unfolding discover_at_interval
discovery_ends = refl

-- A call that fails twice, each time with a value of its own.
abbrev third_time : ℕ → Answer ℕ × ℕ
third_time zero = (record { val = 10; failure = some (codes "later") }, 1)
third_time (suc zero) = (record { val = 20; failure = some (codes "later") }, 2)
third_time (suc (suc n)) = (record { val = 30; failure = none }, suc (suc (suc n)))

third_answer : must_query 0 five_times third_time 0 ≡ (record { val = 30; failure = none }, 3)
unfolding must_query libp2p_submission_sequen.Prost.operation
third_answer = refl

must_query-FromCall_example : FromCall 0 third_time (must_query 0 five_times third_time 0)
must_query-FromCall_example = must_query-FromCall 0 five_times five_times-IsTimedRetry third_time 0
