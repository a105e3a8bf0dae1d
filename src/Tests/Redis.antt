-- ===== src/Tests/Redis.antt =====
-- The Redis client and the alerts at work.
use libp2p_submission_sequen.Prelude.{
  ◌≡◌, refl, arith, Bytes, codes, List, [], ◌∷◌, ◌++◌, none, Result, ok, length,
}
use libp2p_submission_sequen.Alerts.{SequencerAlert}
use libp2p_submission_sequen.Alerts.Order.{
  Event, report, receive, System, play, accepted, reports, play-append, accepted-reports,
}
use libp2p_submission_sequen.Redis.Server.{call, notify}
use libp2p_submission_sequen.Redis.Client.{get, set_submission, set_process_log}
use libp2p_submission_sequen.Redis.Errors.{Submitted, set_submission-Submitted}
use libp2p_submission_sequen.Redis.Reading.{set_submission-get, set_process_log-get}
use libp2p_submission_sequen.Tests.Data.{memory, memory-Remembers, broken_server, start}

abbrev key : Bytes
key = codes "k"

abbrev submissions : Bytes
submissions = codes "submissions"

abbrev value : Bytes
value = codes "v"

set_submission-Submitted_example :
    let (e, w') = set_submission broken_server (codes "now") key value submissions 60 start in
    Submitted start (codes "now") key value submissions 60 e w'
set_submission-Submitted_example =
    set_submission-Submitted broken_server (codes "now") key value submissions 60 start

-- A refused submission leaves one alert.
one_alert :
    length (set_submission broken_server (codes "now") key value submissions 60 start).1.alerts ≡ 1
unfolding set_submission call notify
one_alert = refl

no_error : (set_submission memory (codes "now") key value submissions 60 start).0 ≡ none
unfolding set_submission call
no_error = refl

set_submission-get_example :
    let w' = (set_submission memory (codes "now") key value submissions 60 start).1 in
    ((get memory (codes "later") key w').0 ≡ ok value) × (w'.alerts ≡ start.alerts)
set_submission-get_example =
    set_submission-get memory memory-Remembers (codes "later") key value 60 (codes "now")
      submissions start no_error

abbrev marshal_text : Bytes → Result Bytes Bytes
marshal_text s = ok (codes "\"" ++ (s ++ codes "\""))

no_log_error : (set_process_log memory marshal_text (codes "now") key value 60 start).0 ≡ none
unfolding set_process_log call
no_log_error = refl

set_process_log-get_example :
    (json : Bytes) × (marshal_text value ≡ ok json)
    × ((get memory
          (codes "later")
          key
          (set_process_log memory marshal_text (codes "now") key value 60 start).1).0
        ≡ ok json)
set_process_log-get_example =
    set_process_log-get memory (codes "now") key 60 marshal_text value (codes "later") start
      memory-Remembers no_log_error

abbrev alert : Bytes → SequencerAlert
alert text = record { process_name = codes "p"; error_msg = text; timestamp = []; severity = [] }

abbrev idle_system : System
idle_system = record { channel = []; delivered = [] }

abbrev schedule : List Event
schedule =
    report (alert (codes "a"))
    ∷ receive
    ∷ receive
    ∷ report (alert (codes "b"))
    ∷ report (alert (codes "c"))
    ∷ []

play-append_example :
    (play schedule idle_system).delivered ++ (play schedule idle_system).channel
    ≡ (idle_system.delivered ++ idle_system.channel) ++ accepted schedule idle_system
play-append_example = play-append schedule idle_system

accepted-reports_example : accepted schedule idle_system ≡ reports schedule
accepted-reports_example = accepted-reports schedule idle_system (omega arith)
