-- ===== src/Reporting.antt =====
-- pkgs/service/reporting.go: the listener that posts each alert to the reporting service. The JSON
-- codec, the validity of a URL and the answers of the service are parameters.
pub mod Delivery
use libp2p_submission_sequen.Prelude.{
  Bytes, codes, Bool, List, [], ◌∷◌, ◌++◌, Result, ok, err, if◌then◌else◌,
}
use libp2p_submission_sequen.Alerts.{SequencerAlert}

pub record Header : Type 0 where
  pub name : Bytes
  pub value : Bytes

pub record Request : Type 0 where
  pub method : Bytes
  pub url : Bytes
  pub headers : List Header
  pub body : Bytes

-- The `ReportingService` and what it calls. `valid_url` is `url.Parse` accepting the URL;
-- `respond` is `client.Do`, given the requests sent before: an error, or the response's status.
pub record ReportingService : Type 0 where
  pub url : Bytes
  pub marshal : SequencerAlert → Result Bytes Bytes
  pub valid_url : Bytes → Bool
  pub respond : List Request → Request → Result Bytes Bytes

-- How a notification ends: by one of the returns, or by the panic on a nil request.
pub data Reported : Type 0 where
  not_marshalled : Reported
  failed : Bytes → Reported
  posted : Bytes → Reported
  panicked : Reported

-- `http.NewRequest("POST", s.url, …)`: the method is valid, so only the URL can be refused.
unfoldable pub new_request : ReportingService → Bytes → Result Bytes Request
new_request s body =
    if s.valid_url s.url
    then ok (record { method = codes "POST"; url = s.url; headers = []; body = body })
    else err (codes "parse url")

unfoldable pub set_content_type : Request → Request
set_content_type req = record req {
  headers = record { name = codes "Content-Type"; value = codes "application/json" } ∷ req.headers;
}

abbrev pub outcome : Result Bytes Bytes → Reported
outcome (ok status) = posted status
outcome (err e) = failed e

-- `req.Header.Set`, the rest of the function: an error of `NewRequest` is logged and the nil
-- request is used all the same.
unfoldable pub post :
    ReportingService → Result Bytes Request → List Request → Reported × List Request
post s (err e) history = (panicked, history)
post s (ok req) history =
    let r = set_content_type req in (outcome (s.respond history r), history ++ r ∷ [])

abbrev pub after_marshal :
    ReportingService → Result Bytes Bytes → List Request → Reported × List Request
after_marshal s (err e) history = (not_marshalled, history)
after_marshal s (ok json_data) history = post s (new_request s json_data) history

unfoldable pub send_failure_notification :
    ReportingService → SequencerAlert → List Request → Reported × List Request
send_failure_notification s issue history = after_marshal s (s.marshal issue) history

-- Whether the goroutine goes on after a notification.
abbrev pub goes_on : Reported → Bool
goes_on panicked = Bool.false
goes_on _ = Bool.true

-- `StartListening` over the alerts that it receives, with the answers to each.
unfoldable pub start_listening :
    ReportingService → List SequencerAlert → List Request → List Reported × List Request
start_listening s [] history = ([], history)
start_listening s (issue ∷ issues) history =
    let (r, history') = send_failure_notification s issue history in
    let (rs, sent) = start_listening s issues history' in
    if goes_on r then (r ∷ rs, sent) else (r ∷ [], history')
