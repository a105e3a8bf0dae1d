-- ===== src/Reporting/Delivery.antt =====
-- What the listener sends.
use libp2p_submission_sequen.Prelude.{
  ◌≡◌, ◌∙◌, refl, arith, Bytes, codes, true, false, List, [], ◌∷◌, ◌++◌, Result, ok, err,
  append-nil, append_assoc, length, ap, suc, ◌⊎◌, inl, inr,
}
use libp2p_submission_sequen.Alerts.{SequencerAlert}
use libp2p_submission_sequen.Reporting.{
  Request, ReportingService, Reported, not_marshalled, panicked, new_request, set_content_type,
  post, goes_on, send_failure_notification, start_listening,
}

-- The request for an alert: a POST of its JSON with one header.
abbrev pub request_for : ReportingService → Bytes → Request
request_for s body = record {
  method = codes "POST";
  url = s.url;
  headers = record { name = codes "Content-Type"; value = codes "application/json" } ∷ [];
  body = body;
}

abbrev request_of : ReportingService → Result Bytes Bytes → List Request
request_of s (err e) = []
request_of s (ok body) = request_for s body ∷ []

-- One request for each alert that can be marshalled.
abbrev pub requests : ReportingService → List SequencerAlert → List Request
requests s [] = []
requests s (a ∷ as') = request_of s (s.marshal a) ++ requests s as'

send_valid :
    (s : ReportingService) (a : SequencerAlert) (history : List Request)
    → s.valid_url s.url ≡ true
    → ((send_failure_notification s a history).1 ≡ history ++ request_of s (s.marshal a))
      × (goes_on (send_failure_notification s a history).0 ≡ true)
unfolding send_failure_notification post new_request set_content_type
send_valid s a history v = ground (arith, append-nil history)

-- Behind a URL that parses, every alert that can be marshalled is posted once, in order, whatever
-- the service answers, and each alert has its report.
pub start_listening_lem :
    (s : ReportingService) (issues : List SequencerAlert) (history : List Request)
    → s.valid_url s.url ≡ true
    → ((start_listening s issues history).1 ≡ history ++ requests s issues)
      × (length (start_listening s issues history).0 ≡ length issues)
unfolding start_listening
start_listening_lem s [] history v = (rw append-nil, refl)
start_listening_lem s (a ∷ issues) history v =
    let (one, on) = send_valid s a history v in
    let (rest, count) = start_listening_lem s issues (send_failure_notification s a history).1 v in
    (rw on (rest ∙ rw one (append_assoc history _ _)), rw on (ap suc count))

send_invalid :
    (s : ReportingService) (a : SequencerAlert) (body : Bytes) (history : List Request)
    → s.valid_url s.url ≡ false
    → s.marshal a ≡ ok body
    → send_failure_notification s a history ≡ (panicked, history)
unfolding send_failure_notification post new_request
send_invalid s a body history v m = ground arith

-- The reports of the listener behind a URL that does not parse: alerts that cannot be marshalled are
-- dropped, and the first that can be ends the process.
pub data Stops (s : ReportingService) : List SequencerAlert → List Reported → Type 0 where
  waits : Stops s [] []
  drops :
      {a : SequencerAlert} {issues : List SequencerAlert} {reports : List Reported} {e : Bytes}
      → s.marshal a ≡ err e
      → Stops s issues reports
      → Stops s (a ∷ issues) (not_marshalled ∷ reports)
  crashes :
      {a : SequencerAlert} {issues : List SequencerAlert} {body : Bytes}
      → s.marshal a ≡ ok body
      → Stops s (a ∷ issues) (panicked ∷ [])

marshalled_or_not :
    (r : Result Bytes Bytes) → ((e : Bytes) × (r ≡ err e)) ⊎ ((body : Bytes) × (r ≡ ok body))
marshalled_or_not (err e) = inl (e, refl)
marshalled_or_not (ok body) = inr (body, refl)

send_unmarshalled :
    (s : ReportingService) (a : SequencerAlert) (e : Bytes) (history : List Request)
    → s.marshal a ≡ err e
    → send_failure_notification s a history ≡ (not_marshalled, history)
unfolding send_failure_notification
send_unmarshalled s a e history m = rw m refl

-- Behind a URL that does not parse, whatever the alerts, nothing is posted, the alerts that cannot
-- be marshalled are dropped, and the first one that can be ends the process by a nil dereference.
pub start_listening_panics :
    (s : ReportingService) (issues : List SequencerAlert) (history : List Request)
    → s.valid_url s.url ≡ false
    → ((start_listening s issues history).1 ≡ history)
      × Stops s issues (start_listening s issues history).0
unfolding start_listening
start_listening_panics s [] history v = (refl, waits)
start_listening_panics s (a ∷ issues) history v = elim (marshalled_or_not (s.marshal a)) [
  | inl (e, m) ↦
      let (silent, stops) = start_listening_panics s issues history v in
      rw (send_unmarshalled s a e history m) (silent, drops m stops)
  | inr (body, m) ↦ rw (send_invalid s a body history v m) (refl, crashes m)
]
