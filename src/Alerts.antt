-- ===== src/Alerts.antt =====
-- pkgs/common/alerts.go: alerts, and the buffered channel that carries them to the reporter.
pub mod Order
use libp2p_submission_sequen.Prelude.{
  ℕ, ltb, Bytes, codes, List, [], ◌∷◌, ◌++◌, length, if◌then◌else◌,
}

pub record SequencerAlert : Type 0 where
  pub process_name : Bytes
  pub error_msg : Bytes
  pub timestamp : Bytes
  pub severity : Bytes

-- `String`, the text of an alert in the reporter's log.
pub to_string : SequencerAlert → Bytes
to_string s =
    codes "ProcessName: "
    ++ (s.process_name
        ++ (codes ", ErrorMsg: "
            ++ (s.error_msg
                ++ (codes ", Timestamp: "
                    ++ (s.timestamp ++ (codes ", Severity: " ++ s.severity))))))

-- `make(chan SequencerAlert, 10000)`
abbrev pub capacity : ℕ
capacity = 10000

-- What the buffer holds, the oldest alert first.
abbrev pub Channel : Type 0
Channel = List SequencerAlert

-- Which case of the `select` was taken: each logs the alert.
pub data Sent : Type 0 where
  sent dropped : Sent

-- The send case is ready exactly when the buffer has room; otherwise `default` is taken.
unfoldable pub select_send : SequencerAlert → Channel → Sent × Channel
select_send issue channel =
    if ltb (length channel) capacity then (sent, channel ++ issue ∷ []) else (dropped, channel)

unfoldable pub send_failure_notification : Bytes → Bytes → Bytes → Bytes → Channel → Sent × Channel
unfolding select_send
send_failure_notification process_name error_msg timestamp severity channel =
    select_send
      (record {
        process_name = process_name;
        error_msg = error_msg;
        timestamp = timestamp;
        severity = severity;
      })
      channel
