-- ===== src/Alerts/Order.antt =====
-- Senders and the receiver in any order: what is delivered, what waits and what is dropped.
use libp2p_submission_sequen.Prelude.{
  ◌+◌, ◌≤◌, ◌<◌, ◌≡◌, refl, ◌∙◌, arith, ltb, List, [], ◌∷◌, ◌++◌, length, length-append,
  append_assoc, append-nil, Bool-cases, inl, inr, sym, ap,
}
use libp2p_submission_sequen.Alerts.{
  SequencerAlert, capacity, Channel, Sent, sent, dropped, select_send, send_failure_notification,
}

-- One step of a schedule: some goroutine reports a failure, or the listener takes an alert.
pub data Event : Type 0 where
  report : SequencerAlert → Event
  receive : Event

pub record System : Type 0 where
  pub channel : Channel
  pub delivered : List SequencerAlert

-- A receive from an empty channel waits, and changes nothing.
abbrev take_oldest : Channel → List SequencerAlert → System
take_oldest [] delivered = record { channel = []; delivered = delivered }
take_oldest (a ∷ rest) delivered = record { channel = rest; delivered = delivered ++ a ∷ [] }

unfoldable pub step : Event → System → System
step (report a) s = record s {
  channel =
      (send_failure_notification a.process_name a.error_msg a.timestamp a.severity s.channel).1;
}
step receive s = take_oldest s.channel s.delivered

unfoldable pub play : List Event → System → System
play [] s = s
play (e ∷ es) s = play es (step e s)

abbrev when_sent : Sent → SequencerAlert → List SequencerAlert
when_sent sent a = a ∷ []
when_sent dropped a = []

-- The alerts that a step puts into the channel.
unfoldable pub taken_in : Event → System → List SequencerAlert
taken_in (report a) s =
    when_sent
      (send_failure_notification a.process_name a.error_msg a.timestamp a.severity s.channel).0 a
taken_in receive s = []

unfoldable pub accepted : List Event → System → List SequencerAlert
accepted [] s = []
accepted (e ∷ es) s = taken_in e s ++ accepted es (step e s)

-- The alerts that a schedule reports, and the room that they need at most.
abbrev pub reports : List Event → List SequencerAlert
reports [] = []
reports (report a ∷ es) = a ∷ reports es
reports (receive ∷ es) = reports es

take_oldest-append :
    (c : Channel) (d : List SequencerAlert)
    → (take_oldest c d).delivered ++ (take_oldest c d).channel ≡ d ++ c
take_oldest-append [] d = refl
take_oldest-append (a ∷ rest) d = append_assoc d (a ∷ []) rest

select_send-append :
    (a : SequencerAlert) (c : Channel) → (select_send a c).1 ≡ c ++ when_sent (select_send a c).0 a
unfolding select_send
select_send-append a c = elim (Bool-cases (ltb (length c) capacity)) [
  | inl room ↦ rw room
  | inr full ↦ rw full (rw append-nil)
]

step-append :
    (e : Event) (s : System)
    → (step e s).delivered ++ (step e s).channel ≡ (s.delivered ++ s.channel) ++ taken_in e s
unfolding step taken_in send_failure_notification
step-append (report a) s = rw (select_send-append a s.channel) (sym (append_assoc s.delivered _ _))
step-append receive s = rw append-nil (take_oldest-append s.channel s.delivered)

-- Over any schedule of reports and receives, what was delivered and what waits is what was there
-- before and the accepted alerts, in order.
pub play-append :
    (es : List Event) (s : System)
    → (play es s).delivered ++ (play es s).channel ≡ (s.delivered ++ s.channel) ++ accepted es s
unfolding play accepted
play-append [] s = rw append-nil
play-append (e ∷ es) s =
    play-append es (step e s) ∙ rw step-append (append_assoc _ (taken_in e s) _)

report_with_room :
    (a : SequencerAlert) (s : System)
    → length s.channel < capacity
    → (taken_in (report a) s ≡ a ∷ []) × (length (step (report a) s).channel ≡ length s.channel + 1)
unfolding taken_in step send_failure_notification select_send
report_with_room a s h = ground (arith, length-append s.channel (a ∷ []))

taken_in-receive : (s : System) → taken_in receive s ≡ []
unfolding taken_in
taken_in-receive s = refl

receive-length : (s : System) → length (step receive s).channel ≤ length s.channel
unfolding step
receive-length s = ground arith

-- No alert is dropped by a schedule that reports at most as many as the buffer has room for.
pub accepted-reports :
    (es : List Event) (s : System)
    → length s.channel + length (reports es) ≤ capacity
    → accepted es s ≡ reports es
unfolding accepted
accepted-reports [] s h = refl
accepted-reports (report a ∷ es) s h =
    let (into, longer) = report_with_room a s (omega arith) in
    rw into (
      ap (λ (t : List SequencerAlert). a ∷ t)
        (accepted-reports es (step (report a) s) (omega arith)))
accepted-reports (receive ∷ es) s h =
    rw taken_in-receive (accepted-reports es (step receive s) (omega (arith, receive-length s)))
