-- ===== src/Tests/Streams.antt =====
-- Two streams of the collector that take turns.
use libp2p_submission_sequen.Prelude.{
  ◌≡◌, ◌≢◌, ◌⊎◌, ◌≤◌, ◌*◌, refl, List, [], ◌∷◌, length, All, map, ◌++◌,
}
use libp2p_submission_sequen.Golang.Slice.{slice_range, slice_from}
use libp2p_submission_sequen.Redis.Server.{Command, Reply, Exchange}
use libp2p_submission_sequen.Collector.{
  Read, waiting, ended, filled, crashed, parse_submission_bytes,
}
use libp2p_submission_sequen.Collector.Program.{
  Program, finished, sends, followed_by, counting_program, pushed_program, pushing_program,
  chunk_program, stream_program,
}
use libp2p_submission_sequen.Collector.System.{
  System, here, there, IsAlive, IsDone, done, opened, moved, Reach, at_start, later, at_rest,
}
use libp2p_submission_sequen.Collector.Ledger.{Counted, Reach-Counted}
use libp2p_submission_sequen.Collector.Crash.{IsSound}
use libp2p_submission_sequen.Collector.Turns.{Turns, none_yet, turn, started, reads_in, streams_end}
use libp2p_submission_sequen.Collector.Delivery.{Message}
use libp2p_submission_sequen.Collector.Shuffle.{
  Shuffled, senders, commands_in, command_of, senders-Shuffled,
}
use libp2p_submission_sequen.Tests.Collector.{
  message, message-Fitting, memory-IsDelivering, good-IsSound, at_end-IsSound,
}
use libp2p_submission_sequen.Tests.Data.{memory, codec, good, at_end}

abbrev one_entry : List Read
one_entry = good ∷ at_end ∷ []

sending : {c : Command} {k : Reply → Program} → sends c k ≢ finished crashed
sending e = cc

over : finished ended ≢ finished crashed
over e = cc

one_entry-IsSound : All (IsSound codec memory) one_entry
one_entry-IsSound = (good-IsSound, (at_end-IsSound, tt))

-- Both streams push, then both count, and the second limits its counter before the first does.
abbrev reached : (s : System) × Reach codec memory (at_rest []) s
unfolding stream_program chunk_program followed_by pushing_program pushed_program counting_program
    slice_range slice_from filled parse_submission_bytes
reached =
    let opened_twice : Reach codec memory (at_rest []) _ =
      later (later at_start (opened one_entry)) (opened one_entry) in
    (
      _,
      later
          (later
            (later
              (later
                (later (later opened_twice (moved (sending, (sending, tt)) here))
                  (moved (sending, (sending, tt)) (there here)))
                (moved (sending, (sending, tt)) (there here)))
              (moved (sending, (sending, tt)) here))
            (moved (sending, (sending, tt)) (there here)))
          (moved (sending, (over, tt)) here),
    )

all_pushed : length (reached.0).history ≡ 6
unfolding stream_program chunk_program followed_by pushing_program pushed_program counting_program
    slice_range slice_from filled parse_submission_bytes
all_pushed = refl

Reach-Counted_example : Counted reached.0
Reach-Counted_example = Reach-Counted reached.1

abbrev after_one :
    (s : System) × Turns memory 1
      (record { programs = started codec (one_entry ∷ one_entry ∷ []); history = [] })
      s
unfolding stream_program chunk_program followed_by pushing_program pushed_program counting_program
    slice_range slice_from filled parse_submission_bytes
after_one = (_, turn (sending, (sending, tt)) (there here) none_yet)

streams_end_example :
    (1 ≤ 3 * reads_in (one_entry ∷ one_entry ∷ []))
    × IsAlive after_one.0
    × (All IsDone (after_one.0).programs ⊎ ((u : System) × Turns memory 1 after_one.0 u))
streams_end_example =
    streams_end codec memory (one_entry ∷ one_entry ∷ []) []
      (one_entry-IsSound, (one_entry-IsSound, tt)) after_one.1

abbrev two_senders : List (List Message)
two_senders = (message ∷ []) ∷ (message ∷ []) ∷ []

idle : finished waiting ≢ finished crashed
idle e = cc

-- The second sender's entry is pushed first, and the first sender's counter is limited last.
abbrev all_sent :
    (s : System) × Turns memory 6
      (record { programs = senders codec memory memory-IsDelivering two_senders; history = [] })
      s
unfolding stream_program chunk_program followed_by pushing_program pushed_program counting_program
    slice_range slice_from filled parse_submission_bytes
all_sent = (
  _,
  turn (sending, (sending, tt)) (there here)
      (turn (sending, (sending, tt)) here
        (turn (sending, (sending, tt)) (there here)
          (turn (sending, (sending, tt)) (there here)
            (turn (sending, (idle, tt)) here (turn (sending, (idle, tt)) here none_yet))))),
)

senders-Shuffled_example :
    (added : List Exchange) × ((all_sent.0).history ≡ [] ++ added)
    × Shuffled (commands_in codec memory memory-IsDelivering two_senders) (map command_of added)
unfolding all_sent
senders-Shuffled_example =
    senders-Shuffled codec memory memory-IsDelivering two_senders []
      ((message-Fitting, tt), ((message-Fitting, tt), tt)) all_sent.1
      (done (λ e. cc), (done (λ e. cc), tt))
