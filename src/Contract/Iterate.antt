-- ===== src/Contract/Iterate.antt =====
-- What a client reads with an iterator, `for it.Next() { … it.Event … }` and then `it.Error()`.
use libp2p_submission_sequen.Prelude.{
  ℕ, zero, suc, ◌<◌, ◌+◌, ◌≡◌, refl, ap, arith, Bytes, false, true, List, [], ◌∷◌, Option, none,
  some, length,
}
use libp2p_submission_sequen.Contract.Event.{
  BoundContract, Raised, Signal, log, ended, Iterator, Verdict, found, stopped, blocked, deliver,
  unpacked, next, error,
}

module _ {F W Args Log : Type 0} (contract : BoundContract F W Args Log) where
  -- What the events of some logs are, up to the first that cannot be unpacked, and its error.
  abbrev consed :
      Raised Args Log
      → List (Raised Args Log) × Option Bytes
      → List (Raised Args Log) × Option Bytes
  consed event (events, e) = (event ∷ events, e)

  abbrev decoded_as :
      Log
      → Args × Option Bytes
      → List (Raised Args Log) × Option Bytes
      → List (Raised Args Log) × Option Bytes
  decoded_as l (args, some e) rest = ([], some e)
  decoded_as l (args, none) rest = consed (record { args = args; raw = l }) rest

  -- `final` is the error with which the subscription ends.
  unfoldable pub decoded : Bytes → List Log → Option Bytes → List (Raised Args Log) × Option Bytes
  decoded name [] final = ([], final)
  decoded name (l ∷ ls) final = decoded_as l (contract.unpack_log name l) (decoded name ls final)

  -- The loop of a client: the events until `Next` is not true, with at most `fuel` calls.
  abbrev kept : Option (Raised Args Log) → List (Raised Args Log) → List (Raised Args Log)
  kept none events = events
  kept (some event) events = event ∷ events

  abbrev collected :
      Verdict × Iterator Args Log
      → (Iterator Args Log → List (Raised Args Log) × Iterator Args Log)
      → List (Raised Args Log) × Iterator Args Log
  collected (found, it) rest = let (events, last) = rest it in (kept it.event events, last)
  collected (stopped, it) rest = ([], it)
  collected (blocked, it) rest = ([], it)

  unfoldable pub collect : ℕ → Iterator Args Log → List (Raised Args Log) × Iterator Args Log
  collect zero it = ([], it)
  collect (suc fuel) it = collected (next contract it) (collect fuel)

  abbrev pub running : Bytes → List (Signal Log) → Option (Raised Args Log) → Iterator Args Log
  running name feed event = record {
    event = event;
    event_name = name;
    feed = feed;
    done = false;
    fail = none;
    unsubscribed = false;
  }

  abbrev pub logs : List Log → List (Signal Log)
  logs [] = []
  logs (l ∷ ls) = log l ∷ logs ls

  -- The end of the query, with its error, is taken after some logs and before the others.
  abbrev pub deliveries : List Log → Option Bytes → List Log → List (Signal Log)
  deliveries [] final after = ended final ∷ logs after
  deliveries (l ∷ before) final after = log l ∷ deliveries before final after

  -- The logs that a client reads: after an error those behind it are not read.
  abbrev pub readable : List Log → Option Bytes → List Log → List Log
  readable [] none after = after
  readable [] (some e) after = []
  readable (l ∷ before) final after = l ∷ readable before final after

  abbrev finished : Bytes → List (Signal Log) → Option (Raised Args Log) → Iterator Args Log
  finished name feed event = record (running name feed event) { done = true }

  -- One more log, for an iterator that is as it is but for its event.
  collect_step :
      (it : Iterator Args Log) (name : Bytes) (l : Log) (u : Args × Option Bytes) (ls : List Log)
      (final : Option Bytes) (fuel : ℕ)
      → ((event : Option (Raised Args Log))
          → ((collect fuel (record it { event = event })).0 ≡ (decoded name ls final).0)
            × ((collect fuel (record it { event = event })).1.fail ≡ (decoded name ls final).1))
      → ((collected (unpacked contract it l u) (collect fuel)).0
          ≡ (decoded_as l u (decoded name ls final)).0)
        × ((collected (unpacked contract it l u) (collect fuel)).1.fail
            ≡ (decoded_as l u (decoded name ls final)).1)
  collect_step it name l (args, none) ls final fuel ih =
      let raised : Raised Args Log = record { args = args; raw = l } in
      let (events, failure) = ih (some raised) in
      (ap (λ (t : List (Raised Args Log)). raised ∷ t) events, failure)
  collect_step it name l (args, some e) ls final fuel ih = (refl, refl)

  -- After the end of a query without an error the logs that wait are still read.
  collect_rest :
      (name : Bytes) (ls : List Log) (event : Option (Raised Args Log)) (fuel : ℕ)
      → length ls < fuel
      → ((collect fuel (finished name (logs ls) event)).0 ≡ (decoded name ls none).0)
        × ((collect fuel (finished name (logs ls) event)).1.fail ≡ (decoded name ls none).1)
  unfolding collect next deliver decoded
  collect_rest name ls event zero h = absurd (omega arith)
  collect_rest name [] event (suc fuel) h = (refl, refl)
  collect_rest name (l ∷ ls) event (suc fuel) h =
      collect_step (finished name (logs ls) event) name l (contract.unpack_log name l) ls none fuel
        (λ event'. collect_rest name ls event' fuel (omega arith))

  -- A client that reads a finished query, with more calls than logs, gets the event of each log in
  -- order up to the first that cannot be unpacked, and its error or that of the query. The logs that
  -- arrive behind the end of the query are read too, unless it is an error.
  pub collect_lem :
      (name : Bytes) (before : List Log) (final : Option Bytes) (after : List Log)
      (event : Option (Raised Args Log)) (fuel : ℕ)
      → length before + length after < fuel
      → ((collect fuel (running name (deliveries before final after) event)).0
          ≡ (decoded name (readable before final after) final).0)
        × (error contract (collect fuel (running name (deliveries before final after) event)).1
            ≡ (decoded name (readable before final after) final).1)
  unfolding collect next deliver decoded error
  collect_lem name before final after event zero h = absurd (omega arith)
  collect_lem name [] none after event (suc fuel) h =
      collect_rest name after event (suc fuel) (omega arith)
  collect_lem name [] (some e) after event (suc fuel) h = (refl, refl)
  collect_lem name (l ∷ before) final after event (suc fuel) h =
      collect_step (running name (deliveries before final after) event) name l
        (contract.unpack_log name l) (readable before final after) final fuel
        (λ event'. collect_lem name before final after event' fuel (omega arith))
