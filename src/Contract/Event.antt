-- ===== src/Contract/Event.antt =====
-- The operations on an event: filtering with an iterator, watching, and parsing one log. The bound
-- contract of go-ethereum is a parameter: its requests to the node and its decoding of logs.
use libp2p_submission_sequen.Prelude.{
  Bytes, Bool, true, false, List, [], ◌∷◌, ◌++◌, Option, none, some, Result, ok, err,
}
use libp2p_submission_sequen.Golang.Decimal.{ℤ}

abbrev pub Address : Type 0
Address = Bytes

-- `*big.Int`, which may be nil.
abbrev pub BigInt : Type 0
BigInt = Option ℤ

-- The dynamic values that a filter passes on.
pub data Topic : Type 0 where
  address : Address → Topic
  big_int : BigInt → Topic

-- `for _, item := range items { rule = append(rule, item) }`
unfoldable pub append_items {ℓ} : {A : Type ℓ} → (A → Topic) → List A → List Topic → List Topic
append_items inject [] rule = rule
append_items inject (item ∷ items) rule = append_items inject items (rule ++ inject item ∷ [])

abbrev pub address_rule : List Address → List Topic
address_rule items = append_items address items []

abbrev pub big_int_rule : List BigInt → List Topic
big_int_rule items = append_items big_int items []

-- An event's struct: its arguments, and the field `Raw`.
pub record Raised (Args Log : Type 0) : Type 0 where
  pub args : Args
  pub raw : Log

-- What a subscription delivers, in the order in which a `select` takes it: a log, or the value of
-- the channel of its end (nil, or an error).
pub data Signal (Log : Type 0) : Type 0 where
  log : Log → Signal Log
  ended : Option Bytes → Signal Log

-- The bound contract, for one type of arguments. `unpack_log` returns the arguments as they are
-- after the call, and its error; `zero_log` is the zero value of a log.
pub record BoundContract (FilterOpts WatchOpts Args Log : Type 0) : Type 0 where
  pub filter_logs : FilterOpts → Bytes → List (List Topic) → Result Bytes (List (Signal Log))
  pub watch_logs : WatchOpts → Bytes → List (List Topic) → Option Bytes
  pub unpack_log : Bytes → Log → Args × Option Bytes
  pub zero_log : Log

-- An iterator, with what its subscription still delivers.
pub record Iterator (Args Log : Type 0) : Type 0 where
  pub event : Option (Raised Args Log)
  pub event_name : Bytes
  pub feed : List (Signal Log)
  pub done : Bool
  pub fail : Option Bytes
  pub unsubscribed : Bool

-- `Next` returns true or false, or waits in its `select`.
pub data Verdict : Type 0 where
  found stopped blocked : Verdict

-- The subscription's loop: it waits for a signal or offers an event to the sink, or has returned.
pub data Phase (Args Log : Type 0) : Type 0 where
  idle : Phase Args Log
  offering : Raised Args Log → Phase Args Log
  returned : Option Bytes → Phase Args Log

pub record Watch (Args Log : Type 0) : Type 0 where
  pub phase : Phase Args Log
  pub sunk : List (Raised Args Log)
  pub unsubscribed : Bool

-- Which case a `select` of the loop takes.
pub data Choice (Log : Type 0) : Type 0 where
  arrived : Log → Choice Log
  accepted : Choice Log
  subscription_ended : Option Bytes → Choice Log
  quit : Choice Log

module _ {FilterOpts WatchOpts Args Log : Type 0}
    (contract : BoundContract FilterOpts WatchOpts Args Log) where
  abbrev pub unpacked : Iterator Args Log → Log → Args × Option Bytes → Verdict × Iterator Args Log
  unpacked it l (args, none) = (found, record it { event = some (record { args = args; raw = l }) })
  unpacked it l (args, some e) = (
    stopped,
    record it { event = some (record { args = args; raw = contract.zero_log }); fail = some e },
  )

  -- A log was received: it is unpacked into a new event.
  unfoldable pub deliver : Log → Iterator Args Log → Verdict × Iterator Args Log
  deliver l it = unpacked it l (contract.unpack_log it.event_name l)

  -- The `select` of a completed iterator, whose `default` returns false.
  abbrev pub drain : List (Signal Log) → Iterator Args Log → Verdict × Iterator Args Log
  drain (log l ∷ rest) it = deliver l (record it { feed = rest })
  drain _ it = (stopped, it)

  -- `it.Next()` once `done` is set.
  abbrev pub resume : Option Bytes → Iterator Args Log → Verdict × Iterator Args Log
  resume (some e) it = (stopped, it)
  resume none it = drain it.feed it

  -- The `select` of an iterator in progress.
  abbrev pub await : List (Signal Log) → Iterator Args Log → Verdict × Iterator Args Log
  await [] it = (blocked, it)
  await (log l ∷ rest) it = deliver l (record it { feed = rest })
  await (ended e ∷ rest) it = resume e (record it { feed = rest; done = true; fail = e })

  abbrev pub advance : Option Bytes → Bool → Iterator Args Log → Verdict × Iterator Args Log
  advance (some e) done it = (stopped, it)
  advance none true it = drain it.feed it
  advance none false it = await it.feed it

  unfoldable pub next : Iterator Args Log → Verdict × Iterator Args Log
  unfolding deliver
  next it = advance it.fail it.done it

  unfoldable pub error : Iterator Args Log → Option Bytes
  error it = it.fail

  unfoldable pub close : Iterator Args Log → Iterator Args Log
  close it = record it { unsubscribed = true }

  abbrev pub iterator_over :
      Bytes → Result Bytes (List (Signal Log)) → Result Bytes (Iterator Args Log)
  iterator_over name (err e) = err e
  iterator_over name (ok feed) = ok (record {
    event = none;
    event_name = name;
    feed = feed;
    done = false;
    fail = none;
    unsubscribed = false;
  })

  unfoldable pub filter : Bytes → List (List Topic) → FilterOpts → Result Bytes (Iterator Args Log)
  filter name rules opts = iterator_over name (contract.filter_logs opts name rules)

  abbrev pub parsed : Log → Args × Option Bytes → Result Bytes (Raised Args Log)
  parsed l (args, some e) = err e
  parsed l (args, none) = ok (record { args = args; raw = l })

  unfoldable pub parse : Bytes → Log → Result Bytes (Raised Args Log)
  parse name l = parsed l (contract.unpack_log name l)

  abbrev pub subscribed : Option Bytes → Result Bytes (Watch Args Log)
  subscribed (some e) = err e
  subscribed none = ok (record { phase = idle; sunk = []; unsubscribed = false })

  unfoldable pub watch : Bytes → List (List Topic) → WatchOpts → Result Bytes (Watch Args Log)
  watch name rules opts = subscribed (contract.watch_logs opts name rules)

  -- A return of the loop's function, with its deferred `Unsubscribe`.
  abbrev pub return_with : Option Bytes → Watch Args Log → Watch Args Log
  return_with e w = record w { phase = returned e; unsubscribed = true }

  abbrev pub offer : Log → Watch Args Log → Result Bytes (Raised Args Log) → Watch Args Log
  offer l w (err e) = return_with (some e) w
  offer l w (ok event) = record w { phase = offering event }

  -- One `select` of the loop; a case that it does not have is not taken.
  abbrev pub choose : Bytes → Phase Args Log → Choice Log → Watch Args Log → Watch Args Log
  choose name idle (arrived l) w = offer l w (parse name l)
  choose name idle (subscription_ended e) w = return_with e w
  choose name idle quit w = return_with none w
  choose name idle accepted w = w
  choose name (offering event) accepted w = record w { phase = idle; sunk = w.sunk ++ event ∷ [] }
  choose name (offering event) (subscription_ended e) w = return_with e w
  choose name (offering event) quit w = return_with none w
  choose name (offering event) (arrived l) w = w
  choose name (returned e) _ w = w

  unfoldable pub watch_step : Bytes → Choice Log → Watch Args Log → Watch Args Log
  unfolding parse
  watch_step name c w = choose name w.phase c w

  unfoldable pub watch_loop : Bytes → List (Choice Log) → Watch Args Log → Watch Args Log
  watch_loop name [] w = w
  watch_loop name (c ∷ cs) w = watch_loop name cs (watch_step name c w)
