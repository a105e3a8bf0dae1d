-- ===== src/Tests/Data.antt =====
-- The parameters of the collector and of the Redis client at work: a server that keeps what was set
-- and counts what was incremented, a codec, and some reads of a stream.
use libp2p_submission_sequen.Prelude.{
  ◌≡◌, refl, Bytes, codes, bytes_eq, bytes_eq_refl, List, [], ◌∷◌, ◌++◌, Option, none, some, ok,
  err, if◌then◌else◌,
}
use libp2p_submission_sequen.Golang.Decimal.{pos}
use libp2p_submission_sequen.Submission.{Request, SnapshotSubmission}
use libp2p_submission_sequen.Redis.Server.{
  Command, nil_reply, message, status, integer, bulk, array, Reply, Exchange, Server, World,
}
use libp2p_submission_sequen.Redis.Reading.{Remembers}
use libp2p_submission_sequen.Collector.{Codec, Read, eof}

-- The value of a key after an exchange.
abbrev written_to : Bytes → Command → Option Bytes → Option Bytes
written_to key (Command.set k v _) before = if bytes_eq k key then some v else before
written_to key _ before = before

abbrev acknowledged_to : Bytes → Command → Reply → Option Bytes → Option Bytes
acknowledged_to key c (ok _) before = written_to key c before
acknowledged_to key c (err _) before = before

abbrev latest : Bytes → List Exchange → Option Bytes → Option Bytes
latest key [] before = before
latest key (e ∷ es) before = latest key es (acknowledged_to key e.command e.reply before)

abbrev as_reply : Option Bytes → Reply
as_reply none = err nil_reply
as_reply (some v) = ok (bulk v)

abbrev pub memory : Server
memory h (Command.get key) = as_reply (latest key h none)
memory h (Command.set _ _ _) = ok status
memory h (Command.s_members _) = ok (array [])
memory h _ = ok (integer (pos 1))

latest-append :
    (key : Bytes) (h : List Exchange) (e : Exchange) (before : Option Bytes)
    → latest key (h ++ e ∷ []) before ≡ acknowledged_to key e.command e.reply (latest key h before)
latest-append key [] e before = refl
latest-append key (x ∷ h) e before = latest-append key h e _

pub memory-Remembers : Remembers memory
memory-Remembers = record {
  remembers = λ h key value expiration v. rw (latest-append key h _ none, bytes_eq_refl key) refl;
}

-- A server that refuses every command.
abbrev pub broken_server : Server
broken_server h c = err (message (codes "connection refused"))

abbrev pub identifier : Bytes
identifier = codes "123e4567-e89b-12d3-a456-426614174000"

abbrev pub market : Bytes
market = codes "0xE8"

abbrev pub request : Request
request = record {
  slot_id = 7;
  deadline = 0;
  snapshot_cid = codes "bafy";
  epoch_id = 42;
  project_id = codes "p";
}

abbrev pub submission_with : Option Request → SnapshotSubmission
submission_with r = record {
  request = r;
  signature = [];
  header = [];
  data_market = market;
  node_version = none;
}

-- `{}` is a submission without a request, and `{r}` one with it; every other text is refused.
abbrev unmarshal : Bytes → Option SnapshotSubmission
unmarshal body =
    if bytes_eq body (codes "{r}")
    then some (submission_with (some request))
    else if bytes_eq body (codes "{}")
    then some (submission_with none)
    else none

abbrev pub codec : Codec
codec = record {
  unmarshal = unmarshal;
  marshal = λ q. some (q.submission_id ++ q.data_market_address ++ q.body);
}

abbrev pub reading_of : Bytes → Read
reading_of b = record { received = b; failure = none }

abbrev pub good : Read
good = reading_of (identifier ++ codes "{r}")

abbrev pub refused : Read
refused = reading_of (identifier ++ codes "oops")

abbrev pub unnamed : Read
unnamed = reading_of (identifier ++ codes "{}")

abbrev pub short : Read
short = reading_of (codes "hello")

abbrev pub at_end : Read
at_end = record { received = []; failure = some eof }

abbrev pub start : World
start = record { history = []; alerts = [] }
