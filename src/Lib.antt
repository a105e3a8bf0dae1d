-- ===== src/Lib.antt =====
-- Models and theorems of the listener for snapshot submissions: a libp2p host that takes the
-- submissions of snapshotters from streams, puts them into a Redis queue, and counts them.
--
-- The parts, their files, and the code that each models:
-- - Collector: pkgs/service/collector.go, `parseSubmissionBytes` and `handleStream`. A stream is the
--   list of what its reads return. Collector/Chunk is the framing of one read, Round the exchanges of
--   one round of the loop, Observed how they add up over a stream, and Queue, Counters, Crash and
--   Fatal what follows for the queue, the counters and the process; Delivery is about a sender's
--   messages, and Split about one that arrives in two reads.
--   Each stream has a goroutine of its own: Collector/Program is the handler as the commands that it
--   sends and what it does with the replies, System the handlers of many streams over one server,
--   Debts and Ledger what they owe each other's counters at any time, Progress and Turns how they come
--   to their end, and Emits and Shuffle what the streams of many senders send together.
-- - Redis: pkgs/redis/client.go in Redis/Client, pkgs/redis/keys.go with its constant of
--   pkgs/constants.go in Redis/Keys. Redis/Server has the commands, the replies and the state: the
--   exchanges with the server so far, and the channel of alerts. Redis/Errors, Redis/Reading and
--   Redis/Sets have the laws.
-- - Alerts: pkgs/common/alerts.go, the buffered channel; the Redis client sends to it, and Reporting,
--   pkgs/service/reporting.go, takes from it and posts. Failures is about all three.
-- - Relayer: pkgs/service/relayer.go, with its options for libp2p in Hosting, and Discovery:
--   pkgs/service/discovery.go, with `ConfigureDHT` in Discovery/Dht. Relayer/Restart is about the key
--   between two starts, Relayer/Connections and Relayer/Races about the count of connections, the
--   latter with callbacks that run at a time. Backoff has the retries, which Prost,
--   pkgs/prost/contract.go, also uses.
-- - Contract: pkgs/contract/contract.go, which is generated. The four operations of an event come from
--   one template and are defined once in Contract/Event; Contract/Events has the 22 events, with their
--   arguments and topics; Iterate, Watching and Queries have the laws. Binding has `NewContract` and
--   its like, Callers and Transactors the 59 reads and the 34 transactions, Sessions, CallerSessions
--   and TransactorSessions those with options set before, and Raw the raw methods. Values and Outputs
--   have the structs, Bound the bound contract that all of them call, and Abi the methods of the ABI.
--   Serving says what go-ethereum gives for calls of the views of the ABI, and Conformance has, for each
--   method, the name and the types of the ABI and what it gives then.
-- - Config: config/settings.go. Logger: pkgs/utils/logger.go. Strings: pkgs/utils/strings.go.
--   Submission: the messages of pkgs/submission.pb.go. Startup: cmd/main.go.
-- - Golang has what the code uses of Go's library: slices with a length and a capacity, the decimal
--   numbers of fmt and strconv, and strings.Index. Prelude has the shared names. Tests has runs.
--
-- How the code is rendered. A Go string or byte slice is a list of bytes. A panic and a fatal error
-- are values: the constructors `crashed`, `panicked`, `fatal` and the like, or `none` where the text
-- says so. An error is an `Option` or a `Result`. The state of a function is passed on explicitly. An
-- unsigned number of 64 bits is only printed and compared by the code, so it is a natural number; the
-- count of connections is a signed one that wraps at 2 to the 63. Times are in nanoseconds.
--
-- Parameters, for code that is not in the repository: a Redis server is any function from the
-- exchanges so far and a command to a reply, so its data, its other clients and its failures are
-- arbitrary; the JSON codec, the reporting service, the network of the host, the bound contract of
-- go-ethereum, the keys of libp2p and base64 are functions in a record. Where a theorem needs their
-- documented behaviour it says so: `Remembers` and `KeepsSet` of a server, `IsDelivering` of a codec
-- and a server, `IsRetry` and `IsTimedRetry` of backoff, `IsLawful` of the keys, `UnpacksAbi` of the
-- bound contract.
--
-- Bounds. A read fills at most the buffer of 1024 bytes, which is what `Read` promises; theorems
-- about streams have this as their hypothesis. All loops are over lists, and so end. The fuel of
-- `collect`, a client's loop over an iterator, is above the number of logs, which is enough. That of
-- the digits of a number is above the number.
--
-- Interleavings. A step of System opens a stream or lets one of the handlers send its next command; a
-- panic of one ends the process. Between two commands a handler touches nothing that is shared.
--
-- Not modelled: the log's texts, and what logrus does with its hooks; data races on the channel of
-- alerts, which the handlers do not use; what a view or a transaction of the contract computes; the
-- generated reflection of protobuf; the build and deployment files.
pub mod Prelude
pub mod Golang
pub mod Strings
pub mod Redis
pub mod Submission
pub mod Collector
pub mod Contract
pub mod Discovery
pub mod Backoff
pub mod Logger
pub mod Prost
pub mod Config
pub mod Alerts
pub mod Reporting
pub mod Failures
pub mod Startup
pub mod Hosting
pub mod Relayer
pub mod Tests
