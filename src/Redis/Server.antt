-- ===== src/Redis/Server.antt =====
-- Commands and replies. A server is a parameter: any function that answers a command, given all that
-- this process was answered before. So its data, its other clients and its failures are arbitrary.
use libp2p_submission_sequen.Prelude.{
  ℕ, ◌+◌, Bytes, codes, List, [], ◌∷◌, ◌++◌, Option, none, some, Result, ok, err,
}
use libp2p_submission_sequen.Golang.Decimal.{ℤ, pos, negsuc, format_uint}
use libp2p_submission_sequen.Alerts.{Channel, Sent, send_failure_notification}

-- Expirations are in nanoseconds, as in `time.Duration`.
pub data Command : Type 0 where
  incr : Bytes → Command
  s_add : Bytes → List Bytes → Command
  s_members : Bytes → Command
  s_rem : Bytes → Bytes → Command
  del : Bytes → Command
  set : Bytes → Bytes → ℕ → Command
  get : Bytes → Command
  l_push : Bytes → Bytes → Command
  expire : Bytes → ℕ → Command

-- `redis.Nil`, or any other error by its text.
pub data RedisError : Type 0 where
  nil_reply : RedisError
  message : Bytes → RedisError

pub data Value : Type 0 where
  -- The status `OK`.
  status : Value
  integer : ℤ → Value
  bulk : Bytes → Value
  array : List Bytes → Value

abbrev pub Reply : Type 0
Reply = Result RedisError Value

pub record Exchange : Type 0 where
  pub command : Command
  pub reply : Reply

abbrev pub exchange : Command → Reply → Exchange
exchange c r = record { command = c; reply = r }

abbrev pub Server : Type 0
Server = List Exchange → Command → Reply

-- What the functions of the process change: the exchanges with the server, the oldest first, and
-- the channel of alerts.
pub record World : Type 0 where
  pub history : List Exchange
  pub alerts : Channel

abbrev pub M : Type 0 → Type 0
M A = World → A × World

abbrev pub pure : {A : Type 0} → A → M A
pure a w = (a, w)

infixl 5 ◌>>=◌ ◌>>◌
abbrev pub ◌>>=◌ : {A B : Type 0} → M A → (A → M B) → M B
◌>>=◌ m f w = let (a, w') = m w in f a w'

abbrev pub ◌>>◌ : {A B : Type 0} → M A → M B → M B
m >> k = m >>= λ _. k

abbrev pub answered : Command → Reply → World → World
answered c r w = record w { history = w.history ++ record { command = c; reply = r } ∷ [] }

-- One command of the client, and its reply.
unfoldable pub call : Server → Command → M Reply
call server c w = (server w.history c, answered c (server w.history c) w)

-- `.Err()`
abbrev pub error_of : Reply → Option RedisError
error_of (ok v) = none
error_of (err e) = some e

-- `err.Error()`
abbrev pub error_text : RedisError → Bytes
error_text nil_reply = codes "redis: nil"
error_text (message m) = m

abbrev pub unexpected : RedisError
unexpected = message (codes "redis: unexpected reply")

-- An integer as a reply spells it.
abbrev pub integer_text : ℤ → Bytes
integer_text (pos n) = format_uint n
integer_text (negsuc n) = b'-' ∷ format_uint (n + 1)

-- `.Result()` of an `IntCmd` and of a `StringCmd`, which reads a status and an integer as their texts;
-- a reply of another type is an error.
abbrev pub as_integer : Reply → Result RedisError ℤ
as_integer (ok (integer n)) = ok n
as_integer (ok _) = err unexpected
as_integer (err e) = err e

abbrev pub as_text : Reply → Result RedisError Bytes
as_text (ok (bulk s)) = ok s
as_text (ok status) = ok (codes "OK")
as_text (ok (integer n)) = ok (integer_text n)
as_text (ok (array ms)) = err unexpected
as_text (err e) = err e

-- `.Val()` of a `StringSliceCmd`: no member on an error.
abbrev pub members : Reply → List Bytes
members (ok (array ms)) = ms
members _ = []

-- `common.SendFailureNotification(…, "High")`
unfoldable pub notify : Bytes → Bytes → Bytes → M Sent
unfolding send_failure_notification
notify process_name error_msg now w =
    let (s, alerts) =
      send_failure_notification process_name error_msg now (codes "High") w.alerts in
    (s, record w { alerts = alerts })
