-- ===== src/Redis/Client.antt =====
-- pkgs/redis/client.go: each function as the commands that it sends, in order. `now` is the text of
-- the time that the function reads when it reports an error.
use libp2p_submission_sequen.Prelude.{
  ℕ, ◌*◌, ◌^◌, Bytes, codes, List, [], ◌∷◌, ◌++◌, Option, none, some, Result, ok, err,
}
use libp2p_submission_sequen.Golang.Decimal.{ℤ, atoi}
use libp2p_submission_sequen.Config.{Settings}
use libp2p_submission_sequen.Redis.Server.{
  Command, RedisError, nil_reply, message, Reply, Server, M, pure, ◌>>=◌, ◌>>◌, call, error_of,
  error_text, as_integer, as_text, members, notify,
}

-- The `redis.Options` that are set; durations are in nanoseconds.
pub record Options : Type 0 where
  pub addr : Bytes
  pub password : Bytes
  pub db : ℤ
  pub pool_size : ℕ
  pub read_timeout : ℕ
  pub write_timeout : ℕ
  pub dial_timeout : ℕ
  pub idle_timeout : ℕ

abbrev pub second : ℕ
second = 10 ^ 9

abbrev pub millisecond : ℕ
millisecond = 10 ^ 6

abbrev pub options_for : Settings → ℤ → Options
options_for settings db = record {
  addr = settings.redis_host ++ (codes ":" ++ settings.redis_port);
  password = [];
  db = db;
  pool_size = 1000;
  read_timeout = 200 * millisecond;
  write_timeout = 200 * millisecond;
  dial_timeout = 5 * second;
  idle_timeout = 300 * second;
}

-- The options of the client; `none` is the fatal "Incorrect redis db".
unfoldable pub new_redis_client : Settings → Option Options
new_redis_client settings = elim (atoi settings.redis_db) [
  | none ↦ none
  | some db ↦ some (options_for settings db)
]

-- The errors of `SetProcessLog` are wrapped: their texts begin with these.
abbrev pub marshal_failed : Bytes
marshal_failed = codes "failed to marshal log entry: "

abbrev pub set_failed : Bytes
set_failed = codes "failed to set log entry in Redis: "

abbrev pub wrapped : Option RedisError → Option Bytes
wrapped none = none
wrapped (some e) = some (set_failed ++ error_text e)

module _ (server : Server) where
  unfoldable pub incr : Bytes → M (Result RedisError ℤ)
  incr key = do result ← call server (Command.incr key); pure (as_integer result)

  -- An error is reported as an alert, and returned.
  unfoldable pub report_error : Bytes → Reply → M (Option RedisError)
  report_error now (ok v) = pure none
  report_error now (err e) = do notify (codes "Redis error") (error_text e) now; pure (some e)

  unfoldable pub add_to_set : Bytes → Bytes → List Bytes → M (Option RedisError)
  unfolding report_error
  add_to_set now set keys = do r ← call server (Command.s_add set keys); report_error now r

  unfoldable pub get_set_keys : Bytes → M (List Bytes)
  get_set_keys set = do r ← call server (Command.s_members set); pure (members r)

  unfoldable pub remove_from_set : Bytes → Bytes → M (Option RedisError)
  remove_from_set set key = do r ← call server (Command.s_rem set key); pure (error_of r)

  unfoldable pub delete : Bytes → M (Option RedisError)
  delete set = do r ← call server (Command.del set); pure (error_of r)

  -- The second command of `SetSubmission`, which is sent if the first had no error.
  unfoldable pub store_submission : Bytes → Bytes → Bytes → ℕ → Reply → M (Option RedisError)
  unfolding report_error
  store_submission now key value expiration (err e) = report_error now (err e)
  store_submission now key value expiration (ok v) = do
    r ← call server (Command.set key value expiration)
    report_error now r

  unfoldable pub set_submission : Bytes → Bytes → Bytes → Bytes → ℕ → M (Option RedisError)
  unfolding store_submission
  set_submission now key value set expiration = do
    r ← call server (Command.s_add set (key ∷ []))
    store_submission now key value expiration r

  -- A missing key is no error: it reads as the empty text.
  unfoldable pub read_text : Bytes → Result RedisError Bytes → M (Result RedisError Bytes)
  read_text now (ok val) = pure (ok val)
  read_text now (err nil_reply) = pure (ok [])
  read_text now (err (message m)) = do notify (codes "Redis error") m now; pure (err (message m))

  unfoldable pub get : Bytes → Bytes → M (Result RedisError Bytes)
  unfolding read_text
  get now key = do r ← call server (Command.get key); read_text now (as_text r)

  unfoldable pub set : Bytes → Bytes → ℕ → M (Option RedisError)
  set key value expiration = do
    r ← call server (Command.set key value expiration)
    pure (error_of r)

  abbrev pub store_log : Bytes → Bytes → ℕ → Result Bytes Bytes → M (Option Bytes)
  store_log now key exp (err e) = do
    notify (codes "Redis SetProcessLog marshalling") e now
    pure (some (marshal_failed ++ e))
  store_log now key exp (ok json) = do
    r ← call server (Command.set key json exp)
    failure ← report_error now r
    pure (wrapped failure)

  -- `marshal` is `json.Marshal` of the log entry.
  unfoldable pub set_process_log {ℓ} :
      {Entry : Type ℓ} → (Entry → Result Bytes Bytes) → Bytes → Bytes → Entry → ℕ → M (Option Bytes)
  unfolding report_error
  set_process_log marshal now key log_entry exp = store_log now key exp (marshal log_entry)
