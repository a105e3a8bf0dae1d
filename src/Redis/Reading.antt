-- ===== src/Redis/Reading.antt =====
-- What `Get` returns, and what it reads after a write.
use libp2p_submission_sequen.Prelude.{
  ℕ, ◌≡◌, ◌∙◌, refl, sym, ap, Bytes, codes, List, [], ◌∷◌, ◌++◌, none, Result, ok, err,
  append_assoc,
}
use mathlib.Core.Path.{subst}
use mathlib.Core.Option.{some-ne-none}
use libp2p_submission_sequen.Alerts.{Channel}
use libp2p_submission_sequen.Redis.Server.{
  exchange, Command, RedisError, nil_reply, message, Value, integer, status, bulk, array, Reply,
  Exchange, Server, World, answered, call, notify, as_text, unexpected, integer_text,
}
use libp2p_submission_sequen.Redis.Client.{
  report_error, read_text, get, set_submission, set_process_log, wrapped, store_log,
}
use libp2p_submission_sequen.Redis.Errors.{
  alerted, Submitted, stored, not_added, added_only, set_submission-Submitted,
}

-- The result of a read: the text of a reply, the empty text for a missing key, or an error with its alert.
abbrev pub reading : Reply → Bytes → Channel → Result RedisError Bytes × Channel
reading (ok (bulk s)) now alerts = (ok s, alerts)
reading (ok status) now alerts = (ok (codes "OK"), alerts)
reading (ok (integer n)) now alerts = (ok (integer_text n), alerts)
reading (ok (array ms)) now alerts =
    (err unexpected, alerted (codes "Redis error") (codes "redis: unexpected reply") now alerts)
reading (err nil_reply) now alerts = (ok [], alerts)
reading (err (message m)) now alerts = (err (message m), alerted (codes "Redis error") m now alerts)

read_after :
    (server : Server) (now : Bytes) (r : Reply) (w : World)
    → read_text server now (as_text r) w
      ≡ ((reading r now w.alerts).0, record w { alerts = (reading r now w.alerts).1 })
unfolding read_text notify
read_after server now (ok (bulk s)) w = refl
read_after server now (ok status) w = refl
read_after server now (ok (integer n)) w = refl
read_after server now (ok (array ms)) w = refl
read_after server now (err nil_reply) w = refl
read_after server now (err (message m)) w = refl

-- Get sends its one command; a missing key reads as the empty text without an alert, and every
-- other error is returned and reported as one alert.
pub get_lem :
    (server : Server) (now key : Bytes) (w : World)
    → let r = server w.history (Command.get key) in
      get server now key w ≡ (
        (reading r now w.alerts).0,
        record {
          history = w.history ++ exchange (Command.get key) r ∷ [];
          alerts = (reading r now w.alerts).1;
        },
      )
unfolding get call
get_lem server now key w = read_after server now (server w.history (Command.get key)) _

-- A server that returns what was just stored, under the key and with an acknowledgement.
pub record Remembers (server : Server) : Type 0 where
  pub remembers :
      (h : List Exchange) (key value : Bytes) (expiration : ℕ) (v : Value)
      → server (h ++ exchange (Command.set key value expiration) (ok v) ∷ []) (Command.get key)
        ≡ ok (bulk value)

-- A world whose last exchange stored the value.
abbrev pub JustStored : Bytes → Bytes → ℕ → World → Type 0
JustStored key value expiration w =
    (h : List Exchange) × (v : Value) × (w.history
      ≡ h ++ exchange (Command.set key value expiration) (ok v) ∷ [])

module _ (server : Server) (law : Remembers server) (now key value : Bytes) (expiration : ℕ) where
  get_stored : (w : World) → JustStored key value expiration w → (get server now key w).0 ≡ ok value
  get_stored w (h, v, e) =
      ap (λ (p : Result RedisError Bytes × World). p.0) (get_lem server now key w)
      ∙ ap (λ (g : List Exchange). (reading (server g (Command.get key)) now w.alerts).0) e
      ∙ ap (λ (r : Reply). (reading r now w.alerts).0) (law.remembers h key value expiration v)

  Submitted-JustStored :
      (w : World) (now' members : Bytes) (w' : World)
      → Submitted w now' key value members expiration none w'
      → JustStored key value expiration w' × (w'.alerts ≡ w.alerts)
  Submitted-JustStored w now' members w' (stored v v' e is) = (
    (
      w.history ++ exchange (Command.s_add members (key ∷ [])) (ok v) ∷ [],
      v',
      ap (λ (u : World). u.history) is ∙ sym (append_assoc w.history _ _),
    ),
    ap (λ (u : World). u.alerts) is,
  )
  Submitted-JustStored w now' members w' (not_added e is _) = absurd (some-ne-none e (sym is))
  Submitted-JustStored w now' members w' (added_only v e is _) = absurd (some-ne-none e (sym is))

  -- With a server that returns what was just stored, after SetSubmission returned no error, Get of
  -- the key returns the value, and SetSubmission raised no alert.
  pub set_submission-get :
      (now' members : Bytes) (w : World)
      → (set_submission server now' key value members expiration w).0 ≡ none
      → let w' = (set_submission server now' key value members expiration w).1 in
        ((get server now key w').0 ≡ ok value) × (w'.alerts ≡ w.alerts)
  set_submission-get now' members w h =
      let w' = (set_submission server now' key value members expiration w).1 in
      let (kept, quiet) = Submitted-JustStored w now' members w' (
        subst (λ r. Submitted w now' key value members expiration r w') h
          (set_submission-Submitted server now' key value members expiration w)) in
      (get_stored w' kept, quiet)

module _ (server : Server) (now key : Bytes) (expiration : ℕ) where
  logged :
      (value : Bytes) (r : Reply) (w : World)
      → let (e, w') = report_error server now r (answered (Command.set key value expiration) r w) in
        wrapped e ≡ none → JustStored key value expiration w'
  unfolding report_error notify
  logged value (ok v) w h = (w.history, v, refl)
  logged value (err e) w h = absurd (some-ne-none _ h)

  store_log-JustStored :
      (encoded : Result Bytes Bytes) (w : World)
      → (store_log server now key expiration encoded w).0 ≡ none
      → (json : Bytes) × (encoded ≡ ok json)
        × JustStored key json expiration (store_log server now key expiration encoded w).1
  unfolding call notify
  store_log-JustStored (err e) w h = absurd (some-ne-none _ h)
  store_log-JustStored (ok json) w h = (json, refl, logged json _ w h)

  -- With a server that returns what was just stored, SetProcessLog returns no error only for an
  -- entry that has a JSON, and then Get of the key returns that JSON.
  pub set_process_log-get {ℓ} :
      {Entry : Type ℓ} (marshal : Entry → Result Bytes Bytes) (entry : Entry) (now' : Bytes)
      (w : World)
      → Remembers server
      → (set_process_log server marshal now key entry expiration w).0 ≡ none
      → (json : Bytes) × (marshal entry ≡ ok json)
        × ((get server now' key (set_process_log server marshal now key entry expiration w).1).0
            ≡ ok json)
  unfolding set_process_log
  set_process_log-get marshal entry now' w law h =
      let (json, e, kept) = store_log-JustStored (marshal entry) w h in
      (json, e, get_stored server law now' key json expiration _ kept)
