-- ===== src/Redis/Sets.antt =====
-- The functions on sets of keys, against the sets that they stand for.
use mathlib.Core.Path.{subst}
use mathlib.Core.Option.{some-ne-none}
use libp2p_submission_sequen.Prelude.{
  ◌≡◌, ◌∙◌, refl, sym, ap, Bytes, bytes_eq, Bool, false, not, ◌&&◌, ◌||◌, List, [], ◌∷◌, ◌++◌,
  Option, none, ok, err, All, All-append, if◌then◌else◌, bytes_eq_refl,
}
use libp2p_submission_sequen.Redis.Server.{
  exchange, Command, RedisError, Value, Reply, Exchange, Server, World, M, members, error_of, call,
  notify, answered,
}
use libp2p_submission_sequen.Redis.Client.{
  report_error, add_to_set, get_set_keys, remove_from_set, delete,
}

abbrev pub mem : Bytes → List Bytes → Bool
mem k [] = false
mem k (x ∷ xs) = bytes_eq k x || mem k xs

-- Whether a key is in a set after an acknowledged command, if that is known before.
abbrev pub changed : Bytes → Bytes → Command → Bool → Bool
changed key set (Command.s_add s keys) b = if bytes_eq s set then b || mem key keys else b
changed key set (Command.s_rem s k) b = if bytes_eq s set then b && not (bytes_eq key k) else b
changed key set (Command.del s) b = if bytes_eq s set then false else b
changed key set _ b = b

abbrev pub kept : Bytes → Bytes → List Exchange → Bool → Bool
kept key set [] b = b
kept key set (e ∷ h) b = kept key set h (changed key set e.command b)

kept-append :
    (key set : Bytes) (h : List Exchange) (e : Exchange) (b : Bool)
    → kept key set (h ++ e ∷ []) b ≡ changed key set e.command (kept key set h b)
kept-append key set [] e b = refl
kept-append key set (x ∷ h) e b = kept-append key set h e _

-- No command was answered with an error.
abbrev pub Acknowledged : List Exchange → Type 0
Acknowledged = All (λ (e : Exchange). error_of e.reply ≡ none)

-- Commands that are not for sets, and may replace what a key holds, or have it expire or refused.
abbrev disturbs : Bytes → Command → Bool
disturbs set (Command.set k v t) = bytes_eq k set
disturbs set (Command.expire k t) = bytes_eq k set
disturbs set (Command.incr k) = bytes_eq k set
disturbs set (Command.l_push k v) = bytes_eq k set
disturbs set _ = false

-- The key of the set was used for this set only.
abbrev pub Undisturbed : Bytes → List Exchange → Type 0
Undisturbed set = All (λ (e : Exchange). disturbs set e.command ≡ false)

-- The members of a set that no other client changes, where they are read without an error: those
-- that the set had at the start, and what the commands made of them, if they were all acknowledged
-- and used its key for this set only.
pub record KeepsSet (server : Server) (set : Bytes) : Type 0 where
  pub initial : Bytes → Bool
  pub holds :
      (h : List Exchange) (key : Bytes)
      → Acknowledged h
      → Undisturbed set h
      → error_of (server h (Command.s_members set)) ≡ none
      → mem key (members (server h (Command.s_members set))) ≡ kept key set h (initial key)

-- What a client may do to a set.
pub data SetOperation : Type 0 where
  adding : List Bytes → SetOperation
  removing : Bytes → SetOperation
  deleting : SetOperation

-- Whether a key is in a set behind some operations.
abbrev pub contains : Bytes → List SetOperation → Bool → Bool
contains key [] b = b
contains key (adding keys ∷ ops) b = contains key ops (b || mem key keys)
contains key (removing k ∷ ops) b = contains key ops (b && not (bytes_eq key k))
contains key (deleting ∷ ops) b = contains key ops false

module _ (server : Server) (now set : Bytes) where
  abbrev pub perform : SetOperation → M (Option RedisError)
  perform (adding keys) = add_to_set server now set keys
  perform (removing k) = remove_from_set server set k
  perform deleting = delete server set

  abbrev pub perform_all : List SetOperation → World → World
  perform_all [] w = w
  perform_all (op ∷ ops) w = perform_all ops (perform op w).1

  -- None of the operations returns an error.
  abbrev pub Succeeds : List SetOperation → World → Type 0
  Succeeds [] w = Unit
  Succeeds (op ∷ ops) w = ((perform op w).0 ≡ none) × Succeeds ops (perform op w).1

  abbrev command_of : SetOperation → Command
  command_of (adding keys) = Command.s_add set keys
  command_of (removing k) = Command.s_rem set k
  command_of deleting = Command.del set

  -- The history behind an operation without an error.
  abbrev Performed : SetOperation → World → World → Type 0
  Performed op w w' = (v : Value) × (w'.history ≡ w.history ++ exchange (command_of op) (ok v) ∷ [])

  reported :
      (c : Command) (r : Reply) (w : World)
      → (report_error server now r (answered c r w)).0 ≡ none
      → (v : Value) × ((report_error server now r (answered c r w)).1.history
          ≡ w.history ++ exchange c (ok v) ∷ [])
  unfolding report_error notify
  reported c (ok v) w h = (v, refl)
  reported c (err e) w h = absurd (some-ne-none e h)

  returned :
      (c : Command) (r : Reply) (w : World)
      → error_of r ≡ none
      → (v : Value) × ((answered c r w).history ≡ w.history ++ exchange c (ok v) ∷ [])
  returned c (ok v) w h = (v, refl)
  returned c (err e) w h = absurd (some-ne-none e h)

  perform-Performed :
      (op : SetOperation) (w : World) → (perform op w).0 ≡ none → Performed op w (perform op w).1
  unfolding add_to_set remove_from_set delete call
  perform-Performed (adding keys) w h = reported (Command.s_add set keys) _ w h
  perform-Performed (removing k) w h = returned (Command.s_rem set k) _ w h
  perform-Performed deleting w h = returned (Command.del set) _ w h

  changed_by :
      (key : Bytes) (op : SetOperation) (ops : List SetOperation) (b : Bool)
      → contains key ops (changed key set (command_of op) b) ≡ contains key (op ∷ ops) b
  changed_by key (adding keys) ops b = rw (bytes_eq_refl set) refl
  changed_by key (removing k) ops b = rw (bytes_eq_refl set) refl
  changed_by key deleting ops b = rw (bytes_eq_refl set) refl

  undisturbing : (op : SetOperation) → disturbs set (command_of op) ≡ false
  undisturbing (adding keys) = refl
  undisturbing (removing k) = refl
  undisturbing deleting = refl

  kept_by :
      (key : Bytes) (initially : Bool) (ops : List SetOperation) (w : World)
      → Acknowledged w.history
      → Undisturbed set w.history
      → Succeeds ops w
      → Acknowledged (perform_all ops w).history
        × Undisturbed set (perform_all ops w).history
        × (kept key set (perform_all ops w).history initially
            ≡ contains key ops (kept key set w.history initially))
  kept_by key initially [] w a u s = (a, u, refl)
  kept_by key initially (op ∷ ops) w a u s =
      let (v, e) = perform-Performed op w s.0 in
      let (a', u', k) =
        kept_by key initially ops (perform op w).1
          (subst Acknowledged (sym e) (All-append _ w.history _ a (refl, tt)))
          (subst (Undisturbed set) (sym e) (All-append _ w.history _ u (undisturbing op, tt)))
          s.1 in
      (
        a',
        u',
        k
            ∙ ap (λ h. contains key ops (kept key set h initially)) e
            ∙ ap (contains key ops) (kept-append key set w.history _ initially)
            ∙ changed_by key op ops _,
      )

  -- With a server on which only this client uses the key of the set, if no command so far had an
  -- error and none so far was SET, EXPIRE, INCR or LPUSH of that key, after any additions, removals
  -- and deletions that return no errors, where the set is read without an error before and after
  -- them, GetSetKeys lists a key exactly if the operations, applied to a set in their order, leave
  -- it in the set that GetSetKeys listed before.
  pub get_set_keys-perform_all :
      (key : Bytes) (ops : List SetOperation) (w : World)
      → KeepsSet server set
      → Acknowledged w.history
      → Undisturbed set w.history
      → Succeeds ops w
      → error_of (server w.history (Command.s_members set)) ≡ none
      → error_of (server (perform_all ops w).history (Command.s_members set)) ≡ none
      → mem key (get_set_keys server set (perform_all ops w)).0
        ≡ contains key ops (mem key (get_set_keys server set w).0)
  unfolding get_set_keys call
  get_set_keys-perform_all key ops w law a u s read_before read_after =
      let (a', u', k) = kept_by key (law.initial key) ops w a u s in
      law.holds _ key a' u' read_after
      ∙ k
      ∙ ap (contains key ops) (sym (law.holds _ key a u read_before))
