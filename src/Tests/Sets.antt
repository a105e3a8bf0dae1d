-- ===== src/Tests/Sets.antt =====
-- A server that keeps sets, each with a member at the start, and a client that changes one.
use mathlib.Core.Bool.{or_assoc}
use libp2p_submission_sequen.Prelude.{
  ◌≡◌, ◌∙◌, refl, sym, ap, Bytes, codes, bytes_eq, bytes_eq_iff, Bool, true, false, not, ◌&&◌, ◌||◌,
  List, [], ◌∷◌, ◌++◌, ok, if◌then◌else◌, Bool-cases, inl, inr,
}
use libp2p_submission_sequen.Redis.Server.{Command, array, status, Exchange, Server, call}
use libp2p_submission_sequen.Redis.Client.{
  report_error, add_to_set, get_set_keys, remove_from_set, delete,
}
use libp2p_submission_sequen.Redis.Sets.{
  mem, changed, kept, KeepsSet, SetOperation, adding, removing, contains, perform_all, Succeeds,
  get_set_keys-perform_all,
}
use libp2p_submission_sequen.Tests.Data.{start}

abbrev without : Bytes → List Bytes → List Bytes
without k [] = []
without k (x ∷ xs) = if bytes_eq x k then without k xs else x ∷ without k xs

mem-append : (key : Bytes) (xs ys : List Bytes) → mem key (xs ++ ys) ≡ mem key xs || mem key ys
mem-append key [] ys = refl
mem-append key (x ∷ xs) ys = rw (mem-append key xs ys) (sym (or_assoc (bytes_eq key x) _ _))

absorbed : (a m : Bool) → m && not a ≡ (a || m) && not a
absorbed true true = refl
absorbed true false = refl
absorbed false true = refl
absorbed false false = refl

first_kept : (a m c : Bool) → (a ≡ true → c ≡ false) → a || (m && not c) ≡ (a || m) && not c
first_kept true m c h = rw (h refl) refl
first_kept false m c h = refl

mem-without :
    (key k : Bytes) (xs : List Bytes) → mem key (without k xs) ≡ mem key xs && not (bytes_eq key k)
mem-without key k [] = refl
mem-without key k (x ∷ xs) = elim (Bool-cases (bytes_eq x k)) [
  | inl same ↦
      rw (same, mem-without key k xs, (bytes_eq_iff x k).0 same)
        (absorbed (bytes_eq key k) (mem key xs))
  | inr other ↦
      rw (other, mem-without key k xs)
        (first_kept (bytes_eq key x) (mem key xs) (bytes_eq key k)
          (λ e. ap (λ y. bytes_eq y k) ((bytes_eq_iff key x).0 e) ∙ other))
]

abbrev revised : Bytes → Command → List Bytes → List Bytes
revised set (Command.s_add s keys) ms = if bytes_eq s set then ms ++ keys else ms
revised set (Command.s_rem s k) ms = if bytes_eq s set then without k ms else ms
revised set (Command.del s) ms = if bytes_eq s set then [] else ms
revised set _ ms = ms

abbrev listed : Bytes → List Exchange → List Bytes → List Bytes
listed set [] ms = ms
listed set (e ∷ h) ms = listed set h (revised set e.command ms)

revised-changed :
    (key set : Bytes) (c : Command) (ms : List Bytes)
    → mem key (revised set c ms) ≡ changed key set c (mem key ms)
revised-changed key set (Command.s_add s keys) ms = elim (Bool-cases (bytes_eq s set)) [
  | inl same ↦ rw same (mem-append key ms keys)
  | inr other ↦ rw other refl
]
revised-changed key set (Command.s_rem s k) ms = elim (Bool-cases (bytes_eq s set)) [
  | inl same ↦ rw same (mem-without key k ms)
  | inr other ↦ rw other refl
]
revised-changed key set (Command.del s) ms = elim (Bool-cases (bytes_eq s set)) [
  | inl same ↦ rw same refl
  | inr other ↦ rw other refl
]
revised-changed key set (Command.incr k) ms = refl
revised-changed key set (Command.s_members s) ms = refl
revised-changed key set (Command.set k v t) ms = refl
revised-changed key set (Command.get k) ms = refl
revised-changed key set (Command.l_push k v) ms = refl
revised-changed key set (Command.expire k t) ms = refl

listed-kept :
    (key set : Bytes) (h : List Exchange) (ms : List Bytes)
    → mem key (listed set h ms) ≡ kept key set h (mem key ms)
listed-kept key set [] ms = refl
listed-kept key set (e ∷ h) ms =
    listed-kept key set h _ ∙ ap (kept key set h) (revised-changed key set e.command ms)

abbrev set_server : Server
set_server h (Command.s_members s) = ok (array (listed s h (codes "old" ∷ [])))
set_server h c = ok status

set_server-KeepsSet : (set : Bytes) → KeepsSet set_server set
set_server-KeepsSet set = record {
  initial = λ key. mem key (codes "old" ∷ []);
  holds = λ h key a u e. listed-kept key set h (codes "old" ∷ []);
}

abbrev batch : Bytes
batch = codes "batch"

abbrev three_changes : List SetOperation
three_changes =
    adding (codes "a" ∷ codes "b" ∷ []) ∷ removing (codes "a") ∷ adding (codes "c" ∷ []) ∷ []

no_errors : Succeeds set_server (codes "now") batch three_changes start
unfolding add_to_set remove_from_set delete report_error call
no_errors = (refl, (refl, (refl, tt)))

-- Of `b`, which stays in the set.
get_set_keys-perform_all_example :
    mem
      (codes "b")
      (get_set_keys set_server batch
        (perform_all set_server (codes "now") batch three_changes start)).0
    ≡ contains (codes "b") three_changes (mem (codes "b") (get_set_keys set_server batch start).0)
get_set_keys-perform_all_example =
    get_set_keys-perform_all set_server (codes "now") batch (codes "b") three_changes start
      (set_server-KeepsSet batch) tt tt no_errors refl refl
