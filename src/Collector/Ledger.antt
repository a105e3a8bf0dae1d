-- ===== src/Collector/Ledger.antt =====
-- The counts over all streams, however their commands are interleaved.
use libp2p_submission_sequen.Prelude.{
  append-nil, ℕ, ◌+◌, ◌≤◌, ◌≡◌, refl, ap, arith, Bytes, List, [], ◌∷◌, ◌++◌, ok, err, All, length,
  length-append,
}
use libp2p_submission_sequen.Redis.Server.{exchange, Command, Reply, Exchange, Server}
use libp2p_submission_sequen.Collector.{Codec}
use libp2p_submission_sequen.Collector.Observed.{
  gather, gather-append, accepted, incremented, expiring, acknowledged, increments, expirations,
}
use libp2p_submission_sequen.Collector.Program.{Program, sends}
use libp2p_submission_sequen.Collector.System.{
  IsDone, done, System, Moved, here, there, Step, opened, moved, Reach, at_start, later, at_rest,
}
use libp2p_submission_sequen.Collector.Debts.{
  total, total-append, Owes, settled, given_up, pushing, counting, limiting, Owed, nothing, also,
  stream-Owes,
}

-- What one exchange does to the debts of the programs that are left.
record Paid (qs : List Program) (a : ℕ) (ks : List Bytes) (e : Exchange) : Type 0 where
  debt : ℕ
  keys : List Bytes
  owed : Owed qs debt keys
  counted : a + length (accepted e) ≡ debt + length (incremented e)
  limited :
      (f : Bytes → ℕ) → total f ks + total f (incremented e) ≡ total f keys + total f (expiring e)

paying :
    {c : Command} {k : Reply → Program} {ps : List Program} {a b : ℕ} {ks js : List Bytes}
    → Owes (sends c k) a ks
    → Owed ps b js
    → (r : Reply) → Paid (k r ∷ ps) (a + b) (ks ++ js) (exchange c r)
paying {b = b} {js = js} (pushing h) rest (ok v) = record {
  debt = 1 + b;
  keys = js;
  owed = also (h (ok v)) rest;
  counted = omega arith;
  limited = λ f. omega arith;
}
paying {b = b} {js = js} (pushing h) rest (err e) = record {
  debt = 0 + b;
  keys = js;
  owed = also (h (err e)) rest;
  counted = omega arith;
  limited = λ f. omega arith;
}
paying {b = b} {js = js} (counting {key = key} h) rest r = record {
  debt = 0 + b;
  keys = key ∷ js;
  owed = also (h r) rest;
  counted = ground arith;
  limited = λ f. omega arith;
}
paying {b = b} {js = js} (limiting h) rest r = record {
  debt = 0 + b;
  keys = js;
  owed = also (h r) rest;
  counted = ground arith;
  limited = λ f. omega arith;
}

Moved-Paid :
    {c : Command} {r : Reply} {ps qs : List Program} {a : ℕ} {ks : List Bytes}
    → Owed ps a ks
    → Moved c r ps qs
    → Paid qs a ks (exchange c r)
Moved-Paid nothing m = elim m [ ]
Moved-Paid {r = r} (also p rest) here = paying p rest r
Moved-Paid (also {a = a} {ks = ks} {js = js} p rest) (there m) =
    let paid = Moved-Paid rest m in
    record {
      debt = a + paid.debt;
      keys = ks ++ paid.keys;
      owed = also p paid.owed;
      counted = omega (arith, paid.counted);
      limited =
          λ f. omega (arith, paid.limited f, total-append f ks js, total-append f ks paid.keys);
    }

-- The ledger: what is owed is what the exchanges lack.
record Ledger (s : System) : Type 0 where
  debt : ℕ
  keys : List Bytes
  owed : Owed s.programs debt keys
  counted : length (acknowledged s.history) ≡ length (increments s.history) + debt
  limited :
      (f : Bytes → ℕ)
      → total f (increments s.history) ≡ total f (expirations s.history) + total f keys

length-gather :
    (f : Exchange → List Bytes) (h : List Exchange) (e : Exchange)
    → length (gather f (h ++ e ∷ [])) ≡ length (gather f h) + length (f e)
length-gather f h e = omega (
  arith,
  ap length (gather-append f h (e ∷ [])),
  length-append (gather f h) (f e ++ []),
  ap length (append-nil (f e)),
)

total-gather :
    (w : Bytes → ℕ) (f : Exchange → List Bytes) (h : List Exchange) (e : Exchange)
    → total w (gather f (h ++ e ∷ [])) ≡ total w (gather f h) + total w (f e)
total-gather w f h e = omega (
  arith,
  ap (total w) (gather-append f h (e ∷ [])),
  total-append w (gather f h) (f e ++ []),
  ap (total w) (append-nil (f e)),
)

Step-Ledger :
    {codec : Codec} {server : Server} {s t : System} → Step codec server s t → Ledger s → Ledger t
Step-Ledger {codec} (opened reads) l = record {
  debt = 0 + l.debt;
  keys = l.keys;
  owed = also (stream-Owes codec reads) l.owed;
  counted = omega (arith, l.counted);
  limited = l.limited;
}
Step-Ledger {server = server} {s = s} (moved {c = c} alive m) l =
    let paid = Moved-Paid l.owed m in
    let e = exchange c (server s.history c) in
    record {
      debt = paid.debt;
      keys = paid.keys;
      owed = paid.owed;
      counted = omega (
        arith,
        l.counted,
        paid.counted,
        length-gather accepted s.history e,
        length-gather incremented s.history e,
      );
      limited = λ f. omega (
        arith,
        l.limited f,
        paid.limited f,
        total-gather f incremented s.history e,
        total-gather f expiring s.history e,
      );
    }

Reach-Ledger :
    {codec : Codec} {server : Server} {s : System} → Reach codec server (at_rest []) s → Ledger s
Reach-Ledger at_start = record {
  debt = 0;
  keys = [];
  owed = nothing;
  counted = omega arith;
  limited = λ f. omega arith;
}
Reach-Ledger (later r st) = Step-Ledger st (Reach-Ledger r)

Owes-few : {p : Program} {a : ℕ} {ks : List Bytes} → Owes p a ks → a ≤ 1
Owes-few settled = omega arith
Owes-few given_up = omega arith
Owes-few (pushing h) = omega arith
Owes-few (counting h) = omega arith
Owes-few (limiting h) = omega arith

Owed-few : {ps : List Program} {a : ℕ} {ks : List Bytes} → Owed ps a ks → a ≤ length ps
Owed-few nothing = omega arith
Owed-few (also p rest) = omega (arith, Owes-few p, Owed-few rest)

Owes-done : {p : Program} {a : ℕ} {ks : List Bytes} → Owes p a ks → IsDone p → (a ≡ 0) × (ks ≡ [])
Owes-done settled (done h) = (refl, refl)
Owes-done given_up (done h) = absurd (h refl)
Owes-done (pushing _) d = elim d [ ]
Owes-done (counting _) d = elim d [ ]
Owes-done (limiting _) d = elim d [ ]

Owed-done :
    {ps : List Program} {a : ℕ} {ks : List Bytes}
    → Owed ps a ks
    → All IsDone ps
    → (a ≡ 0) × (ks ≡ [])
Owed-done nothing d = (refl, refl)
Owed-done (also p rest) (d, ds) =
    let (a, ks) = Owes-done p d in
    let (b, js) = Owed-done rest ds in (omega (arith, a, b), rw (ks, js) refl)

-- The counts of a system: `total` for any weight of the keys, such as one that picks out a key.
pub record Counted (s : System) : Type 0 where
  pub at_most : length (increments s.history) ≤ length (acknowledged s.history)
  pub behind : length (acknowledged s.history) ≤ length (increments s.history) + length s.programs
  pub limited :
      (weight : Bytes → ℕ)
      → total weight (expirations s.history) ≤ total weight (increments s.history)
  pub settled_up :
      All IsDone s.programs
      → (length (increments s.history) ≡ length (acknowledged s.history))
        × ((weight : Bytes → ℕ)
            → total weight (expirations s.history) ≡ total weight (increments s.history))

-- However the commands of any streams are interleaved, whenever they are opened and whatever the
-- server answers, a process that started without streams has never sent more increments than pushes
-- were acknowledged, is behind by at most one for each of its streams, has never sent more
-- expirations of a counter than increments of it, and, when no stream crashed and all are done, has
-- sent as many of each.
pub Reach-Counted :
    {codec : Codec} {server : Server} {s : System} → Reach codec server (at_rest []) s → Counted s
Reach-Counted r =
    let l = Reach-Ledger r in
    record {
      at_most = omega (arith, l.counted);
      behind = omega (arith, l.counted, Owed-few l.owed);
      limited = λ f. omega (arith, l.limited f);
      settled_up = λ d.
          let (a, ks) = Owed-done l.owed d in
          (omega (arith, l.counted, a), λ f. omega (arith, l.limited f, ap (total f) ks));
    }
