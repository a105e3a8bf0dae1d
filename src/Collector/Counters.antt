-- ===== src/Collector/Counters.antt =====
-- How often a stream counts, against the pushes that the server acknowledged.
use mathlib.Core.Path.{subst}
use libp2p_submission_sequen.Prelude.{
  ◌≡◌, ◌≢◌, ◌∙◌, ◌≤◌, ◌+◌, refl, sym, ap, ap₂, arith, Bytes, List, [], ◌∷◌, ◌++◌, some, append-nil,
  All, length, length-append,
}
use libp2p_submission_sequen.Redis.Server.{Exchange, World, Server}
use libp2p_submission_sequen.Collector.{Codec, Exit, waiting, crashed, Read, handle_stream}
use libp2p_submission_sequen.Collector.Round.{
  Wanted, Round, skipped, malformed, refused, unnamed, counted,
}
use libp2p_submission_sequen.Collector.Observed.{
  gather-append, accepted, incremented, expiring, acknowledged, increments, expirations, entries,
  Fits, Streamed, handle_stream-Streamed,
}

-- Keys that are, in their order, counters of some of the entries.
pub data Within : List Bytes → List Wanted → Type 0 where
  nothing : Within [] []
  skip : {ks : List Bytes} {ws : List Wanted} (x : Wanted) → Within ks ws → Within ks (x ∷ ws)
  keep :
      {ks : List Bytes} {ws : List Wanted} (k : Bytes) (x : Wanted)
      → x.counter ≡ some k
      → Within ks ws
      → Within (k ∷ ks) (x ∷ ws)

Within-append :
    {ks js : List Bytes} {a b : List Wanted}
    → Within ks a
    → Within js b
    → Within (ks ++ js) (a ++ b)
Within-append nothing q = q
Within-append (skip x p) q = skip x (Within-append p q)
Within-append (keep k x e p) q = keep k x e (Within-append p q)

Within-nil : (ws : List Wanted) → Within [] ws
Within-nil [] = nothing
Within-nil (x ∷ ws) = skip x (Within-nil ws)

-- Every increment has its expiration, in the same order; there are as many as acknowledged pushes,
-- or one less if the handler crashed.
pub record Balanced (exit : Exit) (added : List Exchange) : Type 0 where
  pub expiring : increments added ≡ expirations added
  pub at_most : length (increments added) ≤ length (acknowledged added)
  pub but_one : length (acknowledged added) ≤ length (increments added) + 1
  pub exact : exit ≢ crashed → length (acknowledged added) ≡ length (increments added)

abbrev pub BalancedFor : Exit → List Wanted → List Exchange → Type 0
BalancedFor exit wanted added = Balanced exit added × Within (increments added) wanted

Round-Balanced :
    (exit : Exit) (wanted : List Wanted) (added : List Exchange)
    → Round exit wanted added
    → Balanced exit added
Round-Balanced exit wanted added (skipped e h a) = rw a (ground arith)
Round-Balanced exit wanted added (malformed e h a) = rw a (ground arith)
Round-Balanced exit wanted added (refused _ _ _ e h a) = rw a (ground arith)
Round-Balanced exit wanted added (unnamed _ _ e h a) = rw a (ground arith)
Round-Balanced exit wanted added (counted _ _ _ _ _ e h a) = rw a (ground arith)

Round-Within :
    (exit : Exit) (wanted : List Wanted) (added : List Exchange)
    → Round exit wanted added
    → Within (increments added) wanted
Round-Within exit wanted added (skipped e h a) = rw (a, h) nothing
Round-Within exit wanted added (malformed e h a) = rw (a, h) nothing
Round-Within exit wanted added (refused _ _ _ e h a) = rw (a, h) (skip _ nothing)
Round-Within exit wanted added (unnamed _ _ e h a) = rw (a, h) (skip _ nothing)
Round-Within exit wanted added (counted _ key _ _ _ e h a) = rw (a, h) (keep key _ refl nothing)

Balanced-append :
    (exit : Exit) (xs ys : List Exchange)
    → Balanced waiting xs
    → Balanced exit ys
    → Balanced exit (xs ++ ys)
Balanced-append exit xs ys p q =
    let i = gather-append incremented xs ys in
    let e = gather-append expiring xs ys in
    let n = ap length (gather-append accepted xs ys) in
    let m = ap length i in
    let n' = length-append (acknowledged xs) (acknowledged ys) in
    let m' = length-append (increments xs) (increments ys) in
    let x = p.exact (λ e. cc) in
    record {
      expiring = i ∙ ap₂ (λ (s t : List Bytes). s ++ t) p.expiring q.expiring ∙ sym e;
      at_most = omega (arith, n, m, n', m', p.at_most, q.at_most);
      but_one = omega (arith, n, m, n', m', x, q.but_one);
      exact = λ h. omega (arith, n, m, n', m', x, q.exact h);
    }

BalancedFor-append :
    (exit : Exit) (a b : List Wanted) (xs ys : List Exchange)
    → BalancedFor waiting a xs
    → BalancedFor exit b ys
    → BalancedFor exit (a ++ b) (xs ++ ys)
BalancedFor-append exit a b xs ys p q = (
  Balanced-append exit xs ys p.0 q.0,
  subst (λ (t : List Bytes). Within t (a ++ b)) (sym (gather-append incremented xs ys))
      (Within-append p.1 q.1),
)

BalancedFor-cut :
    (a b : List Wanted) (xs : List Exchange)
    → BalancedFor crashed a xs
    → BalancedFor crashed (a ++ b) xs
BalancedFor-cut a b xs p = (
  p.0,
  subst (λ (t : List Bytes). Within t (a ++ b)) (append-nil (increments xs))
      (Within-append p.1 (Within-nil b)),
)

-- For reads of at most a buffer, every increment of a stream has its expiration, in the same order;
-- there are as many as acknowledged pushes, or one less if the handler crashed; and the keys are
-- counters of the entries asked for, in order.
pub handle_stream-Balanced :
    (codec : Codec) (server : Server) (reads : List Read) (w : World)
    → All Fits reads
    → Streamed BalancedFor w (entries codec reads) (handle_stream codec server reads w)
handle_stream-Balanced codec server =
    handle_stream-Streamed BalancedFor
      (λ exit wanted added r.
        (Round-Balanced exit wanted added r, Round-Within exit wanted added r))
      (λ exit. (ground arith, nothing)) BalancedFor-append BalancedFor-cut codec server
