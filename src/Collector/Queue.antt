-- ===== src/Collector/Queue.antt =====
-- What a stream puts into the queue, and how often it counts.
use libp2p_submission_sequen.Prelude.{
  ◌≡◌, ◌≢◌, ◌∙◌, refl, sym, ap, Bytes, List, [], ◌∷◌, ◌++◌, append_assoc, append-nil, All,
}
use libp2p_submission_sequen.Redis.Server.{Exchange, World, Server}
use libp2p_submission_sequen.Collector.{Codec, Exit, waiting, crashed, Read, handle_stream}
use libp2p_submission_sequen.Collector.Round.{
  Wanted, Round, skipped, malformed, refused, unnamed, counted,
}
use libp2p_submission_sequen.Collector.Observed.{
  gather-append, pushes, entries, Fits, Streamed, handle_stream-Streamed,
}

abbrev pub jsons : List Wanted → List Bytes
jsons [] = []
jsons (w ∷ wanted) = w.json ∷ jsons wanted

jsons-append : (a b : List Wanted) → jsons (a ++ b) ≡ jsons a ++ jsons b
jsons-append [] b = refl
jsons-append (w ∷ a) b = ap (λ (t : List Bytes). w.json ∷ t) (jsons-append a b)

-- The pushed entries are a prefix of those wanted, and all of them unless the handler crashed.
pub record InOrder (exit : Exit) (wanted : List Wanted) (added : List Exchange) : Type 0 where
  pub left : List Bytes
  pub prefix : pushes added ++ left ≡ jsons wanted
  pub complete : exit ≢ crashed → left ≡ []

Round-InOrder :
    (exit : Exit) (wanted : List Wanted) (added : List Exchange)
    → Round exit wanted added
    → InOrder exit wanted added
Round-InOrder exit wanted added (skipped e h a) = record {
  left = [];
  prefix = rw (h, a);
  complete = λ _. refl;
}
Round-InOrder exit wanted added (malformed e h a) = record {
  left = [];
  prefix = rw (h, a);
  complete = λ _. refl;
}
Round-InOrder exit wanted added (refused _ _ _ e h a) = record {
  left = [];
  prefix = rw (h, a);
  complete = λ _. refl;
}
Round-InOrder exit wanted added (unnamed _ _ e h a) = record {
  left = [];
  prefix = rw (h, a);
  complete = λ _. refl;
}
Round-InOrder exit wanted added (counted _ _ _ _ _ e h a) = record {
  left = [];
  prefix = rw (h, a);
  complete = λ _. refl;
}

all_pushed : (a : List Wanted) (xs : List Exchange) → InOrder waiting a xs → pushes xs ≡ jsons a
all_pushed a xs p =
    let none_left = p.complete (λ e. cc) in
    sym (append-nil (pushes xs))
    ∙ ap (λ (t : List Bytes). pushes xs ++ t) (sym none_left)
    ∙ p.prefix

InOrder-append :
    (exit : Exit) (a b : List Wanted) (xs ys : List Exchange)
    → InOrder waiting a xs
    → InOrder exit b ys
    → InOrder exit (a ++ b) (xs ++ ys)
InOrder-append exit a b xs ys p q = record {
  left = q.left;
  prefix =
      ap (λ (t : List Bytes). t ++ q.left) (gather-append _ xs ys)
      ∙ append_assoc (pushes xs) (pushes ys) q.left
      ∙ ap (λ (t : List Bytes). pushes xs ++ t) q.prefix
      ∙ ap (λ (t : List Bytes). t ++ jsons b) (all_pushed a xs p)
      ∙ sym (jsons-append a b);
  complete = q.complete;
}

InOrder-cut :
    (a b : List Wanted) (xs : List Exchange) → InOrder crashed a xs → InOrder crashed (a ++ b) xs
InOrder-cut a b xs p = record {
  left = p.left ++ jsons b;
  prefix =
      sym (append_assoc (pushes xs) p.left (jsons b))
      ∙ ap (λ (t : List Bytes). t ++ jsons b) p.prefix
      ∙ sym (jsons-append a b);
  complete = λ h. absurd (h refl);
}

-- For reads of at most a buffer and whatever the server answers, the entries that a stream pushes
-- are, in the order of its reads, a prefix of the entries that the reads before the first error ask
-- for, and all of them unless the handler crashed; the stream only appends exchanges and raises no
-- alert.
pub handle_stream-InOrder :
    (codec : Codec) (server : Server) (reads : List Read) (w : World)
    → All Fits reads
    → Streamed InOrder w (entries codec reads) (handle_stream codec server reads w)
handle_stream-InOrder codec server =
    handle_stream-Streamed InOrder Round-InOrder
      (λ exit. record { left = []; prefix = refl; complete = λ _. refl }) InOrder-append InOrder-cut
      codec server
