-- ===== src/Discovery/Runs.antt =====
-- What the runs of the operation for one peer add to the history.
use libp2p_submission_sequen.Prelude.{
  ℕ, suc, ◌+◌, ◌*◌, ◌≤◌, ◌≡◌, ◌∙◌, refl, sym, ap, arith, Bytes, List, [], ◌∷◌, ◌++◌, Option, none,
  some, length, length-append, All, All-append, append_assoc, Bool-cases, inl, inr,
}
use mathlib.Core.Option.{some-ne-none}
use libp2p_submission_sequen.Backoff.{Attempts, last, again}
use libp2p_submission_sequen.Discovery.{
  Peer, Action, connect, reserve, Contact, History, Host, contact, then_reserve, operation,
}

abbrev pub peer_of : Action → Peer
peer_of (connect p) = p
peer_of (reserve p) = p

abbrev pub ContactsOf : Peer → List Contact → Type 0
ContactsOf peer = All (λ c. peer_of c.action ≡ peer)

-- What one run of the operation adds.
pub record Adds (peer : Peer) (limit : ℕ) (h : History) (result : Option Bytes × History)
    : Type 0 where
  pub added : List Contact
  pub appended : result.1 ≡ h ++ added
  pub only : ContactsOf peer added
  pub few : length added ≤ limit
  pub ends :
      result.0 ≡ none
      → (before : List Contact) × (added
          ≡ before ++ record { action = reserve peer; failure = none } ∷ [])

abbrev pub reserved : Peer → Option Bytes → Contact
reserved peer f = record { action = reserve peer; failure = f }

abbrev connected : Peer → Option Bytes → Contact
connected peer f = record { action = connect peer; failure = f }

reserve-Adds :
    (peer : Peer) (h : History) (f : Option Bytes) → Adds peer 2 h (f, h ++ reserved peer f ∷ [])
reserve-Adds peer h f = record {
  added = reserved peer f ∷ [];
  appended = refl;
  only = (refl, tt);
  few = omega arith;
  ends = λ e. ([], rw e);
}

then_reserve-Adds :
    (host : Host) (peer : Peer) (h : History) (f : Option Bytes)
    → Adds peer 2 h (then_reserve host peer (f, h ++ connected peer f ∷ []))
unfolding contact
then_reserve-Adds host peer h (some e) = record {
  added = connected peer (some e) ∷ [];
  appended = refl;
  only = (refl, tt);
  few = omega arith;
  ends = λ q. absurd (some-ne-none e q);
}
then_reserve-Adds host peer h none =
    let f = host.answer (h ++ connected peer none ∷ []) (reserve peer) in
    record {
      added = connected peer none ∷ reserved peer f ∷ [];
      appended = append_assoc h (connected peer none ∷ []) (reserved peer f ∷ []);
      only = (refl, (refl, tt));
      few = omega arith;
      ends = λ e. (connected peer none ∷ [], rw e);
    }

operation-Adds : (host : Host) (peer : Peer) (h : History) → Adds peer 2 h (operation host peer h)
unfolding operation
operation-Adds host peer h = elim (Bool-cases (host.is_connected h peer)) [
  | inl already ↦ rw already (reserve-Adds peer h _)
  | inr new ↦ rw new (then_reserve-Adds host peer h _)
]

-- A repetition after a failed run: at most two more contacts for each of `n` repetitions.
Adds-again :
    (peer : Peer) (a b : ℕ) (h : History) (first result : Option Bytes × History)
    → Adds peer a h first
    → Adds peer b first.1 result
    → Adds peer (a + b) h result
Adds-again peer a b h first result p q = record {
  added = p.added ++ q.added;
  appended =
      q.appended ∙ ap (λ (t : History). t ++ q.added) p.appended ∙ append_assoc h p.added q.added;
  only = All-append _ p.added q.added p.only q.only;
  few = omega (arith, length-append p.added q.added, p.few, q.few);
  ends = λ e.
      let (before, at_end) = q.ends e in
      (
        p.added ++ before,
        ap (λ (t : History). p.added ++ t) at_end ∙ sym (append_assoc p.added before _),
      );
}

Adds-weaken :
    (peer : Peer) (a b : ℕ) (h : History) (result : Option Bytes × History)
    → a ≤ b
    → Adds peer a h result
    → Adds peer b h result
Adds-weaken peer a b h result le p = record {
  added = p.added;
  appended = p.appended;
  only = p.only;
  few = omega (arith, p.few);
  ends = p.ends;
}

pub Attempts-Adds :
    (host : Host) (peer : Peer) {n : ℕ} {h : History} {result : Option Bytes × History}
    → Attempts (operation host peer) n h result
    → Adds peer (2 * (n + 1)) h result
Attempts-Adds host peer {n} {h} (last e) =
    rw e (Adds-weaken peer 2 (2 * (n + 1)) h _ (omega arith) (operation-Adds host peer h))
Attempts-Adds host peer {h = h} {result = result} (again {n = m} e failed rest) =
    Adds-weaken peer (2 + 2 * (m + 1)) (2 * (suc m + 1)) h result (omega arith) (
      Adds-again peer 2 (2 * (m + 1)) h _ result (operation-Adds host peer h)
        (Attempts-Adds host peer rest))
