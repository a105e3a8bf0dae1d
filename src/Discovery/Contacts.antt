-- ===== src/Discovery/Contacts.antt =====
-- Which peers are contacted, how often, and what is reported.
use libp2p_submission_sequen.Prelude.{◌≤◌, ◌≡◌, List, [], ◌∷◌, ◌++◌, none, length, if◌then◌else◌}
use libp2p_submission_sequen.Backoff.{Retry}
use libp2p_submission_sequen.Discovery.{
  Peer, Contact, History, Host, Retry, Report, reached, unreachable, is_skipped,
}
use libp2p_submission_sequen.Discovery.Runs.{ContactsOf, reserved}

-- The peers that are not skipped, in order.
abbrev pub eligible : Host → List Peer → List Peer
eligible host [] = []
eligible host (peer ∷ peers) =
    if is_skipped host peer then eligible host peers else peer ∷ eligible host peers

abbrev pub reported : Report → Peer
reported (reached p) = p
reported (unreachable p e) = p

-- The report of a peer and the contacts that were made for it. One that is reported as reached
-- granted a slot last.
pub record Visit (peer : Peer) (report : Report) (contacts : List Contact) : Type 0 where
  pub only : ContactsOf peer contacts
  pub few : length contacts ≤ 8
  pub about : reported report ≡ peer
  pub granted :
      report ≡ reached peer
      → (before : List Contact) × (contacts ≡ before ++ reserved peer none ∷ [])

-- One visit for each of the peers, in their order, and no other contact or report.
pub data Visits : List Peer → List Report → List Contact → Type 0 where
  nobody : Visits [] [] []
  visited :
      {peer : Peer} {peers : List Peer} {report : Report} {reports : List Report}
      {contacts rest : List Contact}
      → Visit peer report contacts
      → Visits peers reports rest
      → Visits (peer ∷ peers) (report ∷ reports) (contacts ++ rest)

-- What is added to the history is the visits of the peers that are not skipped.
pub record Visited (host : Host) (peers : List Peer) (h : History) (result : List Report × History)
    : Type 0 where
  pub added : List Contact
  pub appended : result.1 ≡ h ++ added
  pub visits : Visits (eligible host peers) result.0 added
