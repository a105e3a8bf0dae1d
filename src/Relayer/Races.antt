-- ===== src/Relayer/Races.antt =====
-- The count of connections when callbacks of the network run at a time: `++` and `--` read the
-- count and store it changed, with no lock, so that others may read and store it between.
use libp2p_submission_sequen.Prelude.{
  ℕ, zero, suc, ◌+◌, ◌<◌, ◌≤◌, ◌≡◌, arith, List, [], ◌∷◌, ◌++◌, Option, none, some, All, All-append,
}
use libp2p_submission_sequen.Golang.Decimal.{ℤ, pos, negsuc}
use libp2p_submission_sequen.Relayer.{
  int_limit, handle_connection_established, handle_connection_closed,
}
use libp2p_submission_sequen.Relayer.Connections.{
  Notice, established, closed, changed_by, opened, ended,
}

-- A callback reads the count, or one of those that have read it, by its place among them, stores
-- what it made of it.
pub data Event : Type 0 where
  loads : Notice → Event
  stores : ℕ → Event

pub record Shared : Type 0 where
  pub count : ℤ
  pub unstored : List ℤ

abbrev put_back : ℤ → Option (ℤ × List ℤ) → Option (ℤ × List ℤ)
put_back z none = none
put_back z (some (y, zs)) = some (y, z ∷ zs)

-- The value at a place, and the others.
unfoldable pub taken_out : ℕ → List ℤ → Option (ℤ × List ℤ)
taken_out n [] = none
taken_out zero (z ∷ zs) = some (z, zs)
taken_out (suc n) (z ∷ zs) = put_back z (taken_out n zs)

abbrev stored : Shared → Option (ℤ × List ℤ) → Shared
stored s none = s
stored s (some (z, zs)) = record { count = z; unstored = zs }

unfoldable pub race_step : Event → Shared → Shared
race_step (loads notice) s = record {
  count = s.count;
  unstored = s.unstored ++ changed_by notice s.count ∷ [];
}
race_step (stores n) s = stored s (taken_out n s.unstored)

unfoldable pub race : List Event → Shared → Shared
race [] s = s
race (event ∷ events) s = race events (race_step event s)

abbrev pub idle : Shared
idle = record { count = pos 0; unstored = [] }

-- The notices of the callbacks that have read the count.
abbrev pub noticed : List Event → List Notice
noticed [] = []
noticed (loads notice ∷ events) = notice ∷ noticed events
noticed (stores n ∷ events) = noticed events

-- At most `a`, and at least `b` below zero.
abbrev pub Within : ℕ → ℕ → ℤ → Type 0
Within a b (pos n) = n ≤ a
Within a b (negsuc n) = n < b

abbrev AreWithin : ℕ → ℕ → Shared → Type 0
AreWithin a b s = Within a b s.count × All (Within a b) s.unstored

wider : (a b a' b' : ℕ) → a ≤ a' → b ≤ b' → (z : ℤ) → Within a b z → Within a' b' z
wider a b a' b' more_up more_down (pos n) h = omega arith
wider a b a' b' more_up more_down (negsuc n) h = omega arith

All-wider :
    (a b a' b' : ℕ) → a ≤ a' → b ≤ b' → (zs : List ℤ) → All (Within a b) zs → All (Within a' b') zs
All-wider a b a' b' more_up more_down [] h = h
All-wider a b a' b' more_up more_down (z ∷ zs) (h, hs) =
    (wider a b a' b' more_up more_down z h, All-wider a b a' b' more_up more_down zs hs)

established-Within :
    (a b : ℕ) (z : ℤ)
    → suc a < int_limit
    → Within a b z
    → Within (suc a) b (handle_connection_established z)
unfolding handle_connection_established
established-Within a b (pos n) fits h = ground arith
established-Within a b (negsuc zero) fits h = omega arith
established-Within a b (negsuc (suc n)) fits h = omega arith

closed-Within :
    (a b : ℕ) (z : ℤ)
    → suc b < int_limit
    → Within a b z
    → Within a (suc b) (handle_connection_closed z)
unfolding handle_connection_closed
closed-Within a b (pos zero) fits h = omega arith
closed-Within a b (pos (suc n)) fits h = omega arith
closed-Within a b (negsuc n) fits h = ground arith

abbrev TakenAll : (ℤ → Type 0) → Option (ℤ × List ℤ) → Type 0
TakenAll P none = Unit
TakenAll P (some (y, ys)) = P y × All P ys

put_back-All :
    (P : ℤ → Type 0) (z : ℤ) (taken : Option (ℤ × List ℤ))
    → P z
    → TakenAll P taken
    → TakenAll P (put_back z taken)
put_back-All P z none h hs = tt
put_back-All P z (some (y, ys)) h (here, hs) = (here, (h, hs))

taken_out-All : (P : ℤ → Type 0) (n : ℕ) (zs : List ℤ) → All P zs → TakenAll P (taken_out n zs)
unfolding taken_out
taken_out-All P n [] h = tt
taken_out-All P zero (z ∷ zs) h = h
taken_out-All P (suc n) (z ∷ zs) (h, hs) =
    put_back-All P z (taken_out n zs) h (taken_out-All P n zs hs)

stored-AreWithin :
    (a b : ℕ) (s : Shared) (taken : Option (ℤ × List ℤ))
    → AreWithin a b s
    → TakenAll (Within a b) taken
    → AreWithin a b (stored s taken)
stored-AreWithin a b s none h t = h
stored-AreWithin a b s (some (z, zs)) h t = t

race_from :
    (events : List Event) (s : Shared) (a b all_opened all_ended : ℕ)
    → AreWithin a b s
    → a + opened (noticed events) ≡ all_opened
    → b + ended (noticed events) ≡ all_ended
    → all_opened < int_limit
    → all_ended < int_limit
    → Within all_opened all_ended (race events s).count
unfolding race race_step
race_from [] s a b up' down' (h, hs) up down few_opened few_ended =
    wider a b up' down' (omega (arith, up)) (omega (arith, down)) s.count h
race_from (stores n ∷ events) s a b up' down' (h, hs) up down few_opened few_ended =
    race_from events (race_step (stores n) s) a b up' down'
      (stored-AreWithin a b s (taken_out n s.unstored) (h, hs)
        (taken_out-All (Within a b) n s.unstored hs))
      up down few_opened few_ended
race_from (loads established ∷ events) s a b up' down' (h, hs) up down few_opened few_ended =
    race_from events (race_step (loads established) s) (suc a) b up' down'
      (
        wider a b (suc a) b (omega arith) (omega arith) s.count h,
        All-append _ s.unstored _
            (All-wider a b (suc a) b (omega arith) (omega arith) s.unstored hs)
            (established-Within a b s.count (omega (arith, up)) h, tt),
      )
      (omega (arith, up)) down few_opened few_ended
race_from (loads closed ∷ events) s a b up' down' (h, hs) up down few_opened few_ended =
    race_from events (race_step (loads closed) s) a (suc b) up' down'
      (
        wider a b a (suc b) (omega arith) (omega arith) s.count h,
        All-append _ s.unstored _
            (All-wider a b a (suc b) (omega arith) (omega arith) s.unstored hs)
            (closed-Within a b s.count (omega (arith, down)) h, tt),
      )
      up (omega (arith, down)) few_opened few_ended

-- However the callbacks read the count and later store what they made of it, with fewer than 2 to
-- the 63 connections opened and as few closed, the count, from 0 on, is at most the number of the
-- connections opened and at least the negative of that of the closed ones.
pub race-Within :
    (events : List Event)
    → opened (noticed events) < int_limit
    → ended (noticed events) < int_limit
    → Within (opened (noticed events)) (ended (noticed events)) (race events idle).count
race-Within events few_opened few_ended =
    race_from events idle 0 0 (opened (noticed events)) (ended (noticed events)) (omega arith, tt)
      (omega arith) (omega arith) few_opened few_ended
