-- ===== src/Relayer/Connections.antt =====
-- The count of connections over the notices of the network, one after the other.
use libp2p_submission_sequen.Prelude.{
  ℕ, zero, suc, ◌+◌, ◌<◌, ◌≡◌, ◌∙◌, refl, ap, ap₂, arith, List, [], ◌∷◌,
}
use libp2p_submission_sequen.Golang.Decimal.{ℤ, pos, negsuc}
use libp2p_submission_sequen.Relayer.{
  int_limit, handle_connection_established, handle_connection_closed,
}

pub data Notice : Type 0 where
  established closed : Notice

abbrev pub changed_by : Notice → ℤ → ℤ
changed_by established = handle_connection_established
changed_by closed = handle_connection_closed

unfoldable pub count_after : List Notice → ℤ → ℤ
count_after [] n = n
count_after (notice ∷ notices) n = count_after notices (changed_by notice n)

abbrev pub opened : List Notice → ℕ
opened [] = 0
opened (established ∷ notices) = suc (opened notices)
opened (closed ∷ notices) = opened notices

abbrev pub ended : List Notice → ℕ
ended [] = 0
ended (established ∷ notices) = ended notices
ended (closed ∷ notices) = suc (ended notices)

-- The first number less the second.
abbrev pub difference : ℕ → ℕ → ℤ
difference a zero = pos a
difference zero (suc b) = negsuc b
difference (suc a) (suc b) = difference a b

established-difference :
    (a b : ℕ)
    → suc a < int_limit
    → handle_connection_established (difference a b) ≡ difference (suc a) b
unfolding handle_connection_established
established-difference a zero fits = ground arith
established-difference zero (suc zero) fits = refl
established-difference zero (suc (suc b)) fits = refl
established-difference (suc a) (suc b) fits = established-difference a b (omega arith)

closed-difference :
    (a b : ℕ) → suc b < int_limit → handle_connection_closed (difference a b) ≡ difference a (suc b)
unfolding handle_connection_closed
closed-difference zero zero fits = refl
closed-difference (suc a) zero fits = refl
closed-difference zero (suc b) fits = ground arith
closed-difference (suc a) (suc b) fits = closed-difference a b (omega arith)

count_after_from :
    (notices : List Notice) (a b all_opened all_ended : ℕ)
    → a + opened notices ≡ all_opened
    → b + ended notices ≡ all_ended
    → all_opened < int_limit
    → all_ended < int_limit
    → count_after notices (difference a b) ≡ difference all_opened all_ended
unfolding count_after
count_after_from [] a b all_opened all_ended up down few_opened few_ended =
    let up' : a ≡ all_opened = omega (arith, up) in
    let down' : b ≡ all_ended = omega (arith, down) in ap₂ difference up' down'
count_after_from (established ∷ notices) a b all_opened all_ended up down few_opened few_ended =
    ap (count_after notices) (established-difference a b (omega (arith, up)))
    ∙ count_after_from notices (suc a) b all_opened all_ended (omega (arith, up)) down few_opened
        few_ended
count_after_from (closed ∷ notices) a b all_opened all_ended up down few_opened few_ended =
    ap (count_after notices) (closed-difference a b (omega (arith, down)))
    ∙ count_after_from notices a (suc b) all_opened all_ended up (omega (arith, down)) few_opened
        few_ended

-- Callbacks that come one after the other, in any order, with fewer than 2 to the 63 connections
-- opened and as few closed, leave as the count, from 0 on, the connections opened less those
-- closed, which may be negative.
pub count_after-difference :
    (notices : List Notice)
    → opened notices < int_limit
    → ended notices < int_limit
    → count_after notices (pos 0) ≡ difference (opened notices) (ended notices)
count_after-difference notices few_opened few_ended =
    count_after_from notices 0 0 (opened notices) (ended notices) (omega arith) (omega arith)
      few_opened few_ended
