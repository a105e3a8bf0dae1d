-- ===== src/Contract/Watching.antt =====
-- What a watched event sends to its sink.
use libp2p_submission_sequen.Prelude.{
  ◌≡◌, refl, sym, arith, Bytes, Bool, true, false, List, [], ◌∷◌, ◌++◌, append_assoc, append-nil,
  length, ◌≤◌, Option, none, some, Result, ok, err,
}
use libp2p_submission_sequen.Contract.Event.{
  BoundContract, Raised, Choice, arrived, accepted, subscription_ended, quit, Phase, idle, offering,
  returned, Watch, offer, choose, parse, watch_step, watch_loop,
}

module _ {F W Args Log : Type 0} (contract : BoundContract F W Args Log) (name : Bytes) where
  abbrev offered : Phase Args Log → List (Raised Args Log)
  offered (offering event) = event ∷ []
  offered _ = []

  -- The events that were sent, and the one that is on offer.
  abbrev pub in_hand : Watch Args Log → List (Raised Args Log)
  in_hand w = w.sunk ++ offered w.phase

  abbrev parsed_event : Result Bytes (Raised Args Log) → List (Raised Args Log)
  parsed_event (ok event) = event ∷ []
  parsed_event (err e) = []

  -- The events of the logs that the loop takes: it takes one only while it is idle.
  abbrev taken : Phase Args Log → Choice Log → List (Raised Args Log)
  taken idle (arrived l) = parsed_event (parse contract name l)
  taken _ _ = []

  unfoldable pub taken_by : List (Choice Log) → Watch Args Log → List (Raised Args Log)
  taken_by [] w = []
  taken_by (c ∷ cs) w = taken w.phase c ++ taken_by cs (watch_step contract name c w)

  abbrev state : Phase Args Log → List (Raised Args Log) → Bool → Watch Args Log
  state p sunk u = record { phase = p; sunk = sunk; unsubscribed = u }

  returned_stays :
      (cs : List (Choice Log)) (e : Option Bytes) (sunk : List (Raised Args Log)) (u : Bool)
      → (watch_loop contract name cs (state (returned e) sunk u) ≡ state (returned e) sunk u)
        × (taken_by cs (state (returned e) sunk u) ≡ [])
  unfolding watch_loop watch_step taken_by
  returned_stays [] e sunk u = (refl, refl)
  returned_stays (c ∷ cs) e sunk u = returned_stays cs e sunk u

  -- All but at most one of `wanted` is sent, in order, and no other event.
  abbrev pub Sends : List (Raised Args Log) → Watch Args Log → Type 0
  Sends wanted w = (lost : List (Raised Args Log)) × (w.sunk ++ lost ≡ wanted) × (length lost ≤ 1)

  returns :
      (cs : List (Choice Log)) (p : Phase Args Log) (e : Option Bytes)
      (sunk : List (Raised Args Log)) (u : Bool)
      → length (offered p) ≤ 1
      → Sends
          ((sunk ++ offered p) ++ ([] ++ taken_by cs (state (returned e) sunk u)))
          (watch_loop contract name cs (state (returned e) sunk u))
  returns cs p e sunk u h =
      let (stays, takes) = returned_stays cs e sunk u in
      rw (stays, takes) (offered p, sym (append-nil _), h)

  offered-length : (p : Phase Args Log) → length (offered p) ≤ 1
  offered-length idle = omega arith
  offered-length (offering event) = omega arith
  offered-length (returned e) = omega arith

  after_offer :
      (cs : List (Choice Log)) (l : Log) (sunk : List (Raised Args Log)) (u : Bool)
      (r : Result Bytes (Raised Args Log))
      → ((p : Phase Args Log)
          → Sends
              ((sunk ++ offered p) ++ taken_by cs (state p sunk u))
              (watch_loop contract name cs (state p sunk u)))
      → Sends
          ((sunk ++ []) ++ (parsed_event r ++ taken_by cs (offer contract l (state idle sunk u) r)))
          (watch_loop contract name cs (offer contract l (state idle sunk u) r))
  after_offer cs l sunk u (ok event) ih =
      rw (append-nil sunk, ← append_assoc sunk (event ∷ [])) (ih (offering event))
  after_offer cs l sunk u (err e) ih = returns cs idle (some e) sunk true (omega arith)

  sends :
      (cs : List (Choice Log)) (p : Phase Args Log) (sunk : List (Raised Args Log)) (u : Bool)
      → Sends
          ((sunk ++ offered p) ++ taken_by cs (state p sunk u))
          (watch_loop contract name cs (state p sunk u))
  unfolding watch_loop watch_step taken_by
  sends [] p sunk u = (offered p, sym (append-nil _), offered-length p)
  sends (c ∷ cs) (returned e) sunk u = returns cs (returned e) e sunk u (omega arith)
  sends (arrived l ∷ cs) idle sunk u =
      after_offer cs l sunk u (parse contract name l) (λ p. sends cs p sunk u)
  sends (accepted ∷ cs) idle sunk u = sends cs idle sunk u
  sends (subscription_ended e ∷ cs) idle sunk u = returns cs idle e sunk true (omega arith)
  sends (quit ∷ cs) idle sunk u = returns cs idle none sunk true (omega arith)
  sends (arrived l ∷ cs) (offering event) sunk u = sends cs (offering event) sunk u
  sends (accepted ∷ cs) (offering event) sunk u =
      rw (append-nil (sunk ++ event ∷ [])) at (sends cs idle (sunk ++ event ∷ []) u)
  sends (subscription_ended e ∷ cs) (offering event) sunk u =
      returns cs (offering event) e sunk true (omega arith)
  sends (quit ∷ cs) (offering event) sunk u =
      returns cs (offering event) none sunk true (omega arith)

  -- From any state the loop of a subscription sends the event on offer and those of the logs that
  -- it takes, in order, all but at most the last.
  pub watch_loop-Sends :
      (cs : List (Choice Log)) (w : Watch Args Log)
      → Sends (in_hand w ++ taken_by cs w) (watch_loop contract name cs w)
  watch_loop-Sends cs w = sends cs w.phase w.sunk w.unsubscribed

  -- Whether the loop has returned.
  abbrev pub has_returned : Phase Args Log → Bool
  has_returned (returned e) = true
  has_returned _ = false

  offer-unsubscribed :
      (l : Log) (w : Watch Args Log) (r : Result Bytes (Raised Args Log))
      → w.unsubscribed ≡ false
      → (offer contract l w r).unsubscribed ≡ has_returned (offer contract l w r).phase
  offer-unsubscribed l w (ok event) h = h
  offer-unsubscribed l w (err e) h = refl

  choose-unsubscribed :
      (p : Phase Args Log) (c : Choice Log) (sunk : List (Raised Args Log)) (u : Bool)
      → u ≡ has_returned p
      → (choose contract name p c (state p sunk u)).unsubscribed
        ≡ has_returned (choose contract name p c (state p sunk u)).phase
  choose-unsubscribed (returned e) c sunk u h = h
  choose-unsubscribed idle (arrived l) sunk u h =
      offer-unsubscribed l (state idle sunk u) (parse contract name l) h
  choose-unsubscribed idle accepted sunk u h = h
  choose-unsubscribed idle (subscription_ended e) sunk u h = refl
  choose-unsubscribed idle quit sunk u h = refl
  choose-unsubscribed (offering event) (arrived l) sunk u h = h
  choose-unsubscribed (offering event) accepted sunk u h = h
  choose-unsubscribed (offering event) (subscription_ended e) sunk u h = refl
  choose-unsubscribed (offering event) quit sunk u h = refl

  -- If the subscription is given up exactly when its loop has returned, this stays so over any
  -- choices.
  pub watch_loop-unsubscribed :
      (cs : List (Choice Log)) (w : Watch Args Log)
      → w.unsubscribed ≡ has_returned w.phase
      → (watch_loop contract name cs w).unsubscribed
        ≡ has_returned (watch_loop contract name cs w).phase
  unfolding watch_loop watch_step
  watch_loop-unsubscribed [] w h = h
  watch_loop-unsubscribed (c ∷ cs) w h =
      watch_loop-unsubscribed cs _ (choose-unsubscribed w.phase c w.sunk w.unsubscribed h)
