-- ===== src/Turn/Counted.antt =====
-- api/turns.ts: how often the operations settle the promise of `completion`.
use t3code_client.Prelude.{
  ℕ, zero, suc, ◌+◌, Bool, true, false, Option, none, some, List, [], ◌∷◌, ◌++◌, ◌≡◌, inl, inr,
  refl, tally, arith, Option-cases,
}
use t3code_client.Errors.{T3Error}
use t3code_client.Channel.{Effect}
use t3code_client.Thread.Derived.{TurnOutcome}
use t3code_client.Thread.Tracker.{Item, assistant_delta, requested, request_resolved, turn_settled}
use t3code_client.Thread.Watch.{
  WatchItem, snapshot, synchronized, event, derived, decode_error, reconnected,
}
use t3code_client.Turn.Served.{AllServed}
use t3code_client.Turn.Adoption.{seed}
use t3code_client.Turn.Handle.{
  Consumer, Subscriber, Act, resolved, rejected, interrupts_run, serves, Phase, idle, reading,
  breaking, over, Turn, at_place, each_one, each_from, each, settle_turn, fail, track,
  settle_seeded, track_derived,
}

-- How often the promise of `completion` was settled.
abbrev pub settlements : List Act → ℕ
settlements [] = 0
settlements (resolved o ∷ acts) = 1 + settlements acts
settlements (rejected e ∷ acts) = 1 + settlements acts
settlements (interrupts_run r ∷ acts) = settlements acts
settlements (serves i es ∷ acts) = settlements acts

pub settlements-append :
    (acts bs : List Act) → settlements (acts ++ bs) ≡ settlements acts + settlements bs
settlements-append [] bs = omega arith
settlements-append (resolved o ∷ acts) bs = omega (arith, settlements-append acts bs)
settlements-append (rejected e ∷ acts) bs = omega (arith, settlements-append acts bs)
settlements-append (interrupts_run r ∷ acts) bs = settlements-append acts bs
settlements-append (serves i es ∷ acts) bs = settlements-append acts bs

-- Whether the loop of `#run` was left.
abbrev pub left_loop : Phase → Bool
left_loop idle = false
left_loop reading = false
left_loop breaking = true
left_loop over = true

abbrev pub is_over : Phase → Bool
is_over idle = false
is_over reading = false
is_over breaking = false
is_over over = true

abbrev pub Op : Type 0
Op = Consumer → Consumer × List (Effect WatchItem T3Error)

pub settlements-at_place :
    (f : Op) (i k : ℕ) (ss : List Subscriber) → settlements (at_place f i k ss).1 ≡ 0
settlements-at_place f i k [] = refl
settlements-at_place f i zero (s ∷ ss) = refl
settlements-at_place f i (suc k) (s ∷ ss) = settlements-at_place f i k ss

settlements-each_one :
    (f : Op) (keeps : Bool) (i : ℕ) (a : Bool) (c : Consumer)
    → settlements (each_one f keeps i a c).1 ≡ 0
settlements-each_one f keeps i true c = refl
settlements-each_one f keeps i false c = refl

settlements-each_from :
    (f : Op) (keeps : Bool) (i : ℕ) (ss : List Subscriber)
    → settlements (each_from f keeps i ss).1 ≡ 0
settlements-each_from f keeps i [] = refl
settlements-each_from f keeps i (s ∷ ss) = omega (
  arith,
  settlements-append (each_from f keeps (suc i) ss).1 (each_one f keeps i s.attached s.channel).1,
  settlements-each_from f keeps (suc i) ss,
  settlements-each_one f keeps i s.attached s.channel,
)

-- The part of the state that settles the promise of `completion`.
pub record IsCounted (t : Turn) : Type 0 where
  pub counted : settlements t.log ≡ tally t.done
  pub served : AllServed t.subscribers

pub each-IsCounted :
    (f : Op) (keeps : Bool) (t : Turn)
    → IsCounted t
    → AllServed (each_from f keeps 0 t.subscribers).0
    → IsCounted (each f keeps t)
unfolding each
each-IsCounted f keeps t h v = record {
  counted = omega (
    arith,
    settlements-append (each_from f keeps 0 t.subscribers).1 t.log,
    settlements-each_from f keeps 0 t.subscribers,
    h.counted,
  );
  served = v;
}

settle_turn-IsCounted : (o : TurnOutcome) (t : Turn) → IsCounted t → IsCounted (settle_turn o t)
unfolding settle_turn
settle_turn-IsCounted o t h = ground (arith, h.counted, h.served)

pub fail-IsCounted : (e : T3Error) (t : Turn) → IsCounted t → IsCounted (fail e t)
unfolding fail
fail-IsCounted e t h = ground (arith, h.counted, h.served)

pub fail_done : (e : T3Error) (t : Turn) → (fail e t).done ≡ true
unfolding fail
fail_done e t = ground arith

track_derived-IsCounted : (i : Item) (t : Turn) → IsCounted t → IsCounted (track_derived i t)
track_derived-IsCounted (turn_settled o) t h = ground (arith, settle_turn-IsCounted o t h)
track_derived-IsCounted (assistant_delta i m x s d) t h = h
track_derived-IsCounted (requested r) t h = h
track_derived-IsCounted (request_resolved id) t h = h

settle_seeded-IsCounted :
    (o : Option TurnOutcome) (t : Turn) → IsCounted t → IsCounted (settle_seeded o t)
settle_seeded-IsCounted none t h = h
settle_seeded-IsCounted (some o) t h = settle_turn-IsCounted o t h

pub track-IsCounted : (w : WatchItem) (t : Turn) → IsCounted t → IsCounted (track w t)
unfolding track
track-IsCounted (snapshot n p) t h =
    settle_seeded-IsCounted (seed p t.adoption).1 (record t { adoption = (seed p t.adoption).0 })
      (record { counted = h.counted; served = h.served })
track-IsCounted (event n e) t h = record { counted = h.counted; served = h.served }
track-IsCounted (derived i) t h = track_derived-IsCounted i t h
track-IsCounted synchronized t h = h
track-IsCounted decode_error t h = h
track-IsCounted (reconnected n) t h = h

settle_turn-phase : (o : TurnOutcome) (t : Turn) → (settle_turn o t).phase ≡ t.phase
unfolding settle_turn
settle_turn-phase o t = ground arith

pub track-phase : (w : WatchItem) (t : Turn) → (track w t).phase ≡ t.phase
unfolding track
track-phase (snapshot n p) t = elim (Option-cases (seed p t.adoption).1) [
  | inl none_yet ↦ rw none_yet refl
  | inr (o, settled) ↦ rw settled (settle_turn-phase o _)
]
track-phase (event n e) t = refl
track-phase (derived (turn_settled o)) t = ground (arith, settle_turn-phase o t)
track-phase (derived (assistant_delta i m x s d)) t = refl
track-phase (derived (requested r)) t = refl
track-phase (derived (request_resolved id)) t = refl
track-phase synchronized t = refl
track-phase decode_error t = refl
track-phase (reconnected n) t = refl
