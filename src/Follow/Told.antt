-- ===== src/Follow/Told.antt =====
-- The state that a command tells is that of the outcome of its run.
use t3code_client.Prelude.{
  first_of, String, Bool, true, false, Bool-cases, Option, none, some, is_some, find, same, ◌≡◌,
  refl, ap, subst, inl, inr, arith,
}
use t3code_client.Json.{Json}
use t3code_client.Thread.Records.{Run, Link, Projection}
use t3code_client.Thread.Derived.{TurnOutcome, Sign, run_outcome}
use t3code_client.Thread.Tracker.{assistant_delta, requested, request_resolved, turn_settled}
use t3code_client.Thread.Watch.{
  WatchItem, snapshot, synchronized, event, derived, decode_error, reconnected,
}
use t3code_client.Follow.Observation.{
  FollowTarget, Observation, turn_run, new_observation, set_outcome, choose, choose_without, is_run,
  read_run, on_settled, on_item, read_projection, take_item, observe_valid, observe,
  observe-eq-some,
}
use t3code_client.Follow.Selected.{find_holds}

pub record Told (o : Observation) : Type 0 where
  pub state_of : (out : TurnOutcome) → o.outcome ≡ some out → o.state ≡ out.state
  pub run_of : (out : TurnOutcome) → o.outcome ≡ some out → is_some o.run_id ≡ true

run_outcome-state :
    (p : Projection) (run : Run) (out : TurnOutcome)
    → run_outcome p run ≡ some out
    → run.status ≡ out.state
unfolding run_outcome
run_outcome-state p run out h = ground arith

choose-Told :
    (found : Option Run) (o : Observation) → o.run_id ≡ none → Told o → Told (choose found o)
choose-Told none o absent t = record {
  state_of = λ out e. absurd (cc (rw absent at t.run_of out e));
  run_of = t.run_of;
}
choose-Told (some r) o absent t = record { state_of = t.state_of; run_of = λ out e. refl }

choose_without-Told :
    (has_turn : Bool) (id : Option String) (p : Projection) (o : Observation)
    → o.run_id ≡ id
    → Told o
    → Told (choose_without has_turn id p o)
choose_without-Told has_turn (some id) p o e t = t
choose_without-Told true none p o e t = t
choose_without-Told false none p o e t = choose-Told _ o e t

read_run-Told :
    (p : Projection) (found : Option Run) (o : Observation)
    → ((r : Run) → found ≡ some r → o.run_id ≡ some r.id)
    → Told o
    → Told (read_run p found o)
read_run-Told p none o h t = t
read_run-Told p (some r) o h t = record {
  state_of = λ out e. run_outcome-state p r out e;
  run_of = λ out e. rw (h r refl) refl;
}

pub set_outcome-Told : (outcome : TurnOutcome) (o : Observation) → Told (set_outcome outcome o)
unfolding set_outcome
set_outcome-Told outcome o = record {
  state_of = λ out e. let same_outcome : outcome ≡ out = cc e in ap (λ x. x.state) same_outcome;
  run_of = λ out e. refl;
}

on_settled-Told :
    (outcome : TurnOutcome) (id : Option String) (o : Observation)
    → Told o
    → Told (on_settled outcome id o)
on_settled-Told outcome none o t = t
on_settled-Told outcome (some id) o t = elim (Bool-cases (same outcome.run.id id)) [
  | inl hit ↦ rw hit (set_outcome-Told outcome o)
  | inr miss ↦ rw miss t
]

on_item-Told : (i : WatchItem) (o : Observation) → Told o → Told (on_item i o)
on_item-Told (snapshot sequence p) o t = t
on_item-Told synchronized o t = t
on_item-Told (event sequence e) o t = t
on_item-Told (derived (assistant_delta i m text streaming d)) o t = t
on_item-Told (derived (requested r)) o t = t
on_item-Told (derived (request_resolved id)) o t = t
on_item-Told (derived (turn_settled outcome)) o t = on_settled-Told outcome o.run_id o t
on_item-Told decode_error o t = t
on_item-Told (reconnected sequence) o t = t

is_some_first : (a b : Option String) → is_some b ≡ true → is_some (first_of a b) ≡ true
is_some_first none b h = h
is_some_first (some a) b h = refl

module _ (legacy_link : Json → Link) (key_string : Link → String)
    (locale_compare : String → String → Sign) (target : FollowTarget) where
  read_projection-Told :
      (read : Option Projection) (o : Observation)
      → Told o
      → Told (read_projection legacy_link key_string locale_compare target read o)
  unfolding read_projection
  read_projection-Told none o t = t
  read_projection-Told (some p) o t =
      let chosen = choose_without target.has_turn o.run_id p o in
      let found = find (is_run chosen.run_id) p.runs in
      let is_chosen = choose_without-Told target.has_turn o.run_id p o refl t in
      let is_read = read_run-Told p found chosen (find_holds chosen.run_id p.runs) is_chosen in
      record { state_of = is_read.state_of; run_of = is_read.run_of }

  observe_valid-Told :
      (i : WatchItem) (link : Option String) (o : Observation)
      → Told o
      → Told (observe_valid legacy_link key_string locale_compare target i link o)
  observe_valid-Told i link o t =
      let taken = take_item legacy_link key_string locale_compare target i link o in
      on_item-Told i
        (read_projection legacy_link key_string locale_compare target taken.projection taken)
        (read_projection-Told taken.projection taken (record {
          state_of = t.state_of;
          run_of = λ out e. is_some_first (turn_run target link) o.run_id (t.run_of out e);
        }))

  pub observe-Told :
      (i : WatchItem) (link : Option String) (o next : Observation)
      → observe legacy_link key_string locale_compare target i link o ≡ some next
      → Told o
      → Told next
  observe-Told i link o next h t =
      subst Told (observe-eq-some legacy_link key_string locale_compare target i link o next h)
        (observe_valid-Told i link o t)

  pub new_observation-Told : (link : Option String) → Told (new_observation target link)
  unfolding new_observation
  new_observation-Told link = record { state_of = λ out e. cc; run_of = λ out e. cc }
