-- ===== src/Turn/Tests.antt =====
-- A turn whose run settles, with a consumer that waits.
use t3code_client.Prelude.{none, List, [], ◌∷◌, any, true, same, ◌≡◌, refl, tally}
use t3code_client.Thread.Derived.{TurnOutcome}
use t3code_client.Thread.Tracker.{turn_settled}
use t3code_client.Thread.Watch.{event, derived}
use t3code_client.Thread.Samples.{empty, a_run, running}
use t3code_client.Turn.Adoption.{is_ours, on_event, change_link}
use t3code_client.Turn.Handle.{
  Event, completes, subscribes, pulls, yields, has_returned, over, new_turn, step, run,
}
use t3code_client.Turn.Counted.{settlements, left_loop}
use t3code_client.Turn.Once.{AllReleased, new_turn-settles_once, new_turn_releases}
use t3code_client.Turn.Trusted.{AllResolved}
use t3code_client.Turn.Followed.{event_of_watch_names, new_turn-follows_link}

abbrev outcome : TurnOutcome
outcome = record {
  state = "completed";
  run = a_run "completed";
  assistant = none;
  failure = none;
  projection = empty;
}

-- The consumer comes, pulls three values, and the turn settles before the third one.
abbrev events : List Event
events =
    completes
    ∷ subscribes
    ∷ pulls 0 1
    ∷ yields (event 2 running)
    ∷ pulls 0 2
    ∷ yields (derived (turn_settled outcome))
    ∷ pulls 0 3
    ∷ has_returned
    ∷ []

run_over : (run (new_turn "m") events).phase ≡ over
unfolding run new_turn step is_ours on_event change_link same
run_over = refl

new_turn-settles_once_example :
    settlements (run (new_turn "m") events).log
    ≡ tally (left_loop (run (new_turn "m") events).phase)
new_turn-settles_once_example = new_turn-settles_once "m" events

new_turn_releases_example : AllReleased (run (new_turn "m") events).subscribers
new_turn_releases_example = new_turn_releases "m" events run_over

new_turn-follows_link_example :
    AllResolved
      (λ r. any (event_of_watch_names "m" r) events ≡ true)
      (run (new_turn "m") events).log
new_turn-follows_link_example = new_turn-follows_link "m" events
