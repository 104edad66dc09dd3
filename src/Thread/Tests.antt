-- ===== src/Thread/Tests.antt =====
-- A thread, its tracker and its watch on concrete events.
use t3code_client.Prelude.{
  ◌+◌, ◌≤◌, none, some, List, [], ◌∷◌, ◌++◌, ◌≡◌, refl, false, find, same, tally, if◌then◌else◌,
  arith,
}
use t3code_client.Errors.{connection, closed}
use t3code_client.Socket.State.{connecting}
use t3code_client.Thread.Records.{Run, Projection, unknown}
use t3code_client.Thread.Projection.{upsert_by_id, apply_thread_event, projected}
use t3code_client.Thread.Upsert.{find-upsert_by_id}
use t3code_client.Thread.Events.{IsValid, apply_all, apply_all-IsValid}
use t3code_client.Thread.Replay.{apply_thread_event_twice}
use t3code_client.Thread.Active.{Highest, active_run-Highest}
use t3code_client.Thread.Derived.{
  active_run, is_run_terminal_status, starting_phase, waiting_for_input, thread_phase,
}
use t3code_client.Prelude.Dict.{lookup}
use t3code_client.Thread.Tracker.{Item, turn_settled, Tracker, new_tracker, has, seed, apply}
use t3code_client.Thread.Calls as TrackerCalls
use t3code_client.Thread.Calls.{Call, seeds, applies}
use t3code_client.Thread.Settled.{settlements, run-settles_once}
use t3code_client.Thread.Announced.{with_run, outcome_of, apply_settles}
use t3code_client.Thread.Announcements.{play}
use t3code_client.Thread.Requests.{run-takes_turns}
use t3code_client.Thread.Watch.{
  Event, receives, fails, event_frame, snapshot_frame, no_loader, new_watch,
  bounded_snapshot_projection, step, run,
}
use t3code_client.Thread.Cursor.{Ascending, sequences, run-Ascending}
use t3code_client.Thread.Samples.{
  empty, a_run, legacy_link, key_string, locale_compare, running, completed, asked, answered,
}

find-upsert_by_id_example :
    find (λ r. same r.id "r") (upsert_by_id (λ r. r.id) (a_run "running" ∷ []) (a_run "completed"))
    ≡ (if same "r" "r"
        then some (a_run "completed")
        else find (λ r. same r.id "r") (a_run "running" ∷ []))
find-upsert_by_id_example =
    find-upsert_by_id {A = Run} (λ r. r.id) (a_run "completed") "r" (a_run "running" ∷ [])

apply_all-IsValid_example :
    IsValid (apply_all legacy_link key_string empty (running ∷ completed ∷ unknown ∷ []))
apply_all-IsValid_example =
    apply_all-IsValid legacy_link key_string empty (running ∷ completed ∷ unknown ∷ [])
      (tt, (tt, (tt, (tt, (tt, (tt, (tt, (tt, (tt, (tt, (tt, (tt, (tt, (tt, (tt, tt)))))))))))))))

apply_thread_event_twice_example :
    projected (projected empty (apply_thread_event legacy_link key_string empty running)) (
      apply_thread_event legacy_link key_string
        (projected empty (apply_thread_event legacy_link key_string empty running))
        running)
    ≡ projected empty (apply_thread_event legacy_link key_string empty running)
apply_thread_event_twice_example = apply_thread_event_twice legacy_link key_string empty running

abbrev tracker_calls : List Call
tracker_calls =
    seeds 1 empty
    ∷ applies 2 running
    ∷ applies 3 completed
    ∷ applies 4 completed
    ∷ applies 5 asked
    ∷ applies 6 answered
    ∷ []

run-settles_once_example :
    settlements "r"
        (TrackerCalls.run legacy_link key_string locale_compare new_tracker tracker_calls).1
      + tally (has "r" new_tracker.settled)
    ≤ 1
run-settles_once_example =
    run-settles_once legacy_link key_string locale_compare "r" new_tracker tracker_calls

abbrev tracker : Tracker
tracker = record { projection = some empty; projected_sequence = 2; announced = []; settled = [] }

apply_settles_example :
    (items : List Item) × ((apply legacy_link key_string locale_compare 3 completed tracker).1
      ≡ items
        ++ turn_settled (outcome_of (with_run empty (a_run "completed") "2") (a_run "completed"))
          ∷ [])
apply_settles_example =
    apply_settles legacy_link key_string locale_compare empty (a_run "completed") 3 "2" tracker refl
      (omega arith) (unfold is_run_terminal_status same in refl) refl

run-takes_turns_example :
    play "q" false
      (TrackerCalls.run legacy_link key_string locale_compare new_tracker tracker_calls).1
    ≡ some (
        has "q"
          (TrackerCalls.run legacy_link key_string locale_compare new_tracker
            tracker_calls).0.announced)
run-takes_turns_example = run-takes_turns legacy_link key_string locale_compare tracker_calls "q"

-- A snapshot, two events, a drop, the second event once more, and a new one.
abbrev events : List Event
events =
    receives (snapshot_frame 1 false empty)
    ∷ receives (event_frame 2 running no_loader)
    ∷ receives (event_frame 3 completed no_loader)
    ∷ fails (connection closed) false connecting
    ∷ receives (event_frame 3 completed no_loader)
    ∷ receives (event_frame 5 asked no_loader)
    ∷ []

run-events :
    sequences (run legacy_link key_string locale_compare (new_watch none) events).1 ≡ 2 ∷ 3 ∷ 5 ∷ []
unfolding run new_watch step seed new_tracker bounded_snapshot_projection apply same upsert_by_id
run-events = refl

run-Ascending_example :
    Ascending none (sequences (run legacy_link key_string locale_compare (new_watch none) events).1)
run-Ascending_example = run-Ascending legacy_link key_string locale_compare none events

abbrev two_runs : Projection
two_runs = record empty { runs = a_run "completed" ∷ a_run "running" ∷ [] }

active_run-Highest_example : Highest two_runs.runs (active_run two_runs)
active_run-Highest_example = active_run-Highest two_runs

queued_thread : thread_phase none "queued" ≡ starting_phase
unfolding thread_phase lookup same
queued_thread = refl

asking_thread : thread_phase (some "user_input") "running" ≡ waiting_for_input
unfolding thread_phase same
asking_thread = refl
