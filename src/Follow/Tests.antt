-- ===== src/Follow/Tests.antt =====
-- A message that grows, a timeout of more than one timer, and a second run that starts.
use t3code_client.Prelude.{
  ℕ, ◌+◌, ◌≤◌, max, String, true, false, Option, none, some, List, [], ◌∷◌, same, ◌≡◌, refl, inl,
  arith,
}
use t3code_client.Prelude.Dict.{lookup, insert}
use t3code_client.Json.{null, str, Fields, no_fields, field, get}
use t3code_client.Errors.{rpc}
use t3code_client.Thread.Records.{assistant_message, other, TurnItem, Projection}
use t3code_client.Thread.Derived.{active_run, pending_requests, run_outcome}
use t3code_client.Thread.Projection.{apply_thread_event, upsert_by_id}
use t3code_client.Thread.Samples.{
  empty, a_run, legacy_link, key_string, locale_compare, completed, asked,
}
use t3code_client.Thread.Tracker.{assistant_delta}
use t3code_client.Thread.Watch.{WatchItem, snapshot, event, derived, reconnected}
use t3code_client.Proxy.Units.{units, after}
use t3code_client.Follow.Deadline.{max_delay, schedule}
use t3code_client.Follow.Expiry.{AtMost, ExpiresBy, schedule_expires, schedule-AtMost}
use t3code_client.Follow.Stream.{follow}
use t3code_client.Follow.Shown.{shown, longest, told, follow-shows}
use t3code_client.Follow.Observation.{
  FollowTarget, new_observation, observe, item, follow_all, Event,
}
use t3code_client.Follow.Exit.{connecting, dispatch, exit_code_for}
use t3code_client.Follow.Run.{
  FollowPolicy, Follower, terminal, Step, goes, ends, RunEvent, receives, expires, race,
  new_follower, exit_code,
}
use t3code_client.Follow.Codes.{Justified, race-Justified}
use t3code_client.Follow.Selected.{IsOf}
use t3code_client.Follow.Fixed.{follow_all-IsOf}

schedule_expires_example :
    (t : ℕ) × ((schedule 100 3000000000 100 (5 ∷ 7 ∷ [])).expired ≡ some t) × (3000000100 ≤ t)
schedule_expires_example = schedule_expires 100 3000000000 100 5 (7 ∷ []) (omega arith)

schedule-AtMost_example :
    AtMost max_delay (schedule 100 3000000000 100 (5 ∷ 7 ∷ [])).delays
    × ExpiresBy (max 100 3000000100 + 10) (schedule 100 3000000000 100 (5 ∷ 7 ∷ [])).expired
schedule-AtMost_example =
    schedule-AtMost 100 3000000000 100 10 (5 ∷ 7 ∷ []) (omega arith, (omega arith, tt))

expires_late : (schedule 100 3000000000 100 (5 ∷ 7 ∷ [])).expired ≡ some 3000000107
unfolding schedule
expires_late = refl

abbrev row : TurnItem
row = record { id = "i"; run_id = some "r"; content = other; body = null }

abbrev grows : String → WatchItem × Option String
grows text = (derived (assistant_delta row "m" text true text), some "r")

-- A snapshot with a message of the run, one of another run and an item that is no message.
abbrev says : String → String → String → TurnItem
says run id text = record row { run_id = some run; content = assistant_message id text true }

abbrev said : Projection
said = record empty { turn_items = says "r2" "m" "other" ∷ row ∷ says "r" "m" "hel" ∷ [] }

abbrev watch : List (WatchItem × Option String)
watch =
    (snapshot 1 said, some "r")
    ∷ grows "he"
    ∷ (reconnected 4, some "r")
    ∷ grows "h"
    ∷ grows "hello"
    ∷ (snapshot 5 said, some "r")
    ∷ []

follow-shows_example :
    shown "m" (follow units true watch []).1 ≡ longest [] (told units true "m" watch)
follow-shows_example =
    unfold same after in
    follow-shows units true watch "m" (units "hello") (refl, (refl, (refl, (refl, (refl, tt)))))

prints : (follow units true watch []).1 ≡ ("m", units "hel") ∷ ("m", units "lo") ∷ []
unfolding follow lookup insert same after
prints = refl

abbrev waits : FollowTarget
waits = record { run_id = none; has_turn = false }

abbrev two_runs : Projection
two_runs = record empty {
  runs = a_run "running" ∷ record (a_run "running") { id = "r2"; ordinal = 2 } ∷ [];
}

abbrev earlier : List Event
earlier = item (snapshot 1 (record empty { runs = a_run "running" ∷ [] })) none ∷ []

abbrev later : List Event
later = item (snapshot 2 two_runs) none ∷ item (event 3 completed) none ∷ []

chooses :
    (follow_all legacy_link key_string locale_compare waits earlier
      (new_observation waits none)).run_id
    ≡ some "r"
unfolding follow_all new_observation same active_run
chooses = refl

follow_all-IsOf_example : IsOf "r" (
    follow_all legacy_link key_string locale_compare waits later
      (follow_all legacy_link key_string locale_compare waits earlier (new_observation waits none)))
follow_all-IsOf_example =
    follow_all-IsOf waits "r" legacy_link key_string locale_compare none earlier later "r"
      (λ t. inl refl) (inl refl) (inl refl, tt) (inl refl, (inl refl, tt)) chooses

-- The record of a refusal, and one without the scope, by the method that names the same tag.
abbrev refusal : Fields
refusal =
    field "_tag" (str "EnvironmentAuthorizationError")
      (field "message" (str "no") (field "requiredScope" (str "orchestration:operate") no_fields))

abbrev malformed : Fields
malformed = field "_tag" (str "EnvironmentAuthorizationError") no_fields

refusal_code : exit_code_for (rpc "orchestration.dispatchCommand" refusal) dispatch ≡ 9
unfolding exit_code_for get same
refusal_code = refl

malformed_code : exit_code_for (rpc "EnvironmentAuthorizationError" malformed) dispatch ≡ 1
unfolding exit_code_for get same
malformed_code = refl

abbrev policy : FollowPolicy
policy = record { detaches = true; fails = true; approve = some true }

abbrev run_events : List RunEvent
run_events =
    receives (snapshot 1 (record empty { runs = a_run "running" ∷ [] })) none (λ id. none)
    ∷ receives (event 2 asked) none (λ id. none)
    ∷ receives (event 3 completed) none (λ id. none)
    ∷ expires
    ∷ []

abbrev followed : Step
followed =
    race legacy_link key_string locale_compare units "m" true waits policy run_events
      (new_follower waits none)

abbrev follower : Step → Follower
follower (goes f) = f
follower (ends f x) = f

settles : followed ≡ ends (follower followed) terminal
unfolding race new_follower new_observation observe run_outcome apply_thread_event upsert_by_id
    pending_requests active_run same
settles = refl

answers : (follower followed).responses ≡ ("q", true) ∷ []
unfolding race new_follower new_observation observe run_outcome apply_thread_event upsert_by_id
    pending_requests active_run same
answers = refl

race-Justified_example :
    Justified policy
      (follower followed)
      (exit_code policy false none none connecting (follower followed) terminal)
race-Justified_example =
    race-Justified legacy_link key_string locale_compare units "m" true waits policy none run_events
      (follower followed) terminal false none none connecting settles
