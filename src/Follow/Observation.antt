-- ===== src/Follow/Observation.antt =====
-- packages/t3code-cli/src/execution/followObservation.ts: `FollowObservation`, what a command that waits for
-- a run has seen of it. An `observe` that throws the error of its item gives none.
use t3code_client.Prelude.{
  first_of, ◌≡◌, ltb, String, Bool, true, false, Option, none, some, List, [], ◌∷◌, find, keep,
  same, if◌then◌else◌,
}
use t3code_client.Json.{Json, get, as_str, as_obj, Fields}
use t3code_client.Thread.Records.{Run, Message, Link, TurnItem, Projection, DomainEvent}
use t3code_client.Thread.Projection.{projected, apply_thread_event}
use t3code_client.Thread.Derived.{
  PendingRequest, TurnOutcome, Sign, pending_requests, run_outcome, active_run,
}
use t3code_client.Thread.Tracker.{Item, assistant_delta, requested, request_resolved, turn_settled}
use t3code_client.Thread.Watch.{
  WatchItem, snapshot, synchronized, event, derived, decode_error, reconnected,
}

-- `FollowTarget`, and of its turn only whether there is one: its run id comes with each item.
pub record FollowTarget : Type 0 where
  pub run_id : Option String
  pub has_turn : Bool

-- The class with the fields of `result` that it writes.
pub record Observation : Type 0 where
  pub projection : Option Projection
  pub outcome : Option TurnOutcome
  pub run_id : Option String
  pub state : String
  pub assistant_message : Option String
  pub pending_requests : List PendingRequest

-- `this.target.turn?.runId`, where `link` is the run id of a turn.
abbrev pub turn_run : FollowTarget → Option String → Option String
turn_run target link = if target.has_turn then link else none

unfoldable pub new_observation : FollowTarget → Option String → Observation
new_observation target link = record {
  projection = none;
  outcome = none;
  run_id = first_of target.run_id (turn_run target link);
  state = "unknown";
  assistant_message = none;
  pending_requests = [];
}

-- `outcome.assistantMessage?.text`
abbrev pub text_field : Option Fields → Option String
text_field none = none
text_field (some fs) = as_str (get "text" fs)

abbrev pub message_text : Option Message → Option String
message_text none = none
message_text (some m) = text_field (as_obj (some m.body))

-- `setOutcome`
unfoldable pub set_outcome : TurnOutcome → Observation → Observation
set_outcome outcome o = record o {
  outcome = some outcome;
  run_id = some outcome.run.id;
  state = outcome.state;
  assistant_message = message_text outcome.assistant;
}

-- The `reduce` of the runs of a projection.
abbrev pub is_later : Run → Option Run → Bool
is_later candidate none = true
is_later candidate (some latest) = ltb latest.ordinal candidate.ordinal

unfoldable pub latest_run : Option Run → List Run → Option Run
latest_run latest [] = latest
latest_run latest (candidate ∷ runs) =
    latest_run (if is_later candidate latest then some candidate else latest) runs

-- The choice of a run where none is known and there is no turn.
abbrev pub choose : Option Run → Observation → Observation
choose none o = record o { state = "idle" }
choose (some run) o = record o { run_id = some run.id }

abbrev pub choose_without : Bool → Option String → Projection → Observation → Observation
choose_without has_turn (some id) p o = o
choose_without true none p o = o
choose_without false none p o = choose (first_of (active_run p) (latest_run none p.runs)) o

-- What is read of the run that is followed.
abbrev pub is_run : Option String → Run → Bool
is_run none run = false
is_run (some id) run = same run.id id

abbrev pub read_run : Projection → Option Run → Observation → Observation
read_run p none o = o
read_run p (some run) o = record o { state = run.status; outcome = run_outcome p run }

-- The requests of the run, or of no run.
abbrev pub concerns_run : String → Option String → Bool
concerns_run id none = true
concerns_run id (some run) = same run id

abbrev pub concerns_item : String → Option TurnItem → Bool
concerns_item id none = true
concerns_item id (some i) = concerns_run id i.run_id

abbrev pub concerns : Option String → PendingRequest → Bool
concerns none r = false
concerns (some id) r = concerns_item id r.item

abbrev pub on_settled : TurnOutcome → Option String → Observation → Observation
on_settled outcome none o = o
on_settled outcome (some id) o = if same outcome.run.id id then set_outcome outcome o else o

abbrev pub on_derived : Item → Observation → Observation
on_derived (assistant_delta i m text streaming d) o = o
on_derived (requested r) o = o
on_derived (request_resolved id) o = o
on_derived (turn_settled outcome) o = on_settled outcome o.run_id o

abbrev pub on_item : WatchItem → Observation → Observation
on_item (snapshot sequence p) o = o
on_item synchronized o = o
on_item (event sequence e) o = o
on_item (derived i) o = on_derived i o
on_item decode_error o = o
on_item (reconnected sequence) o = o

pub data Event : Type 0 where
  item : WatchItem → Option String → Event
  completes : TurnOutcome → Event

module _ (legacy_link : Json → Link) (key_string : Link → String)
    (locale_compare : String → String → Sign) (target : FollowTarget) where
  abbrev pub apply_to : DomainEvent → Option Projection → Option Projection
  apply_to e none = none
  apply_to e (some p) = some (projected p (apply_thread_event legacy_link key_string p e))

  -- The projection after an item.
  abbrev pub next_projection : WatchItem → Option Projection → Option Projection
  next_projection (snapshot sequence p) before = some p
  next_projection synchronized before = before
  next_projection (event sequence e) before = apply_to e before
  next_projection (derived i) before = before
  next_projection decode_error before = before
  next_projection (reconnected sequence) before = before

  abbrev pub read_requests : Projection → Observation → Observation
  read_requests p o = record o {
    pending_requests = keep (concerns o.run_id) (pending_requests locale_compare p);
  }

  unfoldable pub read_projection : Option Projection → Observation → Observation
  read_projection none o = o
  read_projection (some p) o =
      let chosen = choose_without target.has_turn o.run_id p o in
      read_requests p (read_run p (find (is_run chosen.run_id) p.runs) chosen)

  -- The assignments before the projection is read.
  abbrev pub take_item : WatchItem → Option String → Observation → Observation
  take_item i link o = record o {
    projection = next_projection i o.projection;
    run_id = first_of (turn_run target link) o.run_id;
  }

  abbrev pub observe_valid : WatchItem → Option String → Observation → Observation
  observe_valid i link o =
      let taken = take_item i link o in on_item i (read_projection taken.projection taken)

  -- `observe`, where `link` is the run id of the turn.
  unfoldable pub observe : WatchItem → Option String → Observation → Option Observation
  unfolding read_projection set_outcome
  observe (snapshot sequence p) link o = some (observe_valid (snapshot sequence p) link o)
  observe synchronized link o = some (observe_valid synchronized link o)
  observe (event sequence e) link o = some (observe_valid (event sequence e) link o)
  observe (derived i) link o = some (observe_valid (derived i) link o)
  observe decode_error link o = none
  observe (reconnected sequence) link o = some (observe_valid (reconnected sequence) link o)

  pub observe-eq-some :
      (i : WatchItem) (link : Option String) (o next : Observation)
      → observe i link o ≡ some next
      → observe_valid i link o ≡ next
  unfolding observe
  observe-eq-some (snapshot sequence p) link o next h = cc h
  observe-eq-some synchronized link o next h = cc h
  observe-eq-some (event sequence e) link o next h = cc h
  observe-eq-some (derived i) link o next h = cc h
  observe-eq-some decode_error link o next h = cc
  observe-eq-some (reconnected sequence) link o next h = cc h

  -- What comes: the items of the watch, each with the run id of the turn at that time, and the outcome
  -- with which the promise of the turn resolves.
  unfoldable pub on_event : Event → Observation → Option Observation
  unfolding observe set_outcome
  on_event (item i link) o = observe i link o
  on_event (completes outcome) o = some (set_outcome outcome o)

  -- The events, up to an item whose error is thrown.
  unfoldable pub follow_all : List Event → Observation → Observation
  unfolding on_event
  follow_all [] o = o
  follow_all (e ∷ es) o = elim (on_event e o) [ some next ↦ follow_all es next | none ↦ o ]
