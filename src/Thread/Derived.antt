-- ===== src/Thread/Derived.antt =====
-- packages/t3code-lib/src/api/threadDerived.ts with isRunTerminalStatus of
-- packages/t3code-lib/src/schemas/orchestration/runs.ts: what is read off a projection.
use t3code_client.Prelude.{
  or_else, first_of, String, Bool, true, false, not, ◌&&◌, Option, none, some, List, [], ◌∷◌, any,
  find, find_last, keep, last, ltb, map, same, if◌then◌else◌,
}
use t3code_client.Prelude.Dict.{lookup}
use t3code_client.Json.{Json, arr, nil}
use t3code_client.Thread.Records.{
  Run, Request, Message, Content, assistant_message, approval_request, user_input_request, error,
  other, TurnItem, Projection,
}

abbrev pub run_terminal_statuses : List String
run_terminal_statuses = "completed" ∷ "interrupted" ∷ "failed" ∷ "cancelled" ∷ "rolled_back" ∷ []

-- `isRunTerminalStatus`
unfoldable pub is_run_terminal_status : String → Bool
is_run_terminal_status status = any (λ s. same s status) run_terminal_statuses

-- `PendingRequest`, without its kind, which that of the request tells: the request, its row in the
-- timeline, and the questions of the row.
pub record PendingRequest : Type 0 where
  pub request : Request
  pub item : Option TurnItem
  pub questions : Json

abbrev pub is_user_input : Request → Bool
is_user_input r = same r.kind "user_input"

abbrev pub asks_input : String → Content → Bool
asks_input id (assistant_message m t s) = false
asks_input id (approval_request r) = false
asks_input id (user_input_request r q) = same r id
asks_input id (error m) = false
asks_input id other = false

abbrev pub asks_approval : String → Content → Bool
asks_approval id (assistant_message m t s) = false
asks_approval id (approval_request r) = same r id
asks_approval id (user_input_request r q) = false
asks_approval id (error m) = false
asks_approval id other = false

abbrev pub questions_of : Option TurnItem → Json
questions_of none = arr nil
questions_of (some i) = elim i.content [
  | assistant_message m t s ↦ arr nil
  | approval_request r ↦ arr nil
  | user_input_request r q ↦ q
  | error m ↦ arr nil
  | other ↦ arr nil
]

-- What `localeCompare` answers.
pub data Sign : Type 0 where
  less equal greater : Sign

abbrev pub or_sign : Sign → Sign → Sign
or_sign less s = less
or_sign equal s = s
or_sign greater s = greater

abbrev pub is_greater : Sign → Bool
is_greater less = false
is_greater equal = false
is_greater greater = true

-- The body of the loop of `pendingRequests`.
unfoldable pub pending_request : List TurnItem → Request → PendingRequest
pending_request items r =
    let asks = if is_user_input r then asks_input r.id else asks_approval r.id in
    let item = find (λ i. asks i.content) items in
    record { request = r; item = item; questions = questions_of item }

-- `localeCompare`, whose order depends on the locale.
module _ (locale_compare : String → String → Sign) where
  abbrev pub compare_requests : Request → Request → Sign
  compare_requests a b =
      or_sign (locale_compare a.created_at b.created_at) (locale_compare a.id b.id)

  -- `sort`, which is stable.
  abbrev pub sorted_insert : Request → List Request → List Request
  sorted_insert a [] = a ∷ []
  sorted_insert a (b ∷ rs) =
      if is_greater (compare_requests a b) then b ∷ sorted_insert a rs else a ∷ b ∷ rs

  abbrev pub sort : List Request → List Request
  sort [] = []
  sort (r ∷ rs) = sorted_insert r (sort rs)

  -- `pendingRequests`
  unfoldable pub pending_requests : Projection → List PendingRequest
  unfolding pending_request
  pending_requests p =
      map (pending_request p.turn_items)
        (sort (keep (λ r. same r.status "pending") p.runtime_requests))

abbrev pub of_run : String → Option String → Bool
of_run id none = false
of_run id (some r) = same r id

-- `assistantMessageForRun`
unfoldable pub assistant_message_for_run : Projection → String → Option Message
assistant_message_for_run p run_id =
    let messages = keep (λ m. same m.role "assistant" && of_run run_id m.run_id) p.messages in
    first_of (find_last (λ m. not m.streaming) messages) (last messages)

abbrev pub is_error : Content → Bool
is_error (assistant_message m t s) = false
is_error (approval_request r) = false
is_error (user_input_request r q) = false
is_error (error m) = true
is_error other = false

abbrev pub failure_message : Content → Option String
failure_message (assistant_message m t s) = none
failure_message (approval_request r) = none
failure_message (user_input_request r q) = none
failure_message (error m) = some m
failure_message other = none

unfoldable pub error_from : Projection → Run → Option TurnItem → Option String
error_from p run (some i) = failure_message i.content
error_from p run none = if same run.status "failed" then p.thread.rollback_failure else none

-- `runError`
unfoldable pub run_error : Projection → Run → Option String
unfolding error_from
run_error p run =
    error_from p run (find_last (λ i. is_error i.content && of_run run.id i.run_id) p.turn_items)

-- `TurnOutcome`
pub record TurnOutcome : Type 0 where
  pub state : String
  pub run : Run
  pub assistant : Option Message
  pub failure : Option String
  pub projection : Projection

-- `runOutcome`
unfoldable pub run_outcome : Projection → Run → Option TurnOutcome
unfolding is_run_terminal_status assistant_message_for_run run_error
run_outcome p run =
    if is_run_terminal_status run.status
    then some (record {
      state = run.status;
      run = run;
      assistant = assistant_message_for_run p run.id;
      failure = run_error p run;
      projection = p;
    })
    else none

abbrev pub interruptible_run_statuses : List String
interruptible_run_statuses = "preparing" ∷ "starting" ∷ "running" ∷ "waiting" ∷ []

abbrev pub is_interruptible : Run → Bool
is_interruptible run = any (λ s. same s run.status) interruptible_run_statuses

abbrev pub is_above : Run → Option Run → Bool
is_above run none = true
is_above run (some best) = ltb best.ordinal run.ordinal

-- The loop of `activeRun`.
unfoldable pub active_run_from : Option Run → List Run → Option Run
active_run_from best [] = best
active_run_from best (run ∷ runs) =
    active_run_from (if is_interruptible run && is_above run best then some run else best) runs

-- `activeRun`
unfoldable pub active_run : Projection → Option Run
unfolding active_run_from
active_run p = active_run_from none p.runs

-- `ThreadPhase`
pub data ThreadPhase : Type 0 where
  idle_phase starting_phase running_phase waiting_for_approval waiting_for_input completed_phase
        failed_phase :
      ThreadPhase

abbrev pub phase_table : List (String × ThreadPhase)
phase_table =
    ("preparing", starting_phase)
    ∷ ("queued", starting_phase)
    ∷ ("starting", starting_phase)
    ∷ ("running", running_phase)
    ∷ ("waiting", running_phase)
    ∷ ("completed", completed_phase)
    ∷ ("interrupted", completed_phase)
    ∷ ("cancelled", completed_phase)
    ∷ ("rolled_back", completed_phase)
    ∷ ("failed", failed_phase)
    ∷ []

-- `threadPhase`, of the kind of the pending request of a shell and its status.
unfoldable pub thread_phase : Option String → String → ThreadPhase
unfolding lookup
thread_phase (some kind) status =
    if same kind "user_input" then waiting_for_input else waiting_for_approval
thread_phase none status = or_else (lookup status phase_table) idle_phase
