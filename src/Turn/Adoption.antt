-- ===== src/Turn/Adoption.antt =====
-- packages/t3code-lib/src/api/turnAdoption.ts: `TurnAdoption`, which decides what run took a message.
use t3code_client.Prelude.{
  first_of, String, Bool, false, Option, none, some, find, same, if◌then◌else◌,
}
use t3code_client.Thread.Records.{
  Run, Message, Projection, Change, DomainEvent, unknown, known, thread_record,
  pull_request_link_updated, run_record, background_work_cancelled, run_attempt, node_updated,
  subagent_updated, provider_session, provider_session_detached, provider_thread_updated,
  provider_turn_updated, runtime_request_updated, message_updated, turn_item_updated, plan_updated,
  checkpoint_scope_created, checkpoint_captured, rollback_requested, context_handoff_updated,
  context_transfer,
}
use t3code_client.Thread.Derived.{TurnOutcome, run_outcome}

pub record Adoption : Type 0 where
  pub message_id : String
  pub run_id : Option String

-- `if (message?.runId)`: the empty text is no run id.
abbrev pub nonempty : Option String → Option String
nonempty none = none
nonempty (some r) = if same r "" then none else some r

abbrev pub message_link : Option Message → Option String
message_link none = none
message_link (some m) = nonempty m.run_id

abbrev pub run_link : Option Run → Option String
run_link none = none
run_link (some r) = some r.id

-- What a snapshot links the message to: the second `#link` of `seed` wins.
unfoldable pub snapshot_link : String → Projection → Option String
snapshot_link id p =
    first_of (run_link (find (λ r. same r.user_message_id id) p.runs))
      (message_link (find (λ m. same m.id id) p.messages))

abbrev pub outcome_of : Projection → Option Run → Option TurnOutcome
outcome_of p none = none
outcome_of p (some run) = run_outcome p run

abbrev pub outcome_for : Projection → Option String → Option TurnOutcome
outcome_for p none = none
outcome_for p (some id) = outcome_of p (find (λ r. same r.id id) p.runs)

abbrev pub link : Option String → Adoption → Adoption
link r a = record a { run_id = first_of r a.run_id }

-- `seed`
unfoldable pub seed : Projection → Adoption → Adoption × Option TurnOutcome
seed p a = let a' = link (snapshot_link a.message_id p) a in (a', outcome_for p a'.run_id)

-- What the payload of a known event links the message to.
unfoldable pub change_link : String → Change → Option String
change_link id (message_updated m) = if same m.id id then m.run_id else none
change_link id (run_record r) = if same r.user_message_id id then some r.id else none
change_link id (turn_item_updated i) = none
change_link id (thread_record r) = none
change_link id (pull_request_link_updated l) = none
change_link id (background_work_cancelled r w) = none
change_link id (run_attempt a) = none
change_link id (node_updated n) = none
change_link id (subagent_updated s) = none
change_link id (provider_session s) = none
change_link id (provider_session_detached s) = none
change_link id (provider_thread_updated r) = none
change_link id (provider_turn_updated r) = none
change_link id (runtime_request_updated r) = none
change_link id (plan_updated l) = none
change_link id (checkpoint_scope_created s) = none
change_link id (checkpoint_captured c) = none
change_link id (rollback_requested r) = none
change_link id (context_handoff_updated h) = none
change_link id (context_transfer r) = none

-- `onEvent`
unfoldable pub on_event : DomainEvent → Adoption → Adoption
on_event unknown a = a
on_event (known thread_id occurred_at change) a = link (change_link a.message_id change) a

-- `isOurs`
abbrev pub is_ours_from : String → Option String → Bool
is_ours_from id none = false
is_ours_from id (some r) = same id r

unfoldable pub is_ours : String → Adoption → Bool
is_ours id a = is_ours_from id a.run_id
