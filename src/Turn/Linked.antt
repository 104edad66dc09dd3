-- ===== src/Turn/Linked.antt =====
-- api/turnAdoption.ts: what a snapshot and an event name, and the run that they link the message to.
use t3code_client.Prelude.{
  ℕ, String, Bool, true, false, ◌&&◌, ◌||◌, Option, none, some, List, [], ◌∷◌, any, find, same,
  same_iff, ◌≡◌, ◌∙◌, inl, inr, arith, Bool-cases, ap,
}
use t3code_client.Thread.Records.{
  Run, Message, Projection, Change, DomainEvent, unknown, known, thread_record,
  pull_request_link_updated, run_record, background_work_cancelled, run_attempt, node_updated,
  subagent_updated, provider_session, provider_session_detached, provider_thread_updated,
  provider_turn_updated, runtime_request_updated, message_updated, turn_item_updated, plan_updated,
  checkpoint_scope_created, checkpoint_captured, rollback_requested, context_handoff_updated,
  context_transfer,
}
use t3code_client.Thread.Derived.{TurnOutcome, run_outcome, of_run}
use t3code_client.Thread.Watch.{
  WatchItem, snapshot, synchronized, event, derived, decode_error, reconnected,
}
use t3code_client.Turn.Adoption.{
  nonempty, message_link, run_link, snapshot_link, outcome_of, outcome_for, change_link,
}

-- Whether a record names the run with id `r` for the message with id `id`.
abbrev pub message_names : String → String → Message → Bool
message_names id r m = same m.id id && of_run r m.run_id

abbrev pub run_names : String → String → Run → Bool
run_names id r run = same run.user_message_id id && same run.id r

abbrev pub change_names : String → String → Change → Bool
change_names id r (message_updated m) = message_names id r m
change_names id r (run_record run) = run_names id r run
change_names id r (turn_item_updated i) = false
change_names id r (thread_record t) = false
change_names id r (pull_request_link_updated l) = false
change_names id r (background_work_cancelled s w) = false
change_names id r (run_attempt a) = false
change_names id r (node_updated n) = false
change_names id r (subagent_updated s) = false
change_names id r (provider_session s) = false
change_names id r (provider_session_detached s) = false
change_names id r (provider_thread_updated t) = false
change_names id r (provider_turn_updated t) = false
change_names id r (runtime_request_updated q) = false
change_names id r (plan_updated l) = false
change_names id r (checkpoint_scope_created s) = false
change_names id r (checkpoint_captured c) = false
change_names id r (rollback_requested q) = false
change_names id r (context_handoff_updated h) = false
change_names id r (context_transfer t) = false

abbrev pub event_names : String → String → DomainEvent → Bool
event_names id r unknown = false
event_names id r (known thread_id occurred_at change) = change_names id r change

-- Whether an item of the watch does.
abbrev pub names : String → String → WatchItem → Bool
names id r (snapshot n p) = any (message_names id r) p.messages || any (run_names id r) p.runs
names id r (event n e) = event_names id r e
names id r (derived i) = false
names id r synchronized = false
names id r decode_error = false
names id r (reconnected n) = false

of_run_hit : (r : String) (o : Option String) → o ≡ some r → of_run r o ≡ true
of_run_hit r none h = cc
of_run_hit r (some q) h = ground (arith, same_iff q r)

nonempty_hit : (r : String) (o : Option String) → nonempty o ≡ some r → o ≡ some r
nonempty_hit r none h = h
nonempty_hit r (some q) h = ground arith

message_link-names :
    (id r : String) (ms : List Message)
    → message_link (find (λ m. same m.id id) ms) ≡ some r
    → any (message_names id r) ms ≡ true
message_link-names id r [] h = cc
message_link-names id r (m ∷ ms) h =
    ground (arith, nonempty_hit r m.run_id, of_run_hit r m.run_id, message_link-names id r ms)

run_link-names :
    (id r : String) (runs : List Run)
    → run_link (find (λ x. same x.user_message_id id) runs) ≡ some r
    → any (run_names id r) runs ≡ true
run_link-names id r [] h = cc
run_link-names id r (x ∷ runs) h = ground (arith, same_iff x.id r, run_link-names id r runs)

-- What `seed` links the message to, the snapshot names.
pub snapshot_link-names :
    (id r : String) (n : ℕ) (p : Projection)
    → snapshot_link id p ≡ some r
    → names id r (snapshot n p) ≡ true
unfolding snapshot_link
snapshot_link-names id r n p h =
    ground (arith, message_link-names id r p.messages, run_link-names id r p.runs)

pub change_link-names :
    (id r : String) (c : Change) → change_link id c ≡ some r → change_names id r c ≡ true
unfolding change_link
change_link-names id r (message_updated m) h = ground (arith, of_run_hit r m.run_id)
change_link-names id r (run_record x) h = ground (arith, same_iff x.id r)
change_link-names id r (turn_item_updated i) h = cc
change_link-names id r (thread_record t) h = cc
change_link-names id r (pull_request_link_updated l) h = cc
change_link-names id r (background_work_cancelled s w) h = cc
change_link-names id r (run_attempt a) h = cc
change_link-names id r (node_updated n) h = cc
change_link-names id r (subagent_updated s) h = cc
change_link-names id r (provider_session s) h = cc
change_link-names id r (provider_session_detached s) h = cc
change_link-names id r (provider_thread_updated t) h = cc
change_link-names id r (provider_turn_updated t) h = cc
change_link-names id r (runtime_request_updated q) h = cc
change_link-names id r (plan_updated l) h = cc
change_link-names id r (checkpoint_scope_created s) h = cc
change_link-names id r (checkpoint_captured c) h = cc
change_link-names id r (rollback_requested q) h = cc
change_link-names id r (context_handoff_updated x) h = cc
change_link-names id r (context_transfer t) h = cc

run_outcome-run :
    (p : Projection) (x : Run) (o : TurnOutcome) → run_outcome p x ≡ some o → o.run ≡ x
unfolding run_outcome
run_outcome-run p x o h = ground arith

-- The outcome that `seed` reads off a snapshot is that of the run with the id.
outcome_of_run :
    (p : Projection) (runs : List Run) (id : String) (o : TurnOutcome)
    → outcome_of p (find (λ r. same r.id id) runs) ≡ some o
    → o.run.id ≡ id
outcome_of_run p [] id o h = cc
outcome_of_run p (x ∷ runs) id o h = elim (Bool-cases (same x.id id)) [
  | inl hit ↦
      ap (λ (r : Run). r.id) (run_outcome-run p x o (rw hit at h)) ∙ (same_iff x.id id).0 hit
  | inr miss ↦ outcome_of_run p runs id o (rw miss at h)
]

pub outcome_for_run :
    (p : Projection) (r : Option String) (o : TurnOutcome)
    → outcome_for p r ≡ some o
    → r ≡ some o.run.id
outcome_for_run p none o h = cc
outcome_for_run p (some id) o h = cc (outcome_of_run p p.runs id o h)
