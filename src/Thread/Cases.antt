-- ===== src/Thread/Cases.antt =====
-- What an event yields besides requests: the text of an assistant message, and the settlement of a run.
use t3code_client.Prelude.{String, [], Option, none, some, find, same, ◌≡◌, refl, ◌⊎◌, inl, inr}
use t3code_client.Thread.Records.{
  Run, TurnItem, Projection, Change, thread_record, pull_request_link_updated, run_record,
  background_work_cancelled, run_attempt, node_updated, subagent_updated, provider_session,
  provider_session_detached, provider_thread_updated, provider_turn_updated,
  runtime_request_updated, message_updated, turn_item_updated, plan_updated,
  checkpoint_scope_created, checkpoint_captured, rollback_requested, context_handoff_updated,
  context_transfer,
}
use t3code_client.Thread.Tracker.{Tracker, delta_item, assistant_text, settle_run, settle}

pub assistant_text_cases :
    (p : Projection) (c : Change)
    → (assistant_text p c ≡ [])
      ⊎ ((i : TurnItem) × (before : String) × (assistant_text p c ≡ delta_item i before i.content))
unfolding assistant_text
assistant_text_cases p (turn_item_updated (some i)) = inr (i, _, refl)
assistant_text_cases p (turn_item_updated none) = inl refl
assistant_text_cases p (thread_record y) = inl refl
assistant_text_cases p (pull_request_link_updated l) = inl refl
assistant_text_cases p (run_record y) = inl refl
assistant_text_cases p (background_work_cancelled y w) = inl refl
assistant_text_cases p (run_attempt a) = inl refl
assistant_text_cases p (node_updated n) = inl refl
assistant_text_cases p (subagent_updated s) = inl refl
assistant_text_cases p (provider_session s) = inl refl
assistant_text_cases p (provider_session_detached s) = inl refl
assistant_text_cases p (provider_thread_updated y) = inl refl
assistant_text_cases p (provider_turn_updated y) = inl refl
assistant_text_cases p (runtime_request_updated y) = inl refl
assistant_text_cases p (message_updated m) = inl refl
assistant_text_cases p (plan_updated l) = inl refl
assistant_text_cases p (checkpoint_scope_created s) = inl refl
assistant_text_cases p (checkpoint_captured c) = inl refl
assistant_text_cases p (rollback_requested y) = inl refl
assistant_text_cases p (context_handoff_updated h) = inl refl
assistant_text_cases p (context_transfer y) = inl refl

pub settle_cases :
    (c : Change) (p : Projection) (t : Tracker)
    → (settle c p t ≡ (t, [])) ⊎ ((o : Option Run) × (settle c p t ≡ settle_run p o t))
unfolding settle
settle_cases (run_record y) p t = inr (find (λ x. same x.id y.id) p.runs, refl)
settle_cases (turn_item_updated i) p t = inl refl
settle_cases (thread_record y) p t = inl refl
settle_cases (pull_request_link_updated l) p t = inl refl
settle_cases (background_work_cancelled y w) p t = inl refl
settle_cases (run_attempt a) p t = inl refl
settle_cases (node_updated n) p t = inl refl
settle_cases (subagent_updated s) p t = inl refl
settle_cases (provider_session s) p t = inl refl
settle_cases (provider_session_detached s) p t = inl refl
settle_cases (provider_thread_updated y) p t = inl refl
settle_cases (provider_turn_updated y) p t = inl refl
settle_cases (runtime_request_updated y) p t = inl refl
settle_cases (message_updated m) p t = inl refl
settle_cases (plan_updated l) p t = inl refl
settle_cases (checkpoint_scope_created s) p t = inl refl
settle_cases (checkpoint_captured c) p t = inl refl
settle_cases (rollback_requested y) p t = inl refl
settle_cases (context_handoff_updated h) p t = inl refl
settle_cases (context_transfer y) p t = inl refl
