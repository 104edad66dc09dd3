-- ===== src/Thread/Records.antt =====
-- The records of a thread and its events, with the fields that the code of
-- packages/t3code-lib/src/api/threadProjection.ts, threadDerived.ts, threadTracker.ts and turnAdoption.ts reads; `body`
-- stands for the other fields. The shapes are those of packages/t3code-lib/src/schemas/orchestration.
use t3code_client.Prelude.{ℕ, String, Bool, Option, List}
use t3code_client.Json.{Json}

-- A record of which only the id is read.
pub record Row : Type 0 where
  pub id : String
  pub body : Json

-- `OrchestrationV2Run`
pub record Run : Type 0 where
  pub id : String
  pub ordinal : ℕ
  pub user_message_id : String
  pub status : String
  pub restart_cancelled_background_work : Json
  pub body : Json

-- `OrchestrationV2RuntimeRequest`
pub record Request : Type 0 where
  pub id : String
  pub kind : String
  pub status : String
  pub created_at : String
  pub body : Json

-- `OrchestrationV2ConversationMessage`
pub record Message : Type 0 where
  pub id : String
  pub run_id : Option String
  pub role : String
  pub streaming : Bool
  pub body : Json

-- The members of `OrchestrationV2TurnItem` that the code tells apart: an assistant message with its
-- message id, text and `streaming`; the two requests with their request id, the second one with its
-- questions; an error with the message of its failure.
pub data Content : Type 0 where
  assistant_message : String → String → Bool → Content
  approval_request : String → Content
  user_input_request : String → Json → Content
  error : String → Content
  other : Content

pub record TurnItem : Type 0 where
  pub id : String
  pub run_id : Option String
  pub content : Content
  pub body : Json

-- `OrchestrationV2ProjectedTurnItem`: a row of the timeline as the server ordered it.
pub record VisibleRow : Type 0 where
  pub visibility : String
  pub source_thread_id : String
  pub item : TurnItem

-- `ThreadPullRequestLink`
pub record Link : Type 0 where
  pub host : String
  pub repository : String
  pub number : ℕ
  pub body : Json

-- `OrchestrationV2AppThread`
pub record AppThread : Type 0 where
  pub id : String
  pub pull_requests : Option (List Link)
  pub linked_pull_request : Option Json
  pub rollback_failure : Option String
  pub body : Json

-- `OrchestrationV2ThreadProjection`
pub record Projection : Type 0 where
  pub thread : AppThread
  pub runs : List Run
  pub attempts : List Row
  pub nodes : List Row
  pub subagents : List Row
  pub provider_sessions : List Row
  pub provider_threads : List Row
  pub provider_turns : List Row
  pub runtime_requests : List Request
  pub messages : List Message
  pub plans : List Row
  pub turn_items : List TurnItem
  pub checkpoint_scopes : List Row
  pub checkpoints : List Row
  pub context_handoffs : List Row
  pub context_transfers : List Row
  pub visible_turn_items : List VisibleRow
  pub updated_at : String

-- The payloads of the known events. One constructor stands for the event types that share a branch; a
-- turn item or a plan of an unknown type is none.
pub data Change : Type 0 where
  thread_record : AppThread → Change
  pull_request_link_updated : Link → Change
  run_record : Run → Change
  background_work_cancelled : String → Json → Change
  run_attempt : Row → Change
  node_updated : Row → Change
  subagent_updated : Row → Change
  provider_session : Row → Change
  provider_session_detached : String → Change
  provider_thread_updated : Row → Change
  provider_turn_updated : Row → Change
  runtime_request_updated : Request → Change
  message_updated : Message → Change
  turn_item_updated : Option TurnItem → Change
  plan_updated : Option Row → Change
  checkpoint_scope_created : Row → Change
  checkpoint_captured : Row → Change
  rollback_requested : Json → Change
  context_handoff_updated : Row → Change
  context_transfer : Row → Change

-- `OrchestrationV2DomainEvent`: a known event has its thread id, its time and its payload.
pub data DomainEvent : Type 0 where
  unknown : DomainEvent
  known : String → String → Change → DomainEvent
