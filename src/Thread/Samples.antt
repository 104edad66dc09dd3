-- ===== src/Thread/Samples.antt =====
-- A small thread and its events, for the tests.
use t3code_client.Prelude.{String, none, []}
use t3code_client.Json.{Json, null}
use t3code_client.Thread.Records.{
  Run, Request, Link, AppThread, Projection, run_record, runtime_request_updated, DomainEvent,
  known,
}
use t3code_client.Thread.Derived.{Sign, equal}

abbrev pub thread : AppThread
thread = record {
  id = "t";
  pull_requests = none;
  linked_pull_request = none;
  rollback_failure = none;
  body = null;
}

abbrev pub empty : Projection
empty = record {
  thread = thread;
  runs = [];
  attempts = [];
  nodes = [];
  subagents = [];
  provider_sessions = [];
  provider_threads = [];
  provider_turns = [];
  runtime_requests = [];
  messages = [];
  plans = [];
  turn_items = [];
  checkpoint_scopes = [];
  checkpoints = [];
  context_handoffs = [];
  context_transfers = [];
  visible_turn_items = [];
  updated_at = "0";
}

abbrev pub a_run : String → Run
a_run status = record {
  id = "r";
  ordinal = 1;
  user_message_id = "m";
  status = status;
  restart_cancelled_background_work = null;
  body = null;
}

abbrev pub a_request : String → Request
a_request status = record {
  id = "q";
  kind = "command";
  status = status;
  created_at = "1";
  body = null;
}

-- The parameters: no legacy link, one key for all links, and one place for all texts.
abbrev pub legacy_link : Json → Link
legacy_link linked = record { host = "unknown"; repository = ""; number = 0; body = linked }

abbrev pub key_string : Link → String
key_string l = l.repository

abbrev pub locale_compare : String → String → Sign
locale_compare s t = equal

abbrev pub running : DomainEvent
running = known "t" "1" (run_record (a_run "running"))

abbrev pub completed : DomainEvent
completed = known "t" "2" (run_record (a_run "completed"))

abbrev pub asked : DomainEvent
asked = known "t" "3" (runtime_request_updated (a_request "pending"))

abbrev pub answered : DomainEvent
answered = known "t" "4" (runtime_request_updated (a_request "resolved"))
