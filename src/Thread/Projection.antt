-- ===== src/Thread/Projection.antt =====
-- packages/t3code-lib/src/api/threadProjection.ts: how an event changes a projection.
use t3code_client.Prelude.{
  ℕ, zero, suc, String, Bool, not, Option, none, some, List, [], ◌∷◌, ◌++◌, any, keep, map, same,
  if◌then◌else◌,
}
use t3code_client.Json.{Json}
use t3code_client.Thread.Records.{
  Row, Link, AppThread, Projection, Change, thread_record, pull_request_link_updated, run_record,
  background_work_cancelled, run_attempt, node_updated, subagent_updated, provider_session,
  provider_session_detached, provider_thread_updated, provider_turn_updated,
  runtime_request_updated, message_updated, turn_item_updated, plan_updated,
  checkpoint_scope_created, checkpoint_captured, rollback_requested, context_handoff_updated,
  context_transfer, DomainEvent, unknown, known,
}

module _ {ℓ} {A : Type ℓ} where
  -- `findIndex`, with none for -1.
  unfoldable pub find_index : (A → Bool) → List A → Option ℕ
  find_index p [] = none
  find_index p (x ∷ xs) =
      if p x then some 0 else elim (find_index p xs) [ some i ↦ some (suc i) | none ↦ none ]

  -- `entries.map((candidate, i) => (i === index ? entry : candidate))`
  unfoldable pub replace_at : ℕ → A → List A → List A
  replace_at i entry [] = []
  replace_at zero entry (x ∷ xs) = entry ∷ xs
  replace_at (suc i) entry (x ∷ xs) = x ∷ replace_at i entry xs

  -- `upsertById`, on records whose id is `id_of`.
  unfoldable pub upsert_by_id : (A → String) → List A → A → List A
  unfolding find_index replace_at
  upsert_by_id id_of entries entry =
      elim (find_index (λ candidate. same (id_of candidate) (id_of entry)) entries) [
        | none ↦ entries ++ entry ∷ []
        | some i ↦ replace_at i entry entries
      ]

abbrev pub upsert_row : List Row → Row → List Row
upsert_row rows row = upsert_by_id (λ r. r.id) rows row

-- The projection after the event.
abbrev pub projected : Projection → Option Projection → Projection
projected p none = p
projected p (some next) = next

-- `next === projection ? projection : { ...next, updatedAt: event.occurredAt }`
abbrev pub stamp : String → Option Projection → Option Projection
stamp occurred_at none = none
stamp occurred_at (some next) = some (record next { updated_at = occurred_at })

-- The legacy link of an older thread, and `keyString`, of pullRequestKeys.ts: both read URLs.
module _ (legacy_link : Json → Link) (key_string : Link → String) where
  abbrev legacy_links : Option Json → List Link
  legacy_links none = []
  legacy_links (some linked) = legacy_link linked ∷ []

  abbrev pub links_of : Option (List Link) → Option Json → List Link
  links_of (some links) linked = links
  links_of none linked = legacy_links linked

  -- `threadPullRequestsOf`
  abbrev pub thread_pull_requests_of : AppThread → List Link
  thread_pull_requests_of thread = links_of thread.pull_requests thread.linked_pull_request

  abbrev pub pull_request_keys_equal : Link → Link → Bool
  pull_request_keys_equal left right = same (key_string left) (key_string right)

  -- `replaceLink`
  unfoldable pub replace_link : AppThread → Link → List Link
  replace_link thread updated =
      map (λ link. if pull_request_keys_equal link updated then updated else link)
        (thread_pull_requests_of thread)

  -- `applyKnownEvent`, with none where it returns the projection that it was given.
  unfoldable pub apply_known_event : Projection → Change → Option Projection
  unfolding replace_link
  apply_known_event p (thread_record t) = some (record p { thread = t })
  apply_known_event p (pull_request_link_updated l) =
      some
        (record p { thread = record p.thread { pull_requests = some (replace_link p.thread l) } })
  apply_known_event p (run_record r) = some (record p { runs = upsert_by_id (λ x. x.id) p.runs r })
  apply_known_event p (background_work_cancelled run_id work) =
      if any (λ r. same r.id run_id) p.runs
      then some (record p {
        runs =
            map
              (λ r.
                if same r.id run_id
                then record r { restart_cancelled_background_work = work }
                else r)
              p.runs;
      })
      else none
  apply_known_event p (run_attempt a) = some (record p { attempts = upsert_row p.attempts a })
  apply_known_event p (node_updated n) = some (record p { nodes = upsert_row p.nodes n })
  apply_known_event p (subagent_updated s) =
      some (record p { subagents = upsert_row p.subagents s })
  apply_known_event p (provider_session s) =
      some (record p { provider_sessions = upsert_row p.provider_sessions s })
  apply_known_event p (provider_session_detached id) = some (record p {
    provider_sessions = keep (λ session. not (same session.id id)) p.provider_sessions;
  })
  apply_known_event p (provider_thread_updated t) =
      some (record p { provider_threads = upsert_row p.provider_threads t })
  apply_known_event p (provider_turn_updated t) =
      some (record p { provider_turns = upsert_row p.provider_turns t })
  apply_known_event p (runtime_request_updated r) =
      some (record p { runtime_requests = upsert_by_id (λ x. x.id) p.runtime_requests r })
  apply_known_event p (message_updated m) =
      some (record p { messages = upsert_by_id (λ x. x.id) p.messages m })
  apply_known_event p (turn_item_updated none) = none
  apply_known_event p (turn_item_updated (some i)) =
      some (record p { turn_items = upsert_by_id (λ x. x.id) p.turn_items i })
  apply_known_event p (plan_updated none) = none
  apply_known_event p (plan_updated (some l)) = some (record p { plans = upsert_row p.plans l })
  apply_known_event p (checkpoint_scope_created s) =
      some (record p { checkpoint_scopes = upsert_row p.checkpoint_scopes s })
  apply_known_event p (checkpoint_captured c) =
      some (record p { checkpoints = upsert_row p.checkpoints c })
  apply_known_event p (rollback_requested r) = none
  apply_known_event p (context_handoff_updated h) =
      some (record p { context_handoffs = upsert_row p.context_handoffs h })
  apply_known_event p (context_transfer t) =
      some (record p { context_transfers = upsert_row p.context_transfers t })

  -- `applyThreadEvent`, with none where it returns the projection that it was given.
  unfoldable pub apply_thread_event : Projection → DomainEvent → Option Projection
  unfolding apply_known_event
  apply_thread_event p unknown = none
  apply_thread_event p (known thread_id occurred_at change) =
      if same thread_id p.thread.id then stamp occurred_at (apply_known_event p change) else none
