-- ===== src/Thread/Tracker.antt =====
-- packages/t3code-lib/src/api/threadTracker.ts: `ThreadProjectionTracker`. A generator is the list of
-- the items that it yields, with the state after them.
use Prim.Native.String.{len, slice}
use text.Mathlib.Text.{starts_with}
use t3code_client.Prelude.{
  ℕ, max, leb, String, Bool, not, ◌&&◌, ◌||◌, Option, none, some, is_some, List, [], ◌∷◌, ◌++◌, any,
  find, map, same, if◌then◌else◌,
}
use t3code_client.Json.{Json}
use t3code_client.Thread.Records.{
  Run, Link, Content, assistant_message, approval_request, user_input_request, error, other,
  TurnItem, Projection, Change, DomainEvent, unknown, known, thread_record,
  pull_request_link_updated, run_record, background_work_cancelled, run_attempt, node_updated,
  subagent_updated, provider_session, provider_session_detached, provider_thread_updated,
  provider_turn_updated, runtime_request_updated, message_updated, turn_item_updated, plan_updated,
  checkpoint_scope_created, checkpoint_captured, rollback_requested, context_handoff_updated,
  context_transfer,
}
use t3code_client.Thread.Projection.{apply_thread_event}
use t3code_client.Thread.Derived.{
  is_run_terminal_status, PendingRequest, is_user_input, Sign, pending_requests, TurnOutcome,
  run_outcome,
}

-- `ThreadDerivedItem`: the two announcements of a request are one constructor, which the kind of the
-- request tells apart.
pub data Item : Type 0 where
  assistant_delta : TurnItem → String → String → Bool → String → Item
  requested : PendingRequest → Item
  request_resolved : String → Item
  turn_settled : TurnOutcome → Item

-- The private fields. The sets stand in the order of insertion.
pub record Tracker : Type 0 where
  pub projection : Option Projection
  pub projected_sequence : ℕ
  pub announced : List String
  pub settled : List String

unfoldable pub new_tracker : Tracker
new_tracker = record { projection = none; projected_sequence = 0; announced = []; settled = [] }

-- `Set.prototype.has` and `add`.
abbrev pub has : String → List String → Bool
has k s = any (λ j. same j k) s

abbrev pub add : String → List String → List String
add k s = if has k s then s else s ++ k ∷ []

abbrev pub add_terminal : List Run → List String → List String
add_terminal [] s = s
add_terminal (r ∷ rs) s =
    add_terminal rs (if is_run_terminal_status r.status then add r.id s else s)

-- The first loop of `#reconcileRequests`: what is left of the announced requests, and the items.
abbrev pub resolve : List String → List String → List String × List Item
resolve open_ids [] = ([], [])
resolve open_ids (id ∷ ids) =
    let (kept, items) = resolve open_ids ids in
    if has id open_ids then (id ∷ kept, items) else (kept, request_resolved id ∷ items)

abbrev pub is_silent : PendingRequest → Bool
is_silent r = is_user_input r.request && not (is_some r.item)

-- Its second loop.
abbrev pub announce : List PendingRequest → List String → List String × List Item
announce [] s = (s, [])
announce (r ∷ rs) s =
    if has r.request.id s || is_silent r
    then announce rs s
    else (let (s', items) = announce rs (s ++ r.request.id ∷ []) in (s', requested r ∷ items))

abbrev pub text_of : Content → String
text_of (assistant_message m t s) = t
text_of (approval_request r) = ""
text_of (user_input_request r q) = ""
text_of (error m) = ""
text_of other = ""

abbrev pub previous_text : Option TurnItem → String
previous_text none = ""
previous_text (some i) = text_of i.content

-- What an update of an assistant message appended: `text` itself, where it does not extend the text
-- before it.
abbrev pub delta : String → String → String
delta text before = if starts_with text before then slice text (len before) (len text) else text

abbrev pub delta_item : TurnItem → String → Content → List Item
delta_item i before (assistant_message m text streaming) =
    assistant_delta i m text streaming (delta text before) ∷ []
delta_item i before (approval_request r) = []
delta_item i before (user_input_request r q) = []
delta_item i before (error m) = []
delta_item i before other = []

-- `#assistantText`, on the projection before the event.
unfoldable pub assistant_text : Projection → Change → List Item
assistant_text before (turn_item_updated (some i)) =
    delta_item i (previous_text (find (λ c. same c.id i.id) before.turn_items)) i.content
assistant_text before (turn_item_updated none) = []
assistant_text before (thread_record t) = []
assistant_text before (pull_request_link_updated l) = []
assistant_text before (run_record r) = []
assistant_text before (background_work_cancelled r w) = []
assistant_text before (run_attempt a) = []
assistant_text before (node_updated n) = []
assistant_text before (subagent_updated s) = []
assistant_text before (provider_session s) = []
assistant_text before (provider_session_detached s) = []
assistant_text before (provider_thread_updated t) = []
assistant_text before (provider_turn_updated t) = []
assistant_text before (runtime_request_updated r) = []
assistant_text before (message_updated m) = []
assistant_text before (plan_updated l) = []
assistant_text before (checkpoint_scope_created s) = []
assistant_text before (checkpoint_captured c) = []
assistant_text before (rollback_requested r) = []
assistant_text before (context_handoff_updated h) = []
assistant_text before (context_transfer t) = []

abbrev pub outcome_item : Option TurnOutcome → List Item
outcome_item none = []
outcome_item (some o) = turn_settled o ∷ []

unfoldable pub settle_run : Projection → Option Run → Tracker → Tracker × List Item
unfolding run_outcome
settle_run p none t = (t, [])
settle_run p (some run) t =
    if is_run_terminal_status run.status && not (has run.id t.settled)
    then (record t { settled = t.settled ++ run.id ∷ [] }, outcome_item (run_outcome p run))
    else (t, [])

-- `#settle`
unfoldable pub settle : Change → Projection → Tracker → Tracker × List Item
unfolding settle_run
settle (run_record r) p t = settle_run p (find (λ c. same c.id r.id) p.runs) t
settle (turn_item_updated i) p t = (t, [])
settle (thread_record r) p t = (t, [])
settle (pull_request_link_updated l) p t = (t, [])
settle (background_work_cancelled r w) p t = (t, [])
settle (run_attempt a) p t = (t, [])
settle (node_updated n) p t = (t, [])
settle (subagent_updated s) p t = (t, [])
settle (provider_session s) p t = (t, [])
settle (provider_session_detached s) p t = (t, [])
settle (provider_thread_updated r) p t = (t, [])
settle (provider_turn_updated r) p t = (t, [])
settle (runtime_request_updated r) p t = (t, [])
settle (message_updated m) p t = (t, [])
settle (plan_updated l) p t = (t, [])
settle (checkpoint_scope_created s) p t = (t, [])
settle (checkpoint_captured c) p t = (t, [])
settle (rollback_requested r) p t = (t, [])
settle (context_handoff_updated h) p t = (t, [])
settle (context_transfer r) p t = (t, [])

module _ (legacy_link : Json → Link) (key_string : Link → String)
    (locale_compare : String → String → Sign) where
  -- `#reconcileRequests`, on the projection that was just set.
  unfoldable pub reconcile_requests : Projection → Tracker → Tracker × List Item
  unfolding pending_requests
  reconcile_requests p t =
      let pending = pending_requests locale_compare p in
      let (kept, resolved) = resolve (map (λ r. r.request.id) pending) t.announced in
      let (announced, items) = announce pending kept in
      (record t { announced = announced }, resolved ++ items)

  -- `seed`
  unfoldable pub seed : ℕ → Projection → Tracker → Tracker × List Item
  unfolding reconcile_requests
  seed snapshot_sequence p t = reconcile_requests p (record t {
    projection = some p;
    projected_sequence = max t.projected_sequence snapshot_sequence;
    settled = add_terminal p.runs t.settled;
  })

  -- `apply` of an event that changed the projection.
  unfoldable pub apply_changed : Change → Projection → Projection → Tracker → Tracker × List Item
  unfolding assistant_text reconcile_requests settle
  apply_changed change before next t =
      let (t', items) = reconcile_requests next t in
      let (t'', outcome) = settle change next t' in
      (t'', assistant_text before change ++ (items ++ outcome))

  unfoldable pub apply_next :
      Change → Projection → Option Projection → Tracker → Tracker × List Item
  unfolding apply_changed
  apply_next change before none t = (t, [])
  apply_next change before (some next) t =
      apply_changed change before next (record t { projection = some next })

  unfoldable pub apply_from :
      ℕ → String → String → Change → Option Projection → Tracker → Tracker × List Item
  unfolding apply_next apply_thread_event
  apply_from sequence thread_id occurred_at change none t = (t, [])
  apply_from sequence thread_id occurred_at change (some p) t =
      if leb sequence t.projected_sequence
      then (t, [])
      else apply_next change p
          (apply_thread_event legacy_link key_string p (known thread_id occurred_at change))
          (record t { projected_sequence = sequence })

  -- `apply`
  unfoldable pub apply : ℕ → DomainEvent → Tracker → Tracker × List Item
  unfolding apply_from
  apply sequence unknown t = (t, [])
  apply sequence (known thread_id occurred_at change) t =
      apply_from sequence thread_id occurred_at change t.projection t
