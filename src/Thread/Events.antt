-- ===== src/Thread/Events.antt =====
-- api/threadProjection.ts: sequences of events on a projection, and the ids of its arrays.
use t3code_client.Prelude.{
  keep, not, All, ℕ, zero, suc, String, Bool, true, false, not, Option, none, some, List, [], ◌∷◌,
  ◌≡◌, sym, subst, any, map, same, if◌then◌else◌, arith,
}
use t3code_client.Json.{Json}
use t3code_client.Thread.Records.{
  Row, Run, Link, Projection, Change, thread_record, pull_request_link_updated, run_record,
  background_work_cancelled, run_attempt, node_updated, subagent_updated, provider_session,
  provider_session_detached, provider_thread_updated, provider_turn_updated,
  runtime_request_updated, message_updated, turn_item_updated, plan_updated,
  checkpoint_scope_created, checkpoint_captured, rollback_requested, context_handoff_updated,
  context_transfer, DomainEvent, unknown, known,
}
use t3code_client.Thread.Projection.{
  upsert_by_id, upsert_row, apply_known_event, apply_thread_event, projected, stamp,
}
use t3code_client.Thread.Upsert.{Distinct, ids, upsert_by_id-Distinct, keep-Distinct, ids-map}

-- The ids of each array.
abbrev pub id_lists : Projection → List (List String)
id_lists p =
    ids (λ r. r.id) p.runs
    ∷ ids (λ r. r.id) p.attempts
    ∷ ids (λ r. r.id) p.nodes
    ∷ ids (λ r. r.id) p.subagents
    ∷ ids (λ r. r.id) p.provider_sessions
    ∷ ids (λ r. r.id) p.provider_threads
    ∷ ids (λ r. r.id) p.provider_turns
    ∷ ids (λ r. r.id) p.runtime_requests
    ∷ ids (λ r. r.id) p.messages
    ∷ ids (λ r. r.id) p.plans
    ∷ ids (λ r. r.id) p.turn_items
    ∷ ids (λ r. r.id) p.checkpoint_scopes
    ∷ ids (λ r. r.id) p.checkpoints
    ∷ ids (λ r. r.id) p.context_handoffs
    ∷ ids (λ r. r.id) p.context_transfers
    ∷ []

-- No array holds an id twice.
abbrev pub IsValid : Projection → Type 0
IsValid p = All Distinct (id_lists p)

abbrev at_ : ℕ → List (List String) → List String
at_ i [] = []
at_ zero (ks ∷ lists) = ks
at_ (suc i) (ks ∷ lists) = at_ i lists

abbrev set_at : ℕ → List String → List (List String) → List (List String)
set_at i ks [] = []
set_at zero ks (js ∷ lists) = ks ∷ lists
set_at (suc i) ks (js ∷ lists) = js ∷ set_at i ks lists

-- One array may change, if its ids stay distinct.
set_at-Distinct :
    (i : ℕ) (ks : List String) (lists : List (List String))
    → All Distinct lists
    → (Distinct (at_ i lists) → Distinct ks)
    → All Distinct (set_at i ks lists)
set_at-Distinct i ks [] v h = tt
set_at-Distinct zero ks (js ∷ lists) (d, v) h = (h d, v)
set_at-Distinct (suc i) ks (js ∷ lists) (d, v) h = (d, set_at-Distinct i ks lists v h)

upsert_row-Distinct :
    (rows : List Row) (r : Row)
    → Distinct (ids (λ x. x.id) rows)
    → Distinct (ids (λ x. x.id) (upsert_row rows r))
upsert_row-Distinct rows r d = upsert_by_id-Distinct (λ x. x.id) r rows d

abbrev pub cancel_work : String → Json → Run → Run
cancel_work run_id work r =
    if same r.id run_id then record r { restart_cancelled_background_work = work } else r

abbrev pub cancelled : Projection → String → Json → Projection
cancelled p run_id work = record p { runs = map (cancel_work run_id work) p.runs }

pub cancel-id :
    (run_id : String) (work : Json) (r : Run)
    → (if same r.id run_id then record r { restart_cancelled_background_work = work } else r).id
      ≡ r.id
cancel-id run_id work r = ground arith

IsValid-if :
    (b : Bool) (p : Projection) (o : Option Projection)
    → IsValid (projected p o)
    → IsValid p
    → IsValid (projected p (if b then o else none))
IsValid-if true p o v w = v
IsValid-if false p o v w = w

stamp-IsValid :
    (p : Projection) (occurred_at : String) (o : Option Projection)
    → IsValid (projected p o)
    → IsValid (projected p (stamp occurred_at o))
stamp-IsValid p occurred_at none v = v
stamp-IsValid p occurred_at (some next) v = v

module _ (legacy_link : Json → Link) (key_string : Link → String) where
  apply_known-IsValid :
      (p : Projection) (c : Change)
      → IsValid p
      → IsValid (projected p (apply_known_event legacy_link key_string p c))
  unfolding apply_known_event
  apply_known-IsValid p (thread_record t) v = v
  apply_known-IsValid p (pull_request_link_updated l) v = v
  apply_known-IsValid p (run_record r) v =
      set_at-Distinct 0 (ids (λ x. x.id) (upsert_by_id (λ x. x.id) p.runs r)) (id_lists p) v
        (upsert_by_id-Distinct (λ x. x.id) r p.runs)
  apply_known-IsValid p (background_work_cancelled run_id work) v =
      IsValid-if (any (λ r. same r.id run_id) p.runs) p (some (cancelled p run_id work))
        (set_at-Distinct 0 (ids (λ x. x.id) (cancelled p run_id work).runs) (id_lists p) v (
          subst Distinct
            (sym (ids-map (λ r. r.id) (cancel_work run_id work) p.runs (cancel-id run_id work)))))
        v
  apply_known-IsValid p (run_attempt a) v =
      set_at-Distinct 1 (ids (λ x. x.id) (upsert_row p.attempts a)) (id_lists p) v
        (upsert_row-Distinct p.attempts a)
  apply_known-IsValid p (node_updated n) v =
      set_at-Distinct 2 (ids (λ x. x.id) (upsert_row p.nodes n)) (id_lists p) v
        (upsert_row-Distinct p.nodes n)
  apply_known-IsValid p (subagent_updated s) v =
      set_at-Distinct 3 (ids (λ x. x.id) (upsert_row p.subagents s)) (id_lists p) v
        (upsert_row-Distinct p.subagents s)
  apply_known-IsValid p (provider_session s) v =
      set_at-Distinct 4 (ids (λ x. x.id) (upsert_row p.provider_sessions s)) (id_lists p) v
        (upsert_row-Distinct p.provider_sessions s)
  apply_known-IsValid p (provider_session_detached id) v =
      let others = keep (λ session. not (same session.id id)) p.provider_sessions in
      set_at-Distinct 4 (ids (λ x. x.id) others) (id_lists p) v
        (keep-Distinct (λ x. x.id) (λ session. not (same session.id id)) p.provider_sessions)
  apply_known-IsValid p (provider_thread_updated t) v =
      set_at-Distinct 5 (ids (λ x. x.id) (upsert_row p.provider_threads t)) (id_lists p) v
        (upsert_row-Distinct p.provider_threads t)
  apply_known-IsValid p (provider_turn_updated t) v =
      set_at-Distinct 6 (ids (λ x. x.id) (upsert_row p.provider_turns t)) (id_lists p) v
        (upsert_row-Distinct p.provider_turns t)
  apply_known-IsValid p (runtime_request_updated r) v =
      set_at-Distinct 7 (ids (λ x. x.id) (upsert_by_id (λ x. x.id) p.runtime_requests r))
        (id_lists p) v (upsert_by_id-Distinct (λ x. x.id) r p.runtime_requests)
  apply_known-IsValid p (message_updated m) v =
      set_at-Distinct 8 (ids (λ x. x.id) (upsert_by_id (λ x. x.id) p.messages m)) (id_lists p) v
        (upsert_by_id-Distinct (λ x. x.id) m p.messages)
  apply_known-IsValid p (turn_item_updated none) v = v
  apply_known-IsValid p (turn_item_updated (some i)) v =
      set_at-Distinct 10 (ids (λ x. x.id) (upsert_by_id (λ x. x.id) p.turn_items i)) (id_lists p) v
        (upsert_by_id-Distinct (λ x. x.id) i p.turn_items)
  apply_known-IsValid p (plan_updated none) v = v
  apply_known-IsValid p (plan_updated (some l)) v =
      set_at-Distinct 9 (ids (λ x. x.id) (upsert_row p.plans l)) (id_lists p) v
        (upsert_row-Distinct p.plans l)
  apply_known-IsValid p (checkpoint_scope_created s) v =
      set_at-Distinct 11 (ids (λ x. x.id) (upsert_row p.checkpoint_scopes s)) (id_lists p) v
        (upsert_row-Distinct p.checkpoint_scopes s)
  apply_known-IsValid p (checkpoint_captured c) v =
      set_at-Distinct 12 (ids (λ x. x.id) (upsert_row p.checkpoints c)) (id_lists p) v
        (upsert_row-Distinct p.checkpoints c)
  apply_known-IsValid p (rollback_requested r) v = v
  apply_known-IsValid p (context_handoff_updated h) v =
      set_at-Distinct 13 (ids (λ x. x.id) (upsert_row p.context_handoffs h)) (id_lists p) v
        (upsert_row-Distinct p.context_handoffs h)
  apply_known-IsValid p (context_transfer t) v =
      set_at-Distinct 14 (ids (λ x. x.id) (upsert_row p.context_transfers t)) (id_lists p) v
        (upsert_row-Distinct p.context_transfers t)

  apply_thread-IsValid :
      (p : Projection) (e : DomainEvent)
      → IsValid p
      → IsValid (projected p (apply_thread_event legacy_link key_string p e))
  unfolding apply_thread_event
  apply_thread-IsValid p unknown v = v
  apply_thread-IsValid p (known thread_id occurred_at c) v =
      IsValid-if (same thread_id p.thread.id) p
        (stamp occurred_at (apply_known_event legacy_link key_string p c))
        (stamp-IsValid p occurred_at (apply_known_event legacy_link key_string p c)
          (apply_known-IsValid p c v))
        v

  -- The projection after a sequence of events.
  abbrev pub apply_all : Projection → List DomainEvent → Projection
  apply_all p [] = p
  apply_all p (e ∷ es) = apply_all (projected p (apply_thread_event legacy_link key_string p e)) es

  -- Whatever events are applied to a projection whose arrays hold no id twice: they still do not.
  pub apply_all-IsValid :
      (p : Projection) (es : List DomainEvent) → IsValid p → IsValid (apply_all p es)
  apply_all-IsValid p [] v = v
  apply_all-IsValid p (e ∷ es) v =
      apply_all-IsValid (projected p (apply_thread_event legacy_link key_string p e)) es
        (apply_thread-IsValid p e v)
