-- ===== src/Thread/Replay.antt =====
-- api/threadProjection.ts: an event that a projection reflects already.
use t3code_client.Prelude.{
  String, Bool, true, false, not, Option, none, some, List, [], ◌∷◌, ◌≡◌, refl, ap, subst, any,
  keep, map, same, same_refl, if◌then◌else◌, arith,
}
use t3code_client.Json.{Json}
use t3code_client.Thread.Records.{
  Row, Run, Request, Message, TurnItem, Link, AppThread, Projection, Change, thread_record,
  pull_request_link_updated, run_record, background_work_cancelled, run_attempt, node_updated,
  subagent_updated, provider_session, provider_session_detached, provider_thread_updated,
  provider_turn_updated, runtime_request_updated, message_updated, turn_item_updated, plan_updated,
  checkpoint_scope_created, checkpoint_captured, rollback_requested, context_handoff_updated,
  context_transfer, DomainEvent, unknown, known,
}
use t3code_client.Thread.Projection.{
  apply_known_event, apply_thread_event, projected, stamp, replace_link, thread_pull_requests_of,
  pull_request_keys_equal,
}
use t3code_client.Thread.Upsert.{upsert_twice}
use t3code_client.Thread.Events.{cancel_work, cancelled}

map_twice :
    {A : Type 0}
    → (f : A → A) (xs : List A) → ((x : A) → f (f x) ≡ f x)
    → map f (map f xs) ≡ map f xs
map_twice f [] h = refl
map_twice f (x ∷ xs) h = ground (arith, h x, map_twice f xs h)

keep_twice : {A : Type 0} → (p : A → Bool) (xs : List A) → keep p (keep p xs) ≡ keep p xs
keep_twice p [] = refl
keep_twice p (x ∷ xs) = ground (arith, keep_twice p xs)

cancel_twice :
    (run_id : String) (work : Json) (r : Run)
    → cancel_work run_id work (cancel_work run_id work r) ≡ cancel_work run_id work r
cancel_twice run_id work r = ground arith

-- Cancelling the background work of a run, if b says that the run is there.
abbrev after_cancel : Bool → Projection → String → Json → Projection
after_cancel b p run_id work = projected p (if b then some (cancelled p run_id work) else none)

either :
    (b : Bool) (o : String) (q r : Projection)
    → (b ≡ true → record r { updated_at = o } ≡ q)
    → projected q (stamp o (if b then some r else none)) ≡ q
either true o q r h = h refl
either false o q r h = refl

cancel_again :
    (b : Bool) (o : String) (p : Projection) (run_id : String) (work : Json)
    → any (λ r. same r.id run_id) p.runs ≡ b
    → let q = record (after_cancel b p run_id work) { updated_at = o } in
      projected q (
        stamp o
          (if any (λ r. same r.id run_id) q.runs then some (cancelled q run_id work) else none))
      ≡ q
cancel_again true o p run_id work e =
    let q = record (cancelled p run_id work) { updated_at = o } in
    either (any (λ r. same r.id run_id) q.runs) o q (cancelled q run_id work) (λ h.
      ap {A = List Run} {B = Projection} (λ rs. record p { runs = rs; updated_at = o })
        (map_twice (cancel_work run_id work) p.runs (cancel_twice run_id work)))
cancel_again false o p run_id work e =
    let q = record p { updated_at = o } in
    either (any (λ r. same r.id run_id) p.runs) o q (cancelled q run_id work) (λ h. cc (h, e))

module _ (legacy_link : Json → Link) (key_string : Link → String) where
  link_twice :
      (l : Link) (t : AppThread)
      → let links = replace_link legacy_link key_string t l in
        replace_link legacy_link key_string (record t { pull_requests = some links }) l ≡ links
  unfolding replace_link
  link_twice l t =
      map_twice (λ link. if pull_request_keys_equal legacy_link key_string link l then l else link)
        (thread_pull_requests_of legacy_link key_string t)
        (λ x. ground (arith, same_refl (key_string l)))

  again :
      (o : String) (p : Projection) (c : Change)
      → let q = record (projected p (apply_known_event legacy_link key_string p c)) {
        updated_at = o;
      } in
        projected q (stamp o (apply_known_event legacy_link key_string q c)) ≡ q
  unfolding apply_known_event
  again o p (thread_record t) = refl
  again o p (pull_request_link_updated l) =
      ap {A = List Link} {B = Projection}
        (λ links. record p {
          thread = record p.thread { pull_requests = some links };
          updated_at = o;
        })
        (link_twice l p.thread)
  again o p (background_work_cancelled run_id work) =
      cancel_again (any (λ r. same r.id run_id) p.runs) o p run_id work refl
  again o p (provider_session_detached id) =
      ap {A = List Row} {B = Projection}
        (λ rows. record p { provider_sessions = rows; updated_at = o })
        (keep_twice (λ session. not (same session.id id)) p.provider_sessions)
  again o p (turn_item_updated none) = refl
  again o p (plan_updated none) = refl
  again o p (rollback_requested r) = refl
  again o p (run_record r) =
      ap {A = List Run} {B = Projection} (λ rows. record p { runs = rows; updated_at = o })
        (upsert_twice (λ x. x.id) r p.runs)
  again o p (run_attempt a) =
      ap {A = List Row} {B = Projection} (λ rows. record p { attempts = rows; updated_at = o })
        (upsert_twice (λ x. x.id) a p.attempts)
  again o p (node_updated n) =
      ap {A = List Row} {B = Projection} (λ rows. record p { nodes = rows; updated_at = o })
        (upsert_twice (λ x. x.id) n p.nodes)
  again o p (subagent_updated s) =
      ap {A = List Row} {B = Projection} (λ rows. record p { subagents = rows; updated_at = o })
        (upsert_twice (λ x. x.id) s p.subagents)
  again o p (provider_session s) =
      ap {A = List Row} {B = Projection}
        (λ rows. record p { provider_sessions = rows; updated_at = o })
        (upsert_twice (λ x. x.id) s p.provider_sessions)
  again o p (provider_thread_updated t) =
      ap {A = List Row} {B = Projection}
        (λ rows. record p { provider_threads = rows; updated_at = o })
        (upsert_twice (λ x. x.id) t p.provider_threads)
  again o p (provider_turn_updated t) =
      ap {A = List Row} {B = Projection}
        (λ rows. record p { provider_turns = rows; updated_at = o })
        (upsert_twice (λ x. x.id) t p.provider_turns)
  again o p (runtime_request_updated r) =
      ap {A = List Request} {B = Projection}
        (λ rows. record p { runtime_requests = rows; updated_at = o })
        (upsert_twice (λ x. x.id) r p.runtime_requests)
  again o p (message_updated m) =
      ap {A = List Message} {B = Projection} (λ rows. record p { messages = rows; updated_at = o })
        (upsert_twice (λ x. x.id) m p.messages)
  again o p (turn_item_updated (some i)) =
      ap {A = List TurnItem} {B = Projection}
        (λ rows. record p { turn_items = rows; updated_at = o })
        (upsert_twice (λ x. x.id) i p.turn_items)
  again o p (plan_updated (some l)) =
      ap {A = List Row} {B = Projection} (λ rows. record p { plans = rows; updated_at = o })
        (upsert_twice (λ x. x.id) l p.plans)
  again o p (checkpoint_scope_created s) =
      ap {A = List Row} {B = Projection}
        (λ rows. record p { checkpoint_scopes = rows; updated_at = o })
        (upsert_twice (λ x. x.id) s p.checkpoint_scopes)
  again o p (checkpoint_captured c) =
      ap {A = List Row} {B = Projection} (λ rows. record p { checkpoints = rows; updated_at = o })
        (upsert_twice (λ x. x.id) c p.checkpoints)
  again o p (context_handoff_updated h) =
      ap {A = List Row} {B = Projection}
        (λ rows. record p { context_handoffs = rows; updated_at = o })
        (upsert_twice (λ x. x.id) h p.context_handoffs)
  again o p (context_transfer t) =
      ap {A = List Row} {B = Projection}
        (λ rows. record p { context_transfers = rows; updated_at = o })
        (upsert_twice (λ x. x.id) t p.context_transfers)

  -- What an event for the thread with an id gives, on a projection.
  abbrev guarded : String → String → Change → Projection → Option Projection
  guarded thread_id o c q =
      if same thread_id q.thread.id
      then stamp o (apply_known_event legacy_link key_string q c)
      else none

  if_same :
      (b : Bool) (q : Projection) (x : Option Projection)
      → projected q x ≡ q
      → projected q (if b then x else none) ≡ q
  if_same true q x h = h
  if_same false q x h = refl

  stamped :
      (thread_id o : String) (p : Projection) (c : Change) (x : Option Projection)
      → apply_known_event legacy_link key_string p c ≡ x
      → let q = projected p (stamp o x) in projected q (guarded thread_id o c q) ≡ q
  stamped thread_id o p c none e =
      if_same (same thread_id p.thread.id) p
        (stamp o (apply_known_event legacy_link key_string p c))
        (ap (λ y. projected p (stamp o y)) e)
  stamped thread_id o p c (some next) e =
      let q = record next { updated_at = o } in
      if_same (same thread_id next.thread.id) q
        (stamp o (apply_known_event legacy_link key_string q c))
        (subst
          (λ y.
            let r = record (projected p y) { updated_at = o } in
            projected r (stamp o (apply_known_event legacy_link key_string r c)) ≡ r)
          e (again o p c))

  twice :
      (thread_id o : String) (p : Projection) (c : Change) (b : Bool)
      → same thread_id p.thread.id ≡ b
      → let q =
          projected p
            (if b then stamp o (apply_known_event legacy_link key_string p c) else none) in
        projected q (guarded thread_id o c q) ≡ q
  twice thread_id o p c true e =
      stamped thread_id o p c (apply_known_event legacy_link key_string p c) refl
  twice thread_id o p c false e =
      ap
        (λ b.
          projected p (if b then stamp o (apply_known_event legacy_link key_string p c) else none))
        e

  -- An event that was applied to a projection changes nothing when it is applied again.
  pub apply_thread_event_twice :
      (p : Projection) (e : DomainEvent)
      → let q = projected p (apply_thread_event legacy_link key_string p e) in
        projected q (apply_thread_event legacy_link key_string q e) ≡ q
  unfolding apply_thread_event
  apply_thread_event_twice p unknown = refl
  apply_thread_event_twice p (known thread_id o c) =
      twice thread_id o p c (same thread_id p.thread.id) refl
