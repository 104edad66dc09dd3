-- ===== src/Thread/Announced.antt =====
-- api/threadTracker.ts: the event with which a run becomes terminal.
use t3code_client.Prelude.{
  ℕ, ◌<◌, leb, String, Bool, true, false, not, ◌&&◌, none, some, List, [], ◌∷◌, ◌++◌, find, same,
  same_refl, if◌then◌else◌, ◌≡◌, ap, ◌∙◌, arith,
}
use t3code_client.Json.{Json}
use t3code_client.Thread.Records.{Run, Link, Projection, run_record, known}
use t3code_client.Thread.Projection.{apply_thread_event, upsert_by_id}
use t3code_client.Thread.Upsert.{find-upsert_by_id}
use t3code_client.Thread.Derived.{
  is_run_terminal_status, Sign, assistant_message_for_run, run_error, TurnOutcome, run_outcome,
}
use t3code_client.Thread.Tracker.{
  Item, turn_settled, Tracker, has, settle_run, settle, reconcile_requests, apply_changed,
  apply_next, apply_from, apply, outcome_item,
}
use t3code_client.Thread.Settled.{reconcile-settled}

-- The projection after a record of a run.
abbrev pub with_run : Projection → Run → String → Projection
with_run p r at_ = record p { runs = upsert_by_id (λ x. x.id) p.runs r; updated_at = at_ }

abbrev pub outcome_of : Projection → Run → TurnOutcome
outcome_of p r = record {
  state = r.status;
  run = r;
  assistant = assistant_message_for_run p r.id;
  failure = run_error p r;
  projection = p;
}

run_outcome_terminal :
    (p : Projection) (r : Run)
    → is_run_terminal_status r.status ≡ true
    → run_outcome p r ≡ some (outcome_of p r)
unfolding run_outcome
run_outcome_terminal p r h = ap (λ b. if b then some (outcome_of p r) else none) h

settle_run-items :
    (p : Projection) (r : Run) (t : Tracker)
    → is_run_terminal_status r.status ≡ true
    → has r.id t.settled ≡ false
    → (settle_run p (some r) t).1 ≡ turn_settled (outcome_of p r) ∷ []
unfolding settle_run
settle_run-items p r t h n =
    let guard : (is_run_terminal_status r.status && not (has r.id t.settled)) ≡ true =
      ground (arith, h, n) in
    ap {A = Bool} {B = List Item}
      (λ b.
        let x : Tracker × List Item =
          if b
          then (record t { settled = t.settled ++ r.id ∷ [] }, outcome_item (run_outcome p r))
          else (t, []) in
        x.1)
      guard
    ∙ ap outcome_item (run_outcome_terminal p r h)

settle_items :
    (p : Projection) (r : Run) (at_ : String) (t : Tracker)
    → is_run_terminal_status r.status ≡ true
    → has r.id t.settled ≡ false
    → (settle (run_record r) (with_run p r at_) t).1
      ≡ turn_settled (outcome_of (with_run p r at_) r) ∷ []
unfolding settle
settle_items p r at_ t h n =
    ap (λ o. (settle_run (with_run p r at_) o t).1)
      (find-upsert_by_id (λ x. x.id) r r.id p.runs
        ∙ ap (λ b. if b then some r else find (λ x. same x.id r.id) p.runs) (same_refl r.id))
    ∙ settle_run-items (with_run p r at_) r t h n

module _ (legacy_link : Json → Link) (key_string : Link → String)
    (locale_compare : String → String → Sign) where
  apply_known_run :
      (p : Projection) (r : Run) (thread_id at_ : String)
      → same thread_id p.thread.id ≡ true
      → apply_thread_event legacy_link key_string p (known thread_id at_ (run_record r))
        ≡ some (with_run p r at_)
  unfolding apply_thread_event
  apply_known_run p r thread_id at_ h = ap (λ b. if b then some (with_run p r at_) else none) h

  changed_items :
      (p : Projection) (r : Run) (at_ : String) (t : Tracker)
      → is_run_terminal_status r.status ≡ true
      → has r.id t.settled ≡ false
      → let next = with_run p r at_ in
        (apply_changed legacy_link key_string locale_compare (run_record r) p next t).1
        ≡ (reconcile_requests legacy_link key_string locale_compare next t).1
          ++ turn_settled (outcome_of next r) ∷ []
  unfolding apply_changed
  changed_items p r at_ t h n =
      let next = with_run p r at_ in
      let (t', items) = reconcile_requests legacy_link key_string locale_compare next t in
      let (same_, none_) = reconcile-settled legacy_link key_string locale_compare r.id next t in
      ap (λ xs. items ++ xs) (settle_items p r at_ t' h (ap (λ s. has r.id s) same_ ∙ n))

  new_items :
      (p : Projection) (r : Run) (n : ℕ) (at_ : String) (t : Tracker)
      → t.projected_sequence < n
      → let next = with_run p r at_ in
        (apply_from legacy_link key_string locale_compare n p.thread.id at_
          (run_record r)
          (some p)
          t).1
        ≡ (apply_changed legacy_link key_string locale_compare
            (run_record r)
            p
            next
            (record t { projected_sequence = n; projection = some next })).1
  unfolding apply_from apply_next
  new_items p r n at_ t newer =
      let t' = record t { projected_sequence = n } in
      let above : leb n t.projected_sequence ≡ false = ground (arith, newer) in
      ap
        (λ b.
          let x : Tracker × List Item =
            if b
            then (t, [])
            else apply_next legacy_link key_string locale_compare (run_record r) p
                (apply_thread_event legacy_link key_string p (known p.thread.id at_ (run_record r)))
                t' in
          x.1)
        above
      ∙ ap (λ o. (apply_next legacy_link key_string locale_compare (run_record r) p o t').1)
          (apply_known_run p r p.thread.id at_ (same_refl p.thread.id))

  -- An event that sets a run of the thread to a terminal status, with a sequence above the projected
  -- one, ends its items with the settlement of the run, with its status and the new projection, if the
  -- run was not recorded as settled before.
  pub apply_settles :
      (p : Projection) (r : Run) (n : ℕ) (at_ : String) (t : Tracker)
      → t.projection ≡ some p
      → t.projected_sequence < n
      → is_run_terminal_status r.status ≡ true
      → has r.id t.settled ≡ false
      → (items : List Item) × ((apply legacy_link key_string locale_compare n
            (known p.thread.id at_ (run_record r))
            t).1
          ≡ items ++ turn_settled (outcome_of (with_run p r at_) r) ∷ [])
  unfolding apply
  apply_settles p r n at_ t seeded newer h fresh =
      let t' = record t { projected_sequence = n } in
      let next = with_run p r at_ in
      (
        (reconcile_requests legacy_link key_string locale_compare next
            (record t' { projection = some next })).1,
        ap
              (λ o.
                (apply_from legacy_link key_string locale_compare n p.thread.id at_ (run_record r) o
                  t).1)
              seeded
            ∙ new_items p r n at_ t newer
            ∙ changed_items p r at_ (record t' { projection = some next }) h fresh,
      )
