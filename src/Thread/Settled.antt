-- ===== src/Thread/Settled.antt =====
-- api/threadTracker.ts: the announcements of a run that has settled.
use t3code_client.Prelude.{
  sym, subst, ◌∙◌, inl, inr, ℕ, ◌+◌, ◌≤◌, max, leb, String, Bool, true, false, ◌||◌, Option, none,
  some, List, [], ◌∷◌, ◌++◌, map, same, same_iff, if◌then◌else◌, ◌≡◌, refl, ap, tally, arith,
}
use t3code_client.Json.{Json}
use t3code_client.Thread.Records.{
  Run, Link, Content, assistant_message, approval_request, user_input_request, error, other,
  TurnItem, Projection, Change, DomainEvent, unknown, known,
}
use t3code_client.Thread.Projection.{apply_thread_event}
use t3code_client.Thread.Derived.{PendingRequest, Sign, pending_requests, run_outcome}
use t3code_client.Thread.Tracker.{
  Item, assistant_delta, requested, request_resolved, turn_settled, Tracker, has, add_terminal,
  resolve, announce, delta_item, assistant_text, settle_run, settle, reconcile_requests, seed,
  apply_changed, apply_next, apply_from, apply,
}
use t3code_client.Thread.Cases.{assistant_text_cases, settle_cases}
use t3code_client.Thread.Calls.{Call, seeds, applies, step, run}

-- How often the settlement of the run with an id is announced.
abbrev pub settlements : String → List Item → ℕ
settlements r [] = 0
settlements r (turn_settled o ∷ items) = tally (same o.run.id r) + settlements r items
settlements r (requested q ∷ items) = settlements r items
settlements r (request_resolved id ∷ items) = settlements r items
settlements r (assistant_delta i m x s d ∷ items) = settlements r items

settlements-append :
    (r : String) (xs ys : List Item)
    → settlements r (xs ++ ys) ≡ settlements r xs + settlements r ys
settlements-append r [] ys = omega arith
settlements-append r (turn_settled o ∷ xs) ys = omega (arith, settlements-append r xs ys)
settlements-append r (requested q ∷ xs) ys = settlements-append r xs ys
settlements-append r (request_resolved id ∷ xs) ys = settlements-append r xs ys
settlements-append r (assistant_delta i m x s d ∷ xs) ys = settlements-append r xs ys

settlements-resolve :
    (r : String) (open_ids ids : List String) → settlements r (resolve open_ids ids).1 ≡ 0
settlements-resolve r open_ids [] = refl
settlements-resolve r open_ids (id ∷ ids) = ground (arith, settlements-resolve r open_ids ids)

settlements-announce :
    (r : String) (qs : List PendingRequest) (s : List String) → settlements r (announce qs s).1 ≡ 0
settlements-announce r [] s = refl
settlements-announce r (q ∷ qs) s =
    ground (arith, settlements-announce r qs s, settlements-announce r qs (s ++ q.request.id ∷ []))

settlements-delta :
    (r : String) (i : TurnItem) (x : String) (c : Content) → settlements r (delta_item i x c) ≡ 0
settlements-delta r i x (assistant_message m y s) = refl
settlements-delta r i x (approval_request q) = refl
settlements-delta r i x (user_input_request q w) = refl
settlements-delta r i x (error m) = refl
settlements-delta r i x other = refl

settlements-text :
    (r : String) (p : Projection) (c : Change) → settlements r (assistant_text p c) ≡ 0
settlements-text r p c = elim (assistant_text_cases p c) [
  | inl silent ↦ ap (settlements r) silent
  | inr (i, before, told) ↦ ap (settlements r) told ∙ settlements-delta r i before i.content
]

pub has-append :
    (r : String) (s : List String) (k : String) → has r (s ++ k ∷ []) ≡ has r s || same k r
has-append r [] k = ground arith
has-append r (j ∷ s) k = ground (arith, has-append r s k)

add_terminal-grows :
    (r : String) (runs : List Run) (s : List String)
    → tally (has r s) ≤ tally (has r (add_terminal runs s))
add_terminal-grows r [] s = omega arith
add_terminal-grows r (x ∷ runs) s = ground (
  arith,
  has-append r s x.id,
  add_terminal-grows r runs s,
  add_terminal-grows r runs (s ++ x.id ∷ []),
)

-- What a call announces of a run, if the run was not announced before, it also records.
abbrev Grows : String → Tracker → Tracker × List Item → Type 0
Grows r t (t', items) = settlements r items + tally (has r t.settled) ≤ tally (has r t'.settled)

settle_run-Grows :
    (r : String) (p : Projection) (o : Option Run) (t : Tracker) → Grows r t (settle_run p o t)
unfolding settle_run run_outcome
settle_run-Grows r p none t = omega arith
settle_run-Grows r p (some run) t = ground (arith, has-append r t.settled run.id, same_iff run.id r)

settle-Grows : (r : String) (c : Change) (p : Projection) (t : Tracker) → Grows r t (settle c p t)
settle-Grows r c p t = elim (settle_cases c p t) [
  | inl silent ↦ subst (Grows r t) (sym silent) (omega arith)
  | inr (o, settles) ↦ subst (Grows r t) (sym settles) (settle_run-Grows r p o t)
]

Grows-if :
    (r : String) (b : Bool) (t : Tracker) (x y : Tracker × List Item)
    → Grows r t x
    → Grows r t y
    → Grows r t (if b then x else y)
Grows-if r true t x y g h = g
Grows-if r false t x y g h = h

tally-le-one : (b : Bool) → tally b ≤ 1
tally-le-one true = omega arith
tally-le-one false = omega arith

module _ (legacy_link : Json → Link) (key_string : Link → String)
    (locale_compare : String → String → Sign) where
  pub reconcile-settled :
      (r : String) (p : Projection) (t : Tracker)
      → let (t', items) = reconcile_requests legacy_link key_string locale_compare p t in
        (t'.settled ≡ t.settled) × (settlements r items ≡ 0)
  unfolding reconcile_requests
  reconcile-settled r p t =
      let pending = pending_requests locale_compare p in
      let resolved = resolve (map (λ q. q.request.id) pending) t.announced in
      (
        refl,
        omega (
          arith,
          settlements-append r resolved.1 (announce pending resolved.0).1,
          settlements-resolve r (map (λ q. q.request.id) pending) t.announced,
          settlements-announce r pending resolved.0,
        ),
      )

  apply_changed-Grows :
      (r : String) (c : Change) (p next : Projection) (t : Tracker)
      → Grows r t (apply_changed legacy_link key_string locale_compare c p next t)
  unfolding apply_changed
  apply_changed-Grows r c p next t =
      let (t', items) = reconcile_requests legacy_link key_string locale_compare next t in
      let (same_, none_) = reconcile-settled r next t in
      let (t'', outcome) = settle c next t' in
      omega (
        arith,
        ap (λ s. tally (has r s)) same_,
        none_,
        settle-Grows r c next t',
        settlements-append r (assistant_text p c) (items ++ outcome),
        settlements-append r items outcome,
        settlements-text r p c,
      )

  seed-Grows :
      (r : String) (n : ℕ) (p : Projection) (t : Tracker)
      → Grows r t (seed legacy_link key_string locale_compare n p t)
  unfolding seed
  seed-Grows r n p t =
      let t' = record t {
        projection = some p;
        projected_sequence = max t.projected_sequence n;
        settled = add_terminal p.runs t.settled;
      } in
      let (same_, none_) = reconcile-settled r p t' in
      omega (arith, ap (λ s. tally (has r s)) same_, none_, add_terminal-grows r p.runs t.settled)

  apply_next-Grows :
      (r : String) (n : ℕ) (c : Change) (p : Projection) (o : Option Projection) (t : Tracker)
      → Grows r t (
          apply_next legacy_link key_string locale_compare c p o
            (record t { projected_sequence = n }))
  unfolding apply_next
  apply_next-Grows r n c p none t = omega arith
  apply_next-Grows r n c p (some next) t =
      apply_changed-Grows r c p next (record t { projected_sequence = n; projection = some next })

  apply_from-Grows :
      (r : String) (n : ℕ) (thread_id at_ : String) (c : Change) (o : Option Projection)
      (t : Tracker)
      → Grows r t (apply_from legacy_link key_string locale_compare n thread_id at_ c o t)
  unfolding apply_from
  apply_from-Grows r n thread_id at_ c none t = omega arith
  apply_from-Grows r n thread_id at_ c (some p) t =
      Grows-if r (leb n t.projected_sequence) t (t, [])
        (apply_next legacy_link key_string locale_compare c p
          (apply_thread_event legacy_link key_string p (known thread_id at_ c))
          (record t { projected_sequence = n }))
        (omega arith)
        (apply_next-Grows r n c p
          (apply_thread_event legacy_link key_string p (known thread_id at_ c)) t)

  apply-Grows :
      (r : String) (n : ℕ) (e : DomainEvent) (t : Tracker)
      → Grows r t (apply legacy_link key_string locale_compare n e t)
  unfolding apply
  apply-Grows r n unknown t = omega arith
  apply-Grows r n (known thread_id at_ c) t = apply_from-Grows r n thread_id at_ c t.projection t

  step-Grows :
      (r : String) (t : Tracker) (k : Call)
      → Grows r t (step legacy_link key_string locale_compare t k)
  unfolding step
  step-Grows r t (seeds n p) = seed-Grows r n p t
  step-Grows r t (applies n e) = apply-Grows r n e t

  run-Grows :
      (r : String) (t : Tracker) (ks : List Call)
      → Grows r t (run legacy_link key_string locale_compare t ks)
  unfolding run
  run-Grows r t [] = omega arith
  run-Grows r t (k ∷ ks) =
      let (t', items) = step legacy_link key_string locale_compare t k in
      let (t'', rest) = run legacy_link key_string locale_compare t' ks in
      omega (arith, settlements-append r items rest, step-Grows r t k, run-Grows r t' ks)

  -- Over any snapshots and events, the settlement of a run is announced at most once, and not at all
  -- if the run was recorded as settled before.
  pub run-settles_once :
      (r : String) (t : Tracker) (ks : List Call)
      → settlements r (run legacy_link key_string locale_compare t ks).1 + tally (has r t.settled)
        ≤ 1
  run-settles_once r t ks = omega (
    arith,
    run-Grows r t ks,
    tally-le-one (has r (run legacy_link key_string locale_compare t ks).0.settled),
  )
