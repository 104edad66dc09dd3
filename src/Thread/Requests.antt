-- ===== src/Thread/Requests.antt =====
-- api/threadTracker.ts: the announcements and the resolutions of one request.
use t3code_client.Prelude.{
  ℕ, leb, max, String, Bool, true, false, not, ◌&&◌, Option, none, some, List, [], ◌∷◌, ◌++◌, map,
  if◌then◌else◌, ◌≡◌, refl, ap, sym, subst, ◌∙◌, inl, inr,
}
use t3code_client.Json.{Json}
use t3code_client.Thread.Records.{
  Run, Link, Content, assistant_message, approval_request, user_input_request, error, other,
  TurnItem, Projection, Change, unknown, known,
}
use t3code_client.Thread.Projection.{apply_thread_event}
use t3code_client.Thread.Upsert.{Distinct}
use t3code_client.Thread.Derived.{
  is_run_terminal_status, Sign, pending_requests, TurnOutcome, run_outcome,
}
use t3code_client.Thread.Tracker.{
  Item, Tracker, new_tracker, has, add_terminal, resolve, announce, delta_item, assistant_text,
  outcome_item, settle_run, settle, reconcile_requests, seed, apply_changed, apply_next, apply_from,
  apply,
}
use t3code_client.Thread.Announcements.{
  play, play-append, play-resolve, resolve-Distinct, play-announce, announce-Distinct,
}
use t3code_client.Thread.Cases.{assistant_text_cases, settle_cases}
use t3code_client.Thread.Calls.{Call, seeds, applies, step, run}

-- Whether a request is open, after items that are no announcement and no resolution.
abbrev Silent : List Item → Type 0
Silent items = (q : String) (b : Bool) → play q b items ≡ some b

delta-Silent : (i : TurnItem) (x : String) (c : Content) → Silent (delta_item i x c)
delta-Silent i x (assistant_message m y s) q b = refl
delta-Silent i x (approval_request r) q b = refl
delta-Silent i x (user_input_request r w) q b = refl
delta-Silent i x (error m) q b = refl
delta-Silent i x other q b = refl

text-Silent : (p : Projection) (c : Change) → Silent (assistant_text p c)
text-Silent p c = elim (assistant_text_cases p c) [
  | inl silent ↦ subst Silent (sym silent) (λ q b. refl)
  | inr (i, before, told) ↦ subst Silent (sym told) (delta-Silent i before i.content)
]

outcome-Silent : (o : Option TurnOutcome) → Silent (outcome_item o)
outcome-Silent none q b = refl
outcome-Silent (some o) q b = refl

-- A part of a call that leaves the announced requests as they are.
abbrev Aside : Tracker → Tracker × List Item → Type 0
Aside t (t', items) = (t'.announced ≡ t.announced) × Silent items

Aside-if :
    (b : Bool) (t : Tracker) (x y : Tracker × List Item)
    → Aside t x
    → Aside t y
    → Aside t (if b then x else y)
Aside-if true t x y h k = h
Aside-if false t x y h k = k

settle_run-Aside : (p : Projection) (o : Option Run) (t : Tracker) → Aside t (settle_run p o t)
unfolding settle_run
settle_run-Aside p none t = (refl, λ q b. refl)
settle_run-Aside p (some run) t =
    Aside-if (is_run_terminal_status run.status && not (has run.id t.settled)) t
      (record t { settled = t.settled ++ run.id ∷ [] }, outcome_item (run_outcome p run)) (t, [])
      (refl, outcome-Silent (run_outcome p run)) (refl, λ q b. refl)

settle-Aside : (c : Change) (p : Projection) (t : Tracker) → Aside t (settle c p t)
settle-Aside c p t = elim (settle_cases c p t) [
  | inl silent ↦ subst (Aside t) (sym silent) (refl, λ q b. refl)
  | inr (o, settles) ↦ subst (Aside t) (sym settles) (settle_run-Aside p o t)
]

-- A call takes the announcements and the resolutions of each request in turn, and the announced
-- requests afterwards are those that are open.
abbrev Turns : Tracker → Tracker × List Item → Type 0
Turns t (t', items) =
    Distinct t.announced
    → Distinct t'.announced
      × ((q : String) → play q (has q t.announced) items ≡ some (has q t'.announced))

Turns-if :
    (b : Bool) (t : Tracker) (x y : Tracker × List Item)
    → Turns t x
    → Turns t y
    → Turns t (if b then x else y)
Turns-if true t x y h k = h
Turns-if false t x y h k = k

module _ (legacy_link : Json → Link) (key_string : Link → String)
    (locale_compare : String → String → Sign) where
  reconcile-Turns :
      (p : Projection) (t : Tracker)
      → Turns t (reconcile_requests legacy_link key_string locale_compare p t)
  unfolding reconcile_requests
  reconcile-Turns p t d =
      let pending = pending_requests locale_compare p in
      let open_ids = map (λ r. r.request.id) pending in
      let (kept, resolved) = resolve open_ids t.announced in
      (
        announce-Distinct pending kept (resolve-Distinct open_ids t.announced d),
        λ q.
            play-append q (has q t.announced) (has q kept) resolved (announce pending kept).1
              (play-resolve q open_ids t.announced d)
            ∙ play-announce q pending kept,
      )

  apply_changed-Turns :
      (c : Change) (p next : Projection) (t : Tracker)
      → Turns t (apply_changed legacy_link key_string locale_compare c p next t)
  unfolding apply_changed
  apply_changed-Turns c p next t d =
      let (t', items) = reconcile_requests legacy_link key_string locale_compare next t in
      let (kept, turns) = reconcile-Turns next t d in
      let (same_, silent) = settle-Aside c next t' in
      let outcome = (settle c next t').1 in
      (
        subst Distinct (sym same_) kept,
        λ q.
            play-append q (has q t.announced) (has q t.announced) (assistant_text p c)
              (items ++ outcome) (text-Silent p c q (has q t.announced))
            ∙ play-append q (has q t.announced) (has q t'.announced) items outcome (turns q)
            ∙ silent q (has q t'.announced)
            ∙ ap (λ s. some (has q s)) (sym same_),
      )

  apply_next-Turns :
      (n : ℕ) (c : Change) (p : Projection) (o : Option Projection) (t : Tracker)
      → Turns t (
          apply_next legacy_link key_string locale_compare c p o
            (record t { projected_sequence = n }))
  unfolding apply_next
  apply_next-Turns n c p none t d = (d, λ q. refl)
  apply_next-Turns n c p (some next) t d =
      apply_changed-Turns c p next (record t { projected_sequence = n; projection = some next }) d

  apply_from-Turns :
      (n : ℕ) (thread_id at_ : String) (c : Change) (o : Option Projection) (t : Tracker)
      → Turns t (apply_from legacy_link key_string locale_compare n thread_id at_ c o t)
  unfolding apply_from
  apply_from-Turns n thread_id at_ c none t = λ d. (d, λ q. refl)
  apply_from-Turns n thread_id at_ c (some p) t =
      Turns-if (leb n t.projected_sequence) t (t, [])
        (apply_next legacy_link key_string locale_compare c p
          (apply_thread_event legacy_link key_string p (known thread_id at_ c))
          (record t { projected_sequence = n }))
        (λ d. (d, λ q. refl))
        (apply_next-Turns n c p
          (apply_thread_event legacy_link key_string p (known thread_id at_ c)) t)

  step-Turns : (t : Tracker) (k : Call) → Turns t (step legacy_link key_string locale_compare t k)
  unfolding step seed apply
  step-Turns t (seeds n p) = reconcile-Turns p (record t {
    projection = some p;
    projected_sequence = max t.projected_sequence n;
    settled = add_terminal p.runs t.settled;
  })
  step-Turns t (applies n unknown) = λ d. (d, λ q. refl)
  step-Turns t (applies n (known thread_id at_ c)) =
      apply_from-Turns n thread_id at_ c t.projection t

  run-Turns :
      (t : Tracker) (ks : List Call) → Turns t (run legacy_link key_string locale_compare t ks)
  unfolding run
  run-Turns t [] d = (d, λ q. refl)
  run-Turns t (k ∷ ks) d =
      let (t', items) = step legacy_link key_string locale_compare t k in
      let (e, first) = step-Turns t k d in
      let (f, rest) = run-Turns t' ks e in
      (
        f,
        λ q.
            play-append q (has q t.announced) (has q t'.announced) items
              (run legacy_link key_string locale_compare t' ks).1 (first q)
            ∙ rest q,
      )

  -- Over any snapshots and events, a new tracker announces and resolves each request in turn,
  -- starting with an announcement, and it holds a request as announced exactly while the request is
  -- announced and not resolved.
  pub run-takes_turns :
      (ks : List Call) (q : String)
      → play q false (run legacy_link key_string locale_compare new_tracker ks).1
        ≡ some (has q (run legacy_link key_string locale_compare new_tracker ks).0.announced)
  unfolding new_tracker
  run-takes_turns ks q = (run-Turns new_tracker ks tt).1 q
