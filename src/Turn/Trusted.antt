-- ===== src/Turn/Trusted.antt =====
-- api/turns.ts: the operations follow, and resolve with, runs of one property.
use t3code_client.Prelude.{
  first_of, ℕ, zero, suc, String, Bool, true, false, Option, none, some, List, [], ◌∷◌, ◌++◌,
  same_iff, if◌then◌else◌, ◌≡◌, refl, subst, arith, append_assoc,
}
use t3code_client.Errors.{T3Error}
use t3code_client.Channel
use t3code_client.Channel.{Effect}
use t3code_client.Thread.Records.{Projection, DomainEvent, unknown, known}
use t3code_client.Thread.Derived.{TurnOutcome}
use t3code_client.Thread.Tracker.{Item, assistant_delta, requested, request_resolved, turn_settled}
use t3code_client.Thread.Watch.{
  WatchItem, snapshot, synchronized, event, derived, decode_error, reconnected,
}
use t3code_client.Turn.Adoption.{
  Adoption, snapshot_link, seed, change_link, on_event, is_ours, is_ours_from,
}
use t3code_client.Turn.Handle.{
  Consumer, Subscriber, Act, resolved, rejected, interrupts_run, serves, over, Turn, at_place,
  each_one, each_from, each, settle_turn, fail, track, finish, read_item, settle_seeded,
  track_derived,
}
use t3code_client.Turn.Counted.{Op}
use t3code_client.Turn.Linked.{
  names, event_names, snapshot_link-names, change_link-names, outcome_for_run,
}

-- Every outcome that `completion` resolved with is of a run with a property.
abbrev pub AllResolved : (String → Type 0) → List Act → Type 0
AllResolved Q [] = Unit
AllResolved Q (resolved o ∷ acts) = Q o.run.id × AllResolved Q acts
AllResolved Q (rejected e ∷ acts) = AllResolved Q acts
AllResolved Q (interrupts_run r ∷ acts) = AllResolved Q acts
AllResolved Q (serves i es ∷ acts) = AllResolved Q acts

module _ (Q : String → Type 0) where
  -- The run that is followed, if any, has the property.
  abbrev Holds : Option String → Type 0
  Holds none = Unit
  Holds (some r) = Q r

  pub record Trusted (id : String) (t : Turn) : Type 0 where
    pub mine : t.adoption.message_id ≡ id
    pub linked : Holds t.adoption.run_id
    pub settled : AllResolved Q t.log

  pub serving-AllResolved :
      (f : Op) (i k : ℕ) (ss : List Subscriber) (acts : List Act)
      → AllResolved Q acts
      → AllResolved Q ((at_place f i k ss).1 ++ acts)
  serving-AllResolved f i k [] acts h = h
  serving-AllResolved f i zero (s ∷ ss) acts h = h
  serving-AllResolved f i (suc k) (s ∷ ss) acts h = serving-AllResolved f i k ss acts h

  one-AllResolved :
      (f : Op) (keeps : Bool) (i : ℕ) (a : Bool) (c : Consumer) (acts : List Act)
      → AllResolved Q acts
      → AllResolved Q ((each_one f keeps i a c).1 ++ acts)
  one-AllResolved f keeps i true c acts h = h
  one-AllResolved f keeps i false c acts h = h

  each-AllResolved :
      (f : Op) (keeps : Bool) (i : ℕ) (ss : List Subscriber) (acts : List Act)
      → AllResolved Q acts
      → AllResolved Q ((each_from f keeps i ss).1 ++ acts)
  each-AllResolved f keeps i [] acts h = h
  each-AllResolved f keeps i (s ∷ ss) acts h = rw append_assoc (
      each-AllResolved f keeps (suc i) ss _ (one-AllResolved f keeps i s.attached s.channel acts h))

  each-Trusted :
      (id : String) (f : Op) (keeps : Bool) (t : Turn) → Trusted id t → Trusted id (each f keeps t)
  unfolding each
  each-Trusted id f keeps t h = record {
    mine = h.mine;
    linked = h.linked;
    settled = each-AllResolved f keeps 0 t.subscribers t.log h.settled;
  }

  pub if-Trusted :
      (id : String) (b : Bool) (t u : Turn)
      → (b ≡ true → Trusted id t)
      → Trusted id u
      → Trusted id (if b then t else u)
  if-Trusted id true t u h k = h refl
  if-Trusted id false t u h k = k

  settle_turn-Trusted :
      (id : String) (o : TurnOutcome) (t : Turn)
      → Q o.run.id
      → Trusted id t
      → Trusted id (settle_turn o t)
  unfolding settle_turn
  settle_turn-Trusted id o t q h =
      if-Trusted id t.done _ _ (λ _. h)
        (record { mine = h.mine; linked = h.linked; settled = (q, h.settled) })

  pub fail-Trusted : (id : String) (e : T3Error) (t : Turn) → Trusted id t → Trusted id (fail e t)
  unfolding fail
  fail-Trusted id e t h = ground (arith, h.mine, h.linked, h.settled)

  link-Holds : (r old : Option String) → Holds r → Holds old → Holds (first_of r old)
  link-Holds none old h k = k
  link-Holds (some r) old h k = h

  Holds-of : (r : Option String) → ((q : String) → r ≡ some q → Q q) → Holds r
  Holds-of none h = tt
  Holds-of (some r) h = h r refl

  Holds-at : (r : Option String) (q : String) → r ≡ some q → Holds r → Q q
  Holds-at r q e h = subst Holds e h

  -- A watch item names only runs with the property.
  abbrev Says : String → WatchItem → Type 0
  Says id w = (r : String) → names id r w ≡ true → Q r

  seed-Holds :
      (id : String) (n : ℕ) (p : Projection) (t : Turn)
      → Says id (snapshot n p)
      → Trusted id t
      → Holds (seed p t.adoption).0.run_id
  unfolding seed
  seed-Holds id n p t w h =
      link-Holds (snapshot_link t.adoption.message_id p) t.adoption.run_id
        (rw (h.mine) (Holds-of (snapshot_link id p) (λ r e. w r (snapshot_link-names id r n p e))))
        h.linked

  settle_seeded-Trusted :
      (id : String) (o : Option TurnOutcome) (t : Turn)
      → ((x : TurnOutcome) → o ≡ some x → Q x.run.id)
      → Trusted id t
      → Trusted id (settle_seeded o t)
  settle_seeded-Trusted id none t w h = h
  settle_seeded-Trusted id (some o) t w h = settle_turn-Trusted id o t (w o refl) h

  snapshot-Trusted :
      (id : String) (n : ℕ) (p : Projection) (t : Turn)
      → Says id (snapshot n p)
      → Trusted id t
      → Trusted id (track (snapshot n p) t)
  unfolding track
  snapshot-Trusted id n p t w h =
      let held = seed-Holds id n p t w h in
      settle_seeded-Trusted id (seed p t.adoption).1 (record t { adoption = (seed p t.adoption).0 })
        (λ x e. Holds-at (seed p t.adoption).0.run_id x.run.id (seeded_run x e) held)
        (record { mine = kept; linked = held; settled = h.settled })
    where
      seeded_run :
          (x : TurnOutcome)
          → (seed p t.adoption).1 ≡ some x
          → (seed p t.adoption).0.run_id ≡ some x.run.id
      seeded_run x e = unfold seed in outcome_for_run p _ x e

      kept : (seed p t.adoption).0.message_id ≡ id
      kept = unfold seed in h.mine

  event-Holds :
      (id : String) (e : DomainEvent) (a : Adoption)
      → ((r : String) → event_names id r e ≡ true → Q r)
      → a.message_id ≡ id
      → Holds a.run_id
      → (Holds (on_event e a).run_id) × ((on_event e a).message_id ≡ id)
  unfolding on_event
  event-Holds id unknown a w m h = (h, m)
  event-Holds id (known thread_id occurred_at c) a w m h = (
    link-Holds (change_link a.message_id c) a.run_id
        (rw m (Holds-of (change_link id c) (λ r e. w r (change_link-names id r c e)))) h,
    m,
  )

  ours-Holds : (id : String) (a : Adoption) → is_ours id a ≡ true → Holds a.run_id → Q id
  unfolding is_ours
  ours-Holds id a o h = Holds-at a.run_id id (ours a.run_id o) h
    where
      ours : (r : Option String) → is_ours_from id r ≡ true → r ≡ some id
      ours none o = cc
      ours (some r) o = ground (arith, same_iff id r)

  derived-Trusted :
      (id : String) (i : Item) (t : Turn) → Trusted id t → Trusted id (track_derived i t)
  derived-Trusted id (turn_settled o) t h =
      if-Trusted id (is_ours o.run.id t.adoption) _ _
        (λ ours. settle_turn-Trusted id o t (ours-Holds o.run.id t.adoption ours h.linked) h) h
  derived-Trusted id (assistant_delta i m x s d) t h = h
  derived-Trusted id (requested r) t h = h
  derived-Trusted id (request_resolved q) t h = h

  track-Trusted :
      (id : String) (w : WatchItem) (t : Turn) → Says id w → Trusted id t → Trusted id (track w t)
  track-Trusted id (snapshot n p) t s h = snapshot-Trusted id n p t s h
  track-Trusted id (event n e) t s h =
      let (linked, mine) = event-Holds id e t.adoption s h.mine h.linked in
      unfold track in record { mine = mine; linked = linked; settled = h.settled }
  track-Trusted id (derived i) t s h = unfold track in derived-Trusted id i t h
  track-Trusted id synchronized t s h = unfold track in h
  track-Trusted id decode_error t s h = unfold track in h
  track-Trusted id (reconnected n) t s h = unfold track in h

  pub finish-Trusted : (id : String) (t : Turn) → Trusted id t → Trusted id (finish t)
  unfolding finish
  finish-Trusted id t h =
      each-Trusted id Channel.end false (record t { phase = over; aborted = true })
        (record { mine = h.mine; linked = h.linked; settled = h.settled })

  pub read_item-Trusted :
      (id : String) (w : WatchItem) (t : Turn)
      → Says id w
      → Trusted id t
      → Trusted id (read_item w t)
  unfolding read_item
  read_item-Trusted id w t s h =
      let kept =
        track-Trusted id w (each (Channel.push w) true t) s
          (each-Trusted id (Channel.push w) true t h) in
      if-Trusted id (track w (each (Channel.push w) true t)).done _ _
        (λ _. record { mine = kept.mine; linked = kept.linked; settled = kept.settled }) kept
