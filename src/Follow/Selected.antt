-- ===== src/Follow/Selected.antt =====
-- What a command follows is of one run: the steps of an observation keep it.
use t3code_client.Prelude.{
  first_of, String, Bool, true, false, Bool-cases, Option-cases, Option, none, some, List, [], ◌∷◌,
  all, find, keep, same, same_iff, ◌≡◌, refl, sym, ap, ◌∙◌, ◌⊎◌, inl, inr, arith,
}
use t3code_client.Thread.Records.{Run, TurnItem, Projection}
use t3code_client.Thread.Derived.{PendingRequest, TurnOutcome, run_outcome}
use t3code_client.Thread.Tracker.{Item, assistant_delta, requested, request_resolved, turn_settled}
use t3code_client.Thread.Watch.{
  WatchItem, snapshot, synchronized, event, derived, decode_error, reconnected,
}
use t3code_client.Follow.Observation.{
  FollowTarget, Observation, turn_run, set_outcome, choose, choose_without, is_run, read_run,
  concerns_item, concerns, on_settled, on_derived, on_item, Event, item, completes,
}

-- A run id that was known does not change.
abbrev pub Keeps : Option String → Option String → Type 0
Keeps before now = (before ≡ none) ⊎ (now ≡ before)

-- The outcome is of the run that is followed, each request of it or of no run, and with a turn no other
-- run than that of the turn is followed.
pub record Selected (target : FollowTarget) (run : String) (outcome : Option TurnOutcome)
    (id : Option String) (requests : List PendingRequest) : Type 0 where
  pub outcome_of : (out : TurnOutcome) → outcome ≡ some out → id ≡ some out.run.id
  pub requests_of : all (concerns id) requests ≡ true
  pub turn_of : target.has_turn ≡ true → (id ≡ none) ⊎ (id ≡ some run)

abbrev pub IsSelected : FollowTarget → String → Observation → Type 0
IsSelected target run o = Selected target run o.outcome o.run_id o.pending_requests

none_concerned :
    (requests : List PendingRequest) → all (concerns none) requests ≡ true → requests ≡ []
none_concerned [] h = refl
none_concerned (r ∷ rs) h = cc

pub all-keep :
    (id : Option String) (requests : List PendingRequest)
    → all (concerns id) (keep (concerns id) requests) ≡ true
all-keep id [] = refl
all-keep id (r ∷ rs) = elim (Bool-cases (concerns id r)) [
  | inl hit ↦ rw (hit, hit) (all-keep id rs)
  | inr miss ↦ rw miss (all-keep id rs)
]

run_outcome-run :
    (p : Projection) (run : Run) (out : TurnOutcome) → run_outcome p run ≡ some out → out.run ≡ run
unfolding run_outcome
run_outcome-run p run out h = ground arith

pub find_holds :
    (id : Option String) (runs : List Run) (run : Run)
    → find (is_run id) runs ≡ some run
    → id ≡ some run.id
find_holds none [] run h = cc
find_holds none (r ∷ rs) run h = find_holds none rs run h
find_holds (some id) [] run h = cc
find_holds (some id) (r ∷ rs) run h = ground (arith, same_iff r.id id, find_holds (some id) rs run)

-- A row of the timeline that a request has is of the run or of no run.
abbrev pub RowOf : String → Option TurnItem → Type 0
RowOf id none = Unit
RowOf id (some i) = (i.run_id ≡ none) ⊎ (i.run_id ≡ some id)

abbrev pub AllOf : String → List PendingRequest → Type 0
AllOf id [] = Unit
AllOf id (r ∷ rs) = RowOf id r.item × AllOf id rs

concerns_item-RowOf : (id : String) (i : Option TurnItem) → concerns_item id i ≡ true → RowOf id i
concerns_item-RowOf id none h = tt
concerns_item-RowOf id (some i) h = elim (Option-cases i.run_id) [
  | inl absent ↦ inl absent
  | inr (run, of_it) ↦ inr (of_it ∙ ap some ((same_iff run id).0 (rw of_it at h)))
]

concerns-AllOf :
    (id : String) (requests : List PendingRequest)
    → all (concerns (some id)) requests ≡ true
    → AllOf id requests
concerns-AllOf id [] h = tt
concerns-AllOf id (r ∷ rs) h =
    (concerns_item-RowOf id r.item (ground arith), concerns-AllOf id rs (ground arith))

-- What a command tells is of one run.
pub record IsOf (id : String) (o : Observation) : Type 0 where
  pub same_run : o.run_id ≡ some id
  pub outcome_of : (out : TurnOutcome) → o.outcome ≡ some out → out.run.id ≡ id
  pub requests_of : AllOf id o.pending_requests

module _ (target : FollowTarget) (run : String) where
  pub select :
      (outcome : Option TurnOutcome) (id now : Option String) (requests : List PendingRequest)
      → Keeps id now
      → (target.has_turn ≡ true → (now ≡ none) ⊎ (now ≡ some run))
      → Selected target run outcome id requests
      → Selected target run outcome now requests
  select outcome id now requests (inl absent) turn s = record {
    outcome_of = λ out e. absurd (cc (s.outcome_of out e, absent));
    requests_of = rw (none_concerned requests (rw absent at s.requests_of)) refl;
    turn_of = turn;
  }
  select outcome id now requests (inr same_id) turn s = rw same_id s

  pub read_run-IsSelected :
      (p : Projection) (found : Option Run) (o : Observation)
      → ((r : Run) → found ≡ some r → o.run_id ≡ some r.id)
      → IsSelected target run o
      → IsSelected target run (read_run p found o)
  read_run-IsSelected p none o h s = s
  read_run-IsSelected p (some r) o h s = record {
    outcome_of = λ out e. h r refl ∙ ap (λ x. some x.id) (sym (run_outcome-run p r out e));
    requests_of = s.requests_of;
    turn_of = s.turn_of;
  }

  pub set_outcome-IsSelected :
      (outcome : TurnOutcome) (o : Observation)
      → Keeps o.run_id (some outcome.run.id)
      → (target.has_turn ≡ true → outcome.run.id ≡ run)
      → IsSelected target run o
      → IsSelected target run (set_outcome outcome o)
  unfolding set_outcome
  set_outcome-IsSelected outcome o keeps turn s = record {
    outcome_of = λ out e. cc;
    requests_of =
        (select o.outcome o.run_id (some outcome.run.id) o.pending_requests keeps
          (λ t. inr (ap some (turn t))) s).requests_of;
    turn_of = λ t. inr (ap some (turn t));
  }

  -- An item of the watch comes with no run id of a turn or with that of the run; only a turn completes,
  -- and its outcome is of the run.
  abbrev pub Allowed : Event → Type 0
  Allowed (item i link) = (turn_run target link ≡ none) ⊎ (turn_run target link ≡ some run)
  Allowed (completes outcome) = (target.has_turn ≡ true) × (outcome.run.id ≡ run)

  abbrev pub AllAllowed : List Event → Type 0
  AllAllowed [] = Unit
  AllAllowed (e ∷ es) = Allowed e × AllAllowed es

  -- An observation after another one: it still is of one run, and of that of the other.
  abbrev pub Goes : Observation → Observation → Type 0
  Goes o next = Keeps o.run_id next.run_id × IsSelected target run next

  turned :
      (link : Option String) (r : String) → turn_run target link ≡ some r → target.has_turn ≡ true
  turned link r h = ground arith

  pub first-Keeps :
      (link : Option String) (o : Observation)
      → IsSelected target run o
      → Allowed (item synchronized link)
      → Keeps o.run_id (first_of (turn_run target link) o.run_id)
        × (target.has_turn ≡ true
            → (first_of (turn_run target link) o.run_id ≡ none)
              ⊎ (first_of (turn_run target link) o.run_id ≡ some run))
  first-Keeps link o s (inl quiet) = rw quiet (inr refl, s.turn_of)
  first-Keeps link o s (inr linked) = elim (s.turn_of (turned link run linked)) [
    | inl absent ↦ rw linked (inl absent, λ t. inr refl)
    | inr chosen ↦ rw (linked, chosen) (inr refl, λ t. inr refl)
  ]

  choose-Goes :
      (found : Option Run) (o : Observation)
      → o.run_id ≡ none
      → target.has_turn ≡ false
      → IsSelected target run o
      → Goes o (choose found o)
  choose-Goes none o absent alone s = (inr refl, s)
  choose-Goes (some r) o absent alone s = (
    inl absent,
    select o.outcome o.run_id (some r.id) o.pending_requests (inl absent) (λ t. cc) s,
  )

  pub choose_without-Goes :
      (has_turn : Bool) (id : Option String) (p : Projection) (o : Observation)
      → target.has_turn ≡ has_turn
      → o.run_id ≡ id
      → IsSelected target run o
      → Goes o (choose_without has_turn id p o)
  choose_without-Goes has_turn (some id) p o h e s = (inr refl, s)
  choose_without-Goes true none p o h e s = (inr refl, s)
  choose_without-Goes false none p o h e s = choose-Goes _ o e h s

  on_settled-Goes :
      (outcome : TurnOutcome) (id : Option String) (o : Observation)
      → o.run_id ≡ id
      → IsSelected target run o
      → Goes o (on_settled outcome id o)
  on_settled-Goes outcome none o e s = (inr refl, s)
  on_settled-Goes outcome (some id) o e s = elim (Bool-cases (same outcome.run.id id)) [
    | inl hit ↦
        let is_id : some outcome.run.id ≡ o.run_id =
          rw (e, (same_iff outcome.run.id id).0 hit) refl in
        rw hit (
          unfold set_outcome in inr is_id,
          set_outcome-IsSelected outcome o (inr is_id)
              (λ t. elim (s.turn_of t) [
                | inl absent ↦ absurd (cc (e, absent))
                | inr chosen ↦ let same_run = is_id ∙ chosen in cc same_run
              ])
              s,
        )
    | inr miss ↦ rw miss (inr refl, s)
  ]

  pub Goes-trans : (o next last : Observation) → Goes o next → Goes next last → Goes o last
  Goes-trans o next last (inl absent, s) (k, t) = (inl absent, t)
  Goes-trans o next last (inr e, s) (inl absent, t) = (inl (sym e ∙ absent), t)
  Goes-trans o next last (inr e, s) (inr f, t) = (inr (f ∙ e), t)

  on_derived-Goes : (i : Item) (o : Observation) → IsSelected target run o → Goes o (on_derived i o)
  on_derived-Goes (assistant_delta i m text streaming d) o s = (inr refl, s)
  on_derived-Goes (requested r) o s = (inr refl, s)
  on_derived-Goes (request_resolved id) o s = (inr refl, s)
  on_derived-Goes (turn_settled outcome) o s = on_settled-Goes outcome o.run_id o refl s

  pub on_item-Goes :
      (i : WatchItem) (o : Observation) → IsSelected target run o → Goes o (on_item i o)
  on_item-Goes (snapshot sequence p) o s = (inr refl, s)
  on_item-Goes synchronized o s = (inr refl, s)
  on_item-Goes (event sequence e) o s = (inr refl, s)
  on_item-Goes (derived i) o s = on_derived-Goes i o s
  on_item-Goes decode_error o s = (inr refl, s)
  on_item-Goes (reconnected sequence) o s = (inr refl, s)

  pub is_of :
      (id : String) (o later : Observation)
      → o.run_id ≡ some id
      → Keeps o.run_id later.run_id
      → IsSelected target run later
      → IsOf id later
  is_of id o later h (inl absent) s = absurd (cc (h, absent))
  is_of id o later h (inr kept) s =
      let now = kept ∙ h in
      record {
        same_run = now;
        outcome_of = λ out e. let same_id = sym (s.outcome_of out e) ∙ now in cc same_id;
        requests_of = concerns-AllOf id later.pending_requests (rw now at s.requests_of);
      }
