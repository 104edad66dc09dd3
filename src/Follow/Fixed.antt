-- ===== src/Follow/Fixed.antt =====
-- The run that a command follows.
use t3code_client.Prelude.{
  String, true, Option-cases, Option, none, some, List, [], ◌∷◌, find, ◌≡◌, refl, subst, ◌⊎◌, inl,
  inr,
}
use t3code_client.Json.{Json}
use t3code_client.Thread.Records.{Run, Link, Projection}
use t3code_client.Thread.Derived.{Sign, pending_requests}
use t3code_client.Thread.Watch.{WatchItem, synchronized}
use t3code_client.Follow.Observation.{
  FollowTarget, Observation, new_observation, set_outcome, choose_without, is_run, read_run,
  on_item, Event, item, completes, read_requests, read_projection, take_item, observe_valid,
  observe, observe-eq-some, on_event, follow_all,
}
use t3code_client.Follow.Selected.{
  Keeps, IsSelected, IsOf, all-keep, find_holds, select, read_run-IsSelected,
  set_outcome-IsSelected, Goes-trans, first-Keeps, choose_without-Goes, on_item-Goes, is_of,
  Allowed, AllAllowed, Goes,
}

module _ (target : FollowTarget) (run : String) (legacy_link : Json → Link)
    (key_string : Link → String) (locale_compare : String → String → Sign) where
  read_requests-IsSelected :
      (p : Projection) (o : Observation)
      → IsSelected target run o
      → IsSelected target run (read_requests legacy_link key_string locale_compare target p o)
  read_requests-IsSelected p o s = record {
    outcome_of = s.outcome_of;
    requests_of = all-keep o.run_id (pending_requests locale_compare p);
    turn_of = s.turn_of;
  }

  read_run-Keeps :
      (p : Projection) (found : Option Run) (o : Observation)
      → Keeps o.run_id (read_run p found o).run_id
  read_run-Keeps p none o = inr refl
  read_run-Keeps p (some r) o = inr refl

  read_projection-Goes :
      (read : Option Projection) (o : Observation)
      → IsSelected target run o
      → Goes target run o (read_projection legacy_link key_string locale_compare target read o)
  unfolding read_projection
  read_projection-Goes none o s = (inr refl, s)
  read_projection-Goes (some p) o s =
      let chosen = choose_without target.has_turn o.run_id p o in
      let found = find (is_run chosen.run_id) p.runs in
      let (keeps, selected) =
        choose_without-Goes target run target.has_turn o.run_id p o refl refl s in
      let is_read =
        read_run-IsSelected target run p found chosen (find_holds chosen.run_id p.runs) selected in
      let read = read_run p found chosen in
      let done = read_requests legacy_link key_string locale_compare target p read in
      Goes-trans target run o chosen done (keeps, selected)
        (read_run-Keeps p found chosen, read_requests-IsSelected p read is_read)

  observe_valid-Goes :
      (i : WatchItem) (link : Option String) (o : Observation)
      → IsSelected target run o
      → Allowed target run (item i link)
      → Goes target run o (observe_valid legacy_link key_string locale_compare target i link o)
  observe_valid-Goes i link o s a =
      let taken = take_item legacy_link key_string locale_compare target i link o in
      let (keeps, turn) = first-Keeps target run link o s a in
      let is_taken =
        select target run o.outcome o.run_id taken.run_id o.pending_requests keeps turn s in
      let read =
        read_projection legacy_link key_string locale_compare target taken.projection taken in
      let (kept, is_read) = read_projection-Goes taken.projection taken is_taken in
      Goes-trans target run o taken (on_item i read) (keeps, is_taken)
        (Goes-trans target run taken read (on_item i read) (kept, is_read)
          (on_item-Goes target run i read is_read))

  passed-Goes :
      (o valid next : Observation)
      → ◌≡◌ {A = Option Observation} (some valid) (some next)
      → Goes target run o valid
      → Goes target run o next
  passed-Goes o valid next h g =
      let is_next : valid ≡ next = cc h in subst (λ x. Goes target run o x) is_next g

  observe-Goes :
      (i : WatchItem) (link : Option String) (o next : Observation)
      → IsSelected target run o
      → Allowed target run (item i link)
      → observe legacy_link key_string locale_compare target i link o ≡ some next
      → Goes target run o next
  observe-Goes i link o next s a h =
      subst (λ x. Goes target run o x)
        (observe-eq-some legacy_link key_string locale_compare target i link o next h)
        (observe_valid-Goes i link o s a)

  on_event-Goes :
      (e : Event) (o next : Observation)
      → IsSelected target run o
      → Allowed target run e
      → on_event legacy_link key_string locale_compare target e o ≡ some next
      → Goes target run o next
  unfolding on_event
  on_event-Goes (item i link) o next s a h = observe-Goes i link o next s a h
  on_event-Goes (completes outcome) o next s (turn, of_run) h =
      let keeps : Keeps o.run_id (some outcome.run.id) = elim (s.turn_of turn) [
        | inl absent ↦ inl absent
        | inr chosen ↦ inr (rw (chosen, of_run) refl)
      ] in
      passed-Goes o _ next h (
        unfold set_outcome in keeps,
        set_outcome-IsSelected target run outcome o keeps (λ t. of_run) s,
      )

  pub follow_all-Goes :
      (es : List Event) (o : Observation)
      → IsSelected target run o
      → AllAllowed target run es
      → Goes target run o (follow_all legacy_link key_string locale_compare target es o)
  unfolding follow_all
  follow_all-Goes [] o s a = (inr refl, s)
  follow_all-Goes (e ∷ es) o s (a, rest) =
      elim (Option-cases (on_event legacy_link key_string locale_compare target e o)) [
        | inl thrown ↦ rw (thrown, follow_all) (inr refl, s)
        | inr (next, passed) ↦
            let (keeps, selected) = on_event-Goes e o next s a passed in
            let last = follow_all legacy_link key_string locale_compare target es next in
            rw (passed, follow_all)
              (Goes-trans target run o next last (keeps, selected)
                (follow_all-Goes es next selected rest))
      ]

  new_observation-IsSelected :
      (link : Option String)
      → (target.has_turn ≡ true → (target.run_id ≡ none) ⊎ (target.run_id ≡ some run))
      → Allowed target run (item synchronized link)
      → IsSelected target run (new_observation target link)
  unfolding new_observation
  new_observation-IsSelected link start a = record {
    outcome_of = λ out e. cc;
    requests_of = refl;
    turn_of = λ t. elim (start t) [ inl absent ↦ rw absent a | inr known ↦ rw known (inr refl) ];
  }

  -- A command follows one run, whatever the watch tells and whatever other runs start: once it has an id
  -- of a run, the id stays, the outcome is of that run, and each request that it tells of is of that run
  -- or of no run. Where the command has a turn, the turn is of one run, and the command got no other
  -- run's id.
  pub follow_all-IsOf :
      (link : Option String) (before after : List Event) (id : String)
      → (target.has_turn ≡ true → (target.run_id ≡ none) ⊎ (target.run_id ≡ some run))
      → Allowed target run (item synchronized link)
      → AllAllowed target run before
      → AllAllowed target run after
      → (follow_all legacy_link key_string locale_compare target before
          (new_observation target link)).run_id
        ≡ some id
      → IsOf id (
          follow_all legacy_link key_string locale_compare target after (
            follow_all legacy_link key_string locale_compare target before
              (new_observation target link)))
  follow_all-IsOf link before after id start a earlier later h =
      let o =
        follow_all legacy_link key_string locale_compare target before
          (new_observation target link) in
      let (k, s) =
        follow_all-Goes before (new_observation target link)
          (new_observation-IsSelected link start a) earlier in
      let (keeps, selected) = follow_all-Goes after o s later in
      is_of target run id o _ h keeps selected
