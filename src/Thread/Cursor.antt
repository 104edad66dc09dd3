-- ===== src/Thread/Cursor.antt =====
-- api/threadWatch.ts: the sequences of the events that a watch hands on.
use t3code_client.Prelude.{
  ℕ, max, String, Bool, true, false, Option, none, some, or_else, List, [], ◌∷◌, ◌++◌, map,
  if◌then◌else◌, ◌≡◌, refl, ap, sym, subst, ◌∙◌, ◌⊎◌, inl, inr, arith,
}
use t3code_client.Json.{Json}
use t3code_client.Errors.{T3Error}
use t3code_client.Socket.State.{SocketState}
use t3code_client.Thread.Records.{Link, Projection, DomainEvent}
use t3code_client.Thread.Derived.{Sign}
use t3code_client.Thread.Tracker.{Item, seed, apply}
use t3code_client.Thread.Watch.{
  WatchItem, snapshot, synchronized, event, derived, decode_error, reconnected, Loader, no_loader,
  loads, throws, StreamItem, undecodable, unknown_variant, snapshot_frame, synchronized_marker,
  event_frame, Event, receives, ends, fails, Phase, watching, returned, threw, Watch, new_watch,
  caught, is_past, seeded, pass_event, after_loader, unless_seeded, receive_item, mark, step_from,
  step, run, bounded_snapshot_projection,
}

-- The sequences of the events that a watch yields.
abbrev pub sequences : List WatchItem → List ℕ
sequences [] = []
sequences (event n e ∷ items) = n ∷ sequences items
sequences (snapshot n p ∷ items) = sequences items
sequences (synchronized ∷ items) = sequences items
sequences (derived i ∷ items) = sequences items
sequences (decode_error ∷ items) = sequences items
sequences (reconnected n ∷ items) = sequences items

sequences-append : (xs ys : List WatchItem) → sequences (xs ++ ys) ≡ sequences xs ++ sequences ys
sequences-append [] ys = refl
sequences-append (event n e ∷ xs) ys = ap (λ ns. n ∷ ns) (sequences-append xs ys)
sequences-append (snapshot n p ∷ xs) ys = sequences-append xs ys
sequences-append (synchronized ∷ xs) ys = sequences-append xs ys
sequences-append (derived i ∷ xs) ys = sequences-append xs ys
sequences-append (decode_error ∷ xs) ys = sequences-append xs ys
sequences-append (reconnected n ∷ xs) ys = sequences-append xs ys

sequences-derived : (items : List Item) → sequences (map derived items) ≡ []
sequences-derived [] = refl
sequences-derived (i ∷ items) = sequences-derived items

-- Each one above the cursor, and above those before it.
abbrev pub Ascending : Option ℕ → List ℕ → Type 0
Ascending a [] = Unit
Ascending a (n ∷ ns) = (is_past n a ≡ false) × Ascending (some n) ns

-- The cursor b excludes what the cursor a excludes.
abbrev Below : Option ℕ → Option ℕ → Type 0
Below a b = (m : ℕ) → is_past m b ≡ false → is_past m a ≡ false

Ascending-weaken : (a b : Option ℕ) (ns : List ℕ) → Below a b → Ascending b ns → Ascending a ns
Ascending-weaken a b [] h k = tt
Ascending-weaken a b (n ∷ ns) h (k, ks) = (h n k, ks)

Below-max : (a : Option ℕ) (n : ℕ) → Below a (some (max (or_else a 0) n))
Below-max none n m h = refl
Below-max (some k) n m h = ground (arith, h)

Below-next : (a : Option ℕ) (n : ℕ) → is_past n a ≡ false → Below a (some n)
Below-next none n h m k = refl
Below-next (some j) n h m k = ground (arith, h, k)

-- What one item does: no event, and a cursor that is not lower; or one event above the cursor, which
-- becomes the cursor.
abbrev Moves : Watch → Watch × List WatchItem → Type 0
Moves w (w', items) =
    ((sequences items ≡ []) × Below w.after_sequence w'.after_sequence)
    ⊎ ((n : ℕ) × (sequences items ≡ n ∷ [])
        × (is_past n w.after_sequence ≡ false)
        × (w'.after_sequence ≡ some n))

quiet :
    (w v : Watch) (items : List WatchItem)
    → sequences items ≡ []
    → v.after_sequence ≡ w.after_sequence
    → Moves w (v, items)
quiet w v items h e = inl (h, λ m k. ap (is_past m) (sym e) ∙ k)

-- Items without an event in front.
behind :
    (w v : Watch) (items : List WatchItem) (x : Watch × List WatchItem)
    → sequences items ≡ []
    → v.after_sequence ≡ w.after_sequence
    → Moves v x
    → Moves w (x.0, items ++ x.1)
behind w v items x h e (inl (none_, below)) = inl (
  sequences-append items x.1 ∙ ap (λ ns. ns ++ sequences x.1) h ∙ none_,
  λ m k. ap (is_past m) (sym e) ∙ below m k,
)
behind w v items x h e (inr (n, one, above, next)) = inr (
  n,
  sequences-append items x.1 ∙ ap (λ ns. ns ++ sequences x.1) h ∙ one,
  ap (is_past n) (sym e) ∙ above,
  next,
)

by_test :
    (b : Bool) (w : Watch) (x : Watch × List WatchItem)
    → (b ≡ false → Moves w x)
    → Moves w (if b then (w, []) else x)
by_test true w x h = quiet w w [] refl refl
by_test false w x h = h refl

caught-keeps :
    (e : T3Error) (aborted : Bool) (state : SocketState) (w : Watch)
    → (caught e aborted state w).after_sequence ≡ w.after_sequence
unfolding caught
caught-keeps e aborted state w = ground arith

mark-quiet : (w : Watch) → sequences (mark w) ≡ []
mark-quiet w = ground arith

goes_on :
    (w v : Watch) (items rest : List WatchItem)
    → Moves w (v, items)
    → Ascending v.after_sequence (sequences rest)
    → Ascending w.after_sequence (sequences (items ++ rest))
goes_on w v items rest (inl (none_, below)) h =
    subst (Ascending w.after_sequence)
      (sym (sequences-append items rest ∙ ap (λ ns. ns ++ sequences rest) none_))
      (Ascending-weaken w.after_sequence v.after_sequence (sequences rest) below h)
goes_on w v items rest (inr (n, one, above, next)) h =
    subst (Ascending w.after_sequence)
      (sym (sequences-append items rest ∙ ap (λ ns. ns ++ sequences rest) one))
      (above, subst (λ a. Ascending a (sequences rest)) next h)

module _ (legacy_link : Json → Link) (key_string : Link → String)
    (locale_compare : String → String → Sign) where
  seeded-quiet :
      (n : ℕ) (p : Projection) (w : Watch)
      → let (w', items) = seeded legacy_link key_string locale_compare n p w in
        (sequences items ≡ []) × (w'.after_sequence ≡ w.after_sequence)
  seeded-quiet n p w =
      (sequences-derived (seed legacy_link key_string locale_compare n p w.tracker).1, refl)

  pass_event-Moves :
      (n : ℕ) (e : DomainEvent) (w : Watch)
      → Moves w (pass_event legacy_link key_string locale_compare n e w)
  unfolding pass_event
  pass_event-Moves n e w =
      let (t, items) = apply legacy_link key_string locale_compare n e w.tracker in
      by_test (is_past n w.after_sequence) w
        (record w { tracker = t; after_sequence = some n }, event n e ∷ map derived items)
        (λ above. inr (n, ap (λ ns. n ∷ ns) (sequences-derived items), above, refl))

  after_loader-Moves :
      (l : Loader) (rest : Watch → Watch × List WatchItem) (w : Watch)
      → ((v : Watch) → Moves v (rest v))
      → Moves w (after_loader legacy_link key_string locale_compare l rest w)
  unfolding after_loader
  after_loader-Moves no_loader rest w h = h w
  after_loader-Moves (loads n p) rest w h =
      let (v, items) = seeded legacy_link key_string locale_compare n p w in
      let (none_, same_) = seeded-quiet n p w in behind w v items (rest v) none_ same_ (h v)
  after_loader-Moves (throws e aborted state) rest w h =
      quiet w (caught e aborted state w) [] refl (caught-keeps e aborted state w)

  receive_item-Moves :
      (i : StreamItem) (w : Watch)
      → Moves w (receive_item legacy_link key_string locale_compare i w)
  unfolding receive_item
  receive_item-Moves undecodable w = quiet w w (decode_error ∷ []) refl refl
  receive_item-Moves unknown_variant w = quiet w w [] refl refl
  receive_item-Moves (snapshot_frame n omits p) w =
      let v = record w { after_sequence = some (max (or_else w.after_sequence 0) n) } in
      inl ((seeded-quiet n (bounded_snapshot_projection omits p) v).0, Below-max w.after_sequence n)
  receive_item-Moves (synchronized_marker l) w =
      after_loader-Moves (unless_seeded w l) (λ v. (v, synchronized ∷ [])) w
        (λ v. quiet v v (synchronized ∷ []) refl refl)
  receive_item-Moves (event_frame n e l) w =
      after_loader-Moves (unless_seeded w l) (pass_event legacy_link key_string locale_compare n e)
        w (pass_event-Moves n e)

  step_from-Moves :
      (p : Phase) (w : Watch) (e : Event)
      → Moves w (step_from legacy_link key_string locale_compare p w e)
  unfolding step_from
  step_from-Moves returned w e = quiet w w [] refl refl
  step_from-Moves (threw x) w e = quiet w w [] refl refl
  step_from-Moves watching w (receives i) =
      let v = record w { received = true } in
      behind w v (mark w) (receive_item legacy_link key_string locale_compare i v) (mark-quiet w)
        refl (receive_item-Moves i v)
  step_from-Moves watching w ends = quiet w (record w { phase = returned }) [] refl refl
  step_from-Moves watching w (fails e aborted state) =
      quiet w (caught e aborted state w) [] refl (caught-keeps e aborted state w)

  run-Ascends :
      (w : Watch) (es : List Event)
      → Ascending w.after_sequence (sequences (run legacy_link key_string locale_compare w es).1)
  unfolding run step
  run-Ascends w [] = tt
  run-Ascends w (e ∷ es) =
      let (v, items) = step legacy_link key_string locale_compare w e in
      goes_on w v items (run legacy_link key_string locale_compare v es).1
        (step_from-Moves w.phase w e) (run-Ascends v es)

  -- Whatever the subscription sends, and however often it drops and is taken up again: the
  -- sequences of the events that a watch yields are above the one that it resumes after, and strictly
  -- ascending, so that no event is yielded twice.
  pub run-Ascending :
      (after : Option ℕ) (es : List Event)
      → Ascending after
          (sequences (run legacy_link key_string locale_compare (new_watch after) es).1)
  unfolding new_watch
  run-Ascending after es = run-Ascends (new_watch after) es
