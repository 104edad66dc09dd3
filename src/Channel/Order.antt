-- ===== src/Channel/Order.antt =====
-- internal/asyncIterable.ts: the order of the values that go through a channel.
use t3code_client.Prelude.{
  ◌≡◌, ◌≢◌, inl, refl, true, false, Option, none, some, List, [], ◌∷◌, ◌++◌, arith, append_assoc,
  append-nil, append-eq-nil, sym, ◌∙◌, ap,
}
use t3code_client.Channel.{Effect, Terminal, Channel, create_channel}
use t3code_client.Channel.Trace.{
  Call, pushes, ends, fails, nexts, returns, step, run, delivered, delivered-append, accepted,
  IsSound,
}

module _ {A E : Type 0} where
  pub step-IsSound : (c : Channel A E) (k : Call A E) → IsSound c → IsSound (step c k).0
  unfolding step
  step-IsSound c (pushes v) s = ground arith
  step-IsSound c ends s = ground arith
  step-IsSound c (fails e) s = ground arith
  step-IsSound c (nexts t) s = ground arith
  step-IsSound c returns s = ground arith

  -- What an open channel will accept of the calls to come.
  abbrev pub to_accept : Option (Terminal E) → List (Call A E) → List A
  to_accept none ks = accepted ks
  to_accept (some k) ks = []

  -- Each call but `return` keeps the values in order: those it settles promises with, those in the
  -- buffer, and those to come.
  keeps_order :
      (c : Channel A E) (k : Call A E) (ks : List (Call A E))
      → k ≢ returns
      → IsSound c
      → c.buffer ++ to_accept c.terminal (k ∷ ks)
        ≡ delivered (step c k).1 ++ ((step c k).0.buffer ++ to_accept (step c k).0.terminal ks)
  unfolding step
  keeps_order c (pushes v) ks h s = ground (arith, append_assoc c.buffer (v ∷ []) (accepted ks))
  keeps_order c ends ks h s = ground arith
  keeps_order c (fails e) ks h s = ground arith
  keeps_order c (nexts t) ks h s = ground arith
  keeps_order c returns ks h s = absurd (h refl)

  step-returned :
      (c : Channel A E) (k : Call A E) → c.returned ≡ true → (step c k).0.returned ≡ true
  unfolding step
  step-returned c (pushes v) h = ground arith
  step-returned c ends h = ground arith
  step-returned c (fails e) h = ground arith
  step-returned c (nexts t) h = ground arith
  step-returned c returns h = ground arith

  run-returned :
      (c : Channel A E) (ks : List (Call A E)) → c.returned ≡ true → (run c ks).0.returned ≡ true
  unfolding run
  run-returned c [] h = h
  run-returned c (k ∷ ks) h = run-returned (step c k).0 ks (step-returned c k h)

  -- The values delivered, the buffer, and the values that an early return discarded.
  pub record InOrder (c d : Channel A E) (es : List (Effect A E)) (ks : List (Call A E))
      : Type 0 where
    pub discarded : List A
    pub order : c.buffer ++ to_accept c.terminal ks ≡ delivered es ++ (d.buffer ++ discarded)
    pub kept : d.returned ≡ false → discarded ≡ []

  return_empties :
      (c : Channel A E) (ks : List (Call A E))
      → IsSound c
      → ((step c returns).0.buffer ++ to_accept (step c returns).0.terminal ks ≡ [])
        × (delivered (step c returns).1 ≡ [])
        × ((step c returns).0.returned ≡ true)
        × (c.buffer ++ to_accept c.terminal (returns ∷ ks) ≡ c.buffer)
  unfolding step
  return_empties c ks s = ground (arith, append-nil c.buffer)

  return-InOrder :
      (c : Channel A E) (ks : List (Call A E))
      → IsSound c
      → InOrder (step c returns).0 (run (step c returns).0 ks).0 (run (step c returns).0 ks).1 ks
      → InOrder c
          (run (step c returns).0 ks).0
          ((step c returns).1 ++ (run (step c returns).0 ks).1)
          (returns ∷ ks)
  return-InOrder c ks s o =
      let c' = (step c returns).0 in
      let (empties, silent, over, all) = return_empties c ks s in
      let (none_later, rest) = append-eq-nil (delivered (run c' ks).1) _ (sym o.order ∙ empties) in
      let (no_buffer, _) = append-eq-nil (run c' ks).0.buffer _ rest in
      record {
        discarded = c.buffer;
        order = ground (
          arith,
          all,
          silent,
          none_later,
          no_buffer,
          delivered-append (step c returns).1 (run c' ks).1,
        );
        kept = λ h. cc (h, run-returned c' ks over);
      }

  step-InOrder :
      (c : Channel A E) (k : Call A E) (ks : List (Call A E))
      → k ≢ returns
      → IsSound c
      → InOrder (step c k).0 (run (step c k).0 ks).0 (run (step c k).0 ks).1 ks
      → InOrder c (run (step c k).0 ks).0 ((step c k).1 ++ (run (step c k).0 ks).1) (k ∷ ks)
  step-InOrder c k ks h s o = record {
    discarded = o.discarded;
    order = rw (delivered-append (step c k).1 (run (step c k).0 ks).1) (
        keeps_order c k ks h s
        ∙ ap (λ t. delivered (step c k).1 ++ t) o.order
        ∙ sym (append_assoc (delivered (step c k).1) _ _));
    kept = o.kept;
  }

  run-InOrder :
      (c : Channel A E) (ks : List (Call A E)) → IsSound c → InOrder c (run c ks).0 (run c ks).1 ks
  unfolding run
  run-InOrder c [] s = record { discarded = []; order = ground arith; kept = λ h. refl }
  run-InOrder c (pushes v ∷ ks) s =
      step-InOrder c (pushes v) ks (λ e. cc) s
        (run-InOrder (step c (pushes v)).0 ks (step-IsSound c (pushes v) s))
  run-InOrder c (ends ∷ ks) s =
      step-InOrder c ends ks (λ e. cc) s (run-InOrder (step c ends).0 ks (step-IsSound c ends s))
  run-InOrder c (fails e ∷ ks) s =
      step-InOrder c (fails e) ks (λ e. cc) s
        (run-InOrder (step c (fails e)).0 ks (step-IsSound c (fails e) s))
  run-InOrder c (nexts t ∷ ks) s =
      step-InOrder c (nexts t) ks (λ e. cc) s
        (run-InOrder (step c (nexts t)).0 ks (step-IsSound c (nexts t) s))
  run-InOrder c (returns ∷ ks) s =
      return-InOrder c ks s (run-InOrder (step c returns).0 ks (step-IsSound c returns s))

  pub create_channel-IsSound : IsSound (create_channel {A = A} {E = E})
  unfolding create_channel
  create_channel-IsSound = record { drained = inl refl; over = inl refl }

  -- Of a new channel: the values that were pushed before the first call that closes it are, in
  -- order, those that the consumer received, those in the buffer, and those that an early return
  -- discarded; as long as the consumer has not returned early, none was discarded.
  pub create_channel-InOrder :
      (ks : List (Call A E))
      → (discarded : List A) × (accepted ks
          ≡ delivered (run create_channel ks).1 ++ ((run create_channel ks).0.buffer ++ discarded))
        × ((run create_channel ks).0.returned ≡ false → discarded ≡ [])
  unfolding create_channel
  create_channel-InOrder ks =
      let o = run-InOrder create_channel ks create_channel-IsSound in (o.discarded, o.order, o.kept)
