-- ===== src/Channel/Promises.antt =====
-- The promises that `next` returns, and the callback of an early return.
use t3code_client.Prelude.{
  ℕ, ◌+◌, ◌≡◌, ◌≢◌, refl, Option, none, some, List, [], ◌∷◌, ◌==◌, tally, arith, ap, sym, ◌∙◌,
}
use t3code_client.Channel.{
  Channel, Effect, Terminal, ended, failed, settle, settle_terminal, create_channel, next,
}
use t3code_client.Channel.Trace.{
  Call, pushes, ends, fails, nexts, returns, step, run, settled, settled-append, return_count,
  return_count-append, first_close, issued, IsSound,
}
use t3code_client.Channel.Order.{step-IsSound, create_channel-IsSound}

-- 1 while the promise with ticket t waits.
abbrev pub waiting : ℕ → Option ℕ → ℕ
waiting t none = 0
waiting t (some s) = tally (s == t)

module _ {A E : Type 0} where
  -- The consumer pulls one value at a time: no call of `next` while another one waits.
  abbrev pub OneByOne : Channel A E → List (Call A E) → Type 0
  OneByOne c [] = Unit
  OneByOne c (nexts t ∷ ks) = (c.waiter ≡ none) × OneByOne (step c (nexts t)).0 ks
  OneByOne c (pushes v ∷ ks) = OneByOne (step c (pushes v)).0 ks
  OneByOne c (ends ∷ ks) = OneByOne (step c ends).0 ks
  OneByOne c (fails e ∷ ks) = OneByOne (step c (fails e)).0 ks
  OneByOne c (returns ∷ ks) = OneByOne (step c returns).0 ks

  step-next_balance :
      (t s : ℕ) (c : Channel A E)
      → c.waiter ≡ none
      → settled t (step c (nexts s)).1 + waiting t (step c (nexts s)).0.waiter
        ≡ issued {A = A} {E = E} t (nexts s ∷ [])
  unfolding step
  step-next_balance t s c h = ground arith

  step_balance :
      (t : ℕ) (c : Channel A E) (k : Call A E)
      → issued t (k ∷ []) ≡ 0
      → ((s : ℕ) → k ≢ nexts s)
      → settled t (step c k).1 + waiting t (step c k).0.waiter ≡ waiting t c.waiter
  unfolding step
  step_balance t c (pushes v) h n = ground arith
  step_balance t c ends h n = ground arith
  step_balance t c (fails e) h n = ground arith
  step_balance t c (nexts s) h n = absurd (n s refl)
  step_balance t c returns h n = ground arith

  run_balance :
      (t : ℕ) (c : Channel A E) (ks : List (Call A E))
      → OneByOne c ks
      → settled t (run c ks).1 + waiting t (run c ks).0.waiter ≡ waiting t c.waiter + issued t ks
  unfolding run
  run_balance t c [] o = omega arith
  run_balance t c (pushes v ∷ ks) o = omega (
    arith,
    settled-append t (step c (pushes v)).1 (run (step c (pushes v)).0 ks).1,
    step_balance t c (pushes v) refl (λ s e. cc),
    run_balance t (step c (pushes v)).0 ks o,
  )
  run_balance t c (ends ∷ ks) o = omega (
    arith,
    settled-append t (step c ends).1 (run (step c ends).0 ks).1,
    step_balance t c ends refl (λ s e. cc),
    run_balance t (step c ends).0 ks o,
  )
  run_balance t c (fails e ∷ ks) o = omega (
    arith,
    settled-append t (step c (fails e)).1 (run (step c (fails e)).0 ks).1,
    step_balance t c (fails e) refl (λ s e. cc),
    run_balance t (step c (fails e)).0 ks o,
  )
  run_balance t c (returns ∷ ks) o = omega (
    arith,
    settled-append t (step c returns).1 (run (step c returns).0 ks).1,
    step_balance t c returns refl (λ s e. cc),
    run_balance t (step c returns).0 ks o,
  )
  run_balance t c (nexts s ∷ ks) o = omega (
    arith,
    ap (waiting t) o.0,
    settled-append t (step c (nexts s)).1 (run (step c (nexts s)).0 ks).1,
    step-next_balance t s c o.0,
    run_balance t (step c (nexts s)).0 ks o.1,
  )

  -- If the consumer pulls one value at a time, every promise is accounted for: the settlements of a
  -- ticket, and 1 if it still waits, add up to the calls of `next` with that ticket.
  pub create_channel_balance :
      (t : ℕ) (ks : List (Call A E))
      → OneByOne create_channel ks
      → settled t (run create_channel ks).1 + waiting t (run create_channel ks).0.waiter
        ≡ issued t ks
  unfolding create_channel
  create_channel_balance t ks o = omega (arith, run_balance t create_channel ks o)

  -- How the first closing call leaves the channel.
  abbrev pub close_of : Option (Call A E) → Option (Terminal E)
  close_of none = none
  close_of (some ends) = some ended
  close_of (some (fails e)) = some (failed e)
  close_of (some returns) = some ended
  close_of (some (pushes v)) = none
  close_of (some (nexts t)) = none

  abbrev pub return_of : Option (Call A E) → ℕ
  return_of none = 0
  return_of (some ends) = 0
  return_of (some (fails e)) = 0
  return_of (some returns) = 1
  return_of (some (pushes v)) = 0
  return_of (some (nexts t)) = 0

  step_closed :
      (c : Channel A E) (k : Call A E) {x : Terminal E}
      → c.terminal ≡ some x
      → ((step c k).0.terminal ≡ some x) × (return_count (step c k).1 ≡ 0)
  unfolding step
  step_closed c (pushes v) h = ground arith
  step_closed c ends h = ground arith
  step_closed c (fails e) h = ground arith
  step_closed c (nexts t) h = ground arith
  step_closed c returns h = ground arith

  run_closed :
      (c : Channel A E) (ks : List (Call A E)) {x : Terminal E}
      → c.terminal ≡ some x
      → ((run c ks).0.terminal ≡ some x) × (return_count (run c ks).1 ≡ 0)
  unfolding run
  run_closed c [] h = (h, refl)
  run_closed c (k ∷ ks) h =
      let (stays, silent) = step_closed c k h in
      let (over, rest) = run_closed (step c k).0 ks stays in
      (over, omega (arith, silent, rest, return_count-append (step c k).1 (run (step c k).0 ks).1))

  step_open :
      (c : Channel A E) (k : Call A E)
      → IsSound c
      → c.terminal ≡ none
      → ((step c k).0.terminal ≡ close_of (first_close (k ∷ [])))
        × (return_count (step c k).1 ≡ return_of (first_close (k ∷ [])))
  unfolding step
  step_open c (pushes v) s h = ground arith
  step_open c ends s h = ground arith
  step_open c (fails e) s h = ground arith
  step_open c (nexts t) s h = ground arith
  step_open c returns s h = ground arith

  -- What the first call that closes the channel settles for good: how the channel ends, and whether
  -- the owner hears of an early return.
  abbrev pub ClosedBy : Channel A E × List (Effect A E) → Option (Call A E) → Type 0
  ClosedBy r k = (r.0.terminal ≡ close_of k) × (return_count r.1 ≡ return_of k)

  closing_step :
      (c : Channel A E) (k : Call A E) (ks : List (Call A E)) {x : Terminal E}
      → ClosedBy (step c k) (some k)
      → close_of (some k) ≡ some x
      → ClosedBy (run c (k ∷ ks)) (some k)
  unfolding run
  closing_step c k ks (over, heard) e =
      let (stays, rest) = run_closed (step c k).0 ks (over ∙ e) in
      (
        stays ∙ sym e,
        omega (arith, heard, rest, return_count-append (step c k).1 (run (step c k).0 ks).1),
      )

  passing_step :
      (c : Channel A E) (k : Call A E) (ks : List (Call A E))
      → return_count (step c k).1 ≡ 0
      → ClosedBy (run (step c k).0 ks) (first_close ks)
      → ClosedBy (run c (k ∷ ks)) (first_close ks)
  unfolding run
  passing_step c k ks silent (over, heard) =
      (over, omega (arith, heard, silent, return_count-append (step c k).1 (run (step c k).0 ks).1))

  run-ClosedBy :
      (c : Channel A E) (ks : List (Call A E))
      → IsSound c
      → c.terminal ≡ none
      → ClosedBy (run c ks) (first_close ks)
  unfolding run
  run-ClosedBy c [] s h = (h, refl)
  run-ClosedBy c (ends ∷ ks) s h = closing_step c ends ks (step_open c ends s h) refl
  run-ClosedBy c (fails e ∷ ks) s h = closing_step c (fails e) ks (step_open c (fails e) s h) refl
  run-ClosedBy c (returns ∷ ks) s h = closing_step c returns ks (step_open c returns s h) refl
  run-ClosedBy c (pushes v ∷ ks) s h =
      let (still, silent) = step_open c (pushes v) s h in
      passing_step c (pushes v) ks silent
        (run-ClosedBy (step c (pushes v)).0 ks (step-IsSound c (pushes v) s) still)
  run-ClosedBy c (nexts t ∷ ks) s h =
      let (still, silent) = step_open c (nexts t) s h in
      passing_step c (nexts t) ks silent
        (run-ClosedBy (step c (nexts t)).0 ks (step-IsSound c (nexts t) s) still)

  -- The first of `end`, `fail` and `return` decides for good how the channel ends, and the owner
  -- hears of an early return exactly once if that call is `return`, and never otherwise.
  pub create_channel-ClosedBy :
      (ks : List (Call A E)) → ClosedBy (run create_channel ks) (first_close ks)
  unfolding create_channel
  create_channel-ClosedBy ks = run-ClosedBy create_channel ks create_channel-IsSound refl

  run-IsSound : (c : Channel A E) (ks : List (Call A E)) → IsSound c → IsSound (run c ks).0
  unfolding run
  run-IsSound c [] s = s
  run-IsSound c (k ∷ ks) s = run-IsSound (step c k).0 ks (step-IsSound c k s)

  -- After any calls, of which the first closing one is k: nobody waits, and once the buffer is
  -- empty each call of `next` is settled at once, with the end or the error that k stands for, and
  -- leaves the channel as it is.
  pub next_closed :
      (t : ℕ) (ks : List (Call A E)) {x : Terminal E}
      → close_of (first_close ks) ≡ some x
      → ((run create_channel ks).0.waiter ≡ none)
        × ((run create_channel ks).0.buffer ≡ []
            → next t (run create_channel ks).0
              ≡ ((run create_channel ks).0, settle t (settle_terminal (some x)) ∷ []))
  unfolding next
  next_closed t ks e =
      let over = (create_channel-ClosedBy ks).0 ∙ e in
      let s = run-IsSound create_channel ks create_channel-IsSound in
      (ground (arith, s.drained), λ h. ground arith)
