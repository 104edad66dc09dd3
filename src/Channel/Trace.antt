-- ===== src/Channel/Trace.antt =====
-- Sequences of calls on one channel, as its producer and its consumer make them.
use t3code_client.Prelude.{
  ℕ, ◌+◌, ◌≡◌, ◌≢◌, ◌⊎◌, refl, false, Option, none, some, List, [], ◌∷◌, ◌++◌, ◌==◌, tally, arith,
}
use t3code_client.Channel.{
  Channel, value, done, error, Effect, settle, on_pull, on_return, next, push, end, fail, return,
}

-- `nexts t` is a call of `next` whose promise has the ticket t.
pub data Call (A E : Type 0) : Type 0 where
  pushes : A → Call A E
  ends : Call A E
  fails : E → Call A E
  nexts : ℕ → Call A E
  returns : Call A E

module _ {A E : Type 0} where
  unfoldable pub step : Channel A E → Call A E → Channel A E × List (Effect A E)
  unfolding next push end fail return
  step c (pushes v) = push v c
  step c ends = end c
  step c (fails e) = fail e c
  step c (nexts t) = next t c
  step c returns = return c

  -- The state after the calls, and the effects of all of them in order.
  unfoldable pub run : Channel A E → List (Call A E) → Channel A E × List (Effect A E)
  run c [] = (c, [])
  run c (k ∷ ks) = let (c', es) = step c k in let (c'', rest) = run c' ks in (c'', es ++ rest)

  -- The values that the promises were settled with, in order.
  abbrev pub delivered : List (Effect A E) → List A
  delivered [] = []
  delivered (settle t (value v) ∷ es) = v ∷ delivered es
  delivered (settle t done ∷ es) = delivered es
  delivered (settle t (error e) ∷ es) = delivered es
  delivered (on_pull n ∷ es) = delivered es
  delivered (on_return ∷ es) = delivered es

  -- How often the promise with ticket t was settled.
  abbrev pub settled : ℕ → List (Effect A E) → ℕ
  settled t [] = 0
  settled t (settle s d ∷ es) = tally (s == t) + settled t es
  settled t (on_pull n ∷ es) = settled t es
  settled t (on_return ∷ es) = settled t es

  -- How often the owner heard that the consumer returned early.
  abbrev pub return_count : List (Effect A E) → ℕ
  return_count [] = 0
  return_count (settle s d ∷ es) = return_count es
  return_count (on_pull n ∷ es) = return_count es
  return_count (on_return ∷ es) = 1 + return_count es

  pub delivered-append :
      (es fs : List (Effect A E)) → delivered (es ++ fs) ≡ delivered es ++ delivered fs
  delivered-append [] fs = refl
  delivered-append (settle t (value v) ∷ es) fs = ground (arith, delivered-append es fs)
  delivered-append (settle t done ∷ es) fs = delivered-append es fs
  delivered-append (settle t (error e) ∷ es) fs = delivered-append es fs
  delivered-append (on_pull n ∷ es) fs = delivered-append es fs
  delivered-append (on_return ∷ es) fs = delivered-append es fs

  pub settled-append :
      (t : ℕ) (es fs : List (Effect A E)) → settled t (es ++ fs) ≡ settled t es + settled t fs
  settled-append t [] fs = omega arith
  settled-append t (settle s d ∷ es) fs = ground (arith, settled-append t es fs)
  settled-append t (on_pull n ∷ es) fs = settled-append t es fs
  settled-append t (on_return ∷ es) fs = settled-append t es fs

  pub return_count-append :
      (es fs : List (Effect A E)) → return_count (es ++ fs) ≡ return_count es + return_count fs
  return_count-append [] fs = omega arith
  return_count-append (settle s d ∷ es) fs = return_count-append es fs
  return_count-append (on_pull n ∷ es) fs = return_count-append es fs
  return_count-append (on_return ∷ es) fs = omega (arith, return_count-append es fs)

  -- What the calls of the producer say by themselves: the values pushed before the first call that
  -- closes the channel, and how that call closes it.
  abbrev pub accepted : List (Call A E) → List A
  accepted [] = []
  accepted (pushes v ∷ ks) = v ∷ accepted ks
  accepted (nexts t ∷ ks) = accepted ks
  accepted (ends ∷ ks) = []
  accepted (fails e ∷ ks) = []
  accepted (returns ∷ ks) = []

  abbrev pub first_close : List (Call A E) → Option (Call A E)
  first_close [] = none
  first_close (pushes v ∷ ks) = first_close ks
  first_close (nexts t ∷ ks) = first_close ks
  first_close (ends ∷ ks) = some ends
  first_close (fails e ∷ ks) = some (fails e)
  first_close (returns ∷ ks) = some returns

  abbrev pub issued : ℕ → List (Call A E) → ℕ
  issued t [] = 0
  issued t (nexts s ∷ ks) = tally (s == t) + issued t ks
  issued t (pushes v ∷ ks) = issued t ks
  issued t (ends ∷ ks) = issued t ks
  issued t (fails e ∷ ks) = issued t ks
  issued t (returns ∷ ks) = issued t ks

-- A consumer waits only on an open channel whose buffer it has drained.
pub record IsSound {A E : Type 0} (c : Channel A E) : Type 0 where
  pub drained : (c.waiter ≡ none) ⊎ ((c.buffer ≡ []) × (c.terminal ≡ none))
  pub over : (c.returned ≡ false) ⊎ ((c.buffer ≡ []) × (c.terminal ≢ none))
