-- ===== src/Channel.antt =====
-- packages/t3code-lib/src/internal/asyncIterable.ts: the push-to-pull channel.
pub mod Trace
pub mod Order
pub mod Promises
mod Tests
use t3code_client.Prelude.{ℕ, Bool, true, false, Option, none, some, List, [], ◌∷◌, ◌++◌, length}

-- How the channel was closed.
pub data Terminal (E : Type 0) : Type 0 where
  ended : Terminal E
  failed : E → Terminal E

-- What a promise that `next` returned settles with.
pub data Delivery (A E : Type 0) : Type 0 where
  value : A → Delivery A E
  done : Delivery A E
  error : E → Delivery A E

-- What an operation does outside of the channel, in order. `settle t d` settles the promise of the
-- call of `next` with ticket t; the other two are the owner's callbacks.
pub data Effect (A E : Type 0) : Type 0 where
  settle : ℕ → Delivery A E → Effect A E
  on_pull : ℕ → Effect A E
  on_return : Effect A E

-- The variables of `createChannel`. `waiter` holds the ticket of the promise that it settles.
pub record Channel (A E : Type 0) : Type 0 where
  pub buffer : List A
  pub waiter : Option ℕ
  pub terminal : Option (Terminal E)
  pub returned : Bool

-- `terminal ??= { kind: "end" }`
abbrev close_with : {E : Type 0} → Option (Terminal E) → Terminal E
close_with none = ended
close_with (some k) = k

module _ {A E : Type 0} where
  unfoldable pub create_channel : Channel A E
  create_channel = record { buffer = []; waiter = none; terminal = none; returned = false }

  -- What `settleTerminal` gives the waiter.
  abbrev pub settle_terminal : Option (Terminal E) → Delivery A E
  settle_terminal (some (failed e)) = error e
  settle_terminal (some ended) = done
  settle_terminal none = done

  next_waiting : ℕ → Channel A E → Option (Terminal E) → Channel A E × List (Effect A E)
  next_waiting t c none = (record c { waiter = some t }, [])
  next_waiting t c (some k) = (c, settle t (settle_terminal (some k)) ∷ [])

  next_from : ℕ → Channel A E → List A → Channel A E × List (Effect A E)
  unfolding next_waiting
  next_from t c (v ∷ rest) =
      (record c { buffer = rest }, on_pull (length rest) ∷ settle t (value v) ∷ [])
  next_from t c [] = next_waiting t c c.terminal

  unfoldable pub next : ℕ → Channel A E → Channel A E × List (Effect A E)
  unfolding next_from
  next t c = next_from t c c.buffer

  push_open : A → Channel A E → Option ℕ → Channel A E × List (Effect A E)
  push_open v c none = (record c { buffer = c.buffer ++ v ∷ [] }, [])
  push_open v c (some t) = (record c { waiter = none }, settle t (value v) ∷ on_pull 0 ∷ [])

  push_from : A → Channel A E → Option (Terminal E) → Bool → Channel A E × List (Effect A E)
  unfolding push_open
  push_from v c none false = push_open v c c.waiter
  push_from v c none true = (c, [])
  push_from v c (some k) r = (c, [])

  unfoldable pub push : A → Channel A E → Channel A E × List (Effect A E)
  unfolding push_from
  push v c = push_from v c c.terminal c.returned

  -- The body that `end` and `fail` share.
  finish :
      Terminal E → Channel A E → Option (Terminal E) → Option ℕ → Channel A E × List (Effect A E)
  finish k c (some old) w = (c, [])
  finish k c none none = (record c { terminal = some k }, [])
  finish k c none (some t) =
      (record c { terminal = some k; waiter = none }, settle t (settle_terminal (some k)) ∷ [])

  unfoldable pub end : Channel A E → Channel A E × List (Effect A E)
  unfolding finish
  end c = finish ended c c.terminal c.waiter

  unfoldable pub fail : E → Channel A E → Channel A E × List (Effect A E)
  unfolding finish
  fail e c = finish (failed e) c c.terminal c.waiter

  abbrev settle_waiter : Option ℕ → List (Effect A E)
  settle_waiter none = []
  settle_waiter (some t) = settle t done ∷ []

  abbrev return_callback : Option (Terminal E) → List (Effect A E)
  return_callback none = on_return ∷ []
  return_callback (some k) = []

  return_from : Channel A E → Bool → Channel A E × List (Effect A E)
  return_from c true = (c, [])
  return_from c false = (
    record { buffer = []; waiter = none; terminal = some (close_with c.terminal); returned = true },
    settle_waiter c.waiter ++ return_callback c.terminal,
  )

  -- `return` of the iterator. Its own promise resolves at once as done.
  unfoldable pub return : Channel A E → Channel A E × List (Effect A E)
  unfolding return_from
  return c = return_from c c.returned

  abbrev pub size : Channel A E → ℕ
  size c = length c.buffer

  abbrev pub closed : Channel A E → Bool
  closed c = elim c.terminal [ none ↦ false | some k ↦ true ]
