-- ===== src/Channel/Tests.antt =====
-- The channel on one concrete sequence of calls.
use t3code_client.Prelude.{ℕ, ◌≡◌, refl, String, none, some, List, [], ◌∷◌, ◌+◌, false, ◌++◌}
use t3code_client.Channel.{settle, settle_terminal, failed, create_channel, next}
use t3code_client.Channel.Trace.{step, Call, pushes, fails, nexts, returns, run, settled, delivered}
use t3code_client.Channel.Order.{create_channel-InOrder}
use t3code_client.Channel.Promises.{
  OneByOne, waiting, create_channel_balance, create_channel-ClosedBy, next_closed, ClosedBy,
}

-- A consumer waits, gets 5, gets 6 from the buffer; the producer fails with 7 buffered.
abbrev calls : List (Call ℕ String)
calls = nexts 0 ∷ pushes 5 ∷ pushes 6 ∷ pushes 7 ∷ nexts 1 ∷ fails "gone" ∷ pushes 8 ∷ []

abbrev all_calls : List (Call ℕ String)
all_calls = nexts 0 ∷ pushes 5 ∷ pushes 6 ∷ nexts 1 ∷ fails "gone" ∷ pushes 8 ∷ returns ∷ []

run-calls : (run create_channel calls).0.buffer ≡ 7 ∷ []
unfolding run step create_channel
run-calls = refl

delivered-calls : delivered (run create_channel calls).1 ≡ 5 ∷ 6 ∷ []
unfolding run step create_channel
delivered-calls = refl

create_channel-InOrder_example :
    (discarded : List ℕ) × (5 ∷ 6 ∷ 7 ∷ []
      ≡ delivered (run create_channel calls).1
        ++ ((run create_channel calls).0.buffer ++ discarded))
    × ((run create_channel calls).0.returned ≡ false → discarded ≡ [])
create_channel-InOrder_example = create_channel-InOrder calls

calls-OneByOne : OneByOne create_channel calls
unfolding run step create_channel
calls-OneByOne = (refl, (refl, tt))

create_channel_balance_example :
    settled 1 (run create_channel calls).1 + waiting 1 (run create_channel calls).0.waiter ≡ 1
create_channel_balance_example = create_channel_balance 1 calls calls-OneByOne

create_channel-ClosedBy_example : ClosedBy (run create_channel all_calls) (some (fails "gone"))
create_channel-ClosedBy_example = create_channel-ClosedBy all_calls

next_closed_example :
    ((run create_channel all_calls).0.waiter ≡ none)
    × ((run create_channel all_calls).0.buffer ≡ []
        → next 2 (run create_channel all_calls).0 ≡ (
          (run create_channel all_calls).0,
          settle 2 (settle_terminal (some (failed "gone"))) ∷ [],
        ))
next_closed_example = next_closed 2 all_calls refl
