-- ===== src/Rpc/Tests.antt =====
-- The connection on one concrete sequence of events.
use t3code_client.Prelude.Dict.{lookup, insert, delete}
use t3code_client.Prelude.{same, List, [], ◌∷◌, ◌+◌, none, ◌≡◌, refl, true, false}
use t3code_client.Json.{null}
use t3code_client.Wire.Envelope.{exit, success}
use t3code_client.Rpc.Ids.{unary, next_id, next_id-injective}
use t3code_client.Rpc.Events.{
  Event, calls, starts, pulls, receives, drops, new_connection, step, run,
}
use t3code_client.Rpc.Streams.{absent}
use t3code_client.Rpc.Books.{settlements, in_flight}
use t3code_client.Rpc.Ledger.{AllFresh, call_balance}
use t3code_client.Rpc.Drops.{run_settles_all}

-- A call is answered, a second one is in flight, and a stream waits for a value.
abbrev events : List Event
events =
    calls 1 "a" null none true false
    ∷ starts 0 "s" 8
    ∷ pulls 0 5 absent
    ∷ receives (exit "11" (success none) ∷ [])
    ∷ calls 2 "b" null none true false
    ∷ []

events-AllFresh : AllFresh next_id (new_connection true) events
unfolding step new_connection next_id unary same lookup insert delete
events-AllFresh = (refl, (tt, (tt, (tt, (refl, tt)))))

call_balance_example :
    settlements 2 (run next_id (new_connection true) events).log
      + in_flight 2 (run next_id (new_connection true) events).entries
    ≡ 1
call_balance_example = call_balance next_id next_id-injective 2 true events events-AllFresh

run_settles_all_example :
    ((step next_id (run next_id (new_connection true) events) (drops none)).entries ≡ [])
    × (settlements 2 (step next_id (run next_id (new_connection true) events) (drops none)).log ≡ 1)
run_settles_all_example =
    run_settles_all next_id next_id-injective 2 true events (drops none) events-AllFresh refl
      attached
  where
    attached : (run next_id (new_connection true) events).attached ≡ true
    attached = unfold run step new_connection next_id unary same lookup insert delete in refl
