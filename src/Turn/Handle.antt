-- ===== src/Turn/Handle.antt =====
-- packages/t3code-lib/src/api/turns.ts: `Turn`, the handle of a turn that was dispatched, one event of
-- its caller, of its watch or of a consumer of `events()` at a time.
use t3code_client.Prelude.{
  ℕ, zero, suc, String, Bool, true, false, not, ◌&&◌, Option, none, some, List, [], ◌∷◌, ◌++◌,
  if◌then◌else◌,
}
use t3code_client.Errors.{T3Error, interrupted, connection, closed}
use t3code_client.Channel
use t3code_client.Channel.{Channel, Effect, settle, on_pull, on_return, create_channel}
use t3code_client.Thread.Derived.{TurnOutcome}
use t3code_client.Thread.Tracker.{Item, assistant_delta, requested, request_resolved, turn_settled}
use t3code_client.Thread.Watch.{
  WatchItem, snapshot, synchronized, event, derived, decode_error, reconnected,
}
use t3code_client.Turn.Adoption.{Adoption, seed, on_event, is_ours}

abbrev pub Consumer : Type 0
Consumer = Channel WatchItem T3Error

-- A channel that `#subscribe` made, and whether `#subscribers` still holds it.
pub record Subscriber : Type 0 where
  pub attached : Bool
  pub channel : Consumer

-- What the turn does outside: it settles the promise of `completion`, calls `deps.interrupt` with a run, or
-- serves the promises of a consumer, by its place.
pub data Act : Type 0 where
  resolved : TurnOutcome → Act
  rejected : T3Error → Act
  interrupts_run : Option String → Act
  serves : ℕ → List (Effect WatchItem T3Error) → Act

-- `#run`: it was not started; it reads the watch; it left the loop with `break` and waits for the iterator
-- to return; it is over.
pub data Phase : Type 0 where
  idle : Phase
  reading : Phase
  breaking : Phase
  over : Phase

-- The private fields. `signal_fired` is the state of the caller's signal, `aborted` that of
-- `#controller`; `log` has the acts, the newest first.
pub record Turn : Type 0 where
  pub adoption : Adoption
  pub phase : Phase
  pub done : Bool
  pub signal_fired : Bool
  pub aborted : Bool
  pub subscribers : List Subscriber
  pub log : List Act

unfoldable pub new_turn : String → Turn
new_turn message_id = record {
  adoption = record { message_id = message_id; run_id = none };
  phase = idle;
  done = false;
  signal_fired = false;
  aborted = false;
  subscribers = [];
  log = [];
}

-- The caller reads `completion`, iterates `events()`, interrupts, or fires its signal; a consumer calls
-- `next` with a ticket, or `return`; the watch yields an item, ends, throws, or has returned.
pub data Event : Type 0 where
  completes : Event
  subscribes : Event
  interrupts : Event
  fires : Event
  pulls : ℕ → ℕ → Event
  returns : ℕ → Event
  yields : WatchItem → Event
  ends : Event
  throws : Option T3Error → Event
  has_returned : Event

-- `#start`
unfoldable pub start_from : Phase → Turn → Turn
start_from idle t = record t { phase = reading; aborted = t.signal_fired }
start_from reading t = t
start_from breaking t = t
start_from over t = t

unfoldable pub start : Turn → Turn
unfolding start_from
start t = start_from t.phase t

-- `#subscribe`
unfoldable pub subscribe : Turn → Turn
unfolding start
subscribe t =
    if t.done
    then record t {
      subscribers =
          t.subscribers
          ++ record { attached = false; channel = (Channel.end create_channel).0 } ∷ [];
    }
    else start (record t {
      subscribers = t.subscribers ++ record { attached = true; channel = create_channel } ∷ [];
    })

-- Whether the channel called `onReturn`, which takes it out of `#subscribers`.
abbrev pub told : List (Effect WatchItem T3Error) → Bool
told [] = false
told (settle i d ∷ es) = told es
told (on_pull n ∷ es) = told es
told (on_return ∷ es) = true

-- An operation of the channel of one subscriber, by its place.
abbrev pub at_place :
    (Consumer → Consumer × List (Effect WatchItem T3Error))
    → ℕ
    → ℕ
    → List Subscriber
    → List Subscriber × List Act
at_place f i k [] = ([], [])
at_place f i zero (s ∷ ss) =
    let (c, es) = f s.channel in
    (record { attached = s.attached && not (told es); channel = c } ∷ ss, serves i es ∷ [])
at_place f i (suc k) (s ∷ ss) = let (ss', acts) = at_place f i k ss in (s ∷ ss', acts)

unfoldable pub on_consumer :
    (Consumer → Consumer × List (Effect WatchItem T3Error)) → ℕ → Turn → Turn
on_consumer f k t =
    let (ss, acts) = at_place f k k t.subscribers in
    record t { subscribers = ss; log = acts ++ t.log }

-- The loops over `#subscribers`, in the order of their insertion; `keeps` is false where `clear` follows.
abbrev pub each_one :
    (Consumer → Consumer × List (Effect WatchItem T3Error))
    → Bool
    → ℕ
    → Bool
    → Consumer
    → Subscriber × List Act
each_one f keeps i true channel =
    let (c, es) = f channel in (record { attached = keeps; channel = c }, serves i es ∷ [])
each_one f keeps i false channel = (record { attached = false; channel = channel }, [])

abbrev pub each_from :
    (Consumer → Consumer × List (Effect WatchItem T3Error))
    → Bool
    → ℕ
    → List Subscriber
    → List Subscriber × List Act
each_from f keeps i [] = ([], [])
each_from f keeps i (s ∷ ss) =
    let (s', acts) = each_one f keeps i s.attached s.channel in
    let (ss', more) = each_from f keeps (suc i) ss in (s' ∷ ss', more ++ acts)

unfoldable pub each : (Consumer → Consumer × List (Effect WatchItem T3Error)) → Bool → Turn → Turn
each f keeps t =
    let (ss, acts) = each_from f keeps 0 t.subscribers in
    record t { subscribers = ss; log = acts ++ t.log }

-- `#settle` and `#fail`
unfoldable pub settle_turn : TurnOutcome → Turn → Turn
settle_turn o t = if t.done then t else record t { done = true; log = resolved o ∷ t.log }

unfoldable pub fail : T3Error → Turn → Turn
fail e t = if t.done then t else record t { done = true; log = rejected e ∷ t.log }

abbrev pub settle_seeded : Option TurnOutcome → Turn → Turn
settle_seeded none t = t
settle_seeded (some o) t = settle_turn o t

abbrev pub track_derived : Item → Turn → Turn
track_derived (turn_settled o) t = if is_ours o.run.id t.adoption then settle_turn o t else t
track_derived (assistant_delta i m x s d) t = t
track_derived (requested r) t = t
track_derived (request_resolved id) t = t

-- `#track`
unfoldable pub track : WatchItem → Turn → Turn
unfolding settle_turn
track (snapshot n p) t =
    let (a, outcome) = seed p t.adoption in settle_seeded outcome (record t { adoption = a })
track (event n e) t = record t { adoption = on_event e t.adoption }
track (derived i) t = track_derived i t
track synchronized t = t
track decode_error t = t
track (reconnected n) t = t

-- The `finally` of `#run`.
unfoldable pub finish : Turn → Turn
unfolding each
finish t = each Channel.end false (record t { phase = over; aborted = true })

-- The body of the loop of `#run`.
unfoldable pub read_item : WatchItem → Turn → Turn
unfolding each track
read_item i t =
    let t' = track i (each (Channel.push i) true t) in
    if t'.done then record t' { phase = breaking } else t'

-- The error of `catch`: one that is no `T3Error` closes the connection.
abbrev pub caught : Option T3Error → T3Error
caught none = connection closed
caught (some e) = e

-- What the watch does, in a phase of `#run`.
unfoldable pub on_watch : Phase → Event → Turn → Turn
unfolding read_item finish fail
on_watch reading (yields i) t = read_item i t
on_watch reading ends t = finish (fail interrupted t)
on_watch reading (throws e) t = finish (fail (caught e) t)
on_watch breaking has_returned t = finish t
on_watch _ _ t = t

unfoldable pub step : Turn → Event → Turn
unfolding start subscribe on_consumer on_watch
step t completes = start t
step t subscribes = subscribe t
step t interrupts = record t { log = interrupts_run t.adoption.run_id ∷ t.log }
step t fires = record t {
  signal_fired = true;
  aborted = elim t.phase [ idle ↦ t.aborted | reading ↦ true | breaking ↦ true | over ↦ true ];
}
step t (pulls k ticket) = on_consumer (Channel.next ticket) k t
step t (returns k) = on_consumer Channel.return k t
step t (yields i) = on_watch t.phase (yields i) t
step t ends = on_watch t.phase ends t
step t (throws e) = on_watch t.phase (throws e) t
step t has_returned = on_watch t.phase has_returned t

unfoldable pub run : Turn → List Event → Turn
run t [] = t
run t (e ∷ es) = run (step t e) es
