-- ===== src/Turn/Followed.antt =====
-- api/turns.ts: the run whose outcome `completion` resolves with.
use t3code_client.Prelude.{ℕ, String, Bool, true, false, ◌||◌, List, [], ◌∷◌, any, ◌≡◌, refl, arith}
use t3code_client.Errors.{interrupted}
use t3code_client.Channel
use t3code_client.Channel.{Effect}
use t3code_client.Turn.Handle.{
  Phase, reading, breaking, Turn, new_turn, Event, completes, subscribes, interrupts, fires, pulls,
  returns, yields, ends, throws, has_returned, on_consumer, fail, caught, on_watch, step, run,
  start, subscribe,
}
use t3code_client.Turn.Counted.{Op}
use t3code_client.Turn.Linked.{names}
use t3code_client.Turn.Trusted.{
  AllResolved, Trusted, serving-AllResolved, if-Trusted, fail-Trusted, finish-Trusted,
  read_item-Trusted,
}

-- Whether one of the items that the watch yields names the run.
abbrev pub event_of_watch_names : String → String → Event → Bool
event_of_watch_names id r (yields i) = names id r i
event_of_watch_names id r completes = false
event_of_watch_names id r subscribes = false
event_of_watch_names id r interrupts = false
event_of_watch_names id r fires = false
event_of_watch_names id r (pulls k ticket) = false
event_of_watch_names id r (returns k) = false
event_of_watch_names id r ends = false
event_of_watch_names id r (throws e) = false
event_of_watch_names id r has_returned = false

or_right : (a b : Bool) → b ≡ true → a || b ≡ true
or_right true b h = refl
or_right false b h = h

module _ (Q : String → Type 0) where
  SaysEvent : String → Event → Type 0
  SaysEvent id e = (r : String) → event_of_watch_names id r e ≡ true → Q r

  on_watch-Trusted :
      (id : String) (p : Phase) (e : Event) (t : Turn)
      → SaysEvent id e
      → Trusted Q id t
      → Trusted Q id (on_watch p e t)
  unfolding on_watch SaysEvent
  on_watch-Trusted id reading (yields i) t s h = read_item-Trusted Q id i t s h
  on_watch-Trusted id reading ends t s h =
      finish-Trusted Q id (fail interrupted t) (fail-Trusted Q id interrupted t h)
  on_watch-Trusted id reading (throws e) t s h =
      finish-Trusted Q id (fail (caught e) t) (fail-Trusted Q id (caught e) t h)
  on_watch-Trusted id breaking has_returned t s h = finish-Trusted Q id t h
  on_watch-Trusted id _ _ t s h = h

  start-Trusted : (id : String) (t : Turn) → Trusted Q id t → Trusted Q id (start t)
  unfolding start
  start-Trusted id t h = ground (arith, h.mine, h.linked, h.settled)

  subscribe-Trusted : (id : String) (t : Turn) → Trusted Q id t → Trusted Q id (subscribe t)
  unfolding subscribe
  subscribe-Trusted id t h =
      if-Trusted Q id t.done _ _
        (λ _. record { mine = h.mine; linked = h.linked; settled = h.settled })
        (start-Trusted id _ (record { mine = h.mine; linked = h.linked; settled = h.settled }))

  on_consumer-Trusted :
      (id : String) (f : Op) (k : ℕ) (t : Turn) → Trusted Q id t → Trusted Q id (on_consumer f k t)
  unfolding on_consumer
  on_consumer-Trusted id f k t h = record {
    mine = h.mine;
    linked = h.linked;
    settled = serving-AllResolved Q f k k t.subscribers t.log h.settled;
  }

  step-Trusted :
      (id : String) (t : Turn) (e : Event)
      → SaysEvent id e
      → Trusted Q id t
      → Trusted Q id (step t e)
  unfolding step
  step-Trusted id t completes s h = start-Trusted id t h
  step-Trusted id t subscribes s h = subscribe-Trusted id t h
  step-Trusted id t interrupts s h = record {
    mine = h.mine;
    linked = h.linked;
    settled = h.settled;
  }
  step-Trusted id t fires s h = record { mine = h.mine; linked = h.linked; settled = h.settled }
  step-Trusted id t (pulls k ticket) s h = on_consumer-Trusted id (Channel.next ticket) k t h
  step-Trusted id t (returns k) s h = on_consumer-Trusted id Channel.return k t h
  step-Trusted id t (yields i) s h = on_watch-Trusted id t.phase (yields i) t s h
  step-Trusted id t ends s h = on_watch-Trusted id t.phase ends t s h
  step-Trusted id t (throws e) s h = on_watch-Trusted id t.phase (throws e) t s h
  step-Trusted id t has_returned s h = on_watch-Trusted id t.phase has_returned t s h

  run-Trusted :
      (id : String) (t : Turn) (es : List Event)
      → ((r : String) → any (event_of_watch_names id r) es ≡ true → Q r)
      → Trusted Q id t
      → Trusted Q id (run t es)
  unfolding run SaysEvent
  run-Trusted id t [] s h = h
  run-Trusted id t (e ∷ es) s h =
      run-Trusted id (step t e) es (λ r n. s r (or_right (event_of_watch_names id r e) _ n))
        (step-Trusted id t e (λ r n. s r (rw n refl)) h)

-- Whatever happens, each outcome that `completion` of a new turn resolves with is of a run that an item of
-- the watch named for the message of the turn: the message's record with that run, or the run with
-- that message, in a snapshot or an event.
pub new_turn-follows_link :
    (id : String) (es : List Event)
    → AllResolved (λ r. any (event_of_watch_names id r) es ≡ true) (run (new_turn id) es).log
unfolding new_turn
new_turn-follows_link id es =
    let said = λ (r : String). any (event_of_watch_names id r) es ≡ true in
    (run-Trusted said id (new_turn id) es (λ r n. n)
      (record { mine = refl; linked = tt; settled = tt })).settled
