-- ===== src/Turn/Once.antt =====
-- api/turns.ts: the settlement of `completion`, and the channels of the consumers of `events()`.
use t3code_client.Prelude.{
  ℕ, String, Bool, true, false, not, ◌&&◌, ◌||◌, none, List, [], ◌∷◌, ◌++◌, if◌then◌else◌, ◌≡◌,
  refl, tally, arith, ap, ◌∙◌,
}
use t3code_client.Errors.{interrupted}
use t3code_client.Channel
use t3code_client.Channel.{
  Channel, Terminal, ended, failed, Effect, settle, on_pull, on_return, create_channel, closed,
}
use t3code_client.Thread.Watch.{WatchItem}
use t3code_client.Turn.Served.{
  IsServed, AllServed, none_attached, Serves, next-Serves, return-Serves, AllServed-append,
  new-IsServed, ended-IsServed, at_place-AllServed, at_place-none_attached, push_each-AllServed,
  end_each-AllServed, end_each_detached,
}
use t3code_client.Turn.Handle.{
  Subscriber, Phase, idle, reading, breaking, over, Turn, new_turn, Event, completes, subscribes,
  interrupts, fires, pulls, returns, yields, ends, throws, has_returned, at_place, on_consumer,
  each, fail, track, finish, caught, read_item, on_watch, step, run, start, subscribe,
}
use t3code_client.Turn.Counted.{
  settlements, settlements-append, left_loop, is_over, Op, settlements-at_place, IsCounted,
  each-IsCounted, fail-IsCounted, fail_done, track-IsCounted, track-phase,
}

pub record Inv (t : Turn) : Type 0 where
  pub is_counted : IsCounted t
  pub decided : t.done ≡ left_loop t.phase
  pub detached : not (is_over t.phase) || none_attached t.subscribers ≡ true

on_consumer-Inv : (f : Op) (k : ℕ) (t : Turn) → Serves f → Inv t → Inv (on_consumer f k t)
unfolding on_consumer
on_consumer-Inv f k t v h = record {
  is_counted = record {
    counted = omega (
      arith,
      settlements-append (at_place f k k t.subscribers).1 t.log,
      settlements-at_place f k k t.subscribers,
      h.is_counted.counted,
    );
    served = at_place-AllServed f k k t.subscribers v h.is_counted.served;
  };
  decided = h.decided;
  detached = ground (arith, h.detached, at_place-none_attached f k k t.subscribers);
}

start-Inv : (t : Turn) → Inv t → Inv (start t)
unfolding start
start-Inv t h = ground (arith, h.is_counted.counted, h.is_counted.served)

finish-Inv : (t : Turn) → IsCounted t → t.done ≡ true → Inv (finish t)
unfolding finish
finish-Inv t h d = record {
  is_counted =
      each-IsCounted Channel.end false (record t { phase = over; aborted = true })
        (record { counted = h.counted; served = h.served })
        (end_each-AllServed 0 t.subscribers h.served);
  decided = d;
  detached = end_each_detached 0 t.subscribers;
}

break-Inv :
    (t : Turn)
    → t.phase ≡ reading
    → IsCounted t
    → Inv (if t.done then record t { phase = breaking } else t)
break-Inv t r h = ground (arith, h.counted, h.served)

read_item-Inv : (w : WatchItem) (t : Turn) → t.phase ≡ reading → IsCounted t → Inv (read_item w t)
unfolding read_item
read_item-Inv w t r h =
    let pushed = each (Channel.push w) true t in
    let pushed_h =
      each-IsCounted (Channel.push w) true t h (push_each-AllServed w 0 t.subscribers h.served) in
    break-Inv (track w pushed) (track-phase w pushed ∙ each-phase)
      (track-IsCounted w pushed pushed_h)
  where
    each-phase : (each (Channel.push w) true t).phase ≡ reading
    each-phase = unfold each in r

if-Inv :
    (b : Bool) (t u : Turn) → (b ≡ true → Inv t) → (b ≡ false → Inv u) → Inv (if b then t else u)
if-Inv true t u h k = h refl
if-Inv false t u h k = k refl

none_attached-append :
    (ss ts : List Subscriber) → none_attached (ss ++ ts) ≡ none_attached ss && none_attached ts
none_attached-append [] ts = refl
none_attached-append (s ∷ ss) ts = ground (arith, none_attached-append ss ts)

not_over : (p : Phase) → left_loop p ≡ false → is_over p ≡ false
not_over idle h = refl
not_over reading h = refl
not_over breaking h = cc
not_over over h = cc

-- `#subscribers` grows, or a channel is made that is not in it.
grown-Inv :
    (s : Subscriber) (t : Turn)
    → IsServed s
    → s.attached && t.done ≡ false
    → Inv t
    → Inv (record t { subscribers = t.subscribers ++ s ∷ [] })
grown-Inv s t v f h = record {
  is_counted = record {
    counted = h.is_counted.counted;
    served = AllServed-append t.subscribers (s ∷ []) h.is_counted.served (v, tt);
  };
  decided = h.decided;
  detached =
      ground (
        arith,
        none_attached-append t.subscribers (s ∷ []),
        not_over t.phase,
        h.decided,
        h.detached,
      );
}

subscribe-Inv : (t : Turn) → Inv t → Inv (subscribe t)
unfolding subscribe
subscribe-Inv t h =
    if-Inv t.done _ _ (λ done. grown-Inv _ t ended-IsServed refl h)
      (λ waits. start-Inv _ (grown-Inv _ t new-IsServed waits h))

on_watch-Inv : (p : Phase) (e : Event) (t : Turn) → t.phase ≡ p → Inv t → Inv (on_watch p e t)
unfolding on_watch
on_watch-Inv reading (yields i) t r h = read_item-Inv i t r h.is_counted
on_watch-Inv reading ends t r h =
    finish-Inv (fail interrupted t) (fail-IsCounted interrupted t h.is_counted)
      (fail_done interrupted t)
on_watch-Inv reading (throws e) t r h =
    finish-Inv (fail (caught e) t) (fail-IsCounted (caught e) t h.is_counted)
      (fail_done (caught e) t)
on_watch-Inv breaking has_returned t r h = finish-Inv t h.is_counted (h.decided ∙ rw r)
on_watch-Inv _ _ t r h = h

step-Inv : (t : Turn) (e : Event) → Inv t → Inv (step t e)
unfolding step
step-Inv t completes h = start-Inv t h
step-Inv t subscribes h = subscribe-Inv t h
step-Inv t interrupts h = ground (arith, h.is_counted.counted, h.is_counted.served)
step-Inv t fires h = ground (arith, h.is_counted.counted, h.is_counted.served)
step-Inv t (pulls k ticket) h = on_consumer-Inv (Channel.next ticket) k t (next-Serves ticket) h
step-Inv t (returns k) h = on_consumer-Inv Channel.return k t return-Serves h
step-Inv t (yields i) h = on_watch-Inv t.phase (yields i) t refl h
step-Inv t ends h = on_watch-Inv t.phase ends t refl h
step-Inv t (throws e) h = on_watch-Inv t.phase (throws e) t refl h
step-Inv t has_returned h = on_watch-Inv t.phase has_returned t refl h

run-Inv : (t : Turn) (es : List Event) → Inv t → Inv (run t es)
unfolding run
run-Inv t [] h = h
run-Inv t (e ∷ es) h = run-Inv (step t e) es (step-Inv t e h)

new_turn-Inv : (message_id : String) → Inv (new_turn message_id)
unfolding new_turn
new_turn-Inv message_id = ground arith

-- Whatever the caller, the consumers and the watch do, the promise of `completion` of a new turn
-- was settled once if the loop over the watch was left, and not at all before.
pub new_turn-settles_once :
    (message_id : String) (es : List Event)
    → settlements (run (new_turn message_id) es).log
      ≡ tally (left_loop (run (new_turn message_id) es).phase)
new_turn-settles_once message_id es =
    let h = run-Inv (new_turn message_id) es (new_turn-Inv message_id) in
    h.is_counted.counted ∙ ap tally h.decided

-- Nobody waits on a channel that was closed.
abbrev pub AllReleased : List Subscriber → Type 0
AllReleased [] = Unit
AllReleased (s ∷ ss) = (closed s.channel ≡ true) × (s.channel.waiter ≡ none) × AllReleased ss

released : (ss : List Subscriber) → AllServed ss → none_attached ss ≡ true → AllReleased ss
released [] h d = tt
released (s ∷ ss) h d = ground (arith, h.0.open_attached, h.0.sound, released ss h.1)

-- When `#run` of a new turn is over, the channel of every consumer of `events()` is closed and has no
-- promise of `next` that waits, also where the consumer came later.
pub new_turn_releases :
    (message_id : String) (es : List Event)
    → (run (new_turn message_id) es).phase ≡ over
    → AllReleased (run (new_turn message_id) es).subscribers
new_turn_releases message_id es o =
    let h = run-Inv (new_turn message_id) es (new_turn-Inv message_id) in
    released (run (new_turn message_id) es).subscribers h.is_counted.served (rw o at h.detached)
