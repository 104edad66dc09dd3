-- ===== src/Turn/Served.antt =====
-- api/turns.ts: the channels of the consumers of `events()`.
use t3code_client.Prelude.{
  ℕ, zero, suc, Bool, true, false, not, ◌&&◌, List, [], ◌∷◌, ◌++◌, ◌≡◌, refl, arith,
}
use t3code_client.Errors.{T3Error}
use t3code_client.Channel
use t3code_client.Channel.{
  Channel, Terminal, ended, failed, Effect, settle, on_pull, on_return, create_channel, closed,
}
use t3code_client.Channel.Trace.{IsSound}
use t3code_client.Thread.Watch.{WatchItem}
use t3code_client.Turn.Handle.{Consumer, Subscriber, told, at_place, each_one, each_from}

-- A channel is open exactly while `#subscribers` holds it.
pub record IsServed (s : Subscriber) : Type 0 where
  pub open_attached : closed s.channel ≡ not s.attached
  pub sound : IsSound s.channel

abbrev pub AllServed : List Subscriber → Type 0
AllServed [] = Unit
AllServed (s ∷ ss) = IsServed s × AllServed ss

abbrev pub none_attached : List Subscriber → Bool
none_attached [] = true
none_attached (s ∷ ss) = not s.attached && none_attached ss

pub AllServed-append :
    (ss ts : List Subscriber) → AllServed ss → AllServed ts → AllServed (ss ++ ts)
AllServed-append [] ts p q = q
AllServed-append (s ∷ ss) ts p q = (p.0, AllServed-append ss ts p.1 q)

next-IsServed :
    (i : ℕ) (c : Consumer) (a : Bool)
    → IsServed (record { attached = a; channel = c })
    → IsServed
        (record { attached = a && not (told (Channel.next i c).1); channel = (Channel.next i c).0 })
unfolding Channel.next
next-IsServed i c true h = ground arith
next-IsServed i c false h = ground arith

return-IsServed :
    (c : Consumer) (a : Bool)
    → IsServed (record { attached = a; channel = c })
    → IsServed
        (record { attached = a && not (told (Channel.return c).1); channel = (Channel.return c).0 })
unfolding Channel.return
return-IsServed c true h = ground arith
return-IsServed c false h = ground arith

push-IsServed :
    (i : WatchItem) (c : Consumer)
    → IsServed (record { attached = true; channel = c })
    → IsServed (record { attached = true; channel = (Channel.push i c).0 })
unfolding Channel.push
push-IsServed i c h = ground arith

end-IsServed :
    (c : Consumer)
    → IsServed (record { attached = true; channel = c })
    → IsServed (record { attached = false; channel = (Channel.end c).0 })
unfolding Channel.end
end-IsServed c h = ground arith

pub new-IsServed : IsServed (record { attached = true; channel = create_channel })
unfolding create_channel
new-IsServed = ground arith

pub ended-IsServed :
    IsServed (record { attached = false; channel = (Channel.end create_channel).0 })
ended-IsServed = end-IsServed create_channel new-IsServed

-- `next` and `return` of a consumer.
abbrev pub Serves : (Consumer → Consumer × List (Effect WatchItem T3Error)) → Type 0
Serves f =
    (c : Consumer) (a : Bool)
    → IsServed (record { attached = a; channel = c })
    → IsServed (record { attached = a && not (told (f c).1); channel = (f c).0 })

pub next-Serves : (ticket : ℕ) → Serves (Channel.next ticket)
next-Serves ticket c a h = next-IsServed ticket c a h

pub return-Serves : Serves Channel.return
return-Serves c a h = return-IsServed c a h

pub at_place-AllServed :
    (f : Consumer → Consumer × List (Effect WatchItem T3Error)) (i k : ℕ) (ss : List Subscriber)
    → Serves f
    → AllServed ss
    → AllServed (at_place f i k ss).0
at_place-AllServed f i k [] v h = tt
at_place-AllServed f i zero (s ∷ ss) v h = (v s.channel s.attached h.0, h.1)
at_place-AllServed f i (suc k) (s ∷ ss) v h = (h.0, at_place-AllServed f i k ss v h.1)

pub at_place-none_attached :
    (f : Consumer → Consumer × List (Effect WatchItem T3Error)) (i k : ℕ) (ss : List Subscriber)
    → none_attached ss ≡ true
    → none_attached (at_place f i k ss).0 ≡ true
at_place-none_attached f i k [] h = h
at_place-none_attached f i zero (s ∷ ss) h = ground arith
at_place-none_attached f i (suc k) (s ∷ ss) h = ground (arith, at_place-none_attached f i k ss)

push_one-IsServed :
    (w : WatchItem) (i : ℕ) (a : Bool) (c : Consumer)
    → IsServed (record { attached = a; channel = c })
    → IsServed (each_one (Channel.push w) true i a c).0
push_one-IsServed w i true c h = push-IsServed w c h
push_one-IsServed w i false c h = h

pub push_each-AllServed :
    (w : WatchItem) (i : ℕ) (ss : List Subscriber)
    → AllServed ss
    → AllServed (each_from (Channel.push w) true i ss).0
push_each-AllServed w i [] h = tt
push_each-AllServed w i (s ∷ ss) h =
    (push_one-IsServed w i s.attached s.channel h.0, push_each-AllServed w (suc i) ss h.1)

end_one-IsServed :
    (i : ℕ) (a : Bool) (c : Consumer)
    → IsServed (record { attached = a; channel = c })
    → IsServed (each_one Channel.end false i a c).0
end_one-IsServed i true c h = end-IsServed c h
end_one-IsServed i false c h = h

pub end_each-AllServed :
    (i : ℕ) (ss : List Subscriber) → AllServed ss → AllServed (each_from Channel.end false i ss).0
end_each-AllServed i [] h = tt
end_each-AllServed i (s ∷ ss) h =
    (end_one-IsServed i s.attached s.channel h.0, end_each-AllServed (suc i) ss h.1)

end_one_detached :
    (i : ℕ) (a : Bool) (c : Consumer) → (each_one Channel.end false i a c).0.attached ≡ false
end_one_detached i true c = refl
end_one_detached i false c = refl

pub end_each_detached :
    (i : ℕ) (ss : List Subscriber) → none_attached (each_from Channel.end false i ss).0 ≡ true
end_each_detached i [] = refl
end_each_detached i (s ∷ ss) =
    ground (arith, end_one_detached i s.attached s.channel, end_each_detached (suc i) ss)
