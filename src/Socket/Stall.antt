-- ===== src/Socket/Stall.antt =====
-- An attempt whose WebSocket constructor throws.
use t3code_client.Prelude.{Bool, true, false, List, [], ◌∷◌, ◌≡◌, arith}
use t3code_client.Socket.State.{connecting, Options, Socket, connect, abort_connect, send_envelope}
use t3code_client.Socket.Events.{
  threw, attempted, try_ping, Event, connects, aborts, sends, reconnects, closes, attempt_goes_on,
  socket_opens, socket_receives, socket_closes, open_timer_fires, reconnect_timer_fires, ticks,
  step, run,
}
use t3code_client.Socket.Progress.{drivers, Inv, IsValid}

-- What can start a transport that stalled: the caller's `reconnect` and `close`.
abbrev pub restarts : Event → Bool
restarts reconnects = true
restarts closes = true
restarts (connects t aborted) = false
restarts (aborts t) = false
restarts (sends e) = false
restarts (attempt_goes_on g a) = false
restarts (socket_opens g) = false
restarts (socket_receives g frame) = false
restarts (socket_closes g info) = false
restarts (open_timer_fires g) = false
restarts reconnect_timer_fires = false
restarts ticks = false

abbrev pub AllIdle : Options → Socket → List Event → Type 0
AllIdle o s [] = Unit
AllIdle o s (e ∷ es) = (restarts e ≡ false) × IsValid s e × AllIdle o (step o s e) es

abbrev pub Stalled : Socket → Type 0
Stalled s = (s.state ≡ connecting) × (drivers s ≡ 0) × (s.ticking ≡ false)

step-Stalled :
    (o : Options) (s : Socket) (e : Event)
    → restarts e ≡ false
    → IsValid s e
    → Stalled s
    → Stalled (step o s e)
unfolding step connect abort_connect send_envelope try_ping
step-Stalled o s (connects t aborted) r h v = ground arith
step-Stalled o s (aborts t) r h v = ground arith
step-Stalled o s (sends e) r h v = ground arith
step-Stalled o s reconnects r h v = cc
step-Stalled o s closes r h v = cc
step-Stalled o s (attempt_goes_on g a) r h v = ground arith
step-Stalled o s (socket_opens g) r h v = ground arith
step-Stalled o s (socket_receives g frame) r h v = ground arith
step-Stalled o s (socket_closes g info) r h v = ground arith
step-Stalled o s (open_timer_fires g) r h v = ground arith
step-Stalled o s reconnect_timer_fires r h v = ground arith
step-Stalled o s ticks r h v = ground arith

run-Stalled :
    (o : Options) (s : Socket) (es : List Event) → AllIdle o s es → Stalled s → Stalled (run o s es)
unfolding run
run-Stalled o s [] h v = v
run-Stalled o s (e ∷ es) h v = run-Stalled o (step o s e) es h.2 (step-Stalled o s e h.0 h.1 v)

-- If loading or calling the WebSocket constructor throws in an attempt of the current generation,
-- the transport goes on to say that it connects, and nothing is under way any more: whatever
-- follows but `reconnect` and `close`, it never opens and never tries again.
pub attempt_threw :
    (o : Options) (s : Socket) (es : List Event)
    → Inv s
    → s.state ≡ connecting
    → s.attempting ≡ true
    → AllIdle o (step o s (attempt_goes_on s.generation threw)) es
    → Stalled (run o (step o s (attempt_goes_on s.generation threw)) es)
attempt_threw o s es v c w h =
    run-Stalled o (step o s (attempt_goes_on s.generation threw)) es h stalls
  where
    stalls : Stalled (step o s (attempt_goes_on s.generation threw))
    stalls = unfold step attempted in ground arith
