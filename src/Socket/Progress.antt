-- ===== src/Socket/Progress.antt =====
-- transport/socket.ts: what the transport waits for while it connects.
use t3code_client.Prelude.{
  ℕ, ◌+◌, Bool, true, false, not, Option, none, some, is_some, List, [], ◌∷◌, tally, if◌then◌else◌,
  keep, ◌≡◌, ◌≢◌, ◌⊎◌, refl, arith,
}
use t3code_client.Errors.{FailureReason, open_failed, protocol}
use t3code_client.Json.{Json}
use t3code_client.Wire.Envelope.{
  ClientEnvelope, ServerEnvelope, Decoded, envelopes, refused, decode_server_frame,
}
use t3code_client.Socket.State.{
  SocketState, idle, connecting, up, closed, Options, Socket, new_socket, stop, schedule_reconnect,
  drop_socket, fail, connect, abort_connect, send_envelope, reconnect, close, is_closed,
}
use t3code_client.Socket.Events.{
  Attempted, unauthorized, unresolved, opened, threw, CloseInfo, close_error, is_open, is_pong,
  hear, forward, receive, on_open, on_message, close_with, on_close, attempted, try_ping, tick,
  Event, connects, aborts, sends, reconnects, closes, attempt_goes_on, socket_opens,
  socket_receives, socket_closes, open_timer_fires, reconnect_timer_fires, ticks, step, run,
}

-- What will go on by itself: the reconnect timer, an attempt of the current generation, a socket.
abbrev pub drivers : Socket → ℕ
drivers s = tally s.reconnect_timer + tally s.attempting + tally (is_some s.socket)

abbrev pub Shape : SocketState → Socket → Type 0
Shape idle s = (drivers s ≡ 0) × (s.waiters ≡ []) × (s.ticking ≡ false)
Shape connecting s = (drivers s ≡ 1) × (s.ticking ≡ false)
Shape up s =
    (s.reconnect_timer ≡ false)
    × (s.attempting ≡ false)
    × (is_some s.socket ≡ true)
    × (s.waiters ≡ [])
    × (s.ticking ≡ true)
Shape closed s = (drivers s ≡ 0) × (s.waiters ≡ []) × (s.ticking ≡ false)

pub record Inv (s : Socket) : Type 0 where
  pub current : (s.socket ≡ none) ⊎ (s.socket ≡ some s.generation)
  pub over : s.closing ≡ is_closed s.state
  pub shape : Shape s.state s

-- What the runtime promises of the events of a current socket or attempt: an attempt goes on while it
-- waits, and neither loading nor calling the constructor throws; a socket opens once, while the
-- transport connects, and it receives and closes while it is attached.
abbrev pub IsValid : Socket → Event → Type 0
IsValid s (attempt_goes_on g a) = (g ≢ s.generation) ⊎ ((s.attempting ≡ true) × (a ≢ threw))
IsValid s (socket_opens g) = (g ≢ s.generation) ⊎ ((s.socket ≡ some g) × (s.state ≡ connecting))
IsValid s (socket_receives g frame) = (g ≢ s.generation) ⊎ (s.state ≡ up)
IsValid s (socket_closes g info) = (g ≢ s.generation) ⊎ (s.socket ≡ some g)
IsValid s (open_timer_fires g) = (g ≢ s.generation) ⊎ ((s.socket ≡ some g) × (s.state ≡ connecting))
IsValid s (connects t aborted) = Unit
IsValid s (aborts t) = Unit
IsValid s (sends e) = Unit
IsValid s reconnects = Unit
IsValid s closes = Unit
IsValid s reconnect_timer_fires = Unit
IsValid s ticks = Unit

drop-Inv :
    (e : FailureReason) (s : Socket)
    → (s.state ≢ closed)
    → (s.reconnect_timer ≡ false)
    → Inv s
    → Inv (drop_socket e s)
unfolding drop_socket
drop-Inv e s n h v = ground arith

fail-Inv : (e : FailureReason) (s : Socket) → Inv (fail e s)
unfolding fail
fail-Inv e s = ground arith

connect-Inv : (t : ℕ) (aborted : Bool) (s : Socket) → Inv s → Inv (connect t aborted s)
unfolding connect
connect-Inv t aborted s v = ground arith

abort-Inv : (t : ℕ) (s : Socket) → Inv s → Inv (abort_connect t s)
unfolding abort_connect
abort-Inv t s v = ground arith

reconnect-Inv : (s : Socket) → Inv s → Inv (reconnect s)
unfolding reconnect
reconnect-Inv s v = ground arith

close-Inv : (s : Socket) → Inv s → Inv (close s)
unfolding close
close-Inv s v = ground arith

schedule-Inv :
    (e : FailureReason) (s : Socket)
    → s.closing ≡ false
    → drivers s ≡ 0
    → s.ticking ≡ false
    → Inv (schedule_reconnect e s)
unfolding schedule_reconnect
schedule-Inv e s c d k = ground arith

attempted-Inv :
    (o : Options) (g : ℕ) (a : Attempted) (s : Socket)
    → g ≡ s.generation
    → s.closing ≡ false
    → s.attempting ≡ true
    → a ≢ threw
    → Inv s
    → Inv (attempted o g a s)
unfolding attempted
attempted-Inv o g unauthorized s e c w n v = fail-Inv open_failed (record s { attempting = false })
attempted-Inv o g unresolved s e c w n v =
    schedule-Inv open_failed (record s { attempting = false }) c (ground arith) (ground arith)
attempted-Inv o g opened s e c w n v = ground arith
attempted-Inv o g threw s e c w n v = absurd (n refl)

on_open-Inv :
    (s : Socket) → s.socket ≡ some s.generation → s.state ≡ connecting → Inv s → Inv (on_open s)
unfolding on_open
on_open-Inv s e c v = ground arith

hear_keeps :
    (es : List ServerEnvelope) (s : Socket)
    → Inv s
    → Inv (hear es s) × ((hear es s).state ≡ s.state)
hear_keeps [] s v = (v, refl)
hear_keeps (e ∷ es) s v =
    elim (is_pong e)
      as (λ b.
        Inv (hear es (if b then record s { missed_pongs = 0 } else s))
        × ((hear es (if b then record s { missed_pongs = 0 } else s)).state ≡ s.state)) [
          | true ↦ hear_keeps es (record s { missed_pongs = 0 }) (ground arith)
          | false ↦ hear_keeps es s v
        ]

forward-Inv : (es : List ServerEnvelope) (s : Socket) → Inv s → Inv (forward es s)
unfolding forward
forward-Inv [] s v = v
forward-Inv (e ∷ es) s v = ground arith

receive-Inv : (d : Decoded) (s : Socket) → s.state ≡ up → Inv s → Inv (receive d s)
unfolding receive
receive-Inv (refused e) s u v = drop-Inv protocol s (λ c. cc) (ground arith) v
receive-Inv (envelopes es) s u v =
    forward-Inv (keep (λ e. not (is_pong e)) es) (hear es s) (hear_keeps es s v).0

on_message-Inv :
    (frame : Option (Option Json)) (s : Socket) → s.state ≡ up → Inv s → Inv (on_message frame s)
unfolding on_message
on_message-Inv none s u v = v
on_message-Inv (some frame) s u v = receive-Inv (decode_server_frame frame) s u v

close_with-Inv :
    (r : FailureReason × Bool) (s : Socket)
    → s.closing ≡ false
    → drivers s ≡ 0
    → s.ticking ≡ false
    → Inv (close_with r s)
unfolding close_with
close_with-Inv (e, true) s c d k = fail-Inv e s
close_with-Inv (e, false) s c d k = schedule-Inv e s c d k

on_close-Inv :
    (info : CloseInfo) (s : Socket) → s.socket ≡ some s.generation → Inv s → Inv (on_close info s)
unfolding on_close
on_close-Inv info s e v = ground (
  arith,
  close_with-Inv (close_error info (is_open s.state))
      (record (stop s) { open_timer = none; socket = none }),
)

tick-Inv : (o : Options) (s : Socket) → s.ticking ≡ true → Inv s → Inv (tick o s)
unfolding tick drop_socket send_envelope try_ping
tick-Inv o s k v = ground arith

send-Inv :
    (o : Options) (e : ClientEnvelope) (s : Socket) → Inv s → Inv (try_ping o (send_envelope e s) s)
unfolding send_envelope try_ping
send-Inv o e s v = ground arith

pub step-Inv : (o : Options) (s : Socket) (e : Event) → IsValid s e → Inv s → Inv (step o s e)
unfolding step
step-Inv o s (connects t aborted) h v = connect-Inv t aborted s v
step-Inv o s (aborts t) h v = abort-Inv t s v
step-Inv o s (sends e) h v = send-Inv o e s v
step-Inv o s reconnects h v = reconnect-Inv s v
step-Inv o s closes h v = close-Inv s v
step-Inv o s (attempt_goes_on g a) h v = ground (arith, attempted-Inv o g a s)
step-Inv o s (socket_opens g) h v = ground (arith, on_open-Inv s)
step-Inv o s (socket_receives g frame) h v = ground (arith, on_message-Inv frame s)
step-Inv o s (socket_closes g info) h v = ground (arith, on_close-Inv info s)
step-Inv o s (open_timer_fires g) h v = ground (arith, drop-Inv open_failed s)
step-Inv o s reconnect_timer_fires h v = ground arith
step-Inv o s ticks h v = ground (arith, tick-Inv o s)

abbrev pub AllValid : Options → Socket → List Event → Type 0
AllValid o s [] = Unit
AllValid o s (e ∷ es) = IsValid s e × AllValid o (step o s e) es

new_socket-Inv : Inv new_socket
unfolding new_socket
new_socket-Inv = ground arith

run-Inv : (o : Options) (s : Socket) (es : List Event) → AllValid o s es → Inv s → Inv (run o s es)
unfolding run
run-Inv o s [] h v = v
run-Inv o s (e ∷ es) h v = run-Inv o (step o s e) es h.1 (step-Inv o s e h.0 v)

-- After any events in which the runtime keeps its promises and no constructor of a WebSocket
-- throws: the transport is closed exactly if it gave up reconnecting; while it connects, exactly one
-- of the reconnect timer, an attempt of the current generation and a socket is there to go on; while
-- it is open it has a socket, nobody waits and the keepalive ticks; and a socket that it holds is of
-- the current generation.
pub run-new_socket-Inv :
    (o : Options) (es : List Event) → AllValid o new_socket es → Inv (run o new_socket es)
run-new_socket-Inv o es h = run-Inv o new_socket es h new_socket-Inv
