-- ===== src/Socket/Balance.antt =====
-- transport/socket.ts: the account of the promises of `connect` over every sequence of events.
use native.Mathlib.Nat.{add-zero, zero-add, add_assoc}
use t3code_client.Prelude.{ℕ, ◌+◌, false, List, [], ◌∷◌, ◌≡◌, arith, ◌∙◌}
use t3code_client.Errors.{open_failed, ping_timeout}
use t3code_client.Socket.State.{Options, Socket, new_socket, stop, send_envelope, reconnect}
use t3code_client.Socket.Events.{
  try_ping, tick, Event, connects, aborts, sends, reconnects, closes, attempt_goes_on, socket_opens,
  socket_receives, socket_closes, open_timer_fires, reconnect_timer_fires, ticks, step, run,
}
use t3code_client.Socket.State.{waits}
use t3code_client.Socket.Waiters.{
  settlements, waiting, asked, Balanced, connect-Balanced, abort-Balanced, drop-Balanced,
  close-Balanced, attempted-Balanced, on_open-Balanced, on_message-Balanced, on_close-Balanced,
}

-- No call of `connect` has a ticket that waits.
abbrev pub Fresh : Socket → Event → Type 0
Fresh s (connects u aborted) = waits u s.waiters ≡ false
Fresh s (aborts u) = Unit
Fresh s (sends e) = Unit
Fresh s reconnects = Unit
Fresh s closes = Unit
Fresh s (attempt_goes_on g a) = Unit
Fresh s (socket_opens g) = Unit
Fresh s (socket_receives g frame) = Unit
Fresh s (socket_closes g info) = Unit
Fresh s (open_timer_fires g) = Unit
Fresh s reconnect_timer_fires = Unit
Fresh s ticks = Unit

step-Balanced :
    (t n : ℕ) (o : Options) (s : Socket) (e : Event)
    → Fresh s e
    → Balanced t n s
    → Balanced t (n + asked t e) (step o s e)
unfolding step reconnect send_envelope try_ping tick
step-Balanced t n o s (connects u aborted) f b = connect-Balanced t n u aborted s f b
step-Balanced t n o s (aborts u) f b = rw add-zero (abort-Balanced t n u s b)
step-Balanced t n o s (sends e) f b = ground arith
step-Balanced t n o s reconnects f b = ground arith
step-Balanced t n o s closes f b = rw add-zero (close-Balanced t n s b)
step-Balanced t n o s (attempt_goes_on g a) f b = ground (arith, attempted-Balanced t n o g a s b)
step-Balanced t n o s (socket_opens g) f b = ground (arith, on_open-Balanced t n s b)
step-Balanced t n o s (socket_receives g frame) f b =
    ground (arith, on_message-Balanced t n frame s b)
step-Balanced t n o s (socket_closes g info) f b = ground (arith, on_close-Balanced t n info s b)
step-Balanced t n o s (open_timer_fires g) f b = ground (arith, drop-Balanced t n open_failed s b)
step-Balanced t n o s reconnect_timer_fires f b = ground arith
step-Balanced t n o s ticks f b = ground (arith, drop-Balanced t n ping_timeout (stop s))

abbrev pub AllFresh : Options → Socket → List Event → Type 0
AllFresh o s [] = Unit
AllFresh o s (e ∷ es) = Fresh s e × AllFresh o (step o s e) es

abbrev pub all_asked : ℕ → List Event → ℕ
all_asked t [] = 0
all_asked t (e ∷ es) = asked t e + all_asked t es

run-Balanced :
    (t n : ℕ) (o : Options) (s : Socket) (es : List Event)
    → AllFresh o s es
    → Balanced t n s
    → Balanced t (n + all_asked t es) (run o s es)
unfolding run
run-Balanced t n o s [] f b = omega arith
run-Balanced t n o s (e ∷ es) f b =
    rw (← add_assoc)
      (run-Balanced t (n + asked t e) o (step o s e) es f.1 (step-Balanced t n o s e f.0 b))

-- Whatever happens, and if no ticket is used while it waits: the promise of a call of `connect` was
-- settled or waits, as often as the call was made.
pub connect_balance :
    (t : ℕ) (o : Options) (es : List Event)
    → AllFresh o new_socket es
    → settlements t (run o new_socket es).log + waiting t (run o new_socket es).waiters
      ≡ all_asked t es
connect_balance t o es f =
    (run-Balanced t 0 o new_socket es f new_socket-Balanced).balance ∙ zero-add _
  where
    new_socket-Balanced : Balanced t 0 new_socket
    new_socket-Balanced = unfold new_socket in omega arith
