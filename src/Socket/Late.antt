-- ===== src/Socket/Late.antt =====
-- packages/t3code-lib/src/transport/socket.ts: events of an attempt or a socket that was left behind.
use t3code_client.Prelude.{
  ℕ, sym, ◌∙◌, ◌&&◌, ◌==◌, Bool, true, false, not, Option, none, some, List, [], ◌∷◌, if◌then◌else◌,
  keep, ◌≡◌, ◌≢◌, refl, arith,
}
use t3code_client.Errors.{FailureReason, open_failed, ping_timeout, protocol}
use t3code_client.Json.{Json}
use t3code_client.Wire.Envelope.{ServerEnvelope, Decoded, envelopes, refused, decode_server_frame}
use t3code_client.Socket.State.{
  told, Options, Socket, new_socket, up, stop, connect, abort_connect, send_envelope,
}
use t3code_client.Socket.Events.{
  Attempted, unauthorized, unresolved, opened, threw, CloseInfo, close_error, is_open, is_pong,
  hear, forward, receive, on_open, on_message, close_with, on_close, attempted, try_ping, tick,
  Event, connects, aborts, sends, reconnects, closes, attempt_goes_on, socket_opens,
  socket_receives, socket_closes, open_timer_fires, reconnect_timer_fires, ticks, step, run,
}
use t3code_client.Socket.Left.{
  ended, ended-resolving, IsLeft, schedule-IsLeft, drop-IsLeft, fail-IsLeft, reconnect-IsLeft,
  close-IsLeft,
}

-- The generation that made the handler of an event.
abbrev pub stamp : Event → Option ℕ
stamp (attempt_goes_on g a) = some g
stamp (socket_opens g) = some g
stamp (socket_receives g frame) = some g
stamp (socket_closes g info) = some g
stamp (open_timer_fires g) = some g
stamp (connects t aborted) = none
stamp (aborts t) = none
stamp (sends e) = none
stamp reconnects = none
stamp closes = none
stamp reconnect_timer_fires = none
stamp ticks = none

stale :
    (o : Options) (s : Socket) (e : Event) (g : ℕ)
    → stamp e ≡ some g
    → g ≢ s.generation
    → step o s e ≡ s
unfolding step
stale o s (attempt_goes_on g a) k h n = ground arith
stale o s (socket_opens g) k h n = ground arith
stale o s (socket_receives g frame) k h n = ground arith
stale o s (socket_closes g info) k h n = ground arith
stale o s (open_timer_fires g) k h n = ground arith
stale o s (connects t aborted) k h n = cc
stale o s (aborts t) k h n = cc
stale o s (sends e) k h n = cc
stale o s reconnects k h n = cc
stale o s closes k h n = cc
stale o s reconnect_timer_fires k h n = cc
stale o s ticks k h n = cc

attempted-IsLeft :
    (o : Options) (g k : ℕ) (a : Attempted) (s : Socket)
    → k ≡ s.generation
    → IsLeft g s
    → IsLeft g (attempted o k a s)
unfolding attempted
attempted-IsLeft o g k unauthorized s e h =
    fail-IsLeft g open_failed (record s { attempting = false }) h
attempted-IsLeft o g k unresolved s e h =
    schedule-IsLeft g open_failed (record s { attempting = false }) h
attempted-IsLeft o g k opened s e h = (λ a. let same_ : k ≡ g = cc a in omega arith, h.1)
attempted-IsLeft o g k threw s e h = h

test-IsLeft :
    (g : ℕ) (b : Bool) (s t : Socket)
    → (b ≡ true → IsLeft g s)
    → IsLeft g t
    → IsLeft g (if b then s else t)
test-IsLeft g true s t h k = h refl
test-IsLeft g false s t h k = k

hear-IsLeft : (g : ℕ) (es : List ServerEnvelope) (s : Socket) → IsLeft g s → IsLeft g (hear es s)
hear-IsLeft g [] s h = h
hear-IsLeft g (e ∷ es) s h =
    hear-IsLeft g es _ (test-IsLeft g (is_pong e) (record s { missed_pongs = 0 }) s (λ _. h) h)

receive-IsLeft : (g : ℕ) (d : Decoded) (s : Socket) → IsLeft g s → IsLeft g (receive d s)
unfolding receive
receive-IsLeft g (refused e) s h = drop-IsLeft g protocol s h
receive-IsLeft g (envelopes es) s h =
    forwarding (keep (λ e. not (is_pong e)) es) (hear es s) (hear-IsLeft g es s h)
  where
    forwarding : (fs : List ServerEnvelope) (t : Socket) → IsLeft g t → IsLeft g (forward fs t)
    forwarding [] t k = unfold forward in k
    forwarding (f ∷ fs) t k = unfold forward in k

on_message-IsLeft :
    (g : ℕ) (frame : Option (Option Json)) (s : Socket) → IsLeft g s → IsLeft g (on_message frame s)
unfolding on_message
on_message-IsLeft g none s h = h
on_message-IsLeft g (some frame) s h = receive-IsLeft g (decode_server_frame frame) s h

close_with-IsLeft :
    (g : ℕ) (r : FailureReason × Bool) (s : Socket) → IsLeft g s → IsLeft g (close_with r s)
unfolding close_with
close_with-IsLeft g (e, true) s h = fail-IsLeft g e s h
close_with-IsLeft g (e, false) s h = schedule-IsLeft g e s h

on_close-IsLeft : (g : ℕ) (info : CloseInfo) (s : Socket) → IsLeft g s → IsLeft g (on_close info s)
unfolding on_close
on_close-IsLeft g info s h =
    let done = record (stop s) { open_timer = none; socket = none } in
    let is_done : IsLeft g done = (λ e. cc e, h.1) in
    test-IsLeft g s.closing _ _ (λ _. is_done)
      (close_with-IsLeft g (close_error info (is_open s.state)) done is_done)

on_open-IsLeft : (g : ℕ) (s : Socket) → IsLeft g s → IsLeft g (on_open s)
unfolding on_open
on_open-IsLeft g s h =
    (h.0, λ m. h.1 (sym (ended-resolving g s.waiters (told up none ∷ s.log)) ∙ m))

tick-IsLeft : (o : Options) (g : ℕ) (s : Socket) → IsLeft g s → IsLeft g (tick o s)
unfolding tick try_ping send_envelope
tick-IsLeft o g s h = ground (arith, h.0, h.1, drop-IsLeft g ping_timeout (stop s) h)

-- An event that is stamped with the current generation, or with another one.
if-IsLeft :
    (g k : ℕ) (s t : Socket)
    → (k ≡ s.generation → IsLeft g t)
    → IsLeft g s
    → IsLeft g (if k == s.generation then t else s)
if-IsLeft g k s t h l = test-IsLeft g (k == s.generation) t s (λ here. h (ground (arith, here))) l

step-IsLeft : (o : Options) (g : ℕ) (s : Socket) (e : Event) → IsLeft g s → IsLeft g (step o s e)
unfolding step connect abort_connect send_envelope try_ping
step-IsLeft o g s (connects t aborted) h = ground (arith, h.0, h.1)
step-IsLeft o g s (aborts t) h = ground (arith, h.0, h.1)
step-IsLeft o g s (sends e) h = ground (arith, h.0, h.1)
step-IsLeft o g s reconnects h = reconnect-IsLeft g s h
step-IsLeft o g s closes h = close-IsLeft g s h
step-IsLeft o g s (attempt_goes_on k a) h =
    test-IsLeft g (k == s.generation && not s.closing) _ s
      (λ here. attempted-IsLeft o g k a s (ground (arith, here)) h) h
step-IsLeft o g s (socket_opens k) h = if-IsLeft g k s _ (λ e. on_open-IsLeft g s h) h
step-IsLeft o g s (socket_receives k frame) h =
    if-IsLeft g k s _ (λ e. on_message-IsLeft g frame s h) h
step-IsLeft o g s (socket_closes k info) h = if-IsLeft g k s _ (λ e. on_close-IsLeft g info s h) h
step-IsLeft o g s (open_timer_fires k) h = if-IsLeft g k s _ (λ e. drop-IsLeft g open_failed s h) h
step-IsLeft o g s reconnect_timer_fires h = ground (arith, h.0, h.1)
step-IsLeft o g s ticks h = ground (arith, h.0, h.1, tick-IsLeft o g s h)

run-IsLeft :
    (o : Options) (g : ℕ) (s : Socket) (es : List Event) → IsLeft g s → IsLeft g (run o s es)
unfolding run
run-IsLeft o g s [] h = h
run-IsLeft o g s (e ∷ es) h = run-IsLeft o g (step o s e) es (step-IsLeft o g s e h)

-- Once a transport has terminated or closed a socket, whether a drop, a failure, a reconnect or the caller
-- ended it, no event of that socket, of the attempt that made it or of its open timer has any effect
-- any more, whatever else happens before it.
pub late_events :
    (o : Options) (es : List Event) (e : Event) (g : ℕ)
    → ended g (run o new_socket es).log ≡ true
    → stamp e ≡ some g
    → step o (run o new_socket es) e ≡ run o new_socket es
late_events o es e g h k =
    let left = run-IsLeft o g new_socket es (unfold new_socket in (λ a. cc a, λ m. cc m)) in
    stale o (run o new_socket es) e g k (λ same_. absurd (omega (arith, same_, left.1 h)))
