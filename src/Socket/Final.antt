-- ===== src/Socket/Final.antt =====
-- packages/t3code-lib/src/transport/socket.ts: the transport after it is closed.
use t3code_client.Prelude.{
  ℕ, suc, Bool, Option, none, some, true, false, not, ◌&&◌, ◌==◌, ◌<◌, ◌≢◌, List, [], ◌∷◌, ◌≡◌,
  refl, sym, arith, ◌∙◌, if◌then◌else◌,
}
use t3code_client.Errors.{FailureReason, open_failed, ping_timeout, protocol}
use t3code_client.Json.{Json}
use t3code_client.Wire.Envelope.{
  ClientEnvelope, ping, ServerEnvelope, Decoded, envelopes, refused, decode_server_frame,
}
use t3code_client.Socket.State.{
  SocketState, idle, connecting, up, closed, Options, Socket, connect, connect_from, wait,
  send_envelope, send_from, reconnect, close, fail, schedule_reconnect, drop_socket, terminate,
  detach_socket, stop, stop_timers, set_state, reject_waiters, close_normally, is_closed,
}
use t3code_client.Socket.Events.{
  try_ping, tick, Attempted, unauthorized, unresolved, opened, threw, CloseInfo, close_error,
  is_open, hear, forward, receive, on_open, on_message, close_with, on_close, attempted, Event,
  connects, aborts, sends, reconnects, closes, attempt_goes_on, socket_opens, socket_receives,
  socket_closes, open_timer_fires, reconnect_timer_fires, ticks, step, run,
}
use t3code_client.Socket.Over.{refusals, IsOver, UpTo, run-IsOver}

terminated-IsOver :
    (n : ℕ) (o : Option ℕ) (e : FailureReason) (t : Socket)
    → n < t.generation
    → (t.reconnect_timer ≡ false) × (t.ticking ≡ false)
    → IsOver n (set_state closed (some e) (reject_waiters e (terminate o t)))
terminated-IsOver n none e t h q = record {
  is_closed = refl;
  newer = h;
  unwaiting = refl;
  still = q;
}
terminated-IsOver n (some g) e t h q = record {
  is_closed = refl;
  newer = h;
  unwaiting = refl;
  still = q;
}

fail-IsOver : (e : FailureReason) (s : Socket) → IsOver s.generation (fail e s)
unfolding fail
fail-IsOver e s =
    terminated-IsOver s.generation s.socket e
      (detach_socket (stop_timers (record s { closing = true }))) (omega arith) (refl, refl)

closed-IsOver : (n : ℕ) (o : Option ℕ) (t : Socket) → IsOver n t → IsOver n (close_normally o t)
closed-IsOver n none t v = v
closed-IsOver n (some g) t v = record {
  is_closed = v.is_closed;
  newer = v.newer;
  unwaiting = v.unwaiting;
  still = v.still;
}

not_closed : (st : SocketState) → st ≢ closed → is_closed st ≡ false
not_closed idle h = refl
not_closed connecting h = refl
not_closed up h = refl
not_closed closed h = absurd (h refl)

close-IsOver : (s : Socket) → s.state ≢ closed → IsOver s.generation (close s)
unfolding close
close-IsOver s h = rw (not_closed s.state h) (
    closed-IsOver s.generation s.socket _
      (record { is_closed = refl; newer = omega arith; unwaiting = refl; still = (refl, refl) }))

-- An event that has an effect, or none.
if-IsOver :
    (n : ℕ) (b : Bool) (t u : Socket)
    → (if b then t else u).state ≡ closed
    → (t.state ≡ closed → IsOver n t)
    → (u.state ≡ closed → IsOver n u)
    → IsOver n (if b then t else u)
if-IsOver n true t u c f g = f c
if-IsOver n false t u c f g = g c

schedule-open :
    (e : FailureReason) (s : Socket) → s.state ≢ closed → (schedule_reconnect e s).state ≢ closed
unfolding schedule_reconnect
schedule-open e s h = ground arith

drop-open : (e : FailureReason) (s : Socket) → s.state ≢ closed → (drop_socket e s).state ≢ closed
unfolding drop_socket
drop-open e s h = dropped s.socket
  where
    dropped :
        (o : Option ℕ)
        → (schedule_reconnect e (terminate o (detach_socket (stop s)))).state ≢ closed
    dropped none = schedule-open e _ h
    dropped (some g) = schedule-open e _ h

connect_from-open :
    (t : ℕ) (b : Bool) (s : Socket) (st : SocketState)
    → s.state ≢ closed
    → (connect_from t b s st).state ≢ closed
unfolding connect_from wait
connect_from-open t b s up h = h
connect_from-open t b s closed h = h
connect_from-open t true s idle h = h
connect_from-open t false s idle h = λ c. cc c
connect_from-open t true s connecting h = h
connect_from-open t false s connecting h = h

hear-state : (es : List ServerEnvelope) (s : Socket) → (hear es s).state ≡ s.state
hear-state [] s = refl
hear-state (e ∷ es) s =
    ground (arith, hear-state es s, hear-state es (record s { missed_pongs = 0 }))

forward-state : (es : List ServerEnvelope) (s : Socket) → (forward es s).state ≡ s.state
unfolding forward
forward-state [] s = refl
forward-state (e ∷ es) s = refl

receive-open : (d : Decoded) (s : Socket) → s.state ≢ closed → (receive d s).state ≢ closed
unfolding receive
receive-open (refused e) s h = drop-open protocol s h
receive-open (envelopes es) s h = λ c. h (sym (forward-state _ (hear es s) ∙ hear-state es s) ∙ c)

message-open :
    (frame : Option (Option Json)) (s : Socket)
    → s.state ≢ closed
    → (on_message frame s).state ≢ closed
unfolding on_message
message-open none s h = h
message-open (some frame) s h = receive-open (decode_server_frame frame) s h

reconnect-open : (s : Socket) → s.state ≢ closed → (reconnect s).state ≢ closed
unfolding reconnect
reconnect-open s h = ground arith

send_from-open :
    (o : Options) (e : ClientEnvelope) (s : Socket) (st : SocketState) (k : Option ℕ)
    → s.state ≢ closed
    → (try_ping o (send_from e s st k) s).state ≢ closed
unfolding try_ping send_from
send_from-open o e s up (some g) h = h
send_from-open o e s up none h = h
send_from-open o e s idle k h = h
send_from-open o e s connecting k h = h
send_from-open o e s closed k h = h

tick-open : (o : Options) (s : Socket) → s.state ≢ closed → (tick o s).state ≢ closed
unfolding tick send_envelope
tick-open o s h =
    let pinged = record s { missed_pongs = suc s.missed_pongs } in
    ground
      (arith, drop-open ping_timeout (stop s) h, send_from-open o ping pinged s.state s.socket h)

close_with-IsOver :
    (r : FailureReason × Bool) (s : Socket)
    → s.state ≢ closed
    → (close_with r s).state ≡ closed
    → IsOver s.generation (close_with r s)
unfolding close_with
close_with-IsOver (e, true) s h c = fail-IsOver e s
close_with-IsOver (e, false) s h c = absurd (schedule-open e s h c)

on_close-IsOver :
    (info : CloseInfo) (s : Socket)
    → s.state ≢ closed
    → (on_close info s).state ≡ closed
    → IsOver s.generation (on_close info s)
unfolding on_close
on_close-IsOver info s h c =
    let left = record (stop s) { open_timer = none; socket = none } in
    if-IsOver s.generation s.closing left _ c (λ d. absurd (h d))
      (close_with-IsOver (close_error info (is_open s.state)) left h)

attempted-IsOver :
    (o : Options) (g : ℕ) (a : Attempted) (s : Socket)
    → s.state ≢ closed
    → (attempted o g a s).state ≡ closed
    → IsOver s.generation (attempted o g a s)
unfolding attempted
attempted-IsOver o g unauthorized s h c = fail-IsOver open_failed (record s { attempting = false })
attempted-IsOver o g unresolved s h c =
    absurd (schedule-open open_failed (record s { attempting = false }) h c)
attempted-IsOver o g opened s h c = absurd (h c)
attempted-IsOver o g threw s h c = absurd (h c)

step-IsOver :
    (o : Options) (s : Socket) (e : Event)
    → s.state ≢ closed
    → (step o s e).state ≡ closed
    → IsOver s.generation (step o s e)
unfolding step
step-IsOver o s (connects t aborted) h c =
    absurd (unfold connect in connect_from-open t aborted s s.state h c)
step-IsOver o s (aborts t) h c = absurd (ground (arith, h, c))
step-IsOver o s (sends e) h c =
    absurd (unfold send_envelope in send_from-open o e s s.state s.socket h c)
step-IsOver o s reconnects h c = absurd (reconnect-open s h c)
step-IsOver o s closes h c = close-IsOver s h
step-IsOver o s (attempt_goes_on g a) h c =
    if-IsOver s.generation (g == s.generation && not s.closing) _ s c (attempted-IsOver o g a s h)
      (λ d. absurd (h d))
step-IsOver o s (socket_opens g) h c =
    if-IsOver s.generation (g == s.generation) _ s c (λ d. absurd (unfold on_open in cc d))
      (λ d. absurd (h d))
step-IsOver o s (socket_receives g frame) h c =
    if-IsOver s.generation (g == s.generation) _ s c (λ d. absurd (message-open frame s h d))
      (λ d. absurd (h d))
step-IsOver o s (socket_closes g info) h c =
    if-IsOver s.generation (g == s.generation) _ s c (on_close-IsOver info s h) (λ d. absurd (h d))
step-IsOver o s (open_timer_fires g) h c =
    if-IsOver s.generation (g == s.generation) _ s c (λ d. absurd (drop-open open_failed s h d))
      (λ d. absurd (h d))
step-IsOver o s reconnect_timer_fires h c =
    if-IsOver s.generation s.reconnect_timer _ s c (λ d. absurd (h d)) (λ d. absurd (h d))
step-IsOver o s ticks h c =
    if-IsOver s.generation s.ticking _ s c (λ d. absurd (tick-open o s h d)) (λ d. absurd (h d))

-- Once an event closes a transport, by the caller or by a fatal failure, it stays as it is for good:
-- whatever follows, where the handlers of sockets, attempts and open timers are those made by then, it
-- sends, opens, forwards and schedules nothing, and only refuses each call of `connect`.
pub run-closed :
    (o : Options) (s : Socket) (e : Event) (es : List Event)
    → s.state ≢ closed
    → (step o s e).state ≡ closed
    → UpTo s.generation es
    → run o (step o s e) es ≡ record (step o s e) { log = refusals es (step o s e).log }
run-closed o s e es h c u = run-IsOver o s.generation (step o s e) es (step-IsOver o s e h c) u
