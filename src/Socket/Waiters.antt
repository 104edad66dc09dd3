-- ===== src/Socket/Waiters.antt =====
-- transport/socket.ts: the account of the waiters over each operation of the transport.
use t3code_client.Prelude.{
  ℕ, ◌+◌, Bool, true, false, not, Option, none, some, List, [], ◌∷◌, ◌++◌, ◌==◌, tally,
  if◌then◌else◌, keep, ◌≡◌, ◌≢◌, ◌⊎◌, inr, refl, arith, ◌≤◌, ◌<◌,
}
use t3code_client.Errors.{
  FailureReason, open_failed, ping_timeout, protocol, message_too_large, T3Error,
}
use t3code_client.Json.{Json}
use t3code_client.Wire.Envelope.{ServerEnvelope, Decoded, envelopes, refused, decode_server_frame}
use t3code_client.Socket.State.{
  up, Act, Options, Socket, stop, detach_socket, terminate, settle_waiters, schedule_reconnect,
  drop_socket, fail, connect, abort_connect, close,
}
use t3code_client.Socket.Events.{
  Attempted, unauthorized, unresolved, opened, threw, CloseInfo, close_error, is_open, is_pong,
  hear, forward, receive, on_open, on_message, close_with, on_close, attempted, Event, connects,
  aborts, sends, reconnects, closes, attempt_goes_on, socket_opens, socket_receives, socket_closes,
  open_timer_fires, reconnect_timer_fires, ticks,
}
use t3code_client.Errors
use t3code_client.Errors.{connection}
use t3code_client.Socket.State.{
  reject_waiters, stop_timers, rejected, resolved, told, sent, forwarded, terminated,
  closed_normally, waits,
}

-- How often the promise of the call of `connect` with ticket t was settled.
abbrev pub settlements : ℕ → List Act → ℕ
settlements t [] = 0
settlements t (resolved u ∷ l) = tally (u == t) + settlements t l
settlements t (rejected u e ∷ l) = tally (u == t) + settlements t l
settlements t (told s e ∷ l) = settlements t l
settlements t (sent e ∷ l) = settlements t l
settlements t (forwarded es ∷ l) = settlements t l
settlements t (terminated g ∷ l) = settlements t l
settlements t (closed_normally g ∷ l) = settlements t l

abbrev pub waiting : ℕ → List ℕ → ℕ
waiting t [] = 0
waiting t (u ∷ us) = tally (u == t) + waiting t us

abbrev pub asked : ℕ → Event → ℕ
asked t (connects u aborted) = tally (u == t)
asked t (aborts u) = 0
asked t (sends e) = 0
asked t reconnects = 0
asked t closes = 0
asked t (attempt_goes_on g a) = 0
asked t (socket_opens g) = 0
asked t (socket_receives g frame) = 0
asked t (socket_closes g info) = 0
asked t (open_timer_fires g) = 0
asked t reconnect_timer_fires = 0
asked t ticks = 0

-- A ticket's promise was settled or waits, n times in all, and it waits once at most.
pub record Balanced (t n : ℕ) (s : Socket) : Type 0 where
  pub balance : settlements t s.log + waiting t s.waiters ≡ n
  pub single : waiting t s.waiters ≤ 1

waiting-append : (t : ℕ) (us vs : List ℕ) → waiting t (us ++ vs) ≡ waiting t us + waiting t vs
waiting-append t [] vs = omega arith
waiting-append t (u ∷ us) vs = omega (arith, waiting-append t us vs)

resolves_all :
    (t : ℕ) (us : List ℕ) (l : List Act)
    → settlements t (settle_waiters resolved us l) ≡ waiting t us + settlements t l
resolves_all t [] l = omega arith
resolves_all t (u ∷ us) l = omega (arith, resolves_all t us (resolved u ∷ l))

rejects_all :
    (t : ℕ) (e : FailureReason) (us : List ℕ) (l : List Act)
    → settlements t (settle_waiters (λ u. rejected u (connection e)) us l)
      ≡ waiting t us + settlements t l
rejects_all t e [] l = omega arith
rejects_all t e (u ∷ us) l = omega (arith, rejects_all t e us (rejected u (connection e) ∷ l))

leaves_others :
    (t u : ℕ) (us : List ℕ) → t ≢ u → waiting t (keep (λ v. not (v == u)) us) ≡ waiting t us
leaves_others t u [] n = refl
leaves_others t u (v ∷ us) n = ground (arith, leaves_others t u us n)

takes_all : (t : ℕ) (us : List ℕ) → waiting t (keep (λ v. not (v == t)) us) ≡ 0
takes_all t [] = refl
takes_all t (v ∷ us) = ground (arith, takes_all t us)

waits_or_not :
    (t : ℕ) (us : List ℕ)
    → ((waits t us ≡ true) × (0 < waiting t us)) ⊎ ((waits t us ≡ false) × (waiting t us ≡ 0))
waits_or_not t [] = inr (refl, refl)
waits_or_not t (u ∷ us) = ground (arith, waits_or_not t us)

pub connect-Balanced :
    (t n u : ℕ) (aborted : Bool) (s : Socket)
    → waits u s.waiters ≡ false
    → Balanced t n s
    → Balanced t (n + tally (u == t)) (connect u aborted s)
unfolding connect
connect-Balanced t n u aborted s f b =
    ground (arith, waiting-append t s.waiters (u ∷ []), waits_or_not u s.waiters)

pub abort-Balanced : (t n u : ℕ) (s : Socket) → Balanced t n s → Balanced t n (abort_connect u s)
unfolding abort_connect
abort-Balanced t n u s b =
    ground (arith, waits_or_not u s.waiters, takes_all t s.waiters, leaves_others t u s.waiters)

pub drop-Balanced :
    (t n : ℕ) (e : FailureReason) (s : Socket) → Balanced t n s → Balanced t n (drop_socket e s)
unfolding drop_socket
drop-Balanced t n e s b = ground arith

schedule-Balanced :
    (t n : ℕ) (e : FailureReason) (s : Socket)
    → Balanced t n s
    → Balanced t n (schedule_reconnect e s)
unfolding schedule_reconnect
schedule-Balanced t n e s b = ground arith

terminate_keeps :
    (t : ℕ) (g : Option ℕ) (s : Socket)
    → (settlements t (terminate g s).log ≡ settlements t s.log)
      × (waiting t (terminate g s).waiters ≡ waiting t s.waiters)
terminate_keeps t none s = (refl, refl)
terminate_keeps t (some g) s = (refl, refl)

rejecting-Balanced :
    (t n : ℕ) (e : FailureReason) (s : Socket) → Balanced t n s → Balanced t n (reject_waiters e s)
rejecting-Balanced t n e s b = omega (arith, rejects_all t e s.waiters s.log)

fail-Balanced :
    (t n : ℕ) (e : FailureReason) (s : Socket) → Balanced t n s → Balanced t n (fail e s)
unfolding fail
fail-Balanced t n e s b =
    let ending = detach_socket (stop_timers (record s { closing = true })) in
    let kept = terminate_keeps t s.socket ending in
    let r = rejecting-Balanced t n e (terminate s.socket ending) (omega arith) in
    record { balance = r.balance; single = r.single }

pub close-Balanced : (t n : ℕ) (s : Socket) → Balanced t n s → Balanced t n (close s)
unfolding close
close-Balanced t n s b =
    ground (arith, rejecting-Balanced t n Errors.closed (stop_timers (record s { closing = true })))

pub attempted-Balanced :
    (t n : ℕ) (o : Options) (g : ℕ) (a : Attempted) (s : Socket)
    → Balanced t n s
    → Balanced t n (attempted o g a s)
unfolding attempted
attempted-Balanced t n o g unauthorized s b =
    fail-Balanced t n open_failed (record s { attempting = false }) (omega arith)
attempted-Balanced t n o g unresolved s b =
    schedule-Balanced t n open_failed (record s { attempting = false }) (omega arith)
attempted-Balanced t n o g opened s b = omega arith
attempted-Balanced t n o g threw s b = omega arith

pub on_open-Balanced : (t n : ℕ) (s : Socket) → Balanced t n s → Balanced t n (on_open s)
unfolding on_open
on_open-Balanced t n s b = omega (arith, resolves_all t s.waiters (told up none ∷ s.log))

hear_keeps :
    (t : ℕ) (es : List ServerEnvelope) (s : Socket)
    → (settlements t (hear es s).log ≡ settlements t s.log)
      × (waiting t (hear es s).waiters ≡ waiting t s.waiters)
hear_keeps t [] s = (refl, refl)
hear_keeps t (e ∷ es) s =
    elim (is_pong e)
      as (λ b.
        let s' = if b then record s { missed_pongs = 0 } else s in
        (settlements t (hear es s').log ≡ settlements t s.log)
        × (waiting t (hear es s').waiters ≡ waiting t s.waiters)) [
          | true ↦ hear_keeps t es (record s { missed_pongs = 0 })
          | false ↦ hear_keeps t es s
        ]

forward-Balanced :
    (t n : ℕ) (es : List ServerEnvelope) (s : Socket) → Balanced t n s → Balanced t n (forward es s)
unfolding forward
forward-Balanced t n [] s b = b
forward-Balanced t n (e ∷ es) s b = omega arith

receive-Balanced :
    (t n : ℕ) (d : Decoded) (s : Socket) → Balanced t n s → Balanced t n (receive d s)
unfolding receive
receive-Balanced t n (refused e) s b = drop-Balanced t n protocol s b
receive-Balanced t n (envelopes es) s b =
    let kept = hear_keeps t es s in
    forward-Balanced t n (keep (λ e. not (is_pong e)) es) (hear es s) (omega arith)

pub on_message-Balanced :
    (t n : ℕ) (frame : Option (Option Json)) (s : Socket)
    → Balanced t n s
    → Balanced t n (on_message frame s)
unfolding on_message
on_message-Balanced t n none s b = b
on_message-Balanced t n (some frame) s b = receive-Balanced t n (decode_server_frame frame) s b

close_with-Balanced :
    (t n : ℕ) (r : FailureReason × Bool) (s : Socket)
    → Balanced t n s
    → Balanced t n (close_with r s)
unfolding close_with
close_with-Balanced t n (e, true) s b = fail-Balanced t n e s b
close_with-Balanced t n (e, false) s b = schedule-Balanced t n e s b

pub on_close-Balanced :
    (t n : ℕ) (info : CloseInfo) (s : Socket) → Balanced t n s → Balanced t n (on_close info s)
unfolding on_close
on_close-Balanced t n info s b = ground (
  arith,
  close_with-Balanced t n (close_error info (is_open s.state))
      (record (stop s) { open_timer = none; socket = none }),
)
