-- ===== src/Socket/State.antt =====
-- packages/t3code-lib/src/transport/socket.ts, keepalive.ts and socketClose.ts with
-- packages/t3code-lib/src/internal/backoff.ts: the state of `SocketTransport` and its methods. The
-- delay of a reconnect and the texts of errors and of the log are left out.
use t3code_client.Prelude.{
  ℕ, suc, Bool, true, false, not, ◌&&◌, ◌||◌, Option, none, some, List, [], ◌∷◌, ◌++◌, ◌==◌,
  if◌then◌else◌, keep,
}
use t3code_client.Errors
use t3code_client.Errors.{FailureReason, open_failed, ping_timeout, protocol, message_too_large}
use t3code_client.Errors.{T3Error, connection, interrupted}
use t3code_client.Wire.Envelope.{ClientEnvelope, ServerEnvelope}

-- `up` is the source's "open".
pub data SocketState : Type 0 where
  idle connecting up closed : SocketState

-- What the transport does outside of itself: it tells the state handlers, settles the promises of
-- `connect`, sends, hands envelopes to the message handlers, and ends sockets, which are named by
-- the generation that opened them.
pub data Act : Type 0 where
  told : SocketState → Option FailureReason → Act
  resolved : ℕ → Act
  rejected : ℕ → T3Error → Act
  sent : ClientEnvelope → Act
  forwarded : List ServerEnvelope → Act
  terminated : ℕ → Act
  closed_normally : ℕ → Act

-- The options that decide how the transport behaves.
pub record Options : Type 0 where
  pub missed_pong_limit : ℕ
  pub has_open_timeout : Bool

-- The private fields. `waiters` holds the tickets of the calls of `connect` that wait; `attempt` is
-- the counter of the backoff; `ticking` and `missed_pongs` are the timer and the count of the
-- keepalive; `attempting` holds while an `#attempt` of the current generation waits for its URL,
-- headers or constructor; `log` is what was done, the newest first.
pub record Socket : Type 0 where
  pub state : SocketState
  pub socket : Option ℕ
  pub generation : ℕ
  pub waiters : List ℕ
  pub reconnect_timer : Bool
  pub closing : Bool
  pub open_timer : Option ℕ
  pub attempt : ℕ
  pub ticking : Bool
  pub missed_pongs : ℕ
  pub attempting : Bool
  pub log : List Act

unfoldable pub new_socket : Socket
new_socket = record {
  state = idle;
  socket = none;
  generation = 0;
  waiters = [];
  reconnect_timer = false;
  closing = false;
  open_timer = none;
  attempt = 0;
  ticking = false;
  missed_pongs = 0;
  attempting = false;
  log = [];
}

abbrev pub note : Act → Socket → Socket
note a s = record s { log = a ∷ s.log }

abbrev pub set_state : SocketState → Option FailureReason → Socket → Socket
set_state st e s = record s { state = st; log = told st e ∷ s.log }

-- `Keepalive.stop`
abbrev pub stop : Socket → Socket
stop s = record s { ticking = false; missed_pongs = 0 }

-- `#attempt`, up to where it waits.
abbrev pub begin_attempt : Socket → Socket
begin_attempt s = record s { generation = suc s.generation; attempting = true }

-- `#detachSocket`: an attempt under way becomes stale.
abbrev pub detach_socket : Socket → Socket
detach_socket s = record s {
  open_timer = none;
  generation = suc s.generation;
  attempting = false;
  socket = none;
}

abbrev pub terminate : Option ℕ → Socket → Socket
terminate none s = s
terminate (some g) s = note (terminated g) s

-- The waiters' promises in their order, each with what it is settled with.
abbrev pub settle_waiters : (ℕ → Act) → List ℕ → List Act → List Act
settle_waiters f [] l = l
settle_waiters f (t ∷ ts) l = settle_waiters f ts (f t ∷ l)

-- `#rejectWaiters`
abbrev pub reject_waiters : FailureReason → Socket → Socket
reject_waiters e s = record s {
  waiters = [];
  log = settle_waiters (λ t. rejected t (connection e)) s.waiters s.log;
}

-- `#scheduleReconnect`
unfoldable pub schedule_reconnect : FailureReason → Socket → Socket
schedule_reconnect e s =
    if s.closing
    then s
    else set_state connecting (some e)
        (record s { attempt = suc s.attempt; reconnect_timer = true })

-- `#dropSocket`
unfoldable pub drop_socket : FailureReason → Socket → Socket
unfolding schedule_reconnect
drop_socket e s = schedule_reconnect e (terminate s.socket (detach_socket (stop s)))

-- `#stopTimers`
abbrev pub stop_timers : Socket → Socket
stop_timers s = record (stop s) { reconnect_timer = false }

-- `#fail`
unfoldable pub fail : FailureReason → Socket → Socket
fail e s =
    let ended = terminate s.socket (detach_socket (stop_timers (record s { closing = true }))) in
    set_state closed (some e) (reject_waiters e ended)

unfoldable pub wait : ℕ → Socket → SocketState → Socket
wait t s idle =
    begin_attempt (set_state connecting none (record s { waiters = s.waiters ++ t ∷ [] }))
wait t s connecting = record s { waiters = s.waiters ++ t ∷ [] }
wait t s up = record s { waiters = s.waiters ++ t ∷ [] }
wait t s closed = record s { waiters = s.waiters ++ t ∷ [] }

unfoldable pub connect_from : ℕ → Bool → Socket → SocketState → Socket
unfolding wait
connect_from t aborted s up = note (resolved t) s
connect_from t aborted s closed = note (rejected t (connection Errors.closed)) s
connect_from t aborted s idle = if aborted then note (rejected t interrupted) s else wait t s idle
connect_from t aborted s connecting =
    if aborted then note (rejected t interrupted) s else wait t s connecting

-- `connect`; `aborted` says if its signal has fired.
unfoldable pub connect : ℕ → Bool → Socket → Socket
unfolding connect_from
connect t aborted s = connect_from t aborted s s.state

abbrev pub waits : ℕ → List ℕ → Bool
waits t [] = false
waits t (u ∷ us) = u == t || waits t us

-- The signal of a waiting `connect` fires.
unfoldable pub abort_connect : ℕ → Socket → Socket
abort_connect t s =
    if waits t s.waiters
    then note (rejected t interrupted) (record s { waiters = keep (λ u. not (u == t)) s.waiters })
    else s

unfoldable pub send_from : ClientEnvelope → Socket → SocketState → Option ℕ → Option Socket
send_from e s up (some g) = some (note (sent e) s)
send_from e s up none = none
send_from e s idle g = none
send_from e s connecting g = none
send_from e s closed g = none

-- `sendEnvelope`; none where it throws.
unfoldable pub send_envelope : ClientEnvelope → Socket → Option Socket
unfolding send_from
send_envelope e s = send_from e s s.state s.socket

-- `reconnect`
abbrev pub can_reconnect : SocketState → Bool
can_reconnect idle = false
can_reconnect closed = false
can_reconnect connecting = true
can_reconnect up = true

unfoldable pub reconnect : Socket → Socket
reconnect s =
    if can_reconnect s.state && not s.reconnect_timer
    then begin_attempt
        (set_state connecting (some Errors.closed) (terminate s.socket (detach_socket (stop s))))
    else s

abbrev pub close_normally : Option ℕ → Socket → Socket
close_normally none s = s
close_normally (some g) s = note (closed_normally g) s

abbrev pub is_closed : SocketState → Bool
is_closed idle = false
is_closed connecting = false
is_closed up = false
is_closed closed = true

-- `close`
unfoldable pub close : Socket → Socket
close s =
    if is_closed s.state
    then s
    else close_normally s.socket (
        set_state closed none (
          detach_socket (reject_waiters Errors.closed (stop_timers (record s { closing = true })))))
