-- ===== src/Socket/Events.antt =====
-- The events of one WebSocket and of the timers, as packages/t3code-lib/src/transport/socket.ts
-- handles them. Every handler of a socket or of an attempt carries the generation that made it.
use t3code_client.Prelude.{
  ℕ, suc, Bool, true, false, not, ◌&&◌, ◌||◌, Option, none, some, List, [], ◌∷◌, ◌==◌, leb, ltb,
  if◌then◌else◌, keep,
}
use t3code_client.Errors.{
  FailureReason, open_failed, ping_timeout, protocol, message_too_large, T3Error,
}
use t3code_client.Errors
use t3code_client.Json.{Json}
use t3code_client.Wire.Envelope.{
  ClientEnvelope, ping, ServerEnvelope, chunk, exit, defect, pong, Decoded, envelopes, refused,
  decode_server_frame,
}
use t3code_client.Socket.State.{
  SocketState, idle, connecting, up, closed, resolved, forwarded, Options, Socket, note, set_state,
  stop, begin_attempt, settle_waiters, schedule_reconnect, drop_socket, fail, connect,
  abort_connect, send_envelope, reconnect, close,
}

-- How `#attempt` goes on: `url()` or `headers()` failed, with a `T3AuthError` or otherwise; the socket
-- was made; or loading or calling the constructor threw.
pub data Attempted : Type 0 where
  unauthorized unresolved opened threw : Attempted

-- `WebSocketCloseInfo` without the reason text.
pub record CloseInfo : Type 0 where
  pub code : ℕ
  pub upgrade_status : Option ℕ
  pub too_large : Bool

abbrev pub is_4xx : Option ℕ → Bool
is_4xx none = false
is_4xx (some status) = leb 400 status && ltb status 500

-- `closeError`: the reason, and if it is fatal.
unfoldable pub close_error : CloseInfo → Bool → FailureReason × Bool
close_error info was_open =
    if is_4xx info.upgrade_status || info.code == 1008
    then (open_failed, true)
    else if info.too_large
    then (message_too_large, false)
    else ((if was_open then Errors.closed else open_failed), false)

abbrev pub is_open : SocketState → Bool
is_open idle = false
is_open connecting = false
is_open up = true
is_open closed = false

abbrev pub is_pong : ServerEnvelope → Bool
is_pong (chunk id vs) = false
is_pong (exit id e) = false
is_pong (defect d) = false
is_pong pong = true

-- `Keepalive.pong` for each Pong among the envelopes.
abbrev pub hear : List ServerEnvelope → Socket → Socket
hear [] s = s
hear (e ∷ es) s = hear es (if is_pong e then record s { missed_pongs = 0 } else s)

unfoldable pub forward : List ServerEnvelope → Socket → Socket
forward [] s = s
forward (e ∷ es) s = note (forwarded (e ∷ es)) s

unfoldable pub receive : Decoded → Socket → Socket
unfolding forward drop_socket
receive (refused e) s = drop_socket protocol s
receive (envelopes es) s = forward (keep (λ e. not (is_pong e)) es) (hear es s)

-- `#onOpen`
unfoldable pub on_open : Socket → Socket
on_open s =
    let opened_ = set_state up none (record s { open_timer = none; attempt = 0 }) in
    record opened_ {
      ticking = true;
      missed_pongs = 0;
      waiters = [];
      log = settle_waiters resolved s.waiters opened_.log;
    }

-- `#onMessage`: none for a frame that is no text, and otherwise what `JSON.parse` makes of it.
unfoldable pub on_message : Option (Option Json) → Socket → Socket
unfolding receive decode_server_frame
on_message none s = s
on_message (some frame) s = receive (decode_server_frame frame) s

unfoldable pub close_with : FailureReason × Bool → Socket → Socket
unfolding fail schedule_reconnect
close_with (e, true) s = fail e s
close_with (e, false) s = schedule_reconnect e s

-- `#onClose`
unfoldable pub on_close : CloseInfo → Socket → Socket
unfolding close_with close_error
on_close info s =
    let ended = record (stop s) { open_timer = none; socket = none } in
    if s.closing then ended else close_with (close_error info (is_open s.state)) ended

pub data Event : Type 0 where
  connects : ℕ → Bool → Event
  aborts : ℕ → Event
  sends : ClientEnvelope → Event
  reconnects : Event
  closes : Event
  attempt_goes_on : ℕ → Attempted → Event
  socket_opens : ℕ → Event
  socket_receives : ℕ → Option (Option Json) → Event
  socket_closes : ℕ → CloseInfo → Event
  open_timer_fires : ℕ → Event
  reconnect_timer_fires : Event
  ticks : Event

module _ (o : Options) where
  unfoldable pub attempted : ℕ → Attempted → Socket → Socket
  unfolding fail schedule_reconnect
  attempted g unauthorized s = fail open_failed (record s { attempting = false })
  attempted g unresolved s = schedule_reconnect open_failed (record s { attempting = false })
  attempted g opened s = record s {
    attempting = false;
    socket = some g;
    open_timer = if o.has_open_timeout then some g else s.open_timer;
  }
  attempted g threw s = record s { attempting = false }

  unfoldable pub try_ping : Option Socket → Socket → Socket
  try_ping none s = s
  try_ping (some s') s = s'

  -- `Keepalive.#tick`
  unfoldable pub tick : Socket → Socket
  unfolding drop_socket try_ping send_envelope
  tick s =
      if leb o.missed_pong_limit s.missed_pongs
      then drop_socket ping_timeout (stop s)
      else (let s' = record s { missed_pongs = suc s.missed_pongs } in
          try_ping (send_envelope ping s') s')

  unfoldable pub step : Socket → Event → Socket
  unfolding connect abort_connect try_ping send_envelope reconnect close attempted on_open
      on_message on_close drop_socket tick
  step s (connects t aborted) = connect t aborted s
  step s (aborts t) = abort_connect t s
  step s (sends e) = try_ping (send_envelope e s) s
  step s reconnects = reconnect s
  step s closes = close s
  step s (attempt_goes_on g a) = if g == s.generation && not s.closing then attempted g a s else s
  step s (socket_opens g) = if g == s.generation then on_open s else s
  step s (socket_receives g frame) = if g == s.generation then on_message frame s else s
  step s (socket_closes g info) = if g == s.generation then on_close info s else s
  step s (open_timer_fires g) = if g == s.generation then drop_socket open_failed s else s
  step s reconnect_timer_fires =
      if s.reconnect_timer then begin_attempt (record s { reconnect_timer = false }) else s
  step s ticks = if s.ticking then tick s else s

  unfoldable pub run : Socket → List Event → Socket
  run s [] = s
  run s (e ∷ es) = run (step s e) es
