-- ===== src/Socket/Over.antt =====
-- packages/t3code-lib/src/transport/socket.ts: a transport that was closed.
use t3code_client.Prelude.{
  ℕ, Option, none, some, false, ◌≤◌, ◌<◌, List, [], ◌∷◌, ◌≡◌, refl, arith, ◌∙◌, ap,
}
use t3code_client.Errors.{FailureReason, open_failed, ping_timeout, protocol, connection}
use t3code_client.Errors
use t3code_client.Socket.State.{
  closed, Act, rejected, Options, Socket, connect, abort_connect, send_envelope, reconnect, close,
}
use t3code_client.Socket.Events.{
  try_ping, Event, connects, aborts, sends, reconnects, closes, attempt_goes_on, socket_opens,
  socket_receives, socket_closes, open_timer_fires, reconnect_timer_fires, ticks, step, run,
}
use t3code_client.Socket.Late.{stamp}

-- The rejections of the calls of `connect` among the events, the newest first.
abbrev pub refusals : List Event → List Act → List Act
refusals [] l = l
refusals (connects t aborted ∷ es) l = refusals es (rejected t (connection Errors.closed) ∷ l)
refusals (aborts t ∷ es) l = refusals es l
refusals (sends e ∷ es) l = refusals es l
refusals (reconnects ∷ es) l = refusals es l
refusals (closes ∷ es) l = refusals es l
refusals (attempt_goes_on g a ∷ es) l = refusals es l
refusals (socket_opens g ∷ es) l = refusals es l
refusals (socket_receives g frame ∷ es) l = refusals es l
refusals (socket_closes g info ∷ es) l = refusals es l
refusals (open_timer_fires g ∷ es) l = refusals es l
refusals (reconnect_timer_fires ∷ es) l = refusals es l
refusals (ticks ∷ es) l = refusals es l

-- What was left behind by a generation: the transport is closed, nothing of it waits or ticks, and it is
-- of a further generation.
pub record IsOver (n : ℕ) (s : Socket) : Type 0 where
  pub is_closed : s.state ≡ closed
  pub newer : n < s.generation
  pub unwaiting : s.waiters ≡ []
  pub still : (s.reconnect_timer ≡ false) × (s.ticking ≡ false)

abbrev pub MadeBy : ℕ → Option ℕ → Type 0
MadeBy n none = Unit
MadeBy n (some g) = g ≤ n

-- The events of sockets, attempts and open timers are of handlers that were made up to a generation.
abbrev pub UpTo : ℕ → List Event → Type 0
UpTo n [] = Unit
UpTo n (e ∷ es) = MadeBy n (stamp e) × UpTo n es

step-closed :
    (o : Options) (n : ℕ) (s : Socket) (e : Event)
    → IsOver n s
    → MadeBy n (stamp e)
    → step o s e ≡ record s { log = refusals (e ∷ []) s.log }
unfolding step connect abort_connect reconnect close send_envelope try_ping
step-closed o n s (connects t aborted) v m =
    ground (arith, v.is_closed, v.newer, v.unwaiting, v.still.0, v.still.1)
step-closed o n s (aborts t) v m =
    ground (arith, v.is_closed, v.newer, v.unwaiting, v.still.0, v.still.1)
step-closed o n s (sends e) v m =
    ground (arith, v.is_closed, v.newer, v.unwaiting, v.still.0, v.still.1)
step-closed o n s reconnects v m =
    ground (arith, v.is_closed, v.newer, v.unwaiting, v.still.0, v.still.1)
step-closed o n s closes v m =
    ground (arith, v.is_closed, v.newer, v.unwaiting, v.still.0, v.still.1)
step-closed o n s (attempt_goes_on g a) v m =
    ground (arith, v.is_closed, v.newer, v.unwaiting, v.still.0, v.still.1)
step-closed o n s (socket_opens g) v m =
    ground (arith, v.is_closed, v.newer, v.unwaiting, v.still.0, v.still.1)
step-closed o n s (socket_receives g frame) v m =
    ground (arith, v.is_closed, v.newer, v.unwaiting, v.still.0, v.still.1)
step-closed o n s (socket_closes g info) v m =
    ground (arith, v.is_closed, v.newer, v.unwaiting, v.still.0, v.still.1)
step-closed o n s (open_timer_fires g) v m =
    ground (arith, v.is_closed, v.newer, v.unwaiting, v.still.0, v.still.1)
step-closed o n s reconnect_timer_fires v m =
    ground (arith, v.is_closed, v.newer, v.unwaiting, v.still.0, v.still.1)
step-closed o n s ticks v m =
    ground (arith, v.is_closed, v.newer, v.unwaiting, v.still.0, v.still.1)

refusals-cons :
    (e : Event) (es : List Event) (l : List Act)
    → refusals es (refusals (e ∷ []) l) ≡ refusals (e ∷ es) l
refusals-cons (connects t aborted) es l = refl
refusals-cons (aborts t) es l = refl
refusals-cons (sends e) es l = refl
refusals-cons reconnects es l = refl
refusals-cons closes es l = refl
refusals-cons (attempt_goes_on g a) es l = refl
refusals-cons (socket_opens g) es l = refl
refusals-cons (socket_receives g frame) es l = refl
refusals-cons (socket_closes g info) es l = refl
refusals-cons (open_timer_fires g) es l = refl
refusals-cons reconnect_timer_fires es l = refl
refusals-cons ticks es l = refl

pub run-IsOver :
    (o : Options) (n : ℕ) (s : Socket) (es : List Event)
    → IsOver n s
    → UpTo n es
    → run o s es ≡ record s { log = refusals es s.log }
unfolding run
run-IsOver o n s [] v h = refl
run-IsOver o n s (e ∷ es) v h =
    let same = step-closed o n s e v h.0 in
    run-IsOver o n (step o s e) es
      (rw same (record {
        is_closed = v.is_closed;
        newer = v.newer;
        unwaiting = v.unwaiting;
        still = v.still;
      }))
      h.1
    ∙ ap {A = Socket} {B = Socket} (λ x. record x { log = refusals es x.log }) same
    ∙ ap {A = List Act} {B = Socket} (λ l. record s { log = l }) (refusals-cons e es s.log)
