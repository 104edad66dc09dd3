-- ===== src/Socket/Silence.antt =====
-- transport/keepalive.ts: the keepalive and a peer that has fallen silent.
use t3code_client.Prelude.{
  ℕ, ◌+◌, suc, true, false, none, is_some, List, ◌∷◌, replicate, zero, ◌≡◌, arith, ◌≤◌, ◌<◌, ◌∙◌,
  ap,
}
use t3code_client.Wire.Envelope.{ping}
use t3code_client.Socket.State.{connecting, up, Act, Options, Socket, drop_socket, send_envelope}
use t3code_client.Socket.Events.{try_ping, tick, ticks, step, run}
use t3code_client.Socket.State.{sent}
use t3code_client.Socket.Progress.{Inv}

-- The pings that n rounds of the keepalive send, the newest first.
abbrev pub pings : ℕ → List Act → List Act
pings zero l = l
pings (suc n) l = pings n (sent ping ∷ l)

one_tick :
    (o : Options) (s : Socket)
    → s.state ≡ up
    → is_some s.socket ≡ true
    → s.ticking ≡ true
    → s.missed_pongs < o.missed_pong_limit
    → step o s ticks ≡ record s { missed_pongs = suc s.missed_pongs; log = sent ping ∷ s.log }
unfolding step tick send_envelope try_ping
one_tick o s u k t h = ground arith

rounds :
    (o : Options) (s : Socket) (n : ℕ)
    → s.state ≡ up
    → is_some s.socket ≡ true
    → s.ticking ≡ true
    → s.missed_pongs + n ≤ o.missed_pong_limit
    → run o s (replicate n ticks)
      ≡ record s { missed_pongs = s.missed_pongs + n; log = pings n s.log }
unfolding run
rounds o s zero u k t h = ground arith
rounds o s (suc n) u k t h =
    let s' = record s { missed_pongs = suc s.missed_pongs; log = sent ping ∷ s.log } in
    ap (λ x. run o x (replicate n ticks)) (one_tick o s u k t (omega arith))
    ∙ rounds o s' n u k t (omega arith)
    ∙ ap {A = ℕ} {B = Socket}
        (λ m. record s { missed_pongs = m; log = pings n (sent ping ∷ s.log) }) (omega arith)

-- On an open socket from which no Pong is outstanding, with no Pong and no other event to come: the
-- first `missedPongLimit` rounds of the keepalive send a Ping each and change nothing else, and the
-- next round drops the socket as timed out and schedules a reconnect.
pub silent_peer :
    (o : Options) (s : Socket) (n : ℕ)
    → Inv s
    → s.state ≡ up
    → s.missed_pongs ≡ 0
    → n ≤ o.missed_pong_limit
    → (run o s (replicate n ticks) ≡ record s { missed_pongs = n; log = pings n s.log })
      × ((step o (run o s (replicate o.missed_pong_limit ticks)) ticks).state ≡ connecting)
      × ((step o (run o s (replicate o.missed_pong_limit ticks)) ticks).reconnect_timer ≡ true)
      × ((step o (run o s (replicate o.missed_pong_limit ticks)) ticks).socket ≡ none)
silent_peer o s n v u z h =
    let attached : is_some s.socket ≡ true = ground arith in
    let live : s.ticking ≡ true = ground arith in
    let open_ : s.closing ≡ false = ground arith in
    let all = rounds o s o.missed_pong_limit u attached live (omega arith) in
    (
      rounds o s n u attached live (omega arith)
          ∙ ap {A = ℕ} {B = Socket} (λ m. record s { missed_pongs = m; log = pings n s.log })
              (omega arith),
      ground (
        arith,
        ap (λ x. (step o x ticks).state) all
            ∙ (dropped o s open_ live (pings o.missed_pong_limit s.log)).0,
        z,
      ),
      ground (
        arith,
        ap (λ x. (step o x ticks).reconnect_timer) all
            ∙ (dropped o s open_ live (pings o.missed_pong_limit s.log)).1,
      ),
      ground (
        arith,
        ap (λ x. (step o x ticks).socket) all
            ∙ (dropped o s open_ live (pings o.missed_pong_limit s.log)).2,
      ),
    )
  where
    dropped :
        (o : Options) (s : Socket)
        → s.closing ≡ false
        → s.ticking ≡ true
        → (l : List Act)
        → let s' = record s { missed_pongs = s.missed_pongs + o.missed_pong_limit; log = l } in
          ((step o s' ticks).state ≡ connecting)
          × ((step o s' ticks).reconnect_timer ≡ true)
          × ((step o s' ticks).socket ≡ none)
    dropped o s c k l = unfold step tick drop_socket in ground arith
