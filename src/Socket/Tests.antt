-- ===== src/Socket/Tests.antt =====
-- The transport on concrete sequences of events.
use t3code_client.Prelude.{
  ◌+◌, List, [], ◌∷◌, none, some, ◌≡◌, refl, inr, true, false, arith, replicate,
}
use t3code_client.Socket.State.{Socket, Options, new_socket, connecting}
use t3code_client.Socket.Events.{
  Event, connects, closes, attempt_goes_on, opened, threw, socket_opens, ticks, step, run,
  reconnects, aborts, socket_receives, socket_closes,
}
use t3code_client.Socket.Progress.{Inv, AllValid, run-new_socket-Inv}
use t3code_client.Socket.Late.{late_events}
use t3code_client.Socket.Over.{refusals}
use t3code_client.Socket.Final.{run-closed}
use t3code_client.Socket.Stall.{Stalled, attempt_threw}
use t3code_client.Socket.Balance.{AllFresh, connect_balance}
use t3code_client.Socket.Waiters.{settlements, waiting}
use t3code_client.Socket.Silence.{pings, silent_peer}

abbrev options : Options
options = record { missed_pong_limit = 2; has_open_timeout = true }

-- One connect that opens.
abbrev opening : List Event
opening = connects 7 false ∷ attempt_goes_on 1 opened ∷ socket_opens 1 ∷ []

opening-AllValid : AllValid options new_socket opening
unfolding step new_socket
opening-AllValid = (tt, (inr (refl, λ e. cc), (inr (refl, refl), tt)))

run-new_socket-Inv_example : Inv (run options new_socket opening)
run-new_socket-Inv_example = run-new_socket-Inv options opening opening-AllValid

opening-AllFresh : AllFresh options new_socket opening
unfolding step new_socket
opening-AllFresh = (refl, (tt, (tt, tt)))

connect_balance_example :
    settlements 7 (run options new_socket opening).log
      + waiting 7 (run options new_socket opening).waiters
    ≡ 1
connect_balance_example = connect_balance 7 options opening opening-AllFresh

-- An open transport that reconnects, so that its first socket is terminated.
abbrev left : List Event
left = connects 7 false ∷ attempt_goes_on 1 opened ∷ socket_opens 1 ∷ reconnects ∷ []

late_events_example :
    step options (run options new_socket left) (socket_receives 1 (some none))
    ≡ run options new_socket left
late_events_example =
    late_events options left (socket_receives 1 (some none)) 1 (unfold run step new_socket in refl)
      refl

abbrev gone : Socket
gone = run options new_socket opening

-- What may come after the close: calls, and the close of the socket itself.
abbrev after_close : List Event
after_close =
    connects 8 false
    ∷ socket_closes 1 (record { code = 1006; upgrade_status = none; too_large = false })
    ∷ aborts 8
    ∷ []

run-closed_example :
    run options (step options gone closes) after_close ≡ record (step options gone closes) {
      log = refusals after_close (step options gone closes).log;
    }
run-closed_example =
    run-closed options gone closes after_close (unfold run step new_socket in λ e. cc e)
      (unfold run step new_socket in refl)
      (tt, ((unfold run step new_socket in omega arith), (tt, tt)))

-- The first attempt, as its constructor is about to be called.
abbrev first_attempt : Socket
first_attempt = run options new_socket (connects 7 false ∷ [])

attempt_threw_example : Stalled (
    run options
      (step options first_attempt (attempt_goes_on first_attempt.generation threw))
      (connects 8 false ∷ ticks ∷ []))
attempt_threw_example =
    attempt_threw options first_attempt (connects 8 false ∷ ticks ∷ [])
      (run-new_socket-Inv options (connects 7 false ∷ []) (tt, tt))
      (unfold run step new_socket in refl) (unfold run step new_socket in refl)
      (refl, tt, (refl, tt, tt))

silent_peer_example :
    (run options gone (replicate 1 ticks)
      ≡ record gone { missed_pongs = 1; log = pings 1 gone.log })
    × ((step options (run options gone (replicate 2 ticks)) ticks).state ≡ connecting)
    × ((step options (run options gone (replicate 2 ticks)) ticks).reconnect_timer ≡ true)
    × ((step options (run options gone (replicate 2 ticks)) ticks).socket ≡ none)
silent_peer_example =
    silent_peer options gone 1 (run-new_socket-Inv options opening opening-AllValid)
      (unfold run step new_socket in refl) (unfold run step new_socket in refl) (omega arith)
