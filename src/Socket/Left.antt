-- ===== src/Socket/Left.antt =====
-- packages/t3code-lib/src/transport/socket.ts: a socket that was terminated or closed is of a generation
-- that was left behind.
use t3code_client.Prelude.{
  ℕ, Bool-cases, sym, ◌∙◌, inl, inr, ◌||◌, ◌==◌, Bool, true, false, Option, none, some, List, [],
  ◌∷◌, ◌≡◌, refl, arith, ◌≤◌, ◌<◌,
}
use t3code_client.Errors.{FailureReason, open_failed, ping_timeout, protocol, connection}
use t3code_client.Errors
use t3code_client.Socket.State.{
  Act, told, resolved, rejected, sent, forwarded, terminated, closed_normally, Socket,
  settle_waiters, terminate, close_normally, detach_socket, stop_timers, set_state, reject_waiters,
  is_closed, closed, stop, schedule_reconnect, drop_socket, fail, reconnect, close,
}

-- Whether the log says that the socket of a generation was terminated or closed.
abbrev pub ended : ℕ → List Act → Bool
ended g [] = false
ended g (terminated h ∷ l) = h == g || ended g l
ended g (closed_normally h ∷ l) = h == g || ended g l
ended g (told st e ∷ l) = ended g l
ended g (resolved t ∷ l) = ended g l
ended g (rejected t e ∷ l) = ended g l
ended g (sent e ∷ l) = ended g l
ended g (forwarded es ∷ l) = ended g l

pub ended-resolving :
    (g : ℕ) (ts : List ℕ) (l : List Act) → ended g (settle_waiters resolved ts l) ≡ ended g l
ended-resolving g [] l = refl
ended-resolving g (t ∷ ts) l = ended-resolving g ts (resolved t ∷ l)

ended-rejecting :
    (g : ℕ) (e : FailureReason) (ts : List ℕ) (l : List Act)
    → ended g (settle_waiters (λ t. rejected t (connection e)) ts l) ≡ ended g l
ended-rejecting g e [] l = refl
ended-rejecting g e (t ∷ ts) l = ended-rejecting g e ts (rejected t (connection e) ∷ l)

-- A socket that is attached is of a generation that was begun, and one that was ended is of an older one.
abbrev pub IsLeft : ℕ → Socket → Type 0
IsLeft g s = (s.socket ≡ some g → g ≤ s.generation) × (ended g s.log ≡ true → g < s.generation)

pub schedule-IsLeft :
    (g : ℕ) (e : FailureReason) (s : Socket) → IsLeft g s → IsLeft g (schedule_reconnect e s)
unfolding schedule_reconnect
schedule-IsLeft g e s h = ground (arith, h.0, h.1)

-- The socket that was attached is ended once the transport is of a further generation.
terminate-IsLeft :
    (g n : ℕ) (o : Option ℕ) (t : Socket)
    → t.socket ≡ none
    → n < t.generation
    → (o ≡ some g → g ≤ n)
    → (ended g t.log ≡ true → g < t.generation)
    → IsLeft g (terminate o t)
terminate-IsLeft g n none t d m a l = (λ e. cc (d, e), l)
terminate-IsLeft g n (some k) t d m a l = (λ e. cc (d, e), ground arith)

close_normally-IsLeft :
    (g n : ℕ) (o : Option ℕ) (t : Socket)
    → t.socket ≡ none
    → n < t.generation
    → (o ≡ some g → g ≤ n)
    → (ended g t.log ≡ true → g < t.generation)
    → IsLeft g (close_normally o t)
close_normally-IsLeft g n none t d m a l = (λ e. cc (d, e), l)
close_normally-IsLeft g n (some k) t d m a l = (λ e. cc (d, e), ground arith)

pub drop-IsLeft : (g : ℕ) (e : FailureReason) (s : Socket) → IsLeft g s → IsLeft g (drop_socket e s)
unfolding drop_socket
drop-IsLeft g e s h = schedule-IsLeft g e (terminate s.socket (detach_socket (stop s))) (
    terminate-IsLeft g s.generation s.socket (detach_socket (stop s)) refl (omega arith) h.0
      (λ l. omega (arith, h.1 l)))

pub fail-IsLeft : (g : ℕ) (e : FailureReason) (s : Socket) → IsLeft g s → IsLeft g (fail e s)
unfolding fail
fail-IsLeft g e s h =
    let t = detach_socket (stop_timers (record s { closing = true })) in
    let (a, l) =
      terminate-IsLeft g s.generation s.socket t refl (omega arith) h.0
        (λ l. omega (arith, h.1 l)) in
    let kept = ended-rejecting g e (terminate s.socket t).waiters (terminate s.socket t).log in
    (a, λ m. l (sym kept ∙ m))

pub reconnect-IsLeft : (g : ℕ) (s : Socket) → IsLeft g s → IsLeft g (reconnect s)
unfolding reconnect
reconnect-IsLeft g s h =
    let (a, l) =
      terminate-IsLeft g s.generation s.socket (detach_socket (stop s)) refl (omega arith) h.0
        (λ l. omega (arith, h.1 l)) in
    ground (arith, a, l, h.0, h.1)

pub close-IsLeft : (g : ℕ) (s : Socket) → IsLeft g s → IsLeft g (close s)
unfolding close
close-IsLeft g s h =
    let t =
      set_state closed none (
        detach_socket (reject_waiters Errors.closed (stop_timers (record s { closing = true })))) in
    let kept = ended-rejecting g Errors.closed s.waiters s.log in
    let (a, l) =
      close_normally-IsLeft g s.generation s.socket t refl (omega arith) h.0
        (λ m. omega (arith, h.1 (sym kept ∙ m))) in
    elim (Bool-cases (is_closed s.state)) [ inl over ↦ rw over h | inr live ↦ rw live (a, l) ]
