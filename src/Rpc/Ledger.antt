-- ===== src/Rpc/Ledger.antt =====
-- transport/rpcConnection.ts: the account of the promises over every sequence of events.
use native.Mathlib.Nat.{add-zero, zero-add}
use t3code_client.Prelude.{
  ℕ, ◌+◌, String, Bool, true, false, Option, none, List, [], ◌∷◌, ◌≡◌, refl, ◌∙◌, ◌==◌, tally,
  or_else, arith,
}
use t3code_client.Prelude.Dict.{lookup}
use t3code_client.Errors.{T3Error, connection, closed}
use t3code_client.Rpc.State.{Owner, of_call, Conn, fail_all}
use t3code_client.Rpc.Books.{reindex, settlements, in_flight, Balanced, same_books}
use t3code_client.Rpc.Settle.{Owned-nil, fail_all-Balanced}
use t3code_client.Rpc.Events.{
  Event, calls, aborts, starts, pulls, connects, returns, stream_aborts, receives, opens, drops,
  closes, on_drop, close, step, run, new_connection,
}
use t3code_client.Rpc.Streams.{new_stream, start_stream, stream_connected}
use t3code_client.Rpc.Iterators.{
  by_test, with_s, stream_next-Balanced, stream_connected-Balanced, stream_return-Balanced,
  stream_abort-Balanced,
}
use t3code_client.Rpc.Once.{call_connected-Balanced, abort_call-Balanced}
use t3code_client.Rpc.Answers.{on_envelopes-Balanced}

-- How often a sequence of events calls with the ticket t.
abbrev pub issued : ℕ → List Event → ℕ
issued t [] = 0
issued t (calls s tag payload failure encodes aborted ∷ es) = tally (s == t) + issued t es
issued t (aborts s ∷ es) = issued t es
issued t (starts h tag mark ∷ es) = issued t es
issued t (pulls h s signal ∷ es) = issued t es
issued t (connects h payload encodes failure ∷ es) = issued t es
issued t (returns h ∷ es) = issued t es
issued t (stream_aborts h ∷ es) = issued t es
issued t (receives xs ∷ es) = issued t es
issued t (opens ∷ es) = issued t es
issued t (drops e ∷ es) = issued t es
issued t (closes ∷ es) = issued t es

module _ (next_id : Owner → String) where
  -- No call is made with a ticket that is in flight.
  abbrev pub Fresh : Conn → Event → Type 0
  Fresh c (calls s tag payload failure encodes aborted) =
      lookup (next_id (of_call s)) c.entries ≡ none
  Fresh c (aborts s) = Unit
  Fresh c (starts h tag mark) = Unit
  Fresh c (pulls h s signal) = Unit
  Fresh c (connects h payload encodes failure) = Unit
  Fresh c (returns h) = Unit
  Fresh c (stream_aborts h) = Unit
  Fresh c (receives xs) = Unit
  Fresh c opens = Unit
  Fresh c (drops e) = Unit
  Fresh c closes = Unit

  abbrev pub AllFresh : Conn → List Event → Type 0
  AllFresh c [] = Unit
  AllFresh c (e ∷ es) = Fresh c e × AllFresh (step next_id c e) es

module _ (next_id : Owner → String) (distinct : (a b : Owner) → next_id a ≡ next_id b → a ≡ b)
    (t : ℕ) where
  on_drop-Balanced :
      (n : ℕ) (e : Option T3Error) (c : Conn)
      → Balanced next_id t n c
      → Balanced next_id t n (on_drop next_id e c)
  unfolding on_drop
  on_drop-Balanced n e c b =
      fail_all-Balanced next_id distinct t n (λ tag. or_else e (connection closed))
        (record c { link = false })
        (same_books next_id t n c (record c { link = false }) refl refl b)

  close-Balanced :
      (n : ℕ) (c : Conn) → Balanced next_id t n c → Balanced next_id t n (close next_id c)
  unfolding close
  close-Balanced n c b =
      let off = record c { attached = false } in
      let over = fail_all next_id (λ tag. connection closed) off in
      same_books next_id t n over (record over { link = false }) refl refl
        (fail_all-Balanced next_id distinct t n (λ tag. connection closed) off
          (same_books next_id t n c off refl refl b))

  pub step-Balanced :
      (n : ℕ) (c : Conn) (e : Event)
      → Fresh next_id c e
      → Balanced next_id t n c
      → Balanced next_id t (n + issued t (e ∷ [])) (step next_id c e)
  unfolding step start_stream stream_connected
  step-Balanced n c (calls s tag payload failure encodes aborted) f b =
      rw add-zero
        (call_connected-Balanced next_id distinct t n s tag payload failure encodes aborted c f b)
  step-Balanced n c (aborts s) f b = rw add-zero (abort_call-Balanced next_id distinct t n s c b)
  step-Balanced n c (starts h tag mark) f b =
      rw add-zero (with_s next_id distinct t n h (new_stream tag mark) c b)
  step-Balanced n c (pulls h s signal) f b =
      rw add-zero (stream_next-Balanced next_id distinct t n h s signal c b)
  step-Balanced n c (connects h payload encodes failure) f b = rw add-zero (
      stream_connected-Balanced next_id distinct t n h payload encodes failure
        (c.streams h).connecting c b)
  step-Balanced n c (returns h) f b =
      rw add-zero (stream_return-Balanced next_id distinct t n h c b)
  step-Balanced n c (stream_aborts h) f b =
      rw add-zero (stream_abort-Balanced next_id distinct t n h c b)
  step-Balanced n c (receives xs) f b = rw add-zero (
      by_test next_id distinct t n c.attached (on_envelopes-Balanced next_id distinct t n xs c b) b)
  step-Balanced n c opens f b =
      rw add-zero (same_books next_id t n c (record c { link = true }) refl refl b)
  step-Balanced n c (drops e) f b = rw add-zero (
      by_test next_id distinct t n c.attached (on_drop-Balanced n e c b)
        (same_books next_id t n c (record c { link = false }) refl refl b))
  step-Balanced n c closes f b = rw add-zero (close-Balanced n c b)

  issued-cons : (e : Event) (es : List Event) → issued t (e ∷ es) ≡ issued t (e ∷ []) + issued t es
  issued-cons (calls s tag payload failure encodes aborted) es = omega arith
  issued-cons (aborts s) es = omega arith
  issued-cons (starts h tag mark) es = omega arith
  issued-cons (pulls h s signal) es = omega arith
  issued-cons (connects h payload encodes failure) es = omega arith
  issued-cons (returns h) es = omega arith
  issued-cons (stream_aborts h) es = omega arith
  issued-cons (receives xs) es = omega arith
  issued-cons opens es = omega arith
  issued-cons (drops e) es = omega arith
  issued-cons closes es = omega arith

  pub run-Balanced :
      (n : ℕ) (c : Conn) (es : List Event)
      → AllFresh next_id c es
      → Balanced next_id t n c
      → Balanced next_id t (n + issued t es) (run next_id c es)
  unfolding run
  run-Balanced n c [] f b = rw add-zero b
  run-Balanced n c (e ∷ es) f b =
      reindex next_id t (omega (arith, issued-cons e es))
        (run-Balanced (n + issued t (e ∷ [])) (step next_id c e) es f.1 (step-Balanced n c e f.0 b))

  pub new_connection-Balanced : (link : Bool) → Balanced next_id t 0 (new_connection link)
  unfolding new_connection
  new_connection-Balanced link = record {
    unique = tt;
    owned = Owned-nil next_id distinct t;
    balance = refl;
  }

  -- Over every sequence of calls, aborts, stream operations, envelopes, drops and the close, where
  -- `nextId` repeats no id and no ticket is used while it is in flight: a ticket's promise was
  -- settled or is in flight as often as a call was made with it. So no call is settled twice, and
  -- none that has left the table stays pending.
  pub call_balance :
      (link : Bool) (es : List Event)
      → AllFresh next_id (new_connection link) es
      → settlements t (run next_id (new_connection link) es).log
          + in_flight t (run next_id (new_connection link) es).entries
        ≡ issued t es
  call_balance link es f =
      (run-Balanced 0 (new_connection link) es f (new_connection-Balanced link)).balance
      ∙ zero-add _
