-- ===== src/Rpc/Drops.antt =====
-- transport/rpcConnection.ts: the requests in flight at a drop of the socket and at a close.
use native.Mathlib.Nat.{add-zero}
use t3code_client.Prelude.{
  ℕ, String, Bool, true, false, List, [], ◌∷◌, ◌≡◌, refl, ap, ◌∙◌, or_else, arith,
}
use t3code_client.Prelude.Dict.{lookup}
use t3code_client.Json.{Json}
use t3code_client.Errors.{T3Error, connection, closed}
use t3code_client.Channel
use t3code_client.Channel.{
  Channel, Delivery, value, done, error, Effect, settle, on_pull, on_return,
}
use t3code_client.Rpc.State.{
  Entry, call, stream, Owner, of_stream, rejected, handed, Conn, note, with_stream, release,
  interrupt_request, maybe_ack, hand, absorb, on_channel, settle_with_error, settle_all, fail_all,
}
use t3code_client.Rpc.Books.{reindex, settlements, in_flight, Balanced}
use t3code_client.Rpc.Events.{
  Event, calls, aborts, starts, pulls, connects, returns, stream_aborts, receives, opens, drops,
  closes, on_drop, close, step, run, new_connection,
}
use t3code_client.Rpc.Ledger.{
  issued, AllFresh, run-Balanced, step-Balanced, new_connection-Balanced,
}

module _ (next_id : Owner → String) where
  interrupt_empty :
      (id : String) (c : Conn) → c.entries ≡ [] → (interrupt_request id c).entries ≡ []
  unfolding interrupt_request lookup
  interrupt_empty id c h = ground arith

  maybe_ack_empty :
      (id : String) (n : ℕ) (c : Conn) → c.entries ≡ [] → (maybe_ack id n c).entries ≡ []
  unfolding maybe_ack lookup
  maybe_ack_empty id n c h = ground arith

  release_empty : (h : ℕ) (c : Conn) → (release h c).entries ≡ c.entries
  unfolding release
  release_empty h c = ground arith

  absorb_empty :
      (h : ℕ) (es : List (Effect Json T3Error)) (c : Conn)
      → c.entries ≡ []
      → (absorb next_id h es c).entries ≡ []
  unfolding absorb hand
  absorb_empty h [] c e = e
  absorb_empty h (settle s (value v) ∷ es) c e = absorb_empty h es (note (handed h s (value v)) c) e
  absorb_empty h (settle s done ∷ es) c e =
      absorb_empty h es (release h (note (handed h s done) c))
        (release_empty h (note (handed h s done) c) ∙ e)
  absorb_empty h (settle s (error x) ∷ es) c e =
      absorb_empty h es (release h (note (handed h s (error x)) c))
        (release_empty h (note (handed h s (error x)) c) ∙ e)
  absorb_empty h (on_pull n ∷ es) c e =
      absorb_empty h es (maybe_ack (next_id (of_stream h)) n c)
        (maybe_ack_empty (next_id (of_stream h)) n c e)
  absorb_empty h (on_return ∷ es) c e =
      absorb_empty h es (interrupt_request (next_id (of_stream h)) c)
        (interrupt_empty (next_id (of_stream h)) c e)

  on_channel_empty :
      (h : ℕ) (op : Channel Json T3Error → Channel Json T3Error × List (Effect Json T3Error))
      (c : Conn)
      → c.entries ≡ []
      → (on_channel next_id h op c).entries ≡ []
  unfolding on_channel
  on_channel_empty h op c e =
      let (ch, es) = op (c.streams h).channel in
      absorb_empty h es (with_stream h (record (c.streams h) { channel = ch }) c) e

  settle_all_empty :
      (err : String → T3Error) (es : List (String × Entry)) (c : Conn)
      → c.entries ≡ []
      → (settle_all next_id err es c).entries ≡ []
  unfolding settle_all settle_with_error
  settle_all_empty err [] c e = e
  settle_all_empty err ((id, call tag s) ∷ es) c e =
      settle_all_empty err es (note (rejected s (err tag)) c) e
  settle_all_empty err ((id, stream tag h mark due) ∷ es) c e =
      settle_all_empty err es (on_channel next_id h (Channel.fail (err tag)) (release h c))
        (on_channel_empty h (Channel.fail (err tag)) (release h c) (release_empty h c ∙ e))

  pub fail_all_empty : (err : String → T3Error) (c : Conn) → (fail_all next_id err c).entries ≡ []
  unfolding fail_all
  fail_all_empty err c = settle_all_empty err c.entries (record c { entries = [] }) refl

-- What ends every request in flight: a drop of the socket and the close of the connection.
abbrev pub ends_all : Event → Bool
ends_all (drops e) = true
ends_all closes = true
ends_all (calls s tag payload failure encodes aborted) = false
ends_all (aborts s) = false
ends_all (starts h tag mark) = false
ends_all (pulls h s signal) = false
ends_all (connects h payload encodes failure) = false
ends_all (returns h) = false
ends_all (stream_aborts h) = false
ends_all (receives xs) = false
ends_all opens = false

step_empty :
    (next_id : Owner → String) (c : Conn) (e : Event)
    → ends_all e ≡ true
    → c.attached ≡ true
    → (step next_id c e).entries ≡ []
unfolding step on_drop close
step_empty next_id c (drops e) h a = ground (
  arith,
  fail_all_empty next_id (λ tag. or_else e (connection closed)) (record c { link = false }),
)
step_empty next_id c closes h a =
    fail_all_empty next_id (λ tag. connection closed) (record c { attached = false })
step_empty next_id c (calls s tag payload failure encodes aborted) h a = cc
step_empty next_id c (aborts s) h a = cc
step_empty next_id c (starts k tag mark) h a = cc
step_empty next_id c (pulls k s signal) h a = cc
step_empty next_id c (connects k payload encodes failure) h a = cc
step_empty next_id c (returns k) h a = cc
step_empty next_id c (stream_aborts k) h a = cc
step_empty next_id c (receives xs) h a = cc
step_empty next_id c opens h a = cc

module _ (next_id : Owner → String) (distinct : (a b : Owner) → next_id a ≡ next_id b → a ≡ b)
    (t : ℕ) where
  -- After any events, a drop of the socket or the close of a connection that was not closed before
  -- leaves no request in the table, and then every ticket has been settled exactly as often as a
  -- call was made with it.
  pub run_settles_all :
      (link : Bool) (es : List Event) (e : Event)
      → AllFresh next_id (new_connection link) es
      → ends_all e ≡ true
      → (run next_id (new_connection link) es).attached ≡ true
      → ((step next_id (run next_id (new_connection link) es) e).entries ≡ [])
        × (settlements t (step next_id (run next_id (new_connection link) es) e).log ≡ issued t es)
  run_settles_all link es e f h a =
      let c = run next_id (new_connection link) es in
      let b =
        run-Balanced next_id distinct t 0 (new_connection link) es f
          (new_connection-Balanced next_id distinct t link) in
      let empty = step_empty next_id c e h a in
      (empty, omega (arith, (step_b e h b).balance, ap (in_flight t) empty))
    where
      step_b :
          {n : ℕ} {c : Conn} (e : Event)
          → ends_all e ≡ true
          → Balanced next_id t n c
          → Balanced next_id t n (step next_id c e)
      step_b {n} {c} (drops x) h b =
          reindex next_id t (add-zero n) (step-Balanced next_id distinct t n c (drops x) tt b)
      step_b {n} {c} closes h b =
          reindex next_id t (add-zero n) (step-Balanced next_id distinct t n c closes tt b)
      step_b (calls s tag payload failure encodes aborted) h b = cc
      step_b (aborts s) h b = cc
      step_b (starts k tag mark) h b = cc
      step_b (pulls k s signal) h b = cc
      step_b (connects k payload encodes failure) h b = cc
      step_b (returns k) h b = cc
      step_b (stream_aborts k) h b = cc
      step_b (receives xs) h b = cc
      step_b opens h b = cc
