-- ===== src/Rpc/Iterators.antt =====
-- transport/rpcConnection.ts: the account of the promises over the iterator of a stream.
use native.Mathlib.Nat.{add-zero}
use t3code_client.Prelude.{
  ℕ, String, Bool, true, false, ◌&&◌, Option, none, some, List, ◌≡◌, refl, if◌then◌else◌, arith,
}
use t3code_client.Prelude.Dict.{insert, delete}
use t3code_client.Json.{Json}
use t3code_client.Errors.{T3Error, interrupted, connection, closed}
use t3code_client.Channel
use t3code_client.Channel.{
  Channel, Delivery, value, done, error, Effect, settle, on_pull, on_return,
}
use t3code_client.Rpc.State.{
  stream, Owner, of_stream, Stream, sent, Conn, note, with_stream, release, interrupt_request,
  on_channel,
}
use t3code_client.Wire.Envelope.{request_envelope}
use t3code_client.Rpc.Calls.{send_request}
use t3code_client.Rpc.Books.{
  reindex, Balanced, same_books, deletes-Balanced, inserts-Balanced, with_stream-Balanced,
  release-Balanced,
}
use t3code_client.Rpc.Settle.{
  weight_of_stream, interrupts_stream, on_channel-Balanced, settle_with_error-Balanced,
}
use t3code_client.Rpc.Streams.{
  Signal, absent, unfired, fired, pull, first_pull, stream_next, after_send, request_stream,
  start_with, connected_pull, stream_return, stream_abort,
}

module _ (next_id : Owner → String) (distinct : (a b : Owner) → next_id a ≡ next_id b → a ≡ b)
    (t : ℕ) where
  pub by_test :
      (n : ℕ) (x : Bool) {c d : Conn}
      → Balanced next_id t n c
      → Balanced next_id t n d
      → Balanced next_id t n (if x then c else d)
  by_test n true b k = b
  by_test n false b k = k

  on_ch :
      (n h : ℕ) (op : Channel Json T3Error → Channel Json T3Error × List (Effect Json T3Error))
      (c : Conn)
      → Balanced next_id t n c
      → Balanced next_id t n (on_channel next_id h op c)
  on_ch n h op c b = on_channel-Balanced next_id distinct t n h op c b

  pub with_s :
      (n h : ℕ) (s : Stream) (c : Conn)
      → Balanced next_id t n c
      → Balanced next_id t n (with_stream h s c)
  with_s n h s c b = with_stream-Balanced next_id t n h s c b

  pub stream_next-Balanced :
      (n h s : ℕ) (signal : Signal) (c : Conn)
      → Balanced next_id t n c
      → Balanced next_id t n (stream_next next_id h s signal c)
  unfolding stream_next pull
  stream_next-Balanced n h s signal c b =
      by_test n (c.streams h).started (on_ch n h (Channel.next s) c b) (begins signal)
    where
      begins : (signal : Signal) → Balanced next_id t n (first_pull next_id h s signal c)
      begins fired = on_ch n h (Channel.next s) _ (
          on_ch n h (Channel.fail interrupted)
            (with_stream h (record (c.streams h) { started = true }) c)
            (with_s n h (record (c.streams h) { started = true }) c b))
      begins unfired =
          with_s n h
            (record (c.streams h) { started = true; connecting = some s; listening = true }) c b
      begins absent = with_s n h (record (c.streams h) { started = true; connecting = some s }) c b

  request_stream-Balanced :
      (n h : ℕ) (payload : Json) (encodes : Bool) (s : Stream) (c : Conn)
      → Balanced next_id t n c
      → Balanced next_id t n (request_stream next_id h payload encodes s c)
  unfolding request_stream send_request after_send
  request_stream-Balanced n h payload encodes s c b = either (c.link && encodes)
    where
      id : String
      id = next_id (of_stream h)

      entered : Conn
      entered = record c { entries = insert id (stream s.tag h s.mark false) c.entries }

      entered_b : Balanced next_id t n entered
      entered_b =
          inserts-Balanced next_id t n n id (stream s.tag h s.mark false) c refl
            (omega (arith, weight_of_stream next_id distinct t h c b)) b

      taken : Conn
      taken = record entered { entries = delete id entered.entries }

      request : Conn
      request = note (sent (request_envelope id s.tag payload)) entered

      either :
          (x : Bool)
          → Balanced next_id t n (
              after_send next_id h
                (stream s.tag h s.mark false)
                (if x then (request, true) else (taken, false)))
      either true = same_books next_id t n entered request refl refl entered_b
      either false = reindex next_id t (add-zero n) (
          settle_with_error-Balanced next_id distinct t n (stream s.tag h s.mark false)
            (connection closed) taken
            (deletes-Balanced next_id t n n id entered
              (omega (arith, weight_of_stream next_id distinct t h entered entered_b)) entered_b))

  start_with-Balanced :
      (n h : ℕ) (payload : Json) (encodes : Bool) (failure : Option T3Error) (c : Conn)
      → Balanced next_id t n c
      → Balanced next_id t n (start_with next_id h payload encodes failure c)
  unfolding start_with
  start_with-Balanced n h payload encodes none c b =
      by_test n (Channel.closed (c.streams h).channel) b
        (request_stream-Balanced n h payload encodes (c.streams h) c b)
  start_with-Balanced n h payload encodes (some e) c b = on_ch n h (Channel.fail e) c b

  pub stream_connected-Balanced :
      (n h : ℕ) (payload : Json) (encodes : Bool) (failure : Option T3Error) (w : Option ℕ)
      (c : Conn)
      → Balanced next_id t n c
      → Balanced next_id t n (connected_pull next_id h payload encodes failure w c)
  unfolding connected_pull pull
  stream_connected-Balanced n h payload encodes failure none c b = b
  stream_connected-Balanced n h payload encodes failure (some s) c b =
      on_ch n h (Channel.next s) _ (
        start_with-Balanced n h payload encodes failure _
          (with_s n h (record (c.streams h) { connecting = none }) c b))

  pub stream_return-Balanced :
      (n h : ℕ) (c : Conn)
      → Balanced next_id t n c
      → Balanced next_id t n (stream_return next_id h c)
  unfolding stream_return
  stream_return-Balanced n h c b =
      let r = release h c in
      on_ch n h Channel.return (with_stream h (record (r.streams h) { started = true }) r) (
        with_s n h (record (r.streams h) { started = true }) r (release-Balanced next_id t n h c b))

  pub stream_abort-Balanced :
      (n h : ℕ) (c : Conn)
      → Balanced next_id t n c
      → Balanced next_id t n (stream_abort next_id h c)
  unfolding stream_abort
  stream_abort-Balanced n h c b =
      let off = with_stream h (record (c.streams h) { listening = false }) c in
      by_test n (c.streams h).listening
        (on_ch n h (Channel.fail interrupted) (interrupt_request (next_id (of_stream h)) off) (
          interrupts_stream next_id distinct t n h off
            (with_s n h (record (c.streams h) { listening = false }) c b)))
        b
