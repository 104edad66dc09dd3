-- ===== src/Rpc/Streams.antt =====
-- `#startStream` of `RpcConnection`: the iterator of one stream, from the first `next` on.
use t3code_client.Prelude.{ℕ, String, Bool, true, false, Option, none, some, if◌then◌else◌}
use t3code_client.Prelude.Dict.{insert}
use t3code_client.Json.{Json}
use t3code_client.Errors.{T3Error, connection, closed, interrupted}
use t3code_client.Channel
use t3code_client.Channel.{create_channel}
use t3code_client.Rpc.State.{
  Entry, stream, Owner, of_stream, Stream, Conn, with_stream, release, interrupt_request,
  on_channel, settle_with_error,
}
use t3code_client.Rpc.Calls.{send_request}

-- The iterator before its first `next`. The mark is `Math.max(0, options.highWaterMark ?? 0)`.
unfoldable pub new_stream : String → ℕ → Stream
unfolding create_channel
new_stream tag mark = record {
  tag = tag;
  mark = mark;
  channel = create_channel;
  started = false;
  connecting = none;
  released = false;
  listening = false;
}

-- The abort signal at the first `next`: absent, not fired, or fired.
pub data Signal : Type 0 where
  absent unfired fired : Signal

unfoldable pub start_stream : ℕ → String → ℕ → Conn → Conn
unfolding new_stream
start_stream h tag mark c = with_stream h (new_stream tag mark) c

module _ (next_id : Owner → String) where
  unfoldable pub pull : ℕ → ℕ → Conn → Conn
  unfolding on_channel
  pull h t c = on_channel next_id h (Channel.next t) c

  unfoldable pub first_pull : ℕ → ℕ → Signal → Conn → Conn
  unfolding pull on_channel
  first_pull h t fired c = pull h t (
      on_channel next_id h (Channel.fail interrupted)
        (with_stream h (record (c.streams h) { started = true }) c))
  first_pull h t unfired c =
      with_stream h (record (c.streams h) { started = true; connecting = some t; listening = true })
        c
  first_pull h t absent c =
      with_stream h (record (c.streams h) { started = true; connecting = some t }) c

  -- `next` of the iterator, up to where the first call waits for the socket.
  unfoldable pub stream_next : ℕ → ℕ → Signal → Conn → Conn
  unfolding pull first_pull
  stream_next h t signal c = if (c.streams h).started then pull h t c else first_pull h t signal c

  unfoldable pub after_send : ℕ → Entry → Conn × Bool → Conn
  unfolding settle_with_error
  after_send h e (c, true) = c
  after_send h e (c, false) = settle_with_error next_id e (connection closed) c

  unfoldable pub request_stream : ℕ → Json → Bool → Stream → Conn → Conn
  unfolding after_send send_request
  request_stream h payload encodes s c =
      let e = stream s.tag h s.mark false in
      after_send h e (
        send_request (next_id (of_stream h)) s.tag payload encodes
          (record c { entries = insert (next_id (of_stream h)) e c.entries }))

  -- `start` from where `connect` has settled: none for the open socket.
  unfoldable pub start_with : ℕ → Json → Bool → Option T3Error → Conn → Conn
  unfolding request_stream on_channel
  start_with h payload encodes none c =
      if Channel.closed (c.streams h).channel
      then c
      else request_stream h payload encodes (c.streams h) c
  start_with h payload encodes (some e) c = on_channel next_id h (Channel.fail e) c

  unfoldable pub connected_pull : ℕ → Json → Bool → Option T3Error → Option ℕ → Conn → Conn
  unfolding start_with pull
  connected_pull h payload encodes failed none c = c
  connected_pull h payload encodes failed (some t) c = pull h t (
      start_with h payload encodes failed
        (with_stream h (record (c.streams h) { connecting = none }) c))

  unfoldable pub stream_connected : ℕ → Json → Bool → Option T3Error → Conn → Conn
  unfolding connected_pull
  stream_connected h payload encodes failed c =
      connected_pull h payload encodes failed (c.streams h).connecting c

  -- `return` of the iterator.
  unfoldable pub stream_return : ℕ → Conn → Conn
  unfolding release on_channel
  stream_return h c =
      let r = release h c in
      on_channel next_id h Channel.return
        (with_stream h (record (r.streams h) { started = true }) r)

  -- `onAbort`, which runs once, while it is attached.
  unfoldable pub stream_abort : ℕ → Conn → Conn
  unfolding interrupt_request on_channel
  stream_abort h c =
      if (c.streams h).listening
      then on_channel next_id h (Channel.fail interrupted) (
          interrupt_request (next_id (of_stream h))
            (with_stream h (record (c.streams h) { listening = false }) c))
      else c
