-- ===== src/Rpc/Calls.antt =====
-- `call`, `#send`, `#onExit`, `#onChunk` and `#onEnvelopes` of `RpcConnection`.
use t3code_client.Prelude.{
  ℕ, String, Bool, true, false, ◌&&◌, Option, none, some, List, [], ◌∷◌, if◌then◌else◌,
}
use t3code_client.Prelude.Dict.{lookup, insert, delete}
use t3code_client.Json.{Json}
use t3code_client.Errors.{T3Error, connection, closed, interrupted, rpc_defect}
use t3code_client.Channel
use t3code_client.Channel.{size}
use t3code_client.Wire.Envelope.{
  ServerEnvelope, chunk, exit, defect, pong, ExitEncoded, request_envelope, ack,
}
use t3code_client.Wire.Exit.{
  Outcome, succeeded, failed, died, was_interrupted, normalize_exit, exit_to_error,
}
use t3code_client.Rpc.State.{
  Entry, call, stream, Owner, of_call, Conn, sent, resolved, rejected, note, release,
  interrupt_request, maybe_ack, on_channel, settle_with_error, fail_all,
}

-- `#send` of an entry that was just set: `encodes` says if the payload has a JSON text. A request
-- that could not be sent is taken back, and the second part of the result says so.
unfoldable pub send_request : String → String → Json → Bool → Conn → Conn × Bool
send_request id tag payload encodes c =
    if c.link && encodes
    then (note (sent (request_envelope id tag payload)) c, true)
    else (record c { entries = delete id c.entries }, false)

module _ (next_id : Owner → String) where
  -- The rest of `raceAbort` in `call`: the entry's own settlement is lost if the signal has fired.
  unfoldable pub after_send : ℕ → String → Bool → Conn × Bool → Conn
  unfolding settle_with_error interrupt_request
  after_send t tag true (c, was_sent) =
      note (rejected t interrupted) (interrupt_request (next_id (of_call t)) c)
  after_send t tag false (c, true) = c
  after_send t tag false (c, false) = settle_with_error next_id (call tag t) (connection closed) c

  -- `call` from where the socket is open: the entry, the request, and the race with the signal.
  unfoldable pub call_request : ℕ → String → Json → Bool → Bool → Conn → Conn
  unfolding send_request after_send
  call_request t tag payload encodes aborted c = after_send t tag aborted (
      send_request (next_id (of_call t)) tag payload encodes
        (record c { entries = insert (next_id (of_call t)) (call tag t) c.entries }))

  -- `call` from where `connect` has settled: none for the open socket, and otherwise what `connect`, or
  -- the check of the signal before it, throws.
  unfoldable pub call_connected : ℕ → String → Json → Option T3Error → Bool → Bool → Conn → Conn
  unfolding call_request
  call_connected t tag payload none encodes aborted c = call_request t tag payload encodes aborted c
  call_connected t tag payload (some e) encodes aborted c = note (rejected t e) c

  unfoldable pub abort_entry : ℕ → Option Entry → Conn → Conn
  unfolding interrupt_request
  abort_entry t none c = c
  abort_entry t (some e) c =
      note (rejected t interrupted) (interrupt_request (next_id (of_call t)) c)

  -- The signal of a call fires. Once the call is settled its listener is gone.
  unfoldable pub abort_call : ℕ → Conn → Conn
  unfolding abort_entry
  abort_call t c = abort_entry t (lookup (next_id (of_call t)) c.entries) c

  unfoldable pub settle_call : ℕ → String → Outcome → Option T3Error → Conn → Conn
  settle_call t tag (succeeded v) e c = note (resolved t v) c
  settle_call t tag (failed r) (some e) c = note (rejected t e) c
  settle_call t tag (died d) (some e) c = note (rejected t e) c
  settle_call t tag was_interrupted (some e) c = note (rejected t e) c
  settle_call t tag (failed r) none c = c
  settle_call t tag (died d) none c = c
  settle_call t tag was_interrupted none c = c

  unfoldable pub settle_stream : ℕ → Option T3Error → Conn → Conn
  unfolding on_channel
  settle_stream h none c = on_channel next_id h Channel.end c
  settle_stream h (some e) c = on_channel next_id h (Channel.fail e) c

  unfoldable pub exit_entry : String → Outcome → Option Entry → Conn → Conn
  unfolding settle_call settle_stream exit_to_error release
  exit_entry id o none c = c
  exit_entry id o (some (call tag t)) c =
      settle_call t tag o (exit_to_error o tag) (record c { entries = delete id c.entries })
  exit_entry id o (some (stream tag h mark pending)) c =
      settle_stream h (exit_to_error o tag) (release h (record c { entries = delete id c.entries }))

  -- `#onExit`
  unfoldable pub on_exit : String → ExitEncoded → Conn → Conn
  unfolding exit_entry normalize_exit
  on_exit id e c = exit_entry id (normalize_exit e) (lookup id c.entries) c

  unfoldable pub push_all : ℕ → List Json → Conn → Conn
  unfolding on_channel
  push_all h [] c = c
  push_all h (v ∷ vs) c = push_all h vs (on_channel next_id h (Channel.push v) c)

  abbrev pub mark_pending : String → Entry → Conn → Conn
  mark_pending id e c = record c { entries = insert id e c.entries }

  unfoldable pub ack_chunk : String → ℕ → Conn → Conn
  unfolding maybe_ack
  ack_chunk id h c = maybe_ack id (size (c.streams h).channel) c

  unfoldable pub chunk_entry : String → List Json → Option Entry → Conn → Conn × Bool
  unfolding push_all ack_chunk
  chunk_entry id vs none c = (c, true)
  chunk_entry id vs (some (call tag t)) c =
      if c.link then (note (sent (ack id)) c, true) else (c, false)
  chunk_entry id vs (some (stream tag h mark pending)) c =
      (ack_chunk id h (mark_pending id (stream tag h mark true) (push_all h vs c)), true)

  -- `#onChunk`; false if it threw, which it does where it acknowledges the chunk of a call on a
  -- closed socket.
  unfoldable pub on_chunk : String → List Json → Conn → Conn × Bool
  unfolding chunk_entry
  on_chunk id vs c = chunk_entry id vs (lookup id c.entries) c

  unfoldable pub on_envelope : ServerEnvelope → Conn → Conn × Bool
  unfolding on_chunk on_exit fail_all
  on_envelope (chunk id vs) c = on_chunk id vs c
  on_envelope (exit id e) c = (on_exit id e c, true)
  on_envelope (defect d) c = (fail_all next_id (λ tag. rpc_defect tag d) c, true)
  on_envelope pong c = (c, true)

  -- `#onEnvelopes`: an exception ends the loop.
  unfoldable pub on_envelopes : List ServerEnvelope → Conn → Conn
  unfolding on_envelope
  on_envelopes [] c = c
  on_envelopes (e ∷ es) c =
      let (c', ok) = on_envelope e c in elim ok [ true ↦ on_envelopes es c' | false ↦ c' ]
