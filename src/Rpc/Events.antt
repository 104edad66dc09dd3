-- ===== src/Rpc/Events.antt =====
-- What happens to a connection, one event of the event loop at a time.
use t3code_client.Prelude.{
  ℕ, String, Bool, true, false, Option, List, [], ◌∷◌, or_else, if◌then◌else◌,
}
use t3code_client.Json.{Json}
use t3code_client.Errors.{T3Error, connection, closed}
use t3code_client.Wire.Envelope.{ServerEnvelope}
use t3code_client.Rpc.State.{Owner, Conn, fail_all}
use t3code_client.Rpc.Calls.{call_connected, abort_call, on_envelopes}
use t3code_client.Rpc.Streams.{
  Signal, new_stream, start_stream, stream_next, stream_connected, stream_return, stream_abort,
}

pub data Event : Type 0 where
  calls : ℕ → String → Json → Option T3Error → Bool → Bool → Event
  aborts : ℕ → Event
  starts : ℕ → String → ℕ → Event
  pulls : ℕ → ℕ → Signal → Event
  connects : ℕ → Json → Bool → Option T3Error → Event
  returns : ℕ → Event
  stream_aborts : ℕ → Event
  receives : List ServerEnvelope → Event
  opens : Event
  drops : Option T3Error → Event
  closes : Event

-- A new connection, on a socket that is open or not.
unfoldable pub new_connection : Bool → Conn
unfolding new_stream
new_connection link = record {
  entries = [];
  streams = λ h. new_stream "" 0;
  link = link;
  attached = true;
  log = [];
}

module _ (next_id : Owner → String) where
  -- The handler of `onStateChange` for a state that is not open.
  unfoldable pub on_drop : Option T3Error → Conn → Conn
  unfolding fail_all
  on_drop e c = fail_all next_id (λ tag. or_else e (connection closed)) (record c { link = false })

  -- `close`: the handlers are taken off before the socket closes.
  unfoldable pub close : Conn → Conn
  unfolding fail_all
  close c =
      let c' = fail_all next_id (λ tag. connection closed) (record c { attached = false }) in
      record c' { link = false }

  unfoldable pub step : Conn → Event → Conn
  unfolding call_connected abort_call start_stream stream_next stream_connected stream_return
      stream_abort on_envelopes on_drop close
  step c (calls t tag payload failure encodes aborted) =
      call_connected next_id t tag payload failure encodes aborted c
  step c (aborts t) = abort_call next_id t c
  step c (starts h tag mark) = start_stream h tag mark c
  step c (pulls h t signal) = stream_next next_id h t signal c
  step c (connects h payload encodes failed) = stream_connected next_id h payload encodes failed c
  step c (returns h) = stream_return next_id h c
  step c (stream_aborts h) = stream_abort next_id h c
  step c (receives es) = if c.attached then on_envelopes next_id es c else c
  step c opens = record c { link = true }
  step c (drops e) = if c.attached then on_drop e c else record c { link = false }
  step c closes = close c

  unfoldable pub run : Conn → List Event → Conn
  run c [] = c
  run c (e ∷ es) = run (step c e) es
