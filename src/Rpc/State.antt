-- ===== src/Rpc/State.antt =====
-- The state of `RpcConnection` and the methods that its calls and its streams share.
use t3code_client.Prelude.{
  ℕ, String, Bool, true, false, ◌&&◌, Option, none, some, List, [], ◌∷◌, ◌==◌, leb, if◌then◌else◌,
}
use t3code_client.Prelude.Dict.{lookup, insert, delete}
use t3code_client.Json.{Json}
use t3code_client.Errors.{T3Error}
use t3code_client.Channel
use t3code_client.Channel.{
  Channel, Delivery, value, done, error, Effect, settle, on_pull, on_return, create_channel,
}
use t3code_client.Wire.Envelope.{ClientEnvelope, ack, interrupt}

-- `CallEntry` with the ticket of the promise that it settles; `StreamEntry` with the number of its
-- iterator, whose channel it feeds, its high water mark and `ackPending`.
pub data Entry : Type 0 where
  call : String → ℕ → Entry
  stream : String → ℕ → ℕ → Bool → Entry

-- Who asked `nextId` for an id: the call with a ticket, or the iterator with a number.
pub data Owner : Type 0 where
  of_call : ℕ → Owner
  of_stream : ℕ → Owner

abbrev pub owner : Entry → Owner
owner (call tag t) = of_call t
owner (stream tag h mark pending) = of_stream h

-- The variables of `#startStream`: `connecting` is the ticket of the first `next`, while that waits
-- for the socket; `listening` holds while the abort listener is attached.
pub record Stream : Type 0 where
  pub tag : String
  pub mark : ℕ
  pub channel : Channel Json T3Error
  pub started : Bool
  pub connecting : Option ℕ
  pub released : Bool
  pub listening : Bool

-- What the connection does to the world: frames sent, promises of calls settled, and promises of
-- `next` settled.
pub data Act : Type 0 where
  sent : ClientEnvelope → Act
  resolved : ℕ → Option Json → Act
  rejected : ℕ → T3Error → Act
  handed : ℕ → ℕ → Delivery Json T3Error → Act

-- `link` says if the socket is open, `attached` if the handlers of the constructor are registered at
-- it, and `log` is what was done, the newest first.
pub record Conn : Type 0 where
  pub entries : List (String × Entry)
  pub streams : ℕ → Stream
  pub link : Bool
  pub attached : Bool
  pub log : List Act

abbrev pub note : Act → Conn → Conn
note a c = record c { log = a ∷ c.log }

abbrev pub with_stream : ℕ → Stream → Conn → Conn
with_stream h s c = record c { streams = λ k. if k == h then s else c.streams k }

-- `sendEnvelope` in a `try` whose `catch` does nothing.
unfoldable pub try_send : ClientEnvelope → Conn → Conn
try_send e c = if c.link then note (sent e) c else c

-- `release` of one iterator.
unfoldable pub release : ℕ → Conn → Conn
release h c =
    if (c.streams h).released
    then c
    else with_stream h (record (c.streams h) { released = true; listening = false }) c

abbrev pub release_entry : Entry → Conn → Conn
release_entry (call tag t) c = c
release_entry (stream tag h mark pending) c = release h c

unfoldable pub interrupt_entry : String → Option Entry → Conn → Conn
unfolding try_send release
interrupt_entry id none c = c
interrupt_entry id (some e) c =
    try_send (interrupt id) (release_entry e (record c { entries = delete id c.entries }))

-- `#interrupt`
unfoldable pub interrupt_request : String → Conn → Conn
unfolding interrupt_entry
interrupt_request id c = interrupt_entry id (lookup id c.entries) c

unfoldable pub ack_entry : String → ℕ → Option Entry → Conn → Conn
unfolding try_send
ack_entry id remaining none c = c
ack_entry id remaining (some (call tag t)) c = c
ack_entry id remaining (some (stream tag h mark pending)) c =
    if pending && leb remaining mark
    then try_send (ack id) (record c { entries = insert id (stream tag h mark false) c.entries })
    else c

-- `#maybeAck`
unfoldable pub maybe_ack : String → ℕ → Conn → Conn
unfolding ack_entry
maybe_ack id remaining c = ack_entry id remaining (lookup id c.entries) c

-- The ids that `nextId` gave.
module _ (next_id : Owner → String) where
  -- What the channel of an iterator does outside of itself. An end or an error that `next` hands on
  -- releases the iterator.
  unfoldable pub hand : ℕ → ℕ → Delivery Json T3Error → Conn → Conn
  unfolding release
  hand h t (value v) c = note (handed h t (value v)) c
  hand h t done c = release h (note (handed h t done) c)
  hand h t (error e) c = release h (note (handed h t (error e)) c)

  unfoldable pub absorb : ℕ → List (Effect Json T3Error) → Conn → Conn
  unfolding hand maybe_ack interrupt_request
  absorb h [] c = c
  absorb h (settle t d ∷ es) c = absorb h es (hand h t d c)
  absorb h (on_pull n ∷ es) c = absorb h es (maybe_ack (next_id (of_stream h)) n c)
  absorb h (on_return ∷ es) c = absorb h es (interrupt_request (next_id (of_stream h)) c)

  -- One operation on the channel of an iterator, with its callbacks.
  unfoldable pub on_channel :
      ℕ → (Channel Json T3Error → Channel Json T3Error × List (Effect Json T3Error)) → Conn → Conn
  unfolding absorb
  on_channel h op c =
      let (ch, es) = op (c.streams h).channel in
      absorb h es (with_stream h (record (c.streams h) { channel = ch }) c)

  -- `#settleWithError`
  unfoldable pub settle_with_error : Entry → T3Error → Conn → Conn
  unfolding on_channel release
  settle_with_error (call tag t) e c = note (rejected t e) c
  settle_with_error (stream tag h mark pending) e c = on_channel h (Channel.fail e) (release h c)

  unfoldable pub settle_all : (String → T3Error) → List (String × Entry) → Conn → Conn
  unfolding settle_with_error
  settle_all e [] c = c
  settle_all e ((id, call tag t) ∷ es) c =
      settle_all e es (settle_with_error (call tag t) (e tag) c)
  settle_all e ((id, stream tag h mark pending) ∷ es) c =
      settle_all e es (settle_with_error (stream tag h mark pending) (e tag) c)

  -- `#failAll`, with the error for each tag.
  unfoldable pub fail_all : (String → T3Error) → Conn → Conn
  unfolding settle_all
  fail_all e c = settle_all e c.entries (record c { entries = [] })
