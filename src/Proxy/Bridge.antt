-- ===== src/Proxy/Bridge.antt =====
-- packages/t3code-proxy/src/bridge.ts: `forward`, one direction of a bridge, and `bridge`, which is one
-- `forward` from the client with the rewriting of text frames, and one from the server without. A
-- frame comes as bytes with its flag `isBinary`, and goes on as bytes or as a text, which is its UTF-16
-- units.
use t3code_client.Prelude.{
  ℕ, zero, suc, ◌+◌, ◌-◌, ◌*◌, ◌==◌, leb, ltb, Bool, true, false, not, ◌&&◌, ◌||◌, Option, none,
  some, length, List, [], ◌∷◌, ◌++◌, if◌then◌else◌,
}
use t3code_client.Proxy.Units.{Text}

-- `HIGH_WATER_BYTES`
abbrev pub high_water_bytes : ℕ
high_water_bytes = 1024 * 1024

-- `canSendCloseCode`
unfoldable pub can_send_close_code : ℕ → Bool
can_send_close_code code =
    leb 1000 code && leb code 1014 && not (code == 1004 || code == 1005 || code == 1006)
    || leb 3000 code && leb code 4999

abbrev pub Bytes : Type 0
Bytes = List ℕ

-- `Buffer | string`
pub data Data : Type 0 where
  buffer : Bytes → Data
  string : Text → Data

-- `frame.length`: the bytes of a Buffer, and the UTF-16 units of a string.
unfoldable pub size : Data → ℕ
size (buffer bytes) = length bytes
size (string units) = length units

-- What `forward` does to the two sockets, in order.
pub data Act : Type 0 where
  sent : Data → Bool → Act
  paused_source : Act
  resumed_source : Act
  sent_ping : Bytes → Act
  sent_pong : Bytes → Act
  closed_with : Option (ℕ × Bytes) → Act

-- The variables of `forward`; `in_flight` has each frame whose `send` has not called back, and `log` is
-- what was done, the newest first.
pub record Forward : Type 0 where
  pub unsent : ℕ
  pub paused : Bool
  pub in_flight : List Data
  pub log : List Act

unfoldable pub new_forward : Forward
new_forward = record { unsent = 0; paused = false; in_flight = []; log = [] }

-- What happens to the source, and the callback of the `send` at a place among those in flight.
pub data Event : Type 0 where
  message : Bytes → Bool → Event
  flushed : ℕ → Event
  ping : Bytes → Event
  pong : Bytes → Event
  closes : ℕ → Bytes → Event
  errors : Event

abbrev pub frame_at : ℕ → List Data → Option Data
frame_at i [] = none
frame_at zero (d ∷ ds) = some d
frame_at (suc i) (d ∷ ds) = frame_at i ds

abbrev pub remove_at : ℕ → List Data → List Data
remove_at i [] = []
remove_at zero (d ∷ ds) = ds
remove_at (suc i) (d ∷ ds) = d ∷ remove_at i ds

unfoldable pub transform : (Bytes → Data) → Bytes → Bool → Data
transform transform_text bytes is_binary = if is_binary then buffer bytes else transform_text bytes

unfoldable pub close_act : ℕ → Bytes → Act
unfolding can_send_close_code
close_act code reason = closed_with (if can_send_close_code code then some (code, reason) else none)

-- The callback of `send`.
unfoldable pub flush : ℕ → Option Data → Forward → Forward
unfolding size
flush i none f = f
flush i (some frame) f =
    let unsent = f.unsent - size frame in
    let under = f.paused && ltb unsent high_water_bytes in
    record {
      unsent = unsent;
      paused = if under then false else f.paused;
      in_flight = remove_at i f.in_flight;
      log = if under then resumed_source ∷ f.log else f.log;
    }

module _ (transform_text : Bytes → Data) where
  -- The handler of `message`.
  unfoldable pub on_message : Bytes → Bool → Forward → Forward
  unfolding transform size
  on_message bytes is_binary f =
      let frame = transform transform_text bytes is_binary in
      let unsent = f.unsent + size frame in
      let over = not f.paused && leb high_water_bytes unsent in
      record {
        unsent = unsent;
        paused = if over then true else f.paused;
        in_flight = f.in_flight ++ frame ∷ [];
        log = sent frame is_binary ∷ (if over then paused_source ∷ f.log else f.log);
      }

  unfoldable pub step : Forward → Event → Forward
  unfolding on_message flush close_act
  step f (message bytes is_binary) = on_message bytes is_binary f
  step f (flushed i) = flush i (frame_at i f.in_flight) f
  step f (ping data_) = record f { log = sent_ping data_ ∷ f.log }
  step f (pong data_) = record f { log = sent_pong data_ ∷ f.log }
  step f (closes code reason) = record f { log = close_act code reason ∷ f.log }
  step f errors = f

  unfoldable pub run : Forward → List Event → Forward
  run f [] = f
  run f (e ∷ es) = run (step f e) es

-- The two transforms of `bridge`; `to_string` is `Buffer.toString`.
abbrev pub or_frame : Option Text → Bytes → Data
or_frame none frame = buffer frame
or_frame (some text) frame = string text

unfoldable pub client_text : (Bytes → Text) → (Text → Option Text) → Bytes → Data
client_text to_string rewrite_client_text frame =
    or_frame (rewrite_client_text (to_string frame)) frame

unfoldable pub server_text : Bytes → Data
server_text frame = buffer frame
