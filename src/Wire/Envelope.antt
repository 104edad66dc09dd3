-- ===== src/Wire/Envelope.antt =====
-- packages/t3code-lib/src/wire/envelope.ts. The zod schemas are written out as functions into Option;
-- a loose object may have further keys, which the client does not read. A frame is given as what
-- `JSON.parse` makes of its text, none where that throws.
use t3code_client.Prelude.{
  String, Bool, true, false, Option, none, some, List, [], ◌∷◌, same, if◌then◌else◌, not, ◌||◌,
  ◌++◌,
}
use t3code_client.Json.{Json, null, bool, num, str, arr, obj, Fields, to_list, get, as_str}
use t3code_client.Errors.{T3Error, protocol, connection}

pub data ClientEnvelope : Type 0 where
  request : String → String → Json → ClientEnvelope
  ack : String → ClientEnvelope
  interrupt : String → ClientEnvelope
  ping : ClientEnvelope
  eof : ClientEnvelope

-- `requestEnvelope`: the headers are always the empty list.
abbrev pub request_envelope : String → String → Json → ClientEnvelope
request_envelope id tag payload = request id tag payload

pub data CauseEntry : Type 0 where
  fail : Option Json → CauseEntry
  die : Option Json → CauseEntry
  interrupted : CauseEntry

pub data ExitEncoded : Type 0 where
  success : Option Json → ExitEncoded
  failure : List CauseEntry → ExitEncoded

pub data ServerEnvelope : Type 0 where
  chunk : String → List Json → ServerEnvelope
  exit : String → ExitEncoded → ServerEnvelope
  defect : Option Json → ServerEnvelope
  pong : ServerEnvelope

infixl 5 ◌>>=◌
abbrev pub ◌>>=◌ {ℓ κ} : {A : Type ℓ} {B : Type κ} → Option A → (A → Option B) → Option B
none >>= f = none
some a >>= f = f a

-- `z.number()` takes every number but the infinite ones, which `JSON.parse` makes of "1e999".
abbrev pub is_finite : String → Bool
is_finite n = not (same n "Infinity" || same n "-Infinity")

-- `WireRequestId`: a string, or a number as its text.
unfoldable pub wire_request_id : Option Json → Option String
wire_request_id none = none
wire_request_id (some null) = none
wire_request_id (some (bool b)) = none
wire_request_id (some (num n)) = if is_finite n then some n else none
wire_request_id (some (str s)) = some s
wire_request_id (some (arr vs)) = none
wire_request_id (some (obj fs)) = none

-- `z.number().nullish()`
unfoldable pub nullish_number : Option Json → Bool
nullish_number none = true
nullish_number (some null) = true
nullish_number (some (bool b)) = false
nullish_number (some (num n)) = is_finite n
nullish_number (some (str s)) = false
nullish_number (some (arr vs)) = false
nullish_number (some (obj fs)) = false

unfoldable pub array_of : Option Json → Option (List Json)
array_of none = none
array_of (some null) = none
array_of (some (bool b)) = none
array_of (some (num n)) = none
array_of (some (str s)) = none
array_of (some (arr vs)) = some (to_list vs)
array_of (some (obj fs)) = none

unfoldable pub object_of : Option Json → Option Fields
object_of none = none
object_of (some null) = none
object_of (some (bool b)) = none
object_of (some (num n)) = none
object_of (some (str s)) = none
object_of (some (arr vs)) = none
object_of (some (obj fs)) = some fs

-- `TaggedRecord`: the string `_tag` of an object.
unfoldable pub tag_of : Json → Option String
unfolding object_of get
tag_of v = do fs ← object_of (some v); as_str (get "_tag" fs)

unfoldable pub cause_entry : Json → Option CauseEntry
unfolding object_of get nullish_number tag_of
cause_entry v = do
  fs ← object_of (some v)
  tag ← tag_of v
  if same tag "Fail"
      then some (fail (get "error" fs))
      else if same tag "Die"
      then some (die (get "defect" fs))
      else if same tag "Interrupt"
      then (if nullish_number (get "fiberId" fs) then some interrupted else none)
      else none

unfoldable pub cause_entries : List Json → Option (List CauseEntry)
unfolding cause_entry
cause_entries [] = some []
cause_entries (v ∷ vs) = do c ← cause_entry v; cs ← cause_entries vs; some (c ∷ cs)

unfoldable pub exit_encoded : Option Json → Option ExitEncoded
unfolding object_of get tag_of array_of cause_entries
exit_encoded none = none
exit_encoded (some v) = do
  fs ← object_of (some v)
  tag ← tag_of v
  if same tag "Success"
      then some (success (get "value" fs))
      else if same tag "Failure"
      then (do vs ← array_of (get "cause" fs); cs ← cause_entries vs; some (failure cs))
      else none

-- `ServerEnvelope.safeParse`
unfoldable pub server_envelope : Json → Option ServerEnvelope
unfolding object_of get tag_of wire_request_id array_of exit_encoded
server_envelope v = do
  fs ← object_of (some v)
  tag ← tag_of v
  if same tag "Chunk"
      then (do
        id ← wire_request_id (get "requestId" fs)
        vs ← array_of (get "values" fs)
        some (chunk id vs))
      else if same tag "Exit"
      then (do
        id ← wire_request_id (get "requestId" fs)
        e ← exit_encoded (get "exit" fs)
        some (exit id e))
      else if same tag "Defect"
      then some (defect (get "defect" fs))
      else if same tag "Pong"
      then some pong
      else none

-- `KNOWN_SERVER_TAGS.has(tag)`
unfoldable pub known_server_tag : String → Bool
known_server_tag tag =
    same tag "Chunk" || (same tag "Exit" || (same tag "Defect" || same tag "Pong"))

pub data Decoded : Type 0 where
  envelopes : List ServerEnvelope → Decoded
  refused : T3Error → Decoded

-- `tag !== undefined && KNOWN_SERVER_TAGS.has(tag)`
abbrev pub is_known : Option String → Bool
is_known none = false
is_known (some tag) = known_server_tag tag

-- The loop of `decodeServerFrame`, with what it has put out.
unfoldable pub decode_items : List ServerEnvelope → List Json → Decoded
unfolding known_server_tag tag_of server_envelope
decode_items out [] = envelopes out
decode_items out (item ∷ items) = elim (server_envelope item) [
  | some e ↦ decode_items (out ++ e ∷ []) items
  | none ↦
      let rest = decode_items out items in
      if is_known (tag_of item) then refused (connection protocol) else rest
]

-- `Array.isArray(parsed) ? parsed : [parsed]`
abbrev pub frame_items : Json → List Json
frame_items null = null ∷ []
frame_items (bool b) = bool b ∷ []
frame_items (num n) = num n ∷ []
frame_items (str s) = str s ∷ []
frame_items (arr vs) = to_list vs
frame_items (obj fs) = obj fs ∷ []

unfoldable pub decode_server_frame : Option Json → Decoded
unfolding decode_items
decode_server_frame none = refused (connection protocol)
decode_server_frame (some parsed) = decode_items [] (frame_items parsed)
