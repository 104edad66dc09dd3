-- ===== src/Proxy/Messages.antt =====
-- packages/t3code-proxy/src/frames.ts: what becomes of the text of the message of a request.
use t3code_client.Prelude.{
  String, Bool, true, false, ◌&&◌, Option, none, some, is_some, List, [], ◌∷◌, if◌then◌else◌,
}
use t3code_client.Json.{
  Json, null, bool, num, str, arr, obj, Items, nil, cons, Fields, get, as_str, as_obj,
}
use t3code_client.Proxy.Frames.{dispatch, launch, has_text}

-- What the proxy does with a text: nothing, or it puts the line of the sender on it, for an edited one in
-- place of the lines that are there.
pub data Change : Type 0 where
  as_is stamp restamp : Change

-- A dispatched command: a queued run that is edited is stamped anew, a message is stamped if it is not a
-- guest's, and no other command changes.
abbrev pub dispatch_change : Bool → Fields → Change
dispatch_change false payload = as_is
dispatch_change true payload =
    if has_text "type" "queued-run.edit" payload
    then restamp
    else if has_text "type" "message.dispatch" payload
    then if is_some (get "guestMessageId" payload) then as_is else stamp
    else as_is

abbrev pub launch_change : Bool → Fields → Change
launch_change request envelope = if request && has_text "tag" launch envelope then stamp else as_is

abbrev pub told : Change → Option String → Option (Change × String)
told c none = none
told c (some text) = some (c, text)

abbrev pub told_initial : Change → Option Fields → Option (Change × String)
told_initial c none = none
told_initial c (some initial) = told c (as_str (get "text" initial))

abbrev pub message_in : Bool → Fields → Option Fields → Option (Change × String)
message_in request envelope none = none
message_in request envelope (some payload) =
    if has_text "tag" dispatch envelope
    then told (dispatch_change request payload) (as_str (get "text" payload))
    else told_initial (launch_change request envelope) (as_obj (get "initialMessage" payload))

-- The text of the message that an envelope has, of a dispatched command or of the first message of a
-- thread, with what is to become of it.
abbrev pub message_of : Json → Option (Change × String)
message_of (obj fs) = message_in (has_text "_tag" "Request" fs) fs (as_obj (get "payload" fs))
message_of null = none
message_of (bool b) = none
message_of (num n) = none
message_of (str s) = none
message_of (arr vs) = none

abbrev pub messages_in : Items → List (Option (Change × String))
messages_in nil = []
messages_in (cons e es) = message_of e ∷ messages_in es

abbrev pub messages : Json → List (Option (Change × String))
messages (arr es) = messages_in es
messages (obj fs) = message_of (obj fs) ∷ []
messages null = []
messages (bool b) = []
messages (num n) = []
messages (str s) = []
