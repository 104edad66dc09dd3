-- ===== src/Proxy/Frames.antt =====
-- packages/t3code-proxy/src/frames.ts: the rewriting of the frames of a client. A frame is given as
-- what `JSON.parse` makes of its text, none where that throws, and its new text as what
-- `JSON.stringify` is given.
use t3code_client.Prelude.{
  String, Bool, false, not, ◌&&◌, ◌||◌, Option, none, some, is_some, List, [], ◌∷◌, ◌++◌, map, same,
  if◌then◌else◌,
}
use t3code_client.Json.{
  Json, null, bool, num, str, arr, obj, Items, nil, cons, Fields, get, set, as_str, as_obj,
}
use t3code_client.Proxy.Units.{Text}
use t3code_client.Proxy.Byline.{with_byline, without_byline}

-- `DISPATCH` and `LAUNCH`
abbrev pub dispatch : String
dispatch = "orchestration.dispatchCommand"

abbrev pub launch : String
launch = "orchestration.launchThread"

-- `record[key] === text`
abbrev pub is_text : String → Option String → Bool
is_text t none = false
is_text t (some s) = same s t

abbrev pub has_text : String → String → Fields → Bool
has_text k t fs = is_text t (as_str (get k fs))

-- `replaceText`: the target with the new text, and whether it changed.
unfoldable pub replace_from : (String → String) → Option String → Fields → Fields × Bool
replace_from next none target = (target, false)
replace_from next (some text) target =
    (set "text" (str (next text)) target, not (same (next text) text))

unfoldable pub replace_text : (String → String) → Fields → Fields × Bool
unfolding replace_from
replace_text next target = replace_from next (as_str (get "text" target)) target

-- What became of an envelope: its new fields, whether they changed, and the commands to log.
pub record Rewritten : Type 0 where
  pub fields : Fields
  pub changed : Bool
  pub commands : List String

abbrev pub kept : Fields → Rewritten
kept fs = record { fields = fs; changed = false; commands = [] }

-- The envelope whose payload was replaced in place.
abbrev pub with_payload : Fields → List String → Fields × Bool → Rewritten
with_payload envelope commands (payload, changed) = record {
  fields = set "payload" (obj payload) envelope;
  changed = changed;
  commands = commands;
}

abbrev pub with_message : Fields → Fields → Fields × Bool → Fields × Bool
with_message payload initial (message, changed) =
    (set "initialMessage" (obj message) payload, changed)

abbrev pub when : Bool → Json → Option Json
when changed v = if changed then some v else none

-- The texts of the units that a listener works on: `to_units` and `of_units` are the language's.
module _ (to_units : String → Text) (of_units : Text → String) (name : String)
    (names : List String) where
  abbrev pub stamped : String → String
  stamped text = of_units (with_byline (to_units text) (to_units name))

  abbrev pub restamped : String → String
  restamped text =
      of_units (with_byline (without_byline (to_units text) (map to_units names)) (to_units name))

  unfoldable pub rewrite_dispatch : Fields → Fields → Rewritten
  unfolding replace_text
  rewrite_dispatch envelope payload =
      if has_text "type" "queued-run.edit" payload
      then with_payload envelope ("orchestration.dispatchCommand queued-run.edit" ∷ [])
          (replace_text restamped payload)
      else if has_text "type" "message.dispatch" payload
      then (if is_some (get "guestMessageId" payload)
          then record {
            fields = envelope;
            changed = false;
            commands = "orchestration.dispatchCommand message.dispatch" ∷ [];
          }
          else with_payload envelope ("orchestration.dispatchCommand message.dispatch" ∷ [])
              (replace_text stamped payload))
      else kept envelope

  unfoldable pub rewrite_launch : Fields → Fields → Option Fields → Rewritten
  unfolding replace_text
  rewrite_launch envelope payload none = kept envelope
  rewrite_launch envelope payload (some initial) =
      if is_some (as_str (get "text" initial))
      then with_payload envelope (launch ∷ [])
          (with_message payload initial (replace_text stamped initial))
      else kept envelope

  unfoldable pub rewrite_payload : Fields → Option Fields → Rewritten
  unfolding rewrite_dispatch rewrite_launch
  rewrite_payload envelope none = kept envelope
  rewrite_payload envelope (some payload) =
      if has_text "tag" dispatch envelope && is_some (as_str (get "text" payload))
      then rewrite_dispatch envelope payload
      else if has_text "tag" launch envelope
      then rewrite_launch envelope payload (as_obj (get "initialMessage" payload))
      else kept envelope

  -- `rewriteRequest`
  unfoldable pub rewrite_object : Fields → Rewritten
  unfolding rewrite_payload
  rewrite_object envelope =
      if has_text "_tag" "Request" envelope
      then rewrite_payload envelope (as_obj (get "payload" envelope))
      else kept envelope

  unfoldable pub rewrite_request : Json → Json × Bool × List String
  unfolding rewrite_object
  rewrite_request (obj fs) = let r = rewrite_object fs in (obj r.fields, r.changed, r.commands)
  rewrite_request null = (null, false, [])
  rewrite_request (bool b) = (bool b, false, [])
  rewrite_request (num n) = (num n, false, [])
  rewrite_request (str s) = (str s, false, [])
  rewrite_request (arr vs) = (arr vs, false, [])

  -- The loop over the envelopes.
  unfoldable pub rewrite_all : Items → Items × Bool × List String
  unfolding rewrite_request
  rewrite_all nil = (nil, false, [])
  rewrite_all (cons e es) =
      let (e', changed, commands) = rewrite_request e in
      let (es', more, rest) = rewrite_all es in (cons e' es', changed || more, commands ++ rest)

  unfoldable pub rewrite_single : Json → Option Json × List String
  unfolding rewrite_request
  rewrite_single e = let (e', changed, commands) = rewrite_request e in (when changed e', commands)

  -- `rewriteFrame`: the new text, or none where no request changed.
  unfoldable pub rewrite_frame : Option Json → Option Json × List String
  unfolding rewrite_all rewrite_single
  rewrite_frame none = (none, [])
  rewrite_frame (some (arr es)) =
      let (es', changed, commands) = rewrite_all es in (when changed (arr es'), commands)
  rewrite_frame (some (obj fs)) = rewrite_single (obj fs)
  rewrite_frame (some null) = rewrite_single null
  rewrite_frame (some (bool b)) = rewrite_single (bool b)
  rewrite_frame (some (num n)) = rewrite_single (num n)
  rewrite_frame (some (str s)) = rewrite_single (str s)
