-- ===== src/Proxy/Tests.antt =====
-- One direction of a bridge, a byline and a frame on concrete inputs.
use t3code_client.Prelude.{
  String, Option, none, some, false, replicate, map, or_else, List, [], ◌∷◌, ◌++◌, ◌≡◌, refl, true,
  same,
}
use t3code_client.Json.{Json, str, arr, obj, nil, cons, no_fields, field, get}
use t3code_client.Proxy.Units.{Text, units, trim_start, trim_end, after, before, same_text}
use t3code_client.Proxy.Byline.{with_byline, without_byline}
use t3code_client.Proxy.Stamped.{without_byline-with_byline}
use t3code_client.Proxy.Frames.{rewrite_frame}
use t3code_client.Proxy.Kept.{masked_frame, rewrite_frame_keeps}
use t3code_client.Proxy.Messages.{messages}
use t3code_client.Proxy.Changed.{changed}
use t3code_client.Proxy.Bridge.{
  high_water_bytes, Bytes, buffer, sent, sent_ping, closed_with, new_forward, Event, message,
  flushed, ping, closes, step, run, client_text, server_text,
}
use t3code_client.Proxy.Pressure.{Inv, run-new_forward-Inv, Forwards, got, got-run}

-- Every text is rewritten to one text of as many units as the high water mark, but for an empty one.
abbrev to_string : Bytes → Text
to_string bytes = bytes

abbrev rewrite : Text → Option Text
rewrite [] = none
rewrite (c ∷ cs) = some (replicate high_water_bytes c)

abbrev events : List Event
events =
    message [] false
    ∷ message (1 ∷ 2 ∷ []) true
    ∷ flushed 0
    ∷ ping (3 ∷ [])
    ∷ closes 1006 []
    ∷ closes 1000 (4 ∷ [])
    ∷ []

run-new_forward-Inv_example :
    Inv (run (client_text to_string rewrite) new_forward (message (7 ∷ []) false ∷ events))
run-new_forward-Inv_example =
    run-new_forward-Inv (client_text to_string rewrite) (message (7 ∷ []) false ∷ events)

got-run_example :
    Forwards
      (client_text to_string rewrite)
      events
      (got (run (client_text to_string rewrite) new_forward events).log)
got-run_example = got-run (client_text to_string rewrite) events

server-got :
    got (run server_text new_forward events).log
    ≡ sent (buffer []) false
      ∷ sent (buffer (1 ∷ 2 ∷ [])) true
      ∷ sent_ping (3 ∷ [])
      ∷ closed_with none
      ∷ closed_with (some (1000, 4 ∷ []))
      ∷ []
unfolding run step new_forward server_text
server-got = refl

-- The units of a text of the basic plane, and one text for all units.
abbrev of_units : Text → String
of_units s = "stamped"

abbrev frame : Json
frame = obj (
    field "_tag" (str "Request") (
      field "tag" (str "orchestration.dispatchCommand") (
        field "payload"
          (obj (field "type" (str "message.dispatch") (field "text" (str "hello") no_fields)))
          no_fields)))

rewrite_frame_stamps :
    (rewrite_frame units of_units "Ada" ("Ada" ∷ []) (some frame)).1
    ≡ "orchestration.dispatchCommand message.dispatch" ∷ []
unfolding rewrite_frame get same
rewrite_frame_stamps = refl

-- A batch of two of them.
abbrev batch : Json
batch = arr (cons frame (cons frame nil))

rewrite_frame_keeps_example :
    let upstream = or_else (rewrite_frame units of_units "Ada" ("Ada" ∷ []) (some batch)).0 batch in
    (messages upstream ≡ map (changed units of_units "Ada" ("Ada" ∷ [])) (messages batch))
    × (masked_frame units of_units "Ada" ("Ada" ∷ []) upstream
        ≡ masked_frame units of_units "Ada" ("Ada" ∷ []) batch)
rewrite_frame_keeps_example = rewrite_frame_keeps units of_units "Ada" ("Ada" ∷ []) batch

stamped_twice :
    without_byline
      (with_byline (units "hello ") (units "Ada") ++ units " more")
      (units "Ad" ∷ units "Ada" ∷ [])
    ≡ units "hello  more"
unfolding without_byline with_byline
stamped_twice = refl

without_byline-with_byline_example :
    without_byline (with_byline (units "hello ") (units "Ada")) (units "Ad" ∷ units "Ada" ∷ [])
    ≡ trim_end (units "hello ")
without_byline-with_byline_example =
    without_byline-with_byline (units "hello ") (units "Ada") (units "Ad" ∷ units "Ada" ∷ [])
      (unfold trim_start in unfold after in refl) (unfold before in refl) (refl, (refl, (refl, tt)))
      (unfold same_text in refl)
