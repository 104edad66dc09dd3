-- ===== src/Wire/Tests.antt =====
-- The decoder and the exits on concrete frames.
use t3code_client.Prelude.{List, [], ◌∷◌, none, some, ◌≡◌, refl, same}
use t3code_client.Json.{Json, str, obj, arr, num, Fields, field, no_fields, nil, cons, get, set}
use t3code_client.Wire.Envelope.{
  CauseEntry, fail, die, interrupted, failure, frame_items, decode_server_frame, decode_items,
  envelopes, pong,
}
use t3code_client.Wire.Exit.{normalize_exit, to_fail_record}
use t3code_client.Wire.Laws.{expected, decode_server_frame_lem, Prefers, normalize_exit-Prefers}

abbrev pong_item : Json
pong_item = obj (field "_tag" (str "Pong") no_fields)

abbrev frame : Json
frame =
    arr (cons pong_item (cons (obj (field "_tag" (str "Future") no_fields)) (cons pong_item nil)))

decode_frame : decode_server_frame (some frame) ≡ envelopes (pong ∷ pong ∷ [])
unfolding decode_server_frame decode_items same
decode_frame = refl

decode_server_frame_lem_example : decode_server_frame (some frame) ≡ expected [] (frame_items frame)
decode_server_frame_lem_example = decode_server_frame_lem frame

abbrev causes : List CauseEntry
causes = interrupted ∷ die none ∷ fail (some (num "3")) ∷ []

normalize_exit-Prefers_example : Prefers causes (normalize_exit (failure causes))
normalize_exit-Prefers_example = normalize_exit-Prefers causes

abbrev untagged : Fields
untagged = field "_tag" (num "3") (field "message" (str "no") no_fields)

unknown_tag : get "_tag" (to_fail_record (some (obj untagged))) ≡ some (str "UnknownError")
unfolding to_fail_record get set same
unknown_tag = refl
