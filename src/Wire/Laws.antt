-- ===== src/Wire/Laws.antt =====
-- The laws of decoding a frame and of reading an exit.
use t3code_client.Prelude.{
  String, Bool, true, false, Option, none, some, List, [], ◌∷◌, ◌++◌, find, any, ◌≡◌, refl, ◌≢◌,
  arith, ◌⊎◌, inl, inr, Bool-cases, Option-cases, find_cases, is_some, not, ◌&&◌, append_assoc,
  append-nil, same, if◌then◌else◌, same_refl,
}
use t3code_client.Json.{Json, str, obj, Fields, get, get-set, as_str}
use t3code_client.Errors.{connection, protocol}
use t3code_client.Wire.Envelope.{
  ServerEnvelope, CauseEntry, fail, die, interrupted, failure, server_envelope, tag_of, is_known,
  decode_items, Decoded, envelopes, refused, frame_items, decode_server_frame,
}
use t3code_client.Wire.Exit.{
  Outcome, failed, died, was_interrupted, is_fail, is_die, is_interrupt, to_fail_record,
  without_cause, normalize_exit,
}

-- A known tag on an item that does not have its shape.
abbrev malformed : Json → Bool
malformed item = elim (server_envelope item) [ some e ↦ false | none ↦ is_known (tag_of item) ]

-- The envelopes among the items, in their order.
abbrev readable : List Json → List ServerEnvelope
readable [] = []
readable (item ∷ items) = elim (server_envelope item) [
  | some e ↦ e ∷ readable items
  | none ↦ readable items
]

abbrev pub expected : List ServerEnvelope → List Json → Decoded
expected out items =
    if any malformed items then refused (connection protocol) else envelopes (out ++ readable items)

decode_items_lem :
    (out : List ServerEnvelope) (items : List Json) → decode_items out items ≡ expected out items
unfolding decode_items
decode_items_lem out [] = ground (arith, append-nil out)
decode_items_lem out (item ∷ items) = elim (Option-cases (server_envelope item)) [
  | inl skipped ↦ ground (arith, decode_items_lem out items)
  | inr (e, read) ↦
      ground
        (arith, decode_items_lem (out ++ e ∷ []) items, append_assoc out (e ∷ []) (readable items))
]

-- A frame is decoded to the envelopes among its items in their order, items with an unfamiliar tag
-- skipped, unless one item has a known tag and not its shape: then the whole frame is refused as a
-- protocol failure.
pub decode_server_frame_lem :
    (parsed : Json) → decode_server_frame (some parsed) ≡ expected [] (frame_items parsed)
unfolding decode_server_frame
decode_server_frame_lem parsed = decode_items_lem [] (frame_items parsed)

-- The first `Fail` wins; with none, the first `Die`; with neither, an `Interrupt`; and a failure
-- without a cause is a defect.
abbrev pub Prefers : List CauseEntry → Outcome → Type 0
Prefers cs o =
    ((before : List CauseEntry) × (e : Option Json) × (after : List CauseEntry) × (cs
        ≡ before ++ fail e ∷ after)
      × (any is_fail before ≡ false)
      × (o ≡ failed (to_fail_record e)))
    ⊎ ((any is_fail cs ≡ false)
        × ((before : List CauseEntry) × (d : Option Json) × (after : List CauseEntry) × (cs
              ≡ before ++ die d ∷ after)
            × (any is_die before ≡ false)
            × (o ≡ died d)))
    ⊎ ((any is_fail cs ≡ false)
        × (any is_die cs ≡ false)
        × (any is_interrupt cs ≡ true)
        × (o ≡ was_interrupted))
    ⊎ ((cs ≡ []) × (o ≡ without_cause))

no_cause :
    (cs : List CauseEntry)
    → any is_fail cs ≡ false
    → any is_die cs ≡ false
    → any is_interrupt cs ≡ false
    → cs ≡ []
no_cause [] f d i = refl
no_cause (fail e ∷ cs) f d i = cc
no_cause (die e ∷ cs) f d i = cc
no_cause (interrupted ∷ cs) f d i = cc

fail_first :
    (cs before after : List CauseEntry) (x : CauseEntry)
    → cs ≡ before ++ x ∷ after
    → any is_fail before ≡ false
    → is_fail x ≡ true
    → find is_fail cs ≡ some x
    → Prefers cs (normalize_exit (failure cs))
unfolding normalize_exit
fail_first cs before after (fail e) split clear hit found =
    inl (before, e, after, split, clear, rw (found, normalize_exit) refl)
fail_first cs before after (die d) split clear hit found = cc
fail_first cs before after interrupted split clear hit found = cc

die_first :
    (cs before after : List CauseEntry) (x : CauseEntry)
    → any is_fail cs ≡ false
    → find is_fail cs ≡ none
    → cs ≡ before ++ x ∷ after
    → any is_die before ≡ false
    → is_die x ≡ true
    → find is_die cs ≡ some x
    → Prefers cs (normalize_exit (failure cs))
unfolding normalize_exit
die_first cs before after (die d) fails missed split clear hit found =
    inr (inl (fails, (before, d, after, split, clear, rw (missed, found, normalize_exit) refl)))
die_first cs before after (fail e) fails missed split clear hit found = cc
die_first cs before after interrupted fails missed split clear hit found = cc

-- Of the causes of a failed exit, the first `Fail` wins; with none, the first `Die`; with neither, an
-- `Interrupt`; and a failure without a cause is a defect.
pub normalize_exit-Prefers : (cs : List CauseEntry) → Prefers cs (normalize_exit (failure cs))
unfolding normalize_exit
normalize_exit-Prefers cs = elim (find_cases is_fail cs) [
  | inr (before, x, after, split, clear, hit, found) ↦
      fail_first cs before after x split clear hit found
  | inl (fails, missed) ↦ elim (find_cases is_die cs) [
    | inr (before, x, after, split, clear, hit, found) ↦
        die_first cs before after x fails missed split clear hit found
    | inl (dies, no_die) ↦ elim (Bool-cases (any is_interrupt cs)) [
      | inl some_interrupt ↦
          inr (
            inr (inl (fails, dies, some_interrupt, ground (arith, missed, no_die, some_interrupt))))
      | inr clear ↦
          inr (inr (inr (no_cause cs fails dies clear, ground (arith, missed, no_die, clear))))
    ]
  ]
]

-- The record of an error that is an object has a string tag: its own if that is a string, and
-- `UnknownError` if not. All other fields stay as they are.
pub get-to_fail_record :
    (fs : Fields) (k : String)
    → (as_str (get "_tag" (to_fail_record (some (obj fs)))) ≢ none)
      × (get k (to_fail_record (some (obj fs))) ≡ (
          if same "_tag" k && not (is_some (as_str (get "_tag" fs)))
          then some (str "UnknownError")
          else get k fs))
unfolding to_fail_record
get-to_fail_record fs k = elim (Option-cases (as_str (get "_tag" fs))) [
  | inl untagged ↦ (
    ground (arith, untagged, get-set "_tag" "_tag" (str "UnknownError") fs, same_refl "_tag"),
    ground (arith, untagged, get-set "_tag" k (str "UnknownError") fs),
  )
  | inr (tag, tagged) ↦ (ground (arith, tagged), ground (arith, tagged))
]
