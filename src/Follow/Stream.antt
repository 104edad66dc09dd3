-- ===== src/Follow/Stream.antt =====
-- packages/t3code-cli/src/execution/followStream.ts: `FollowStream`, which prints the text of the messages
-- of a run while it grows. `units` stands for the UTF-16 units of a text.
use t3code_client.Prelude.{
  or_else, String, Bool, Option, none, some, List, [], ◌∷◌, ◌++◌, if◌then◌else◌,
}
use t3code_client.Prelude.Dict.{lookup, insert}
use t3code_client.Thread.Records.{
  Content, assistant_message, approval_request, user_input_request, error, other, TurnItem,
}
use t3code_client.Thread.Derived.{of_run}
use t3code_client.Thread.Tracker.{Item, assistant_delta, requested, request_resolved, turn_settled}
use t3code_client.Thread.Watch.{
  WatchItem, snapshot, synchronized, event, derived, decode_error, reconnected,
}
use t3code_client.Proxy.Units.{Text, after, starts_with}

-- The map `text`, from the ids of messages.
abbrev pub FollowStream : Type 0
FollowStream = List (String × Text)

-- What was printed of a message.
abbrev pub previous : String → FollowStream → Text
previous id s = or_else (lookup id s) []

-- `text.startsWith(previous) ? text.slice(previous.length) : text`
abbrev pub delta : Text → Text → Text
delta before text = or_else (after before text) text

-- `append`, with the delta that it prints.
unfoldable pub append : String → Text → FollowStream → FollowStream × Option Text
unfolding after lookup insert
append id text s =
    if starts_with (previous id s) text
    then (s, none)
    else (insert id text s, some (delta (previous id s) text))

-- The deltas in order, each with the message of which it is.
abbrev pub printed : String → Option Text → List (String × Text)
printed id none = []
printed id (some d) = (id, d) ∷ []

unfoldable pub append_all :
    List (String × Text) → FollowStream → FollowStream × List (String × Text)
unfolding append
append_all [] s = (s, [])
append_all ((id, text) ∷ texts) s =
    let (s1, d) = append id text s in let (s2, ds) = append_all texts s1 in (s2, printed id d ++ ds)

module _ (units : String → Text) where
  -- A turn item that is an assistant message of the run.
  abbrev pub row_text : Bool → Content → List (String × Text)
  row_text of_it (assistant_message m text streaming) = if of_it then (m, units text) ∷ [] else []
  row_text of_it (approval_request r) = []
  row_text of_it (user_input_request r q) = []
  row_text of_it (error m) = []
  row_text of_it other = []

  abbrev pub rows_texts : String → List TurnItem → List (String × Text)
  rows_texts run [] = []
  rows_texts run (i ∷ is) = row_text (of_run run i.run_id) i.content ++ rows_texts run is

  abbrev pub derived_texts : String → Item → List (String × Text)
  derived_texts run (assistant_delta i m text streaming d) =
      if of_run run i.run_id then (m, units text) ∷ [] else []
  derived_texts run (requested r) = []
  derived_texts run (request_resolved id) = []
  derived_texts run (turn_settled outcome) = []

  -- The calls of `append` that `observe` makes.
  abbrev pub item_texts : String → WatchItem → List (String × Text)
  item_texts run (snapshot sequence p) = rows_texts run p.turn_items
  item_texts run synchronized = []
  item_texts run (event sequence e) = []
  item_texts run (derived i) = derived_texts run i
  item_texts run decode_error = []
  item_texts run (reconnected sequence) = []

  abbrev pub texts : Bool → WatchItem → Option String → List (String × Text)
  texts streams item none = []
  texts streams item (some run) = if streams then item_texts run item else []

  -- `observe`, where `streams` is `output.stream`.
  unfoldable pub observe :
      Bool → WatchItem → Option String → FollowStream → FollowStream × List (String × Text)
  unfolding append_all
  observe streams item run s = append_all (texts streams item run) s

  -- The items of a watch, each with the run id at that time.
  unfoldable pub follow :
      Bool → List (WatchItem × Option String) → FollowStream → FollowStream × List (String × Text)
  unfolding observe
  follow streams [] s = (s, [])
  follow streams ((item, run) ∷ items) s =
      let (s1, ds) = observe streams item run s in
      let (s2, rest) = follow streams items s1 in (s2, ds ++ rest)
