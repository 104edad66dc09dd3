-- ===== src/Follow/Sayings.antt =====
-- packages/t3code-cli/src/execution/followStream.ts: the texts of messages that a watch tells.
use t3code_client.Prelude.{
  String, Bool, false, ◌&&◌, Option, none, some, List, [], ◌∷◌, ◌++◌, same, if◌then◌else◌, ◌≡◌,
  refl, arith,
}
use t3code_client.Thread.Records.{
  Content, assistant_message, approval_request, user_input_request, error, other, TurnItem,
}
use t3code_client.Thread.Derived.{of_run}
use t3code_client.Thread.Tracker.{assistant_delta, requested, request_resolved, turn_settled}
use t3code_client.Thread.Watch.{
  WatchItem, snapshot, synchronized, event, derived, decode_error, reconnected,
}
use t3code_client.Proxy.Units.{Text}
use t3code_client.Follow.Stream.{row_text, rows_texts, item_texts}

-- The texts of one message among texts of messages.
abbrev pub of_message : String → List (String × Text) → List Text
of_message id [] = []
of_message id ((j, text) ∷ ts) = if same j id then text ∷ of_message id ts else of_message id ts

pub of_message-append :
    (id : String) (xs ys : List (String × Text))
    → of_message id (xs ++ ys) ≡ of_message id xs ++ of_message id ys
of_message-append id [] ys = refl
of_message-append id ((j, t) ∷ xs) ys = ground (arith, of_message-append id xs ys)

-- A text that a watch tells of a message, with the run of the row.
pub record Saying : Type 0 where
  pub run : Option String
  pub message : String
  pub text : String

-- What a row of a thread says.
abbrev pub said_by : Option String → Content → List Saying
said_by run (assistant_message m text streaming) =
    record { run = run; message = m; text = text } ∷ []
said_by run (approval_request r) = []
said_by run (user_input_request r q) = []
said_by run (error m) = []
said_by run other = []

abbrev pub said_in : List TurnItem → List Saying
said_in [] = []
said_in (i ∷ is) = said_by i.run_id i.content ++ said_in is

-- What an item says: a snapshot all its rows, and a delta its text.
abbrev pub sayings : WatchItem → List Saying
sayings (snapshot sequence p) = said_in p.turn_items
sayings (derived (assistant_delta i m text streaming d)) =
    record { run = i.run_id; message = m; text = text } ∷ []
sayings (derived (requested r)) = []
sayings (derived (request_resolved id)) = []
sayings (derived (turn_settled outcome)) = []
sayings synchronized = []
sayings (event sequence e) = []
sayings decode_error = []
sayings (reconnected sequence) = []

-- Whether a saying is of a message in a run.
abbrev pub is_about : String → Option String → Saying → Bool
is_about id none s = false
is_about id (some run) s = of_run run s.run && same s.message id

module _ (units : String → Text) where
  abbrev pub about : String → Option String → List Saying → List Text
  about id run [] = []
  about id run (s ∷ ss) =
      if is_about id run s then units s.text ∷ about id run ss else about id run ss

  about-append :
      (id : String) (run : Option String) (ss ts : List Saying)
      → about id run (ss ++ ts) ≡ about id run ss ++ about id run ts
  about-append id run [] ts = refl
  about-append id run (s ∷ ss) ts = ground (arith, about-append id run ss ts)

  row-about :
      (id run : String) (row : Option String) (c : Content)
      → of_message id (row_text units (of_run run row) c) ≡ about id (some run) (said_by row c)
  row-about id run row (assistant_message m text streaming) = ground arith
  row-about id run row (approval_request r) = refl
  row-about id run row (user_input_request r q) = refl
  row-about id run row (error m) = refl
  row-about id run row other = refl

  rows-about :
      (id run : String) (is : List TurnItem)
      → of_message id (rows_texts units run is) ≡ about id (some run) (said_in is)
  rows-about id run [] = refl
  rows-about id run (i ∷ is) =
      rw (of_message-append, row-about, rows-about id run is, about-append) refl

  pub item-about :
      (id run : String) (item : WatchItem)
      → of_message id (item_texts units run item) ≡ about id (some run) (sayings item)
  item-about id run (snapshot sequence p) = rows-about id run p.turn_items
  item-about id run (derived (assistant_delta i m text streaming d)) = ground arith
  item-about id run (derived (requested r)) = refl
  item-about id run (derived (request_resolved r)) = refl
  item-about id run (derived (turn_settled outcome)) = refl
  item-about id run synchronized = refl
  item-about id run (event sequence e) = refl
  item-about id run decode_error = refl
  item-about id run (reconnected sequence) = refl

  pub about-none : (id : String) (ss : List Saying) → about id none ss ≡ []
  about-none id [] = refl
  about-none id (s ∷ ss) = about-none id ss
