-- ===== src/Follow/Run.antt =====
-- packages/t3code-cli/src/execution/follow.ts: `followRun`, from the opened watch to its result. What the
-- outside does is an event, in the order in which it settles: an answer to an approval is part of the
-- event of its item. The first event that decides wins the race; what comes later changes no exit code.
use t3code_client.Prelude.{
  ℕ, String, Bool, true, false, not, ◌&&◌, ◌||◌, Option, none, some, is_some, List, [], ◌∷◌, ◌++◌,
  keep, same, if◌then◌else◌,
}
use t3code_client.Json.{Json}
use t3code_client.Errors.{T3Error, connection, decode, closed}
use t3code_client.Thread.Records.{Link}
use t3code_client.Thread.Derived.{PendingRequest, TurnOutcome, Sign, is_user_input}
use t3code_client.Thread.Tracker.{has, add}
use t3code_client.Thread.Watch.{WatchItem}
use t3code_client.Proxy.Units.{Text}
use t3code_client.Follow.Exit.{ErrorContext, run_interrupt, exit_code_for, exit_code_for_state}
use t3code_client.Follow.Stream.{FollowStream}
use t3code_client.Follow.Stream as Shows
use t3code_client.Follow.Observation.{
  FollowTarget, Observation, new_observation, set_outcome, message_text, observe,
}

-- `FollowPolicy`, whose timeout is an event: `detaches` is `onTimeout === "detach"`, `fails` is
-- `onRequest === "fail"`, and `approve` whether approvals are accepted.
pub record FollowPolicy : Type 0 where
  pub detaches : Bool
  pub fails : Bool
  pub approve : Option Bool

-- The locals: the observation, the texts that are streamed with their deltas, and the approvals that were
-- answered, with each call of `respondToApproval`, the newest first.
pub record Follower : Type 0 where
  pub observation : Observation
  pub stream : FollowStream
  pub printed : List (String × Text)
  pub answered : List String
  pub responses : List (String × Bool)

-- `Reason`, and what the race rejects with.
pub data Ending : Type 0 where
  terminal pending deadline signal : Ending
  fails_with : T3Error → Ending

pub data Step : Type 0 where
  goes : Follower → Step
  ends : Follower → Ending → Step

abbrev pub then_goes : Step → (Follower → Step) → Step
then_goes (goes f) go = go f
then_goes (ends f x) go = ends f x

-- An item of the watch with the run id of the turn and what answering an approval throws; the end of the
-- watch; the promise of the turn; the deadline; a signal.
pub data RunEvent : Type 0 where
  receives : WatchItem → Option String → (String → Option T3Error) → RunEvent
  closes : RunEvent
  resolves : TurnOutcome → RunEvent
  rejects : T3Error → RunEvent
  expires : RunEvent
  interrupts : RunEvent

unfoldable pub new_follower : FollowTarget → Option String → Follower
new_follower target link = record {
  observation = new_observation target link;
  stream = [];
  printed = [];
  answered = [];
  responses = [];
}

-- A request that is an approval and has no answer yet.
abbrev pub is_unanswered : List String → PendingRequest → Bool
is_unanswered answered r = not (is_user_input r.request) && not (has r.request.id answered)

-- The loop over the open approvals, with what the first answer that fails throws.
unfoldable pub answer_all :
    Bool → (String → Option T3Error) → List PendingRequest → Follower → Follower × Option T3Error
answer_all accept throws [] f = (f, none)
answer_all accept throws (r ∷ rs) f = elim (is_unanswered f.answered r) [
  | false ↦ answer_all accept throws rs f
  | true ↦
      let answering = record f {
        answered = add r.request.id f.answered;
        responses = (r.request.id, accept) ∷ f.responses;
      } in
      elim (throws r.request.id) [
        | some e ↦ (answering, some e)
        | none ↦ answer_all accept throws rs answering
      ]
]

abbrev pub answer : Option Bool → (String → Option T3Error) → Follower → Follower × Option T3Error
answer none throws f = (f, none)
answer (some accept) throws f = answer_all accept throws f.observation.pending_requests f

-- A request that holds the run up.
abbrev pub is_unresolved : List String → PendingRequest → Bool
is_unresolved answered r =
    not (has r.request.id answered) && (not (is_user_input r.request) || is_some r.item)

abbrev pub pends : Follower → List PendingRequest → Step
pends f [] = goes f
pends f (r ∷ rs) =
    ends (record f { observation = record f.observation { pending_requests = r ∷ rs } }) pending

abbrev pub hold_up : Bool → Follower → Step
hold_up false f = goes f
hold_up true f = pends f (keep (is_unresolved f.answered) f.observation.pending_requests)

abbrev pub after_answers : FollowPolicy → Follower × Option T3Error → Step
after_answers policy (f, some e) = ends f (fails_with e)
after_answers policy (f, none) = hold_up policy.fails f

abbrev pub is_over : Observation → Bool
is_over o = is_some o.outcome || same o.state "idle"

-- The body of the loop after `observe`.
unfoldable pub go_on : FollowPolicy → (String → Option T3Error) → Follower → Step
unfolding answer_all
go_on policy throws f =
    if is_over f.observation
    then ends f terminal
    else after_answers policy (answer policy.approve throws f)

-- After the loop.
unfoldable pub watch_over : Follower → Step
watch_over f =
    if is_some f.observation.outcome
    then ends f terminal
    else ends f (fails_with (connection closed))

-- The parameters of the parts, the method of the subscription and `output.stream`.
module _ (legacy_link : Json → Link) (key_string : Link → String)
    (locale_compare : String → String → Sign) (units : String → Text) (method : String)
    (streams : Bool) (target : FollowTarget) (policy : FollowPolicy) where
  abbrev pub showing : WatchItem → Follower → Observation → Follower
  showing i f o =
      let (stream, deltas) = Shows.observe units streams i o.run_id f.stream in
      record f { observation = o; stream = stream; printed = f.printed ++ deltas }

  abbrev pub observed : WatchItem → (String → Option T3Error) → Follower → Option Observation → Step
  observed i throws f none = ends f (fails_with (decode method))
  observed i throws f (some o) = go_on policy throws (showing i f o)

  unfoldable pub on_run_event : RunEvent → Follower → Step
  unfolding go_on watch_over
  on_run_event (receives i link throws) f =
      observed i throws f
        (observe legacy_link key_string locale_compare target i link f.observation)
  on_run_event closes f = watch_over f
  on_run_event (resolves outcome) f =
      ends (record f { observation = set_outcome outcome f.observation }) terminal
  on_run_event (rejects e) f = ends f (fails_with e)
  on_run_event expires f = ends f deadline
  on_run_event interrupts f = ends f signal

  -- `Promise.race`
  unfoldable pub race : List RunEvent → Follower → Step
  unfolding on_run_event
  race [] f = goes f
  race (e ∷ es) f = then_goes (on_run_event e f) (λ next. race es next)

-- The `catch`: a signal decides the code.
abbrev pub caught : Bool → T3Error → ErrorContext → ℕ
caught interrupted e context = if interrupted then 4 else exit_code_for e context

abbrev pub code_or_caught : Bool → Option T3Error → ErrorContext → ℕ → ℕ
code_or_caught interrupted none context code = code
code_or_caught interrupted (some e) context code = caught interrupted e context

-- Where the text of the assistant is read from the server, reading it may throw.
abbrev pub no_text : Option TurnOutcome → Bool
no_text none = true
no_text (some outcome) = not (is_some (message_text outcome.assistant))

abbrev pub settled_code : Bool → Option T3Error → ErrorContext → Observation → ℕ
settled_code interrupted reading context o =
    if not (same o.state "idle") && no_text o.outcome
    then code_or_caught interrupted reading context (exit_code_for_state o.state)
    else exit_code_for_state o.state

-- `result.exitCode`, with whether a signal came, what interrupting the run and reading the conversation
-- throw, and `invocation.errorContext` before the race.
unfoldable pub exit_code :
    FollowPolicy → Bool → Option T3Error → Option T3Error → ErrorContext → Follower → Ending → ℕ
unfolding exit_code_for exit_code_for_state
exit_code policy interrupted stopping reading context f terminal =
    settled_code interrupted reading context f.observation
exit_code policy interrupted stopping reading context f pending = 7
exit_code policy interrupted stopping reading context f signal = 4
exit_code policy interrupted stopping reading context f (fails_with e) =
    caught interrupted e context
exit_code policy interrupted stopping reading context f deadline =
    if policy.detaches
    then if interrupted then 4 else 5
    else code_or_caught interrupted stopping run_interrupt (if interrupted then 4 else 6)
