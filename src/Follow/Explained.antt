-- ===== src/Follow/Explained.antt =====
-- Why the race of a command that follows a run ends.
use t3code_client.Prelude.{
  String, Bool, true, false, not, Bool-cases, Option-cases, Option, none, some, is_some, List, [],
  ◌∷◌, all, keep, same_iff, ◌≡◌, ◌≢◌, refl, ◌⊎◌, inl, inr, arith,
}
use t3code_client.Json.{Json}
use t3code_client.Errors.{T3Error}
use t3code_client.Thread.Records.{Link}
use t3code_client.Thread.Derived.{PendingRequest, TurnOutcome, Sign}
use t3code_client.Thread.Tracker.{has}
use t3code_client.Thread.Watch.{WatchItem}
use t3code_client.Proxy.Units.{Text}
use t3code_client.Follow.Observation.{FollowTarget, Observation, set_outcome}
use t3code_client.Follow.Told.{Told, set_outcome-Told, observe-Told}
use t3code_client.Follow.Run.{
  FollowPolicy, Follower, Ending, terminal, pending, deadline, signal, fails_with, Step, goes, ends,
  then_goes, RunEvent, receives, closes, resolves, rejects, expires, interrupts, is_unanswered,
  answer_all, answer, is_unresolved, pends, hold_up, after_answers, is_over, go_on, watch_over,
  observed, on_run_event, race,
}

-- A command ends as terminal where it has an outcome or there is no run, and as pending where its policy
-- is to fail on requests and there are some, none of which it has answered.
abbrev pub Explained : FollowPolicy → Follower → Ending → Type 0
Explained policy f terminal =
    (f.observation.state ≡ "idle") ⊎ ((out : TurnOutcome) × (f.observation.outcome ≡ some out))
Explained policy f pending =
    (policy.fails ≡ true)
    × (f.observation.pending_requests ≢ [])
    × (all (λ r. not (has r.request.id f.answered)) f.observation.pending_requests ≡ true)
Explained policy f deadline = Unit
Explained policy f signal = Unit
Explained policy f (fails_with e) = Unit

-- What holds after a step.
abbrev pub StepHolds : FollowPolicy → Step → Type 0
StepHolds policy (goes f) = Told f.observation
StepHolds policy (ends f x) = Told f.observation × Explained policy f x

answer_all-observation :
    (accept : Bool) (throws : String → Option T3Error) (rs : List PendingRequest) (f : Follower)
    → (answer_all accept throws rs f).0.observation ≡ f.observation
unfolding answer_all
answer_all-observation accept throws [] f = refl
answer_all-observation accept throws (r ∷ rs) f = elim (Bool-cases (is_unanswered f.answered r)) [
  | inl new ↦ elim (Option-cases (throws r.request.id)) [
    | inl accepted ↦ rw (answer_all, new, accepted) (answer_all-observation accept throws rs _)
    | inr (e, failed) ↦ rw (answer_all, new, failed) refl
  ]
  | inr done ↦ rw (answer_all, done) (answer_all-observation accept throws rs f)
]

unresolved_unanswered :
    (answered : List String) (rs : List PendingRequest)
    → all (λ r. not (has r.request.id answered)) (keep (is_unresolved answered) rs) ≡ true
unresolved_unanswered answered [] = refl
unresolved_unanswered answered (r ∷ rs) = elim (Bool-cases (is_unresolved answered r)) [
  | inl hit ↦ rw hit (ground (arith, hit, unresolved_unanswered answered rs))
  | inr miss ↦ rw miss (unresolved_unanswered answered rs)
]

hold_up-Holds :
    (policy : FollowPolicy) (fails : Bool) (f : Follower)
    → policy.fails ≡ fails
    → Told f.observation
    → StepHolds policy (hold_up fails f)
hold_up-Holds policy false f e t = t
hold_up-Holds policy true f e t =
    pends_holds (keep (is_unresolved f.answered) f.observation.pending_requests)
      (unresolved_unanswered f.answered f.observation.pending_requests)
  where
    pends_holds :
        (rs : List PendingRequest)
        → all (λ r. not (has r.request.id f.answered)) rs ≡ true
        → StepHolds policy (pends f rs)
    pends_holds [] h = t
    pends_holds (r ∷ rs) h =
        (record { state_of = t.state_of; run_of = t.run_of }, (e, λ absent. cc, h))

after_answers-Holds :
    (policy : FollowPolicy) (f : Follower) (thrown : Option T3Error)
    → Told f.observation
    → StepHolds policy (after_answers policy (f, thrown))
after_answers-Holds policy f (some e) t = (t, tt)
after_answers-Holds policy f none t = hold_up-Holds policy policy.fails f refl t

answer-Told :
    (approve : Option Bool) (throws : String → Option T3Error) (f : Follower)
    → Told f.observation
    → Told (answer approve throws f).0.observation
answer-Told none throws f t = t
answer-Told (some accept) throws f t =
    rw (answer_all-observation accept throws f.observation.pending_requests f) t

is_over-Explained :
    (policy : FollowPolicy) (f : Follower)
    → is_over f.observation ≡ true
    → Explained policy f terminal
is_over-Explained policy f h = elim (Option-cases f.observation.outcome) [
  | inl absent ↦ inl ((same_iff f.observation.state "idle").0 (ground (arith, h, absent)))
  | inr settled ↦ inr settled
]

go_on-Holds :
    (policy : FollowPolicy) (throws : String → Option T3Error) (f : Follower)
    → Told f.observation
    → StepHolds policy (go_on policy throws f)
unfolding go_on
go_on-Holds policy throws f t = elim (Bool-cases (is_over f.observation)) [
  | inl over ↦ rw over (t, is_over-Explained policy f over)
  | inr more ↦ rw more (after_answers-Holds policy _ _ (answer-Told policy.approve throws f t))
]

some_of : (o : Option TurnOutcome) → is_some o ≡ true → (out : TurnOutcome) × (o ≡ some out)
some_of none h = cc
some_of (some out) h = (out, refl)

watch_over-Holds :
    (policy : FollowPolicy) (f : Follower) → Told f.observation → StepHolds policy (watch_over f)
unfolding watch_over
watch_over-Holds policy f t = elim (Bool-cases (is_some f.observation.outcome)) [
  | inl settled ↦ rw settled (t, inr (some_of f.observation.outcome settled))
  | inr absent ↦ rw absent (t, tt)
]

then_goes-Holds :
    (policy : FollowPolicy) (s : Step) (go : Follower → Step)
    → StepHolds policy s
    → ((f : Follower) → Told f.observation → StepHolds policy (go f))
    → StepHolds policy (then_goes s go)
then_goes-Holds policy (goes f) go h next = next f h
then_goes-Holds policy (ends f x) go h next = h

module _ (legacy_link : Json → Link) (key_string : Link → String)
    (locale_compare : String → String → Sign) (units : String → Text) (method : String)
    (streams : Bool) (target : FollowTarget) (policy : FollowPolicy) where
  observed-Holds :
      (i : WatchItem) (throws : String → Option T3Error) (f : Follower) (o : Option Observation)
      → ((next : Observation) → o ≡ some next → Told next)
      → Told f.observation
      → StepHolds policy (
          observed legacy_link key_string locale_compare units method streams target policy i throws
            f o)
  observed-Holds i throws f none h t = (t, tt)
  observed-Holds i throws f (some o) h t = go_on-Holds policy throws _ (h o refl)

  on_run_event-Holds :
      (e : RunEvent) (f : Follower)
      → Told f.observation
      → StepHolds policy (
          on_run_event legacy_link key_string locale_compare units method streams target policy e f)
  unfolding on_run_event
  on_run_event-Holds (receives i link throws) f t =
      observed-Holds i throws f _
        (λ next h.
          observe-Told legacy_link key_string locale_compare target i link f.observation next h t)
        t
  on_run_event-Holds closes f t = watch_over-Holds policy f t
  on_run_event-Holds (resolves outcome) f t =
      (set_outcome-Told outcome f.observation, inr (outcome, unfold set_outcome in refl))
  on_run_event-Holds (rejects e) f t = (t, tt)
  on_run_event-Holds expires f t = (t, tt)
  on_run_event-Holds interrupts f t = (t, tt)

  pub race-Holds :
      (es : List RunEvent) (f : Follower)
      → Told f.observation
      → StepHolds policy
          (race legacy_link key_string locale_compare units method streams target policy es f)
  unfolding race
  race-Holds [] f t = t
  race-Holds (e ∷ es) f t = then_goes-Holds policy _ _ (on_run_event-Holds e f t) (race-Holds es)
