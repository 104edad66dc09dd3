-- ===== src/Follow/Codes.antt =====
-- What the exit codes of a command that follows a run say.
use t3code_client.Prelude.{
  ℕ, zero, suc, if◌then◌else◌, String, Bool, true, false, not, ◌&&◌, Bool-cases, Option, none, some,
  List, same, same_iff, ◌≡◌, ◌≢◌, refl, sym, subst, ◌∙◌, ◌⊎◌, inl, inr, arith,
}
use t3code_client.Json.{Json}
use t3code_client.Errors.{
  T3Error, storage, http, auth_invalid, insufficient_scope, not_found, rpc, rpc_defect, connection,
  decode, precondition, interrupted, timeout,
}
use t3code_client.Thread.Records.{Link}
use t3code_client.Thread.Derived.{TurnOutcome, Sign}
use t3code_client.Proxy.Units.{Text}
use t3code_client.Follow.Exit.{
  ErrorContext, local, connecting, dispatch, run_detach, run_interrupt, exit_code_for,
  exit_code_for_state,
}
use t3code_client.Follow.Observation.{FollowTarget, Observation}
use t3code_client.Follow.Told.{Told, new_observation-Told}
use t3code_client.Follow.Explained.{Explained, StepHolds, race-Holds}
use t3code_client.Follow.Run.{
  FollowPolicy, Follower, Ending, terminal, pending, deadline, signal, fails_with, ends, RunEvent,
  no_text, race, new_follower, caught, code_or_caught, settled_code, exit_code,
}

-- Neither the code of success nor that of requests.
abbrev pub IsOther : ℕ → Type 0
IsOther n = (n ≢ 0) × (n ≢ 7)

exit_code_for-IsOther : (e : T3Error) (c : ErrorContext) → IsOther (exit_code_for e c)
unfolding exit_code_for
exit_code_for-IsOther storage c = omega arith
exit_code_for-IsOther (http status reason) c = omega arith
exit_code_for-IsOther auth_invalid c = omega arith
exit_code_for-IsOther (insufficient_scope scope) c = omega arith
exit_code_for-IsOther (not_found reason) c = omega arith
exit_code_for-IsOther (rpc tag failure) c = ground arith
exit_code_for-IsOther (rpc_defect method defect) c = omega arith
exit_code_for-IsOther (connection reason) c = omega arith
exit_code_for-IsOther (decode method) c = omega arith
exit_code_for-IsOther precondition c = omega arith
exit_code_for-IsOther interrupted c = omega arith
exit_code_for-IsOther timeout local = omega arith
exit_code_for-IsOther timeout connecting = omega arith
exit_code_for-IsOther timeout dispatch = omega arith
exit_code_for-IsOther timeout run_detach = omega arith
exit_code_for-IsOther timeout run_interrupt = omega arith

caught-IsOther :
    (signalled : Bool) (e : T3Error) (c : ErrorContext) → IsOther (caught signalled e c)
caught-IsOther true e c = omega arith
caught-IsOther false e c = exit_code_for-IsOther e c

exit_code_for_state_zero :
    (state : String) → exit_code_for_state state ≡ 0 → (state ≡ "completed") ⊎ (state ≡ "idle")
unfolding exit_code_for_state
exit_code_for_state_zero state h = elim (Bool-cases (same state "completed")) [
  | inl completed ↦ inl ((same_iff state "completed").0 completed)
  | inr other ↦ elim (Bool-cases (same state "idle")) [
    | inl idle ↦ inr ((same_iff state "idle").0 idle)
    | inr failed ↦ ground (arith, h, other, failed)
  ]
]

exit_code_for_state_ne : (state : String) → exit_code_for_state state ≢ 7
unfolding exit_code_for_state
exit_code_for_state_ne state = ground arith

abbrev pub Succeeded : Observation → Type 0
Succeeded o =
    (o.state ≡ "idle") ⊎ ((out : TurnOutcome) × (o.outcome ≡ some out) × (out.state ≡ "completed"))

abbrev pub Justified : FollowPolicy → Follower → ℕ → Type 0
Justified policy f code =
    ((code ≡ 0) × Succeeded f.observation)
    ⊎ ((code ≡ 7) × Explained policy f pending)
    ⊎ IsOther code

zero_cases : (n : ℕ) → (n ≡ 0) ⊎ (n ≢ 0)
zero_cases zero = inl refl
zero_cases (suc n) = inr (omega arith)

terminal-Succeeded :
    (policy : FollowPolicy) (f : Follower)
    → Told f.observation
    → Explained policy f terminal
    → exit_code_for_state f.observation.state ≡ 0
    → Succeeded f.observation
terminal-Succeeded policy f t (inl idle) h = inl idle
terminal-Succeeded policy f t (inr (out, settled)) h =
    elim (exit_code_for_state_zero f.observation.state h) [
      | inl completed ↦ inr (out, settled, sym (t.state_of out settled) ∙ completed)
      | inr idle ↦ inl idle
    ]

state-Justified :
    (policy : FollowPolicy) (f : Follower)
    → Told f.observation
    → Explained policy f terminal
    → Justified policy f (exit_code_for_state f.observation.state)
state-Justified policy f t e = elim (zero_cases (exit_code_for_state f.observation.state)) [
  | inl success ↦ inl (success, terminal-Succeeded policy f t e success)
  | inr failure ↦ inr (inr (failure, exit_code_for_state_ne f.observation.state))
]

code_or_caught-Justified :
    (policy : FollowPolicy) (f : Follower) (signalled : Bool) (thrown : Option T3Error)
    (c : ErrorContext) (code : ℕ)
    → Justified policy f code
    → Justified policy f (code_or_caught signalled thrown c code)
code_or_caught-Justified policy f signalled none c code j = j
code_or_caught-Justified policy f signalled (some e) c code j =
    inr (inr (caught-IsOther signalled e c))

settled_code-Justified :
    (policy : FollowPolicy) (signalled : Bool) (reading : Option T3Error) (c : ErrorContext)
    (f : Follower)
    → Justified policy f (exit_code_for_state f.observation.state)
    → Justified policy f (settled_code signalled reading c f.observation)
settled_code-Justified policy signalled reading c f j =
    elim (Bool-cases (not (same f.observation.state "idle") && no_text f.observation.outcome)) [
      | inl reads ↦ rw reads (code_or_caught-Justified policy f signalled reading c _ j)
      | inr told ↦ rw told j
    ]

deadline-IsOther :
    (detaches signalled : Bool) (thrown : Option T3Error)
    → IsOther (
        if detaches
        then if signalled then 4 else 5
        else code_or_caught signalled thrown run_interrupt (if signalled then 4 else 6))
deadline-IsOther true true thrown = omega arith
deadline-IsOther true false thrown = omega arith
deadline-IsOther false true none = omega arith
deadline-IsOther false false none = omega arith
deadline-IsOther false signalled (some e) = caught-IsOther signalled e run_interrupt

exit_code-Justified :
    (policy : FollowPolicy) (signalled : Bool) (stopping reading : Option T3Error)
    (c : ErrorContext) (f : Follower) (x : Ending)
    → Told f.observation
    → Explained policy f x
    → Justified policy f (exit_code policy signalled stopping reading c f x)
unfolding exit_code
exit_code-Justified policy signalled stopping reading c f terminal t e =
    settled_code-Justified policy signalled reading c f (state-Justified policy f t e)
exit_code-Justified policy signalled stopping reading c f pending t e = inr (inl (refl, e))
exit_code-Justified policy signalled stopping reading c f deadline t e =
    inr (inr (deadline-IsOther policy.detaches signalled stopping))
exit_code-Justified policy signalled stopping reading c f signal t e = inr (inr (omega arith))
exit_code-Justified policy signalled stopping reading c f (fails_with e) t h =
    inr (inr (caught-IsOther signalled e c))

module _ (legacy_link : Json → Link) (key_string : Link → String)
    (locale_compare : String → String → Sign) (units : String → Text) (method : String)
    (streams : Bool) (target : FollowTarget) (policy : FollowPolicy) where
  -- When the race of a command is over, its exit code is 0 only where its run completed or there is no
  -- run, and 7 only where its policy is to fail on requests and it has some that it has not answered,
  -- whatever the watch, the turn, the deadline and the signals do, and whatever throws.
  pub race-Justified :
      (link : Option String) (events : List RunEvent) (last : Follower) (x : Ending)
      (signalled : Bool) (stopping reading : Option T3Error) (c : ErrorContext)
      → race legacy_link key_string locale_compare units method streams target policy events
          (new_follower target link)
        ≡ ends last x
      → Justified policy last (exit_code policy signalled stopping reading c last x)
  unfolding new_follower
  race-Justified link events last x signalled stopping reading c h =
      let start = new_follower target link in
      let held =
        race-Holds legacy_link key_string locale_compare units method streams target policy events
          start (new_observation-Told legacy_link key_string locale_compare target link) in
      let (t, e) = subst (StepHolds policy) h held in
      exit_code-Justified policy signalled stopping reading c last x t e
