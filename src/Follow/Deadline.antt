-- ===== src/Follow/Deadline.antt =====
-- packages/t3code-cli/src/execution/deadline.ts: `invocationDeadline`, over a clock of whole milliseconds.
-- A round is one timer. Its callback runs as late as the runtime makes it, after the delay and that.
use t3code_client.Prelude.{ℕ, ◌+◌, ◌-◌, min, leb, Option, none, some, List, [], ◌∷◌, if◌then◌else◌}

-- The largest delay that `setTimeout` does not clamp.
abbrev pub max_delay : ℕ
max_delay = 2147483647

-- The delays of the timers that were set, the first one first, and when `expired` was called.
pub record Rounds : Type 0 where
  pub delays : List ℕ
  pub expired : Option ℕ

-- `Math.max(0, Math.min(remaining, 2_147_483_647))`: the subtraction stops at 0.
abbrev pub delay : ℕ → ℕ → ℕ → ℕ
delay started timeout now = min (started + timeout - now) max_delay

abbrev pub then_round : ℕ → Rounds → Rounds
then_round d rest = record rest { delays = d ∷ rest.delays }

-- `schedule`, at the time `now`, with how late each callback runs; after the last of them one timer is
-- set, which has not fired.
unfoldable pub schedule : ℕ → ℕ → ℕ → List ℕ → Rounds
schedule started timeout now [] = record { delays = delay started timeout now ∷ []; expired = none }
schedule started timeout now (late ∷ lates) =
    let d = delay started timeout now in
    let rest = schedule started timeout (now + d + late) lates in
    if leb (started + timeout) (now + d + late)
    then record { delays = d ∷ []; expired = some (now + d + late) }
    else then_round d rest
