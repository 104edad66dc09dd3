-- ===== src/Follow/Expiry.antt =====
-- The deadline of a command: when it expires, and after how many timers.
use t3code_client.Prelude.{
  Option, none, ℕ, ◌+◌, ◌*◌, ◌≤◌, ◌<◌, max, leb→le, leb, Bool-cases, false, some, List, [], ◌∷◌,
  length, ◌≡◌, refl, inl, inr, arith,
}
use t3code_client.Follow.Deadline.{max_delay, delay, schedule}

-- All of the list are at most a number.
abbrev pub AtMost : ℕ → List ℕ → Type 0
AtMost n [] = Unit
AtMost n (d ∷ ds) = (d ≤ n) × AtMost n ds

-- If the deadline expires, then by a time.
abbrev pub ExpiresBy : ℕ → Option ℕ → Type 0
ExpiresBy bound none = Unit
ExpiresBy bound (some t) = t ≤ bound

ExpiresBy-weaken : (m n : ℕ) (t : Option ℕ) → m ≤ n → ExpiresBy m t → ExpiresBy n t
ExpiresBy-weaken m n none h b = tt
ExpiresBy-weaken m n (some t) h b = omega arith

module _ (started timeout : ℕ) where
  -- A timer that fires too early had the largest delay.
  early :
      (now late : ℕ)
      → leb (started + timeout) (now + delay started timeout now + late) ≡ false
      → (delay started timeout now ≡ max_delay) × (now + max_delay + late < started + timeout)
  early now late h = ground arith

  -- The deadline expires, however late the timers fire, when as many fired as the time that remains
  -- takes in steps of the largest delay, and at least one; and not before the timeout.
  pub schedule_expires :
      (now late : ℕ) (lates : List ℕ)
      → started + timeout ≤ now + max_delay * length (late ∷ lates)
      → (t : ℕ) × ((schedule started timeout now (late ∷ lates)).expired ≡ some t)
        × (started + timeout ≤ t)
  unfolding schedule
  schedule_expires now late [] h =
      elim (Bool-cases (leb (started + timeout) (now + delay started timeout now + late))) [
        | inl hit ↦ (now + delay started timeout now + late, rw hit refl, leb→le _ _ hit)
        | inr miss ↦ absurd (let (d, before) = early now late miss in omega arith)
      ]
  schedule_expires now late (l ∷ ls) h =
      elim (Bool-cases (leb (started + timeout) (now + delay started timeout now + late))) [
        | inl hit ↦ (now + delay started timeout now + late, rw hit refl, leb→le _ _ hit)
        | inr miss ↦
            let (d, before) = early now late miss in
            let (t, at, after) =
              schedule_expires (now + delay started timeout now + late) l ls (rw d (omega arith)) in
            (t, rw miss at, after)
      ]

  -- Every delay is one that the runtime does not clamp, and where no callback runs later than `slack`
  -- after its delay, the deadline expires at most `slack` after the timeout, or after now.
  pub schedule-AtMost :
      (now slack : ℕ) (lates : List ℕ)
      → AtMost slack lates
      → AtMost max_delay (schedule started timeout now lates).delays
        × ExpiresBy
            (max now (started + timeout) + slack)
            (schedule started timeout now lates).expired
  unfolding schedule
  schedule-AtMost now slack [] h = ((omega arith, tt), tt)
  schedule-AtMost now slack (late ∷ lates) (h, hs) =
      elim (Bool-cases (leb (started + timeout) (now + delay started timeout now + late))) [
        | inl hit ↦ rw hit ((omega arith, tt), omega arith)
        | inr miss ↦
            let (d, before) = early now late miss in
            let (clamped, bound) =
              schedule-AtMost (now + delay started timeout now + late) slack lates hs in
            rw miss ((omega arith, clamped), ExpiresBy-weaken _ _ _ (omega arith) bound)
      ]
