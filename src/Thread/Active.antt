-- ===== src/Thread/Active.antt =====
-- The run that an interrupt targets.
use t3code_client.Prelude.{
  ℕ, leb, ltb, Bool, true, false, not, ◌&&◌, ◌||◌, Option, none, some, List, [], ◌∷◌, ◌++◌, all,
  if◌then◌else◌, ◌≡◌, refl, ap, sym, subst, ◌∙◌, arith, append_assoc, append-nil,
}
use t3code_client.Thread.Records.{Run, Projection}
use t3code_client.Thread.Derived.{is_interruptible, is_above, active_run_from, active_run}

module _ {A : Type 0} where
  all-append : (p : A → Bool) (xs ys : List A) → all p (xs ++ ys) ≡ all p xs && all p ys
  all-append p [] ys = refl
  all-append p (x ∷ xs) ys = ground (arith, all-append p xs ys)

  all-weaken :
      (p q : A → Bool) (xs : List A)
      → ((x : A) → p x ≡ true → q x ≡ true)
      → all p xs ≡ true
      → all q xs ≡ true
  all-weaken p q [] h a = refl
  all-weaken p q (x ∷ xs) h a = ground (arith, h x, all-weaken p q xs h)

abbrev pub idle : Run → Bool
idle r = not (is_interruptible r)

abbrev pub at_most : ℕ → Run → Bool
at_most n r = idle r || leb r.ordinal n

abbrev pub less_than : ℕ → Run → Bool
less_than n r = idle r || ltb r.ordinal n

-- None, where no run is interruptible; otherwise the first of the interruptible runs with the highest
-- ordinal.
abbrev pub Highest : List Run → Option Run → Type 0
Highest runs none = all idle runs ≡ true
Highest runs (some r) =
    (before : List Run) × (after : List Run) × (runs ≡ before ++ r ∷ after)
    × (is_interruptible r ≡ true)
    × (all (less_than r.ordinal) before ≡ true)
    × (all (at_most r.ordinal) after ≡ true)

skips :
    (seen : List Run) (best : Option Run) (run : Run)
    → (is_interruptible run && is_above run best) ≡ false
    → Highest seen best
    → Highest (seen ++ run ∷ []) best
skips seen none run h a = ground (arith, all-append idle seen (run ∷ []), h, a)
skips seen (some r) run h (before, after, split, live, lower, upper) = (
  before,
  after ++ run ∷ [],
  ap (λ xs. xs ++ run ∷ []) split ∙ append_assoc before (r ∷ after) (run ∷ []),
  live,
  lower,
  ground (arith, all-append (at_most r.ordinal) after (run ∷ []), upper, h),
)

takes :
    (seen : List Run) (best : Option Run) (run : Run)
    → is_interruptible run ≡ true
    → is_above run best ≡ true
    → Highest seen best
    → Highest (seen ++ run ∷ []) (some run)
takes seen none run live above a = (
  seen,
  [],
  refl,
  live,
  all-weaken idle (less_than run.ordinal) seen (λ x h. ground (arith, h)) a,
  refl,
)
takes seen (some r) run live above (before, after, split, live_r, lower, upper) = (
  seen,
  [],
  refl,
  live,
  ap (all (less_than run.ordinal)) split
      ∙ all-append (less_than run.ordinal) before (r ∷ after)
      ∙ ground (
        arith,
        all-weaken (less_than r.ordinal) (less_than run.ordinal) before
            (λ x h. ground (arith, h, above)) lower,
        all-weaken (at_most r.ordinal) (less_than run.ordinal) after
            (λ x h. ground (arith, h, above)) upper,
        above,
      ),
  refl,
)

pick :
    (b : Bool) (runs : List Run) (x y : Option Run)
    → (b ≡ true → Highest runs x)
    → (b ≡ false → Highest runs y)
    → Highest runs (if b then x else y)
pick true runs x y h k = h refl
pick false runs x y h k = k refl

active_run_from-Highest :
    (seen : List Run) (best : Option Run) (runs : List Run)
    → Highest seen best
    → Highest (seen ++ runs) (active_run_from best runs)
unfolding active_run_from
active_run_from-Highest seen best [] a = subst (λ xs. Highest xs best) (sym (append-nil seen)) a
active_run_from-Highest seen best (run ∷ runs) a =
    let next = if is_interruptible run && is_above run best then some run else best in
    subst (λ xs. Highest xs (active_run_from next runs)) (append_assoc seen (run ∷ []) runs)
      (active_run_from-Highest (seen ++ run ∷ []) next runs (
        pick (is_interruptible run && is_above run best) (seen ++ run ∷ []) (some run) best
          (λ h. takes seen best run (ground (arith, h)) (ground (arith, h)) a)
          (λ h. skips seen best run h a)))

-- The active run of a projection is the first of its preparing, starting, running and waiting runs
-- with the highest ordinal, and where there is none, no run is any of these.
pub active_run-Highest : (p : Projection) → Highest p.runs (active_run p)
unfolding active_run
active_run-Highest p = active_run_from-Highest [] none p.runs refl
