-- ===== src/Prelude/Text.antt =====
-- Texts that the program only compares: ids, tags and reasons.
use Prim.Native.String.{String}
use mathlib.Core.Path.{◌≡◌}
use mathlib.Core.Logic.{◌↔◌, ◌≢◌}
use mathlib.Core.Bool.{Bool, true, false}
use text.Mathlib.Text.{◌==◌}
use text.Mathlib.TextEquality.{eq_iff}
use native.Mathlib.Omega.{arith}

-- `===` on texts. It stays shut, so that proofs split on it as a plain test.
unfoldable pub same : String → String → Bool
same s t = s == t

pub same_iff : (s t : String) → (same s t ≡ true) ↔ (s ≡ t)
unfolding same
same_iff s t = eq_iff s t

pub same_refl : (s : String) → same s s ≡ true
same_refl s = (same_iff s s).1 (λ i. s)

pub same_ne : (s t : String) → s ≢ t → same s t ≡ false
same_ne s t h = ground (arith, same_iff s t)
