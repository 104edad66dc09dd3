-- ===== src/Rpc/Ids.antt =====
-- An id for each request, in unary, for the tests.
use Prim.Native.String.{◌∷◌}
use text.Mathlib.TextLemmas.{tail-eq_of_cons-eq, cons≢nil}
use t3code_client.Prelude.{ℕ, zero, suc, String, ◌≡◌, refl, ap, sym, ◌+◌, ◌*◌, arith}
use t3code_client.Rpc.State.{Owner, of_call, of_stream}

unfoldable pub unary : ℕ → String
unary zero = ""
unary (suc n) = "1" ∷ unary n

unary-injective : (m n : ℕ) → unary m ≡ unary n → m ≡ n
unfolding unary
unary-injective zero zero e = refl
unary-injective zero (suc n) e = absurd (cons≢nil (sym e))
unary-injective (suc m) zero e = absurd (cons≢nil e)
unary-injective (suc m) (suc n) e = ap suc (unary-injective m n (tail-eq_of_cons-eq e))

-- Calls have the even ids, and streams the odd ones.
unfoldable pub next_id : Owner → String
next_id (of_call t) = unary (2 * t)
next_id (of_stream h) = unary (1 + 2 * h)

pub next_id-injective : (a b : Owner) → next_id a ≡ next_id b → a ≡ b
unfolding next_id
next_id-injective (of_call t) (of_call u) e =
    ap of_call (omega (arith, unary-injective (2 * t) (2 * u) e))
next_id-injective (of_call t) (of_stream h) e =
    absurd (omega (arith, unary-injective (2 * t) (1 + 2 * h) e))
next_id-injective (of_stream h) (of_call t) e =
    absurd (omega (arith, unary-injective (1 + 2 * h) (2 * t) e))
next_id-injective (of_stream h) (of_stream k) e =
    ap of_stream (omega (arith, unary-injective (1 + 2 * h) (1 + 2 * k) e))
