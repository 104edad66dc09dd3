-- ===== src/Prelude/Dict.antt =====
-- A JavaScript `Map` with texts as keys: its entries in the order of insertion. `set` keeps the
-- place of a key that is there.
use Prim.Native.String.{String}
use mathlib.Core.Path.{◌≡◌, refl}
use mathlib.Core.Logic.{inl, inr}
use mathlib.Core.Option.{Option, none, some}
use mathlib.Core.List.{List, [], ◌∷◌}
use native.Mathlib.Omega.{arith}
use t3code_client.Prelude.Tests.{if◌then◌else◌, Bool-cases}
use t3code_client.Prelude.Text.{same, same_iff}

module _ {ℓ} {V : Type ℓ} where
  unfoldable pub lookup : String → List (String × V) → Option V
  lookup k [] = none
  lookup k ((j, v) ∷ m) = if same j k then some v else lookup k m

  unfoldable pub insert : String → V → List (String × V) → List (String × V)
  insert k v [] = (k, v) ∷ []
  insert k v ((j, w) ∷ m) = if same j k then (k, v) ∷ m else (j, w) ∷ insert k v m

  unfoldable pub delete : String → List (String × V) → List (String × V)
  delete k [] = []
  delete k ((j, v) ∷ m) = if same j k then delete k m else (j, v) ∷ delete k m

  pub lookup-insert :
      (k j : String) (v : V) (m : List (String × V))
      → lookup j (insert k v m) ≡ (if same k j then some v else lookup j m)
  unfolding lookup insert
  lookup-insert k j v [] = refl
  lookup-insert k j v ((i, w) ∷ m) =
      ground (arith, same_iff k j, same_iff i k, same_iff i j, lookup-insert k j v m)

  pub lookup-delete :
      (k j : String) (m : List (String × V))
      → lookup j (delete k m) ≡ (if same k j then none else lookup j m)
  unfolding lookup delete
  lookup-delete k j [] = ground arith
  lookup-delete k j ((i, w) ∷ m) =
      ground (arith, same_iff k j, same_iff i k, same_iff i j, lookup-delete k j m)

  -- Each key stands once.
  abbrev pub Unique : List (String × V) → Type ℓ
  Unique [] = Unit
  Unique ((k, v) ∷ m) = (lookup k m ≡ none) × Unique m

  pub insert-Unique :
      (k : String) (v : V) (m : List (String × V)) → Unique m → Unique (insert k v m)
  unfolding insert
  insert-Unique k v [] u = (lookup_nil, tt)
    where
      lookup_nil : lookup k [] ≡ none
      lookup_nil = unfold lookup in refl
  insert-Unique k v ((j, w) ∷ m) u = elim (Bool-cases (same j k)) [
    | inl hit ↦ ground (arith, (same_iff j k).0 hit)
    | inr miss ↦
        ground
          (arith, miss, same_iff k j, same_iff j k, lookup-insert k j v m, insert-Unique k v m u.1)
  ]

  pub delete-Unique : (k : String) (m : List (String × V)) → Unique m → Unique (delete k m)
  unfolding delete
  delete-Unique k [] u = tt
  delete-Unique k ((j, w) ∷ m) u = elim (Bool-cases (same j k)) [
    | inl hit ↦ ground (arith, hit, delete-Unique k m u.1)
    | inr miss ↦
        ground (arith, miss, same_iff k j, same_iff j k, lookup-delete k j m, delete-Unique k m u.1)
  ]

  pub delete_absent : (k : String) (m : List (String × V)) → lookup k m ≡ none → delete k m ≡ m
  unfolding lookup delete
  delete_absent k [] h = refl
  delete_absent k ((j, w) ∷ m) h = ground (arith, delete_absent k m)
