-- ===== src/Base/Dict.antt =====
-- Python's `dict` with string keys, as an association list. No property here depends on the order
-- in which a dictionary is iterated.
use Prim.Native.String.{String}
use mathlib.Core.Path.{◌≡◌, refl, ap}
use mathlib.Core.Logic.{inl, inr}
use text.Mathlib.TextPositions.{eq_refl}
use mathlib.Core.Bool.{Bool, true, false}
use mathlib.Core.Option.{Option, none, some}
use mathlib.Core.List.{List, [], ◌∷◌}
use native.Mathlib.Omega.{arith}
use text.Mathlib.Text.{◌==◌}
use text.Mathlib.TextEquality.{eq_iff}
use mcvirt.Base.Tests.{if◌then◌else◌, Bool-cases}

abbrev pub Dict {ℓ} : Type ℓ → Type ℓ
Dict V = List (String × V)

module _ {ℓ} {V : Type ℓ} where
  -- d.get(k)
  unfoldable pub lookup : String → Dict V → Option V
  lookup k [] = none
  lookup k ((j, v) ∷ d) = if j == k then some v else lookup k d

  -- d[k] = v
  unfoldable pub insert : String → V → Dict V → Dict V
  insert k v [] = (k, v) ∷ []
  insert k v ((j, w) ∷ d) = if j == k then (k, v) ∷ d else (j, w) ∷ insert k v d

  -- del d[k], of a key that is present
  unfoldable pub delete : String → Dict V → Dict V
  delete k [] = []
  delete k ((j, v) ∷ d) = let rest = delete k d in if j == k then rest else (j, v) ∷ rest

  -- d.keys()
  unfoldable pub keys : Dict V → List String
  keys [] = []
  keys ((k, _) ∷ d) = k ∷ keys d

  pub lookup-insert :
      (k j : String) (v : V) (d : Dict V)
      → lookup j (insert k v d) ≡ (if k == j then some v else lookup j d)
  unfolding lookup insert
  lookup-insert k j v [] = refl
  lookup-insert k j v ((i, w) ∷ d) =
      ground (arith, eq_iff k j, eq_iff i k, eq_iff i j, lookup-insert k j v d)

  pub lookup-delete :
      (k j : String) (d : Dict V) → lookup j (delete k d) ≡ (if k == j then none else lookup j d)
  unfolding lookup delete
  lookup-delete k j [] = ground arith
  lookup-delete k j ((i, w) ∷ d) =
      ground (arith, eq_iff k j, eq_iff i k, eq_iff i j, lookup-delete k j d)

  -- Writing back what a key held undoes a write.
  pub insert-insert :
      (k : String) (v w : V) (d : Dict V) → lookup k d ≡ some v → insert k v (insert k w d) ≡ d
  unfolding lookup insert
  insert-insert k v w [] found = ground arith
  insert-insert k v w ((j, x) ∷ d) found = elim (Bool-cases (j == k)) [
    | inl same ↦ ground (arith, eq_iff j k, eq_refl k)
    | inr other ↦
        rw (other, insert)
          (rw other (ap (λ rest. (j, x) ∷ rest) (insert-insert k v w d (ground arith))))
  ]

-- k in d
abbrev pub has {ℓ} : {V : Type ℓ} → String → Dict V → Bool
has k d = elim (lookup k d) [ none ↦ false | some _ ↦ true ]

pub ruleset dict_laws = (lookup-insert, lookup-delete)
