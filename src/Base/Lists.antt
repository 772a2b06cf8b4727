-- ===== src/Base/Lists.antt =====
-- Python's lists: membership, `remove`, length and predicates on all elements.
use Prim.Native.Nat.{ℕ, zero, suc, ◌+◌}
use Prim.Native.String.{String}
use mathlib.Core.Path.{◌≡◌, refl, ap}
use mathlib.Core.Logic.{inl, inr}
use text.Mathlib.TextPositions.{eq_refl}
use mathlib.Core.Bool.{Bool, true, false, ◌||◌}
use mathlib.Core.List.{List, [], ◌∷◌, ◌++◌}
use mathlib.Core.Option.{Option, none, some}
use native.Mathlib.Omega.{arith}
use text.Mathlib.Text.{◌==◌}
use mcvirt.Base.Tests.{nat_eq, if◌then◌else◌, Bool-cases}

module _ {ℓ} {A : Type ℓ} where
  abbrev pub length : List A → ℕ
  length [] = 0
  length (x ∷ xs) = suc (length xs)

  abbrev pub get_elem? : List A → ℕ → Option A
  get_elem? [] i = none
  get_elem? (x ∷ xs) zero = some x
  get_elem? (x ∷ xs) (suc i) = get_elem? xs i

  abbrev pub All {κ} : (A → Type κ) → List A → Type κ
  All P [] = Unit
  All P (x ∷ xs) = P x × All P xs

  unfoldable pub filter : (A → Bool) → List A → List A
  filter p [] = []
  filter p (x ∷ xs) = let rest = filter p xs in if p x then x ∷ rest else rest

  pub length-append : (xs ys : List A) → length (xs ++ ys) ≡ length xs + length ys
  length-append [] ys = omega arith
  length-append (x ∷ xs) ys = omega (arith, length-append xs ys)

-- s in l
unfoldable pub contains : List String → String → Bool
contains [] s = false
contains (x ∷ xs) s = x == s || contains xs s

-- l.remove(s), of an element that is present: only the first occurrence goes
unfoldable pub remove : List String → String → List String
remove [] s = []
remove (x ∷ xs) s = if x == s then xs else x ∷ remove xs s

-- how often s stands in l
unfoldable pub count : List String → String → ℕ
count [] s = 0
count (x ∷ xs) s = if x == s then suc (count xs s) else count xs s

pub contains-append :
    (xs ys : List String) (s : String) → contains (xs ++ ys) s ≡ (contains xs s || contains ys s)
unfolding contains
contains-append [] ys s = refl
contains-append (x ∷ xs) ys s = ground (arith, contains-append xs ys s)

pub count-append : (xs ys : List String) (s : String) → count (xs ++ ys) s ≡ count xs s + count ys s
unfolding count
count-append [] ys s = omega arith
count-append (x ∷ xs) ys s = ground (arith, count-append xs ys s)

-- l.remove(x) by identity
unfoldable pub remove_ref : List ℕ → ℕ → List ℕ
remove_ref [] x = []
remove_ref (y ∷ l) x = if nat_eq y x then l else y ∷ remove_ref l x

-- x in l by identity
unfoldable pub mem_ref : List ℕ → ℕ → Bool
mem_ref [] x = false
mem_ref (y ∷ l) x = if nat_eq y x then true else mem_ref l x

pub append_nil : {A : Type 0} (xs : List A) → xs ++ [] ≡ xs
append_nil [] = refl
append_nil (x ∷ xs) = ap (λ ys. x ∷ ys) (append_nil xs)

pub remove_fresh :
    (xs rest : List String) (p : String)
    → contains xs p ≡ false
    → remove (xs ++ (p ∷ rest)) p ≡ xs ++ rest
unfolding contains remove
remove_fresh [] rest p e = ground (arith, eq_refl p)
remove_fresh (x ∷ xs) rest p e = elim (Bool-cases (x == p)) [
  | inl same ↦ ground arith
  | inr other ↦ rw other (ap (λ l. x ∷ l) (remove_fresh xs rest p (ground arith)))
]
