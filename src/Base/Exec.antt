-- ===== src/Base/Exec.antt =====
-- Code that mutates a state and may raise: the state as it stood at the `raise` is kept.
use mathlib.Core.Path.{◌≡◌, refl, ap, ◌∙◌}
use mathlib.Core.Logic.{◌⊎◌, inl, inr}
use native.Mathlib.Omega.{arith}
use mathlib.Core.Bool.{Bool, true, false}

-- What a call that may raise `E` comes back with.
pub data Result {ℓ κ} (E : Type ℓ) (A : Type κ) : Type (ℓ ⊔ κ) where
  ok : A → Result E A
  err : E → Result E A

pub Result-cases {ℓ κ} :
    {E : Type ℓ} {A : Type κ} (r : Result E A) → ((a : A) × (r ≡ ok a)) ⊎ ((e : E) × (r ≡ err e))
Result-cases (ok a) = inl (a, refl)
Result-cases (err e) = inr (e, refl)

value_or : {E A : Type 0} → A → Result E A → A
value_or a (ok b) = b
value_or a (err e) = a

pub ok_injective : {E A : Type 0} {a b : A} → Path (Result E A) (ok a) (ok b) → a ≡ b
unfolding value_or
ok_injective {a} e = ap (value_or a) e

-- An action on a state `S`.
abbrev pub Exec : Type 0 → Type 0 → Type 0 → Type 0
Exec E S A = S → Result E A × S

module _ {E S : Type 0} where
  abbrev pub pure : {A : Type 0} → A → Exec E S A
  pure a s = (ok a, s)

  abbrev pub raise : {A : Type 0} → E → Exec E S A
  raise e s = (err e, s)

  abbrev pub modify : (S → S) → Exec E S (Unit {0})
  modify f s = (ok tt, f s)

  abbrev pub gets : {A : Type 0} → (S → A) → Exec E S A
  gets f s = (ok (f s), s)

  -- A computation that may raise, and changes nothing.
  abbrev pub reads : {A : Type 0} → (S → Result E A) → Exec E S A
  reads f s = (f s, s)

  -- if not b: raise e
  abbrev pub guard : Bool → E → Exec E S (Unit {0})
  guard true e s = (ok tt, s)
  guard false e s = (err e, s)

  infixl 5 ◌>>=◌ ◌>>◌
  abbrev pub and_then : {A B : Type 0} → Result E A × S → (A → Exec E S B) → Result E B × S
  and_then (ok a, s) f = f a s
  and_then (err e, s) f = (err e, s)

  abbrev pub ◌>>=◌ : {A B : Type 0} → Exec E S A → (A → Exec E S B) → Exec E S B
  ◌>>=◌ m f s = and_then (m s) f

  abbrev pub ◌>>◌ : {B : Type 0} → Exec E S (Unit {0}) → Exec E S B → Exec E S B
  ◌>>◌ m k s = and_then (m s) (λ _. k)

  pub and_then-eq_ok :
      {A B : Type 0} (r : Result E A × S) (f : A → Exec E S B) (a : A)
      → r.0 ≡ ok a
      → and_then r f ≡ f a r.1
  and_then-eq_ok (ok b, s) f a e = ground arith
  and_then-eq_ok (err x, s) f a e = cc

  -- A chain that returns got there through a first call that returned.
  pub and_then_returns :
      {A B : Type 0} (r : Result E A × S) (f : A → Exec E S B) (b : B)
      → (and_then r f).0 ≡ ok b
      → (a : A) × ((r ≡ (ok a, r.1)) × ((f a r.1).0 ≡ ok b))
  and_then_returns (ok a, s) f b e = (a, (refl, e))
  and_then_returns (err x, s) f b e = cc

  pub guard_passes : (b : Bool) (e : E) (s : S) → (guard b e s).0 ≡ ok tt → b ≡ true
  guard_passes true e s passes = refl
  guard_passes false e s passes = cc

  -- What holds whenever the rest of a chain returns holds when the chain returns.
  pub and_then_after :
      {A B : Type 0} (Q : S → Type 0) (r : Result E A × S) (f : A → Exec E S B) (b : B)
      → ((a : A) (s : S) → (f a s).0 ≡ ok b → Q (f a s).1)
      → (and_then r f).0 ≡ ok b
      → Q (and_then r f).1
  and_then_after Q (ok a, s) f b rest e = rest a s e
  and_then_after Q (err x, s) f b rest e = cc

  -- The same, of the state and the value that the first call comes back with.
  pub and_then_follow :
      {A B : Type 0} (Q : S → Type 0) (r : Result E A × S) (f : A → Exec E S B) (b : B)
      → ((a : A) → r.0 ≡ ok a → (f a r.1).0 ≡ ok b → Q (f a r.1).1)
      → (and_then r f).0 ≡ ok b
      → Q (and_then r f).1
  and_then_follow Q (ok a, s) f b rest e = rest a refl e
  and_then_follow Q (err x, s) f b rest e = cc

  -- The same for a check.
  pub guard_follow :
      {B : Type 0} (Q : S → Type 0) (test : Bool) (e : E) (s : S) (f : Unit {0} → Exec E S B)
      (b : B)
      → (test ≡ true → (f tt s).0 ≡ ok b → Q (f tt s).1)
      → (and_then (guard test e s) f).0 ≡ ok b
      → Q (and_then (guard test e s) f).1
  guard_follow Q true e s f b rest returned = rest refl returned
  guard_follow Q false e s f b rest returned = cc

  -- A chain whose parts keep a state keeps it.
  pub and_then_keeps :
      {A B : Type 0} (s : S) (r : Result E A × S) (f : A → Exec E S B)
      → r.1 ≡ s
      → ((a : A) (t : S) → (f a t).1 ≡ t)
      → (and_then r f).1 ≡ s
  and_then_keeps s (ok a, t) f kept rest = rest a t ∙ kept
  and_then_keeps s (err x, t) f kept rest = kept

  -- What each part keeps, the chain keeps, also where it raises.
  pub and_then_holds :
      {A B : Type 0} (Q : S → Type 0) (r : Result E A × S) (f : A → Exec E S B)
      → Q r.1
      → ((a : A) (t : S) → Q t → Q (f a t).1)
      → Q (and_then r f).1
  and_then_holds Q (ok a, t) f holds rest = rest a t holds
  and_then_holds Q (err x, t) f holds rest = holds
