-- ===== src/Rpc/Transaction/Drain.antt =====
-- The loops of `set_complete` in mcvirt/rpc/expose_method.py that remove from the list that they run
-- over.
use mcvirt.Base.{
  ℕ, zero, suc, ◌≤◌, ◌≡◌, refl, sym, ap, ◌∙◌, ◌≢◌, List, [], ◌∷◌, ◌++◌, none, some, arith,
}
use mathlib.Core.List.{append_assoc}
use mcvirt.Base.Lists.{length, get_elem?}
use mcvirt.Rpc.Transaction.{drain_from, drain}
use mcvirt.Base.Lists.{remove_ref}

abbrev pub IsFresh : ℕ → List ℕ → Type 0
IsFresh x [] = Unit
IsFresh x (y ∷ l) = (x ≢ y) × IsFresh x l

-- No reference stands in the list twice.
abbrev pub IsDistinct : List ℕ → Type 0
IsDistinct [] = Unit
IsDistinct (x ∷ l) = IsFresh x l × IsDistinct l

-- the elements at the indices 0, 2, 4, …
pub at_even : List ℕ → List ℕ
at_even [] = []
at_even (x ∷ []) = x ∷ []
at_even (x ∷ y ∷ l) = x ∷ at_even l

-- the elements at the indices 1, 3, 5, …
pub at_odd : List ℕ → List ℕ
at_odd [] = []
at_odd (x ∷ []) = []
at_odd (x ∷ y ∷ l) = y ∷ at_odd l

get_elem?-length : (pre rest : List ℕ) (x : ℕ) → get_elem? (pre ++ x ∷ rest) (length pre) ≡ some x
get_elem?-length [] rest x = refl
get_elem?-length (y ∷ pre) rest x = get_elem?-length pre rest x

get_elem?_end : (l : List ℕ) → get_elem? (l ++ []) (length l) ≡ none
get_elem?_end [] = refl
get_elem?_end (x ∷ l) = get_elem?_end l

remove_ref-append :
    (pre rest : List ℕ) (x : ℕ) → IsFresh x pre → remove_ref (pre ++ x ∷ rest) x ≡ pre ++ rest
unfolding remove_ref
remove_ref-append [] rest x fresh = ground arith
remove_ref-append (y ∷ pre) rest x fresh = ground (arith, remove_ref-append pre rest x)

-- No element of `rest` stands in `pre`.
abbrev Apart : List ℕ → List ℕ → Type 0
Apart pre [] = Unit
Apart pre (x ∷ rest) = IsFresh x pre × Apart pre rest

get_elem?_past : (l : List ℕ) → get_elem? (l ++ []) (suc (length l)) ≡ none
get_elem?_past [] = refl
get_elem?_past (x ∷ l) = get_elem?_past l

IsFresh-append : (x y : ℕ) (pre : List ℕ) → IsFresh x pre → x ≢ y → IsFresh x (pre ++ y ∷ [])
IsFresh-append x y [] fresh ne = (ne, tt)
IsFresh-append x y (z ∷ pre) fresh ne = (fresh.0, IsFresh-append x y pre fresh.1 ne)

Apart-append :
    (y : ℕ) (pre rest : List ℕ) → Apart pre rest → IsFresh y rest → Apart (pre ++ y ∷ []) rest
Apart-append y pre [] apart fresh = tt
Apart-append y pre (x ∷ rest) apart fresh =
    (IsFresh-append x y pre apart.0 (λ e. fresh.0 (sym e)), Apart-append y pre rest apart.1 fresh.1)

drain_end : (fuel i : ℕ) (l : List ℕ) → get_elem? l i ≡ none → drain_from fuel i l ≡ (l, [])
unfolding drain_from
drain_end zero i l e = refl
drain_end (suc fuel) i l e = rw (e, drain_from)

drain_step :
    (fuel i x : ℕ) (l left gone rest : List ℕ)
    → get_elem? l i ≡ some x
    → remove_ref l x ≡ rest
    → drain_from fuel (suc i) rest ≡ (left, gone)
    → drain_from (suc fuel) i l ≡ (left, x ∷ gone)
unfolding drain_from
drain_step fuel i x l left gone rest e removed ih = rw (e, drain_from) (rw removed (rw ih))

length-snoc : (pre : List ℕ) (y : ℕ) → length (pre ++ y ∷ []) ≡ suc (length pre)
length-snoc [] y = refl
length-snoc (x ∷ pre) y = ap suc (length-snoc pre y)

drain_from_lem :
    (fuel : ℕ) (pre rest : List ℕ)
    → length rest ≤ fuel
    → Apart pre rest
    → IsDistinct rest
    → drain_from fuel (length pre) (pre ++ rest) ≡ (pre ++ at_odd rest, at_even rest)
unfolding at_odd at_even
drain_from_lem fuel pre [] enough apart distinct =
    drain_end fuel (length pre) (pre ++ []) (get_elem?_end pre) ∙ refl
drain_from_lem zero pre (x ∷ rest) enough apart distinct = absurd (omega arith)
drain_from_lem (suc fuel) pre (x ∷ []) enough apart distinct =
    drain_step fuel (length pre) x (pre ++ x ∷ []) (pre ++ []) [] (pre ++ [])
      (get_elem?-length pre [] x) (remove_ref-append pre [] x apart.0)
      (drain_end fuel (suc (length pre)) (pre ++ []) (get_elem?_past pre))
drain_from_lem (suc fuel) pre (x ∷ y ∷ rest) enough apart distinct =
    let ih =
      drain_from_lem fuel (pre ++ y ∷ []) rest (omega arith)
        (Apart-append y pre rest apart.1.1 distinct.1.0) distinct.1.1 in
    drain_step fuel (length pre) x (pre ++ x ∷ y ∷ rest) (pre ++ y ∷ at_odd rest) (at_even rest)
      (pre ++ y ∷ rest) (get_elem?-length pre (y ∷ rest) x)
      (remove_ref-append pre (y ∷ rest) x apart.0)
      (rw (length-snoc, append_assoc pre (y ∷ []) rest, append_assoc pre (y ∷ []) (at_odd rest)) at
        ih)

Apart-nil : (l : List ℕ) → Apart [] l
Apart-nil [] = tt
Apart-nil (x ∷ l) = (tt, Apart-nil l)

-- Removing each element of a list of distinct functions while running over it removes only every
-- second one: those at the even indices are removed and unregistered, and those at the odd indices
-- stay.
pub drain_lem : (l : List ℕ) → IsDistinct l → drain l ≡ (at_odd l, at_even l)
unfolding drain
drain_lem l distinct = drain_from_lem (length l) [] l (omega arith) (Apart-nil l) distinct
