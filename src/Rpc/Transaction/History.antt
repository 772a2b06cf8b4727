-- ===== src/Rpc/Transaction/History.antt =====
-- The order in which `register_function` and `on_function_fail` of mcvirt/rpc/expose_method.py register
-- the functions of a transaction and undo them.
use mcvirt.Base.{ℕ, ◌≡◌, refl, sym, ap, subst, ◌∙◌, false, List, [], ◌∷◌, ◌++◌}
use mcvirt.Base.Exec.{Result, ok, err, Exec, and_then, and_then-eq_ok, and_then_returns}
use mcvirt.Exceptions.{Exception}
use mcvirt.Rpc.State.{Saga, update_self, transactions}
use mcvirt.Rpc.Transaction.{
  new_transaction, insert_function, insert_into, in_transaction, register_function, undo_all,
}
use mcvirt.Rpc.Transaction.Order.{SameTransactions}

-- A state in which a transaction has been opened in the state `s`, and then the functions of a list
-- were registered, the oldest first. Between two registrations the system may change, but not its
-- transactions.
pub data History {Env V : Type 0} (s : Saga Env V) : List ℕ → Saga Env V → Type 0 where
  opened : History s [] (new_transaction s).1
  registered :
      {fs : List ℕ} {t : Saga Env V} (function : ℕ)
      → History s fs t
      → History s (fs ++ function ∷ []) (register_function function t)
  worked :
      {fs : List ℕ} {t : Saga Env V} (u : Saga Env V)
      → History s fs t
      → SameTransactions t u
      → u.undo_state ≡ t.undo_state
      → History s fs u

abbrev newest_first : List ℕ → List ℕ
newest_first [] = []
newest_first (f ∷ fs) = newest_first fs ++ f ∷ []

newest_first_snoc : (f : ℕ) (fs : List ℕ) → newest_first (fs ++ f ∷ []) ≡ f ∷ newest_first fs
newest_first_snoc f [] = refl
newest_first_snoc f (g ∷ fs) = ap (λ l. l ++ g ∷ []) (newest_first_snoc f fs)

module _ {Env V : Type 0} where
  -- One transaction is open, which holds these functions.
  pub record Holds (ref : ℕ) (functions : List ℕ) (t : Saga Env V) : Type 0 where
    pub open_ : transactions t ≡ ref ∷ []
    pub normal : t.undo_state ≡ false
    pub incomplete : (t.heap ref).complete ≡ false
    pub functions_are : (t.heap ref).functions ≡ functions

  opened-Holds :
      (s : Saga Env V)
      → s.undo_state ≡ false
      → transactions s ≡ []
      → Holds s.next_ref [] (new_transaction s).1
  unfolding new_transaction
  opened-Holds s normal idle =
      rw (normal, idle)
        (record {
          open_ = update_self s.lists s.current (s.next_ref ∷ []);
          normal = refl;
          incomplete = ap (λ o. o.complete) (update_self s.heap s.next_ref _);
          functions_are = ap (λ o. o.functions) (update_self s.heap s.next_ref _);
        })

  registered-Holds :
      (f ref : ℕ) (functions : List ℕ) (t : Saga Env V)
      → Holds ref functions t
      → Holds ref (f ∷ functions) (register_function f t)
  unfolding register_function in_transaction insert_function insert_into
  registered-Holds f ref functions t holds =
      rw (holds.open_, holds.normal)
        (rw holds.incomplete (record {
          open_ = holds.open_;
          normal = refl;
          incomplete = ap (λ o. o.complete) (update_self t.heap ref _);
          functions_are =
              ap (λ o. o.functions) (update_self t.heap ref _)
              ∙ ap (λ l. f ∷ l) holds.functions_are;
        }))

  -- The transaction that was opened holds the functions that were registered since, the newest
  -- first.
  pub History-Holds :
      {s t : Saga Env V} {fs : List ℕ}
      → s.undo_state ≡ false
      → transactions s ≡ []
      → History s fs t
      → Holds s.next_ref (newest_first fs) t
  History-Holds {s} normal idle opened = opened-Holds s normal idle
  History-Holds {s} normal idle (registered {fs} {t} f history) =
      subst (λ l. Holds s.next_ref l (register_function f t)) (sym (newest_first_snoc f fs))
        (registered-Holds f s.next_ref (newest_first fs) t (History-Holds normal idle history))
  History-Holds {s} normal idle (worked {fs} {t} u history same undo_state) =
      let holds = History-Holds normal idle history in
      record {
        open_ = rw (same.lists, same.current) holds.open_;
        normal = undo_state ∙ holds.normal;
        incomplete = rw same.heap holds.incomplete;
        functions_are = rw same.heap holds.functions_are;
      }

module _ {Env V : Type 0} (undo : ℕ → Exec Exception (Saga Env V) (Unit {0})) where
  -- The state after the undo of functions that are listed from the oldest to the newest: each one
  -- meets the state that the undo of the newer ones left.
  abbrev pub undone_from_newest : List ℕ → Saga Env V → Saga Env V
  undone_from_newest [] s = s
  undone_from_newest (f ∷ newer) s = (undo f (undone_from_newest newer s)).1

  -- None of these undos raises.
  abbrev pub AllReturn : List ℕ → Saga Env V → Type 0
  AllReturn [] s = Unit
  AllReturn (f ∷ newer) s = AllReturn newer s × ((undo f (undone_from_newest newer s)).0 ≡ ok tt)

  one_more :
      (f : ℕ) (r : Result Exception (Unit {0}) × Saga Env V)
      → r.0 ≡ ok tt
      → and_then r (λ _. undo_all undo []) ≡ (ok tt, r.1)
  unfolding undo_all
  one_more f (ok u, t) done = refl
  one_more f (err e, t) done = cc

  undo_all_snoc :
      (f : ℕ) (fs : List ℕ) (s t : Saga Env V)
      → undo_all undo fs s ≡ (ok tt, t)
      → (undo f t).0 ≡ ok tt
      → undo_all undo (fs ++ f ∷ []) s ≡ (ok tt, (undo f t).1)
  unfolding undo_all
  undo_all_snoc f [] s t ran done =
      let same : s ≡ t = ap (λ r. r.1) ran in rw same (one_more f (undo f t) done)
  undo_all_snoc f (g ∷ fs) s t ran done =
      let (u, (first, rest)) =
        and_then_returns (undo g s) (λ _. undo_all undo fs) tt (ap (λ r. r.0) ran) in
      let whole = and_then-eq_ok (undo g s) (λ _. undo_all undo fs) tt (ap (λ r. r.0) first) in
      and_then-eq_ok (undo g s) (λ _. undo_all undo (fs ++ f ∷ [])) tt (ap (λ r. r.0) first)
      ∙ undo_all_snoc f fs (undo g s).1 t (sym whole ∙ ran) done

  -- The loop over the functions of a transaction undoes them from the newest to the oldest.
  pub undo_all-newest_first :
      (fs : List ℕ) (s : Saga Env V)
      → AllReturn fs s
      → undo_all undo (newest_first fs) s ≡ (ok tt, undone_from_newest fs s)
  unfolding undo_all
  undo_all-newest_first [] s all = refl
  undo_all-newest_first (f ∷ fs) s all =
      undo_all_snoc f (newest_first fs) s (undone_from_newest fs s)
        (undo_all-newest_first fs s all.0) all.1
