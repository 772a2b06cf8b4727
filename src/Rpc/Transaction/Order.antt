-- ===== src/Rpc/Transaction/Order.antt =====
-- Which functions `on_function_fail` of mcvirt/rpc/expose_method.py undoes, and which transactions stay
-- open.
use mcvirt.Base.{
  ℕ, zero, suc, ◌+◌, ◌≡◌, refl, sym, ap, ◌∙◌, ◌≢◌, true, false, none, some, List, [], ◌∷◌, arith,
}
use mcvirt.Base.Lists.{get_elem?}
use mcvirt.Base.Exec.{Result, ok, err, Exec, and_then, and_then-eq_ok}
use mcvirt.Exceptions.{Exception}
use mcvirt.Rpc.State.{Saga, update_self, transactions}
use mcvirt.Rpc.Transaction.Rollback.{Keeps}
use mcvirt.Rpc.Transaction.{
  get_last, clear_functions, clear_all, reset_transactions, remove_transaction, complete_above,
  set_complete, each_transaction, set_undo_state, undo_all, roll_back, on_function_fail,
}
use mcvirt.Base.Lists.{mem_ref, remove_ref}

-- Two states have the same transactions.
pub record SameTransactions {Env V : Type 0} (s t : Saga Env V) : Type 0 where
  pub heap : t.heap ≡ s.heap
  pub lists : t.lists ≡ s.lists
  pub current : t.current ≡ s.current
  pub next_ref : t.next_ref ≡ s.next_ref

-- An action that leaves the transactions as they are, as a function's undo does.
abbrev pub IsQuiet : {Env V A : Type 0} → Exec Exception (Saga Env V) A → Type 0
IsQuiet {Env} {V} m = (s : Saga Env V) → SameTransactions s (m s).1

module _ {Env V : Type 0} where
  pub SameTransactions-trans :
      (s t u : Saga Env V) → SameTransactions s t → SameTransactions t u → SameTransactions s u
  SameTransactions-trans s t u p q = record {
    heap = q.heap ∙ p.heap;
    lists = q.lists ∙ p.lists;
    current = q.current ∙ p.current;
    next_ref = q.next_ref ∙ p.next_ref;
  }

  pub and_then-Quiet :
      {A B : Type 0} (s : Saga Env V) (r : Result Exception A × Saga Env V)
      (f : A → Exec Exception (Saga Env V) B)
      → SameTransactions s r.1
      → ((a : A) → IsQuiet (f a))
      → SameTransactions s (and_then r f).1
  and_then-Quiet s (ok a, t) f same quiet = SameTransactions-trans s t (f a t).1 same (quiet a t)
  and_then-Quiet s (err e, t) f same quiet = same

  same_transactions : (s t : Saga Env V) → SameTransactions s t → transactions t ≡ transactions s
  same_transactions s t same = rw (same.lists, same.current)

  pub IsQuiet-Keeps : {A : Type 0} (m : Exec Exception (Saga Env V) A) → IsQuiet m → Keeps m
  IsQuiet-Keeps m quiet s wf =
      let same = quiet s in
      record {
        stack = rw (same_transactions s (m s).1 same) (rw same.heap wf.stack);
        allocated = rw (same_transactions s (m s).1 same) (rw same.next_ref wf.allocated);
      }

  set_complete_oldest :
      (ref last : ℕ) (s : Saga Env V)
      → get_last (transactions s) ≡ some last
      → (s.heap ref).id_ ≡ (s.heap last).id_
      → set_complete ref s ≡ (ok tt, reset_transactions (clear_all (transactions s) s))
  unfolding set_complete complete_above
  set_complete_oldest ref last s e same = rw e (ground arith)

  set_complete_inner :
      (ref last : ℕ) (s : Saga Env V)
      → get_last (transactions s) ≡ some last
      → (s.heap ref).id_ ≢ (s.heap last).id_
      → set_complete ref s ≡ (ok tt, remove_transaction ref (clear_functions ref s))
  unfolding set_complete complete_above
  set_complete_inner ref last s e other = rw e (ground arith)

  clear_all-env : (refs : List ℕ) (s : Saga Env V) → (clear_all refs s).env ≡ s.env
  unfolding clear_all clear_functions
  clear_all-env [] s = refl
  clear_all-env (ref ∷ refs) s = clear_all-env refs (clear_functions ref s)

  reset_transactions_lem :
      (s : Saga Env V)
      → (transactions (set_undo_state false (reset_transactions s)) ≡ [])
        × ((set_undo_state false (reset_transactions s)).env ≡ s.env)
  unfolding reset_transactions set_undo_state
  reset_transactions_lem s = (update_self s.lists (s.current + 1) [], refl)

  -- Completing the newer of two open transactions leaves the older one.
  remove_inner :
      (inner outer : ℕ) (s : Saga Env V)
      → transactions s ≡ inner ∷ outer ∷ []
      → let t = remove_transaction inner (clear_functions inner s) in
        (t.lists s.current ≡ outer ∷ []) × (t.current ≡ s.current) × (t.env ≡ s.env)
  unfolding remove_transaction clear_functions mem_ref remove_ref
  remove_inner inner outer s two = rw two (ground arith)

  loop_round :
      (body : ℕ → Exec Exception (Saga Env V) (Unit {0})) (fuel list i ref : ℕ) (s t : Saga Env V)
      → get_elem? (s.lists list) i ≡ some ref
      → body ref s ≡ (ok tt, t)
      → each_transaction body (suc fuel) list i s ≡ each_transaction body fuel list (suc i) t
  unfolding each_transaction
  loop_round body fuel list i ref s t here ran = rw (here, each_transaction) (rw ran)

  loop_end :
      (body : ℕ → Exec Exception (Saga Env V) (Unit {0})) (fuel list i : ℕ) (s : Saga Env V)
      → get_elem? (s.lists list) i ≡ none
      → each_transaction body fuel list i s ≡ (ok tt, s)
  unfolding each_transaction
  loop_end body zero list i s over = refl
  loop_end body (suc fuel) list i s over = rw (over, each_transaction)

module _ {Env V : Type 0} (undo : ℕ → Exec Exception (Saga Env V) (Unit {0}))
    (quiet : (function : ℕ) → IsQuiet (undo function)) where
  undo_all-Quiet : (functions : List ℕ) → IsQuiet (undo_all undo functions)
  unfolding undo_all
  undo_all-Quiet [] s = record { heap = refl; lists = refl; current = refl; next_ref = refl }
  undo_all-Quiet (f ∷ fs) s =
      and_then-Quiet s (undo f s) (λ _. undo_all undo fs) (quiet f s) (λ _. undo_all-Quiet fs)

  roll_back_oldest :
      (ref : ℕ) (s : Saga Env V)
      → transactions s ≡ ref ∷ []
      → (undo_all undo (s.heap ref).functions s).0 ≡ ok tt
      → let t = (undo_all undo (s.heap ref).functions s).1 in
        roll_back undo ref s ≡ (ok tt, reset_transactions (clear_all (transactions t) t))
  unfolding roll_back get_last
  roll_back_oldest ref s one undone =
      let t = (undo_all undo (s.heap ref).functions s).1 in
      let same = undo_all-Quiet (s.heap ref).functions s in
      and_then-eq_ok (undo_all undo (s.heap ref).functions s) (λ _. set_complete ref) tt undone
      ∙ set_complete_oldest ref ref t (ap get_last (same_transactions s t same ∙ one)) refl

  roll_back_inner :
      (inner outer : ℕ) (s : Saga Env V)
      → transactions s ≡ inner ∷ outer ∷ []
      → (s.heap inner).id_ ≢ (s.heap outer).id_
      → (undo_all undo (s.heap inner).functions s).0 ≡ ok tt
      → let t = (undo_all undo (s.heap inner).functions s).1 in
        roll_back undo inner s ≡ (ok tt, remove_transaction inner (clear_functions inner t))
  unfolding roll_back get_last
  roll_back_inner inner outer s two differ undone =
      let t = (undo_all undo (s.heap inner).functions s).1 in
      let same = undo_all-Quiet (s.heap inner).functions s in
      and_then-eq_ok (undo_all undo (s.heap inner).functions s) (λ _. set_complete inner) tt undone
      ∙ set_complete_inner inner outer t (ap get_last (same_transactions s t same ∙ two))
          (rw same.heap differ)

  -- With one open transaction, a failure undoes the functions of its list and leaves no transaction
  -- open.
  pub on_function_fail_single :
      (function ref : ℕ) (s : Saga Env V)
      → s.undo_state ≡ false
      → transactions s ≡ ref ∷ []
      → (undo_all undo (s.heap ref).functions (set_undo_state true s)).0 ≡ ok tt
      → ((on_function_fail undo function s).0 ≡ ok tt)
        × (transactions (on_function_fail undo function s).1 ≡ [])
        × ((on_function_fail undo function s).1.env
            ≡ (undo_all undo (s.heap ref).functions (set_undo_state true s)).1.env)
  unfolding on_function_fail
  on_function_fail_single function ref s idle one undone =
      let s0 = set_undo_state true s in
      let t = (undo_all undo (s.heap ref).functions s0).1 in
      let r = reset_transactions (clear_all (transactions t) t) in
      let (none_open, env) = reset_transactions_lem (clear_all (transactions t) t) in
      let ran : each_transaction (roll_back undo) 1 s.current 0 s0 ≡ (ok tt, r) =
        loop_round (roll_back undo) 0 s.current 0 ref s0 r (ap (λ (l : List ℕ). get_elem? l 0) one)
          (roll_back_oldest ref s0 one undone)
        ∙ (unfold each_transaction in refl) in
      rw (idle, one) (rw ran (refl, none_open, env ∙ clear_all-env (transactions t) t))

  -- With two open transactions, a failure undoes the functions of the newer one only: its completion
  -- removes it from the list that the loop runs over, the loop ends, and the older transaction stays
  -- open with its functions not undone.
  pub on_function_fail_nested :
      (function inner outer : ℕ) (s : Saga Env V)
      → s.undo_state ≡ false
      → transactions s ≡ inner ∷ outer ∷ []
      → (s.heap inner).id_ ≢ (s.heap outer).id_
      → (undo_all undo (s.heap inner).functions (set_undo_state true s)).0 ≡ ok tt
      → ((on_function_fail undo function s).0 ≡ ok tt)
        × (transactions (on_function_fail undo function s).1 ≡ outer ∷ [])
        × ((on_function_fail undo function s).1.env
            ≡ (undo_all undo (s.heap inner).functions (set_undo_state true s)).1.env)
  unfolding on_function_fail
  on_function_fail_nested function inner outer s idle two differ undone =
      let s0 = set_undo_state true s in
      let t = (undo_all undo (s.heap inner).functions s0).1 in
      let r = remove_transaction inner (clear_functions inner t) in
      let same = undo_all-Quiet (s.heap inner).functions s0 in
      let two_t : transactions t ≡ inner ∷ outer ∷ [] = same_transactions s0 t same ∙ two in
      let (left, bound, env) = remove_inner inner outer t two_t in
      let here : r.lists s.current ≡ outer ∷ [] = ap r.lists (sym same.current) ∙ left in
      let removed : roll_back undo inner s0 ≡ (ok tt, r) =
        roll_back_inner inner outer s0 two differ undone in
      let ran : each_transaction (roll_back undo) 2 s.current 0 s0 ≡ (ok tt, r) =
        loop_round (roll_back undo) 1 s.current 0 inner s0 r
          (ap (λ (l : List ℕ). get_elem? l 0) two) removed
        ∙ loop_end (roll_back undo) 1 s.current 1 r (ap (λ (l : List ℕ). get_elem? l 1) here) in
      rw (idle, two) (rw ran (refl, ap r.lists (bound ∙ same.current) ∙ here, env))
