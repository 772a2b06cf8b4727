-- ===== src/Rpc/Transaction/Invariant.antt =====
-- What holds of the open transactions between any two operations on them:
-- mcvirt/rpc/expose_method.py, class Transaction.
use mcvirt.Base.{
  ℕ, zero, suc, ◌+◌, ◌≤◌, ◌<◌, ◌≡◌, refl, ap, ◌∙◌, ◌≢◌, inl, inr, false, none, some, List, [], ◌∷◌,
  nat_eq, arith, Bool-cases, Option-cases,
}
use mcvirt.Base.Lists.{length, get_elem?}
use mcvirt.Base.Exec.{ok}
use mcvirt.Rpc.State.{Transaction, Saga, update, update_self, transactions}
use mcvirt.Rpc.Transaction.{
  get_last, new_transaction, clear_functions, clear_all, reset_transactions, remove_transaction,
  complete_above, set_complete, insert_into, insert_function, register_function,
}
use mcvirt.Base.Lists.{remove_ref, mem_ref}

-- The oldest open transaction, at the end of the list, has the id 0, and no other has.
abbrev pub IsStack : (ℕ → Transaction) → List ℕ → Type 0
IsStack heap [] = Unit
IsStack heap (x ∷ []) = (heap x).id_ ≡ 0
IsStack heap (x ∷ y ∷ l) = (0 < (heap x).id_) × IsStack heap (y ∷ l)

abbrev pub IsAllocated : ℕ → List ℕ → Type 0
IsAllocated next [] = Unit
IsAllocated next (x ∷ l) = (x < next) × IsAllocated next l

pub record IsWellFormed {Env V : Type 0} (s : Saga Env V) : Type 0 where
  pub stack : IsStack s.heap (transactions s)
  pub allocated : IsAllocated s.next_ref (transactions s)

-- The ids of two heaps agree.
abbrev pub SameIds : (ℕ → Transaction) → (ℕ → Transaction) → Type 0
SameIds h k = (r : ℕ) → (h r).id_ ≡ (k r).id_

pub IsStack-same : (h k : ℕ → Transaction) (l : List ℕ) → SameIds h k → IsStack h l → IsStack k l
IsStack-same h k [] same st = tt
IsStack-same h k (x ∷ []) same st = omega (arith, same x)
IsStack-same h k (x ∷ y ∷ l) same st = (omega (arith, same x), IsStack-same h k (y ∷ l) same st.1)

-- A new object, at a reference that the list does not hold.
pub IsStack-update :
    (h : ℕ → Transaction) (next : ℕ) (t : Transaction) (l : List ℕ)
    → IsAllocated next l
    → IsStack h l
    → IsStack (update h next t) l
IsStack-update h next t [] al st = tt
IsStack-update h next t (x ∷ []) al st = ground arith
IsStack-update h next t (x ∷ y ∷ l) al st =
    (ground arith, IsStack-update h next t (y ∷ l) al.1 st.1)

pub IsAllocated-mono : (n m : ℕ) (l : List ℕ) → n ≤ m → IsAllocated n l → IsAllocated m l
IsAllocated-mono n m [] le al = tt
IsAllocated-mono n m (x ∷ l) le al = (omega arith, IsAllocated-mono n m l le al.1)

pub remove_ref-IsAllocated :
    (n : ℕ) (l : List ℕ) (x : ℕ) → IsAllocated n l → IsAllocated n (remove_ref l x)
unfolding remove_ref
remove_ref-IsAllocated n [] x al = tt
remove_ref-IsAllocated n (y ∷ l) x al = ground (arith, remove_ref-IsAllocated n l x)

IsStack-cons :
    (h : ℕ → Transaction) (y : ℕ) (r : List ℕ)
    → 0 < (h y).id_
    → r ≢ []
    → IsStack h r
    → IsStack h (y ∷ r)
IsStack-cons h y [] pos ne st = absurd (ne refl)
IsStack-cons h y (x ∷ r) pos ne st = (pos, st)

remove_ref-ne-nil :
    (h : ℕ → Transaction) (z : ℕ) (l : List ℕ) (x : ℕ)
    → 0 < (h x).id_
    → IsStack h (z ∷ l)
    → remove_ref (z ∷ l) x ≢ []
unfolding remove_ref
remove_ref-ne-nil h z [] x pos st e = ground arith
remove_ref-ne-nil h z (y ∷ l) x pos st e = ground arith

-- Removing any transaction but the oldest leaves a stack.
pub remove_ref-IsStack :
    (h : ℕ → Transaction) (l : List ℕ) (x : ℕ)
    → 0 < (h x).id_
    → IsStack h l
    → IsStack h (remove_ref l x)
unfolding remove_ref
remove_ref-IsStack h [] x pos st = tt
remove_ref-IsStack h (y ∷ []) x pos st = ground arith
remove_ref-IsStack h (y ∷ z ∷ l) x pos st = elim (Bool-cases (nat_eq y x)) [
  | inl same ↦ rw same st.1
  | inr other ↦ rw other (
      IsStack-cons h y (remove_ref (z ∷ l) x) st.0 (remove_ref-ne-nil h z l x pos st.1)
        (remove_ref-IsStack h (z ∷ l) x pos st.1))
]

pub get_last_id :
    (h : ℕ → Transaction) (l : List ℕ) (last : ℕ)
    → IsStack h l
    → get_last l ≡ some last
    → (h last).id_ ≡ 0
unfolding get_last
get_last_id h [] last st e = cc
get_last_id h (x ∷ []) last st e = ground arith
get_last_id h (x ∷ y ∷ l) last st e = get_last_id h (y ∷ l) last st.1 e

pub get_last-some : (x : ℕ) (l : List ℕ) → (last : ℕ) × (get_last (x ∷ l) ≡ some last)
unfolding get_last
get_last-some x [] = (x, refl)
get_last-some x (y ∷ l) = get_last-some y l

-- The transaction with the id 0 is the last one in the list.
pub get_elem?_after_last :
    (h : ℕ → Transaction) (l : List ℕ) (i x : ℕ)
    → IsStack h l
    → get_elem? l i ≡ some x
    → (h x).id_ ≡ 0
    → get_elem? l (suc i) ≡ none
get_elem?_after_last h [] i x st e z = refl
get_elem?_after_last h (y ∷ []) zero x st e z = refl
get_elem?_after_last h (y ∷ []) (suc i) x st e z = refl
get_elem?_after_last h (y ∷ y' ∷ l) zero x st e z = absurd (ground arith)
get_elem?_after_last h (y ∷ y' ∷ l) (suc i) x st e z = get_elem?_after_last h (y' ∷ l) i x st.1 e z

new-IsStack :
    (heap : ℕ → Transaction) (next : ℕ) (l : List ℕ)
    → IsAllocated next l
    → IsStack heap l
    → IsStack
        (update heap next (record { id_ = length l; functions = []; complete = false }))
        (next ∷ l)
new-IsStack heap next [] al st = ground arith
new-IsStack heap next (x ∷ l) al st = (ground arith, IsStack-update heap next _ (x ∷ l) al st)

module _ {Env V : Type 0} where
  clear_functions-ids : (ref : ℕ) (s : Saga Env V) → SameIds s.heap (clear_functions ref s).heap
  unfolding clear_functions
  clear_functions-ids ref s r = ground arith

  pub clear_functions-IsWellFormed :
      (ref : ℕ) (s : Saga Env V) → IsWellFormed s → IsWellFormed (clear_functions ref s)
  clear_functions-IsWellFormed ref s wf = record {
    stack =
        unfold clear_functions in
        IsStack-same s.heap (clear_functions ref s).heap (transactions s)
          (clear_functions-ids ref s) wf.stack;
    allocated = unfold clear_functions in wf.allocated;
  }

  insert_into-ids :
      (function ref : ℕ) (s : Saga Env V) → SameIds s.heap (insert_into function ref s).heap
  unfolding insert_into
  insert_into-ids function ref s r = ground arith

  insert_into-lists :
      (function ref : ℕ) (s : Saga Env V)
      → (transactions (insert_into function ref s) ≡ transactions s)
        × ((insert_into function ref s).next_ref ≡ s.next_ref)
  unfolding insert_into
  insert_into-lists function ref s = ground arith

  insert_into-IsWellFormed :
      (function ref : ℕ) (s : Saga Env V)
      → IsWellFormed s
      → IsWellFormed (insert_into function ref s)
  insert_into-IsWellFormed function ref s wf =
      let (same, next) = insert_into-lists function ref s in
      record {
        stack = rw same (
            IsStack-same s.heap (insert_into function ref s).heap (transactions s)
              (insert_into-ids function ref s) wf.stack);
        allocated = rw same (rw next wf.allocated);
      }

  insert_function-IsWellFormed :
      (function : ℕ) (refs : List ℕ) (s : Saga Env V)
      → IsWellFormed s
      → IsWellFormed (insert_function function refs s)
  unfolding insert_function
  insert_function-IsWellFormed function [] s wf = wf
  insert_function-IsWellFormed function (ref ∷ refs) s wf =
      insert_function-IsWellFormed function refs (insert_into function ref s)
        (insert_into-IsWellFormed function ref s wf)

  -- Registering a function keeps the stack of open transactions well formed.
  pub register_function-IsWellFormed :
      (function : ℕ) (s : Saga Env V) → IsWellFormed s → IsWellFormed (register_function function s)
  unfolding register_function
  register_function-IsWellFormed function s wf =
      ground (arith, insert_function-IsWellFormed function (transactions s) s wf)

  -- Opening a transaction keeps the stack of open transactions well formed.
  pub new_transaction-IsWellFormed :
      (s : Saga Env V) → IsWellFormed s → IsWellFormed (new_transaction s).1
  unfolding new_transaction
  new_transaction-IsWellFormed s wf = elim (Bool-cases s.undo_state) [
    | inl undoing ↦ rw undoing (record {
      stack = IsStack-update s.heap s.next_ref _ (transactions s) wf.allocated wf.stack;
      allocated =
          IsAllocated-mono s.next_ref (s.next_ref + 1) (transactions s) (omega arith) wf.allocated;
    })
    | inr normal ↦ rw normal (record {
      stack = rw update_self (new-IsStack s.heap s.next_ref (transactions s) wf.allocated wf.stack);
      allocated = rw update_self (
        omega arith,
        IsAllocated-mono s.next_ref (s.next_ref + 1) (transactions s) (omega arith) wf.allocated,
      );
    })
  ]

  remove_transaction-IsWellFormed :
      (ref : ℕ) (s : Saga Env V)
      → 0 < (s.heap ref).id_
      → IsWellFormed s
      → IsWellFormed (remove_transaction ref s)
  unfolding remove_transaction
  remove_transaction-IsWellFormed ref s pos wf = elim (Bool-cases (mem_ref (transactions s) ref)) [
    | inl in_list ↦ rw in_list (record {
      stack = rw update_self (remove_ref-IsStack s.heap (transactions s) ref pos wf.stack);
      allocated =
          rw update_self (remove_ref-IsAllocated s.next_ref (transactions s) ref wf.allocated);
    })
    | inr gone ↦ rw gone wf
  ]

  reset_transactions-IsWellFormed : (s : Saga Env V) → IsWellFormed (reset_transactions s)
  unfolding reset_transactions
  reset_transactions-IsWellFormed s = record {
    stack = rw update_self tt;
    allocated = rw update_self tt;
  }

  complete_above-IsWellFormed :
      (last ref : ℕ) (s : Saga Env V)
      → (s.heap last).id_ ≡ 0
      → IsWellFormed s
      → IsWellFormed (complete_above (some last) ref s).1
        × ((complete_above (some last) ref s).0 ≡ ok tt)
  unfolding complete_above
  complete_above-IsWellFormed last ref s zero_id wf =
      elim (Bool-cases (nat_eq (s.heap ref).id_ (s.heap last).id_)) [
        | inl oldest ↦
            rw oldest (reset_transactions-IsWellFormed (clear_all (transactions s) s), refl)
        | inr other ↦ rw other (
          remove_transaction-IsWellFormed ref (clear_functions ref s)
              (ground (arith, clear_functions-ids ref s ref))
              (clear_functions-IsWellFormed ref s wf),
          refl,
        )
      ]

  -- Completing a transaction, open or not, keeps the stack of open transactions well formed.
  pub set_complete-IsWellFormed :
      (ref : ℕ) (s : Saga Env V) → IsWellFormed s → IsWellFormed (set_complete ref s).1
  unfolding set_complete
  set_complete-IsWellFormed ref s wf = elim (Option-cases (get_last (transactions s))) [
    | inl empty ↦ rw empty (unfold complete_above in wf)
    | inr (last, e) ↦
        rw e
          (complete_above-IsWellFormed last ref s
            (get_last_id s.heap (transactions s) last wf.stack e) wf).0
  ]

  -- It raises nothing while a transaction is open.
  pub set_complete-ok :
      (ref x : ℕ) (s : Saga Env V) (l : List ℕ)
      → IsWellFormed s
      → transactions s ≡ x ∷ l
      → (set_complete ref s).0 ≡ ok tt
  unfolding set_complete
  set_complete-ok ref x s l wf open_ =
      let (last, e) = get_last-some x l in
      let e' : get_last (transactions s) ≡ some last = ap get_last open_ ∙ e in
      rw e'
        (complete_above-IsWellFormed last ref s
          (get_last_id s.heap (transactions s) last wf.stack e') wf).1
