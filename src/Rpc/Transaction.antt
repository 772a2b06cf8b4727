-- ===== src/Rpc/Transaction.antt =====
-- class Transaction of mcvirt/rpc/expose_method.py. The undo of one function is a parameter here,
-- which Rpc/Function gives.
pub mod Invariant
pub mod Rollback
pub mod Order
pub mod History
pub mod Drain
mod Tests
use mcvirt.Base.{
  ℕ, zero, suc, ◌+◌, String, Bool, true, false, not, ◌&&◌, Option, none, some, List, [], ◌∷◌, ◌++◌,
  nat_eq, ltb, if◌then◌else◌,
}
use mcvirt.Base.Lists.{remove_ref, mem_ref, length, get_elem?}
use mcvirt.Base.Exec.{Result, ok, err, Exec, and_then}
use mcvirt.Exceptions.{Exception, index_error}
use mcvirt.Rpc.State.{Transaction, Saga, update, transactions}

-- l[-1]
pub get_last : List ℕ → Option ℕ
get_last [] = none
get_last (x ∷ []) = some x
get_last (x ∷ y ∷ l) = get_last (y ∷ l)

-- `for func in l: l.remove(func); func.unregister(force=True)`, from index `i`: Python looks up
-- each index in the list as it then is. The result is what is left in the list, and the functions
-- that were unregistered. Each round removes an element, so the length of the list is enough fuel.
pub drain_from : ℕ → ℕ → List ℕ → List ℕ × List ℕ
unfolding remove_ref
drain_from zero i l = (l, [])
drain_from (suc fuel) i l = elim (get_elem? l i) [
  | none ↦ (l, [])
  | some func ↦
      let (left, gone) = drain_from fuel (suc i) (remove_ref l func) in (left, func ∷ gone)
]

pub drain : List ℕ → List ℕ × List ℕ
unfolding drain_from
drain l = drain_from (length l) 0 l

module _ {Env V : Type 0} where
  unfoldable pub in_transaction : Saga Env V → Bool
  in_transaction s = ltb 0 (length (transactions s))

  -- Transaction(): the reference of the new object, and the state with it.
  unfoldable pub new_transaction : Saga Env V → ℕ × Saga Env V
  new_transaction s =
      let ref = s.next_ref in
      let object : Transaction = record {
        id_ = length (transactions s);
        functions = [];
        complete = false;
      } in
      let made : Saga Env V = record s { heap = update s.heap ref object; next_ref = ref + 1 } in
      (
        ref,
        if s.undo_state
            then made
            else record made { lists = update s.lists s.current (ref ∷ transactions s) },
      )

  -- Removes the function objects of one transaction.
  pub clear_functions : ℕ → Saga Env V → Saga Env V
  unfolding drain
  clear_functions ref s =
      let (left, gone) = drain (s.heap ref).functions in
      record s {
        heap = update s.heap ref (record (s.heap ref) { functions = left });
        unregistered = s.unregistered ++ gone;
      }

  pub clear_all : List ℕ → Saga Env V → Saga Env V
  unfolding clear_functions
  clear_all [] s = s
  clear_all (ref ∷ refs) s = clear_all refs (clear_functions ref s)

  -- `Transaction.transactions = []` binds the attribute to a new list object.
  pub reset_transactions : Saga Env V → Saga Env V
  reset_transactions s = record s {
    lists = update s.lists (s.current + 1) [];
    current = s.current + 1;
  }

  pub remove_transaction : ℕ → Saga Env V → Saga Env V
  unfolding remove_ref mem_ref
  remove_transaction ref s =
      if mem_ref (transactions s) ref
      then record s { lists = update s.lists s.current (remove_ref (transactions s) ref) }
      else s

  -- `set_complete`, with `Transaction.transactions[-1]`, the oldest open transaction.
  pub complete_above : Option ℕ → ℕ → Saga Env V → Result Exception (Unit {0}) × Saga Env V
  unfolding clear_all reset_transactions remove_transaction
  complete_above none ref s = (err index_error, s)
  complete_above (some last) ref s =
      if nat_eq (s.heap ref).id_ (s.heap last).id_
      then (ok tt, reset_transactions (clear_all (transactions s) s))
      else (ok tt, remove_transaction ref (clear_functions ref s))

  -- The attribute that this sets is spelled `comlpete`: `complete` is left as it is.
  pub set_complete : ℕ → Saga Env V → Result Exception (Unit {0}) × Saga Env V
  unfolding get_last complete_above
  set_complete ref s = complete_above (get_last (transactions s)) ref s

  -- The body of the loop in `register_function`.
  pub insert_into : ℕ → ℕ → Saga Env V → Saga Env V
  insert_into function ref s = if (s.heap ref).complete then s else record s {
    heap =
        update s.heap ref (record (s.heap ref) { functions = function ∷ (s.heap ref).functions });
  }

  pub insert_function : ℕ → List ℕ → Saga Env V → Saga Env V
  unfolding insert_into
  insert_function function [] s = s
  insert_function function (ref ∷ refs) s =
      insert_function function refs (insert_into function ref s)

  unfoldable pub register_function : ℕ → Saga Env V → Saga Env V
  unfolding in_transaction insert_function
  register_function function s =
      if in_transaction s && not s.undo_state
      then insert_function function (transactions s) s
      else s

  -- `for transaction_ar in cls.transactions: …` over the list object `list`, from index `i`. An
  -- index is looked up in the list as it then is; the list never grows in the loop, so its length
  -- at the start is enough fuel.
  pub each_transaction :
      (ℕ → Exec Exception (Saga Env V) (Unit {0}))
      → (fuel list i : ℕ) → Exec Exception (Saga Env V) (Unit {0})
  each_transaction body zero list i s = (ok tt, s)
  each_transaction body (suc fuel) list i s = elim (get_elem? (s.lists list) i) [
    | none ↦ (ok tt, s)
    | some ref ↦ and_then (body ref s) (λ _. each_transaction body fuel list (suc i))
  ]

  pub for_transactions :
      (ℕ → Exec Exception (Saga Env V) (Unit {0})) → Exec Exception (Saga Env V) (Unit {0})
  unfolding each_transaction
  for_transactions body s = each_transaction body (length (transactions s)) s.current 0 s

  unfoldable pub set_undo_state : Bool → Saga Env V → Saga Env V
  set_undo_state b s = record s { undo_state = b }

  -- The handler of an exception in an undo: complete what is open, and raise it again.
  pub abandon : Exception → Exec Exception (Saga Env V) (Unit {0})
  unfolding for_transactions set_complete set_undo_state
  abandon exc s =
      and_then (for_transactions set_complete s) (λ _ s'. (err exc, set_undo_state false s'))

  pub finish_rollback :
      Result Exception (Unit {0}) × Saga Env V → Result Exception (Unit {0}) × Saga Env V
  unfolding abandon set_undo_state
  finish_rollback (ok _, s) = (ok tt, set_undo_state false s)
  finish_rollback (err exc, s) = abandon exc s

module _ {Env V : Type 0} (undo : ℕ → Exec Exception (Saga Env V) (Unit {0})) where
  unfoldable pub undo_all : List ℕ → Exec Exception (Saga Env V) (Unit {0})
  undo_all [] s = (ok tt, s)
  undo_all (function ∷ functions) s = and_then (undo function s) (λ _. undo_all functions)

  -- The body of the loop: undo the functions of a transaction and complete it.
  pub roll_back : ℕ → Exec Exception (Saga Env V) (Unit {0})
  unfolding undo_all
  roll_back ref s = and_then (undo_all (s.heap ref).functions s) (λ _. set_complete ref)

  pub on_function_fail : ℕ → Exec Exception (Saga Env V) (Unit {0})
  unfolding in_transaction for_transactions roll_back finish_rollback set_undo_state
  on_function_fail function s =
      if s.undo_state
      then (ok tt, s)
      else finish_rollback (
          if in_transaction s
          then for_transactions roll_back (set_undo_state true s)
          else undo function (set_undo_state true s))
