-- ===== src/Rpc/Function/Reachable.antt =====
-- The transactions that are open in the course of a request: every order of the operations of
-- mcvirt/rpc/expose_method.py on them.
use mcvirt.Base.{ℕ, ◌≡◌, false}
use mcvirt.Rpc.State.{Saga, World}
use mcvirt.Rpc.Transaction.{new_transaction, register_function, set_complete, on_function_fail}
use mcvirt.Rpc.Transaction.Invariant.{
  IsWellFormed, new_transaction-IsWellFormed, register_function-IsWellFormed,
  set_complete-IsWellFormed,
}
use mcvirt.Rpc.Function.{undo}
use mcvirt.Rpc.Function.Undo.{rollback_resets}

module _ {Env V : Type 0} (w : World Env V) where
  -- What may happen next: a transaction is opened or completed, a function is registered in the open
  -- ones, or a function fails outside of an undo, which rolls them back.
  pub data Step (s : Saga Env V) : Saga Env V → Type 0 where
    opened : Step s (new_transaction s).1
    registered : (function : ℕ) → Step s (register_function function s)
    completed : (ref : ℕ) → Step s (set_complete ref s).1
    failed : (function : ℕ) → s.undo_state ≡ false → Step s (on_function_fail (undo w) function s).1

  pub data Reach (s : Saga Env V) : Saga Env V → Type 0 where
    here : Reach s s
    next : {t u : Saga Env V} → Reach s t → Step t u → Reach s u

  Step-IsWellFormed : {s t : Saga Env V} → Step s t → IsWellFormed s → IsWellFormed t
  Step-IsWellFormed {s} opened wf = new_transaction-IsWellFormed s wf
  Step-IsWellFormed {s} (registered function) wf = register_function-IsWellFormed function s wf
  Step-IsWellFormed {s} (completed ref) wf = set_complete-IsWellFormed ref s wf
  Step-IsWellFormed {s} (failed function normal) wf = (rollback_resets w function s wf normal).0

  -- From well-formed transactions, every sequence of openings, completions, registrations of
  -- functions, and failures outside of an undo leads to well-formed transactions, however the undo
  -- methods end.
  pub Reach-IsWellFormed : {s t : Saga Env V} → IsWellFormed s → Reach s t → IsWellFormed t
  Reach-IsWellFormed wf here = wf
  Reach-IsWellFormed wf (next reached step) = Step-IsWellFormed step (Reach-IsWellFormed wf reached)
