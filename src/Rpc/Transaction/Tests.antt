-- ===== src/Rpc/Transaction/Tests.antt =====
-- Concrete transactions: two that are open, the newer with two registered functions.
use mcvirt.Base.{ℕ, false, none, nat_eq, if◌then◌else◌, [], ◌∷◌, ◌≡◌, refl, arith}
use mcvirt.Rpc.State.{Saga}
use mcvirt.Rpc.Transaction.{drain}
use mcvirt.Rpc.Transaction.Invariant.{IsWellFormed}
use mcvirt.Rpc.Transaction.Drain.{at_even, at_odd, drain_lem}

abbrev open_saga : Saga ℕ ℕ
open_saga = record {
  heap = λ ref.
      if nat_eq ref 0
      then record { id_ = 0; functions = 7 ∷ []; complete = false }
      else record { id_ = 1; functions = 9 ∷ 8 ∷ []; complete = false };
  next_ref = 2;
  lists = λ _. 1 ∷ 0 ∷ [];
  current = 0;
  undo_state = false;
  functions = λ _. record {
    name = "start";
    nodes = [];
    current_node = none;
    return_dict = false;
    support_callback = false;
    undo_method = none;
    remote_method = none;
    remote_undo_method = none;
  };
  unregistered = [];
  sessions = record { user_sessions = []; time = 0; session_timeout = 30 };
  env = 0;
}

open_saga-IsWellFormed : IsWellFormed open_saga
open_saga-IsWellFormed = record {
  stack = (omega arith, refl);
  allocated = (omega arith, (omega arith, tt));
}

drain_example : drain (5 ∷ 6 ∷ 7 ∷ []) ≡ (at_odd (5 ∷ 6 ∷ 7 ∷ []), at_even (5 ∷ 6 ∷ 7 ∷ []))
drain_example = drain_lem (5 ∷ 6 ∷ 7 ∷ []) (
  ((λ e. ground (arith, e)), ((λ e. ground (arith, e)), tt)),
  (((λ e. ground (arith, e)), tt), (tt, tt)),
)
