-- ===== src/Rpc/Function/Tests.antt =====
-- A concrete node, on which each property of a call applies: a system whose state is a log of the
-- methods that ran, and two calls, the newer of which did something on this node.
use mcvirt.Base.{
  ℕ, String, Bool, true, false, not, none, some, nat_eq, if◌then◌else◌, List, [], ◌∷◌, ◌≡◌, ◌≢◌,
  refl, arith,
}
use mcvirt.Base.Dict.{lookup, insert, keys}
use mcvirt.Base.Exec.{ok, err}
use mcvirt.Exceptions.{key_error}
use mcvirt.Auth.Session.{renew, disable}
use mcvirt.Rpc.State.{Function, Saga, World, transactions}
use mcvirt.Rpc.Transaction.{
  in_transaction, new_transaction, register_function, undo_all, on_function_fail, set_undo_state,
}
use mcvirt.Rpc.Transaction.Invariant.{IsWellFormed}
use mcvirt.Rpc.Function.{
  undo, undo_local, undo_nodes, undo_function_name, set_current_node, pause_user_session,
  change_session, change_found, run_nodes, call_function_local, with_callback, change_node,
  change_current, change_status, complete, run_remote, finish_run, reset_user_session,
  get_response_data, return_values, run, value,
}
use mcvirt.Rpc.Function.Undo.{rollback_resets, rollback_single, rollback_nested}
use mcvirt.Rpc.Function.Reachable.{Reach-IsWellFormed, here, next, failed}
use mcvirt.Rpc.Function.Reachable.{opened as then_opened, registered as then_registered}
use mcvirt.Rpc.Transaction.History.{opened, registered, AllReturn, undone_from_newest}
use mcvirt.Rpc.Function.Run.{IsRenewed, run_renews_session}

abbrev world : World (List String) String
world = record {
  hostname = "node1";
  session_id = some "s1";
  is_cluster_master = true;
  task_cancelled = λ _. false;
  cluster_nodes = λ _. [];
  has_method = λ _ _ _. true;
  get_remote_object = λ _ _ env. (ok tt, env);
  invoke = λ _ _ name _ _ s. (ok name, record s { env = name ∷ s.env });
  invoke_undo = λ _ _ name _ _ env. (ok tt, name ∷ env);
  self_value = λ _. "self";
  convert = λ _ v. v;
}

abbrev call_on : Bool → Function String
call_on complete = record {
  name = "add_user_to_config";
  nodes =
      ("node1", record { complete = complete; return_val = none; kwargs = []; args = "fred" ∷ [] })
      ∷ [];
  current_node = none;
  return_dict = false;
  support_callback = false;
  undo_method = some "remove_user_from_config";
  remote_method = none;
  remote_undo_method = none;
}

-- Two transactions at the references 1 and 0, the newer with a completed call and the older with one
-- that completed nowhere.
abbrev saga_of : List ℕ → Saga (List String) String
saga_of open_ = record {
  heap = λ ref.
      if nat_eq ref 0
      then record { id_ = 0; functions = 7 ∷ []; complete = false }
      else record { id_ = 1; functions = 8 ∷ []; complete = false };
  next_ref = 2;
  lists = λ _. open_;
  current = 0;
  undo_state = false;
  functions = λ f. call_on (not (nat_eq f 7));
  unregistered = [];
  sessions = record {
    user_sessions = ("s1", record { username = "fred"; disabled = false; expires = some 5 }) ∷ [];
    time = 100;
    session_timeout = 30;
  };
  env = [];
}

nested_IsWellFormed : IsWellFormed (saga_of (1 ∷ 0 ∷ []))
nested_IsWellFormed = record {
  stack = (omega arith, refl);
  allocated = (omega arith, (omega arith, tt));
}

rollback_resets_example :
    IsWellFormed (on_function_fail (undo world) 8 (saga_of (1 ∷ 0 ∷ []))).1
    × ((on_function_fail (undo world) 8 (saga_of (1 ∷ 0 ∷ []))).1.undo_state ≡ false)
rollback_resets_example = rollback_resets world 8 (saga_of (1 ∷ 0 ∷ [])) nested_IsWellFormed refl

undone : (undo_all (undo world) (8 ∷ []) (set_undo_state true (saga_of (1 ∷ 0 ∷ [])))).0 ≡ ok tt
unfolding undo_all undo undo_local undo_nodes undo_function_name set_current_node set_undo_state
    lookup
undone = refl

rollback_nested_example :
    ((on_function_fail (undo world) 8 (saga_of (1 ∷ 0 ∷ []))).0 ≡ ok tt)
    × (transactions (on_function_fail (undo world) 8 (saga_of (1 ∷ 0 ∷ []))).1 ≡ 0 ∷ [])
    × ((on_function_fail (undo world) 8 (saga_of (1 ∷ 0 ∷ []))).1.env
        ≡ (undo_all (undo world) (8 ∷ []) (set_undo_state true (saga_of (1 ∷ 0 ∷ [])))).1.env)
rollback_nested_example =
    rollback_nested world 8 1 0 (saga_of (1 ∷ 0 ∷ [])) refl refl (λ e. ground (arith, e)) undone

-- Two functions are registered in a new transaction.
abbrev two_registered : Saga (List String) String
two_registered = register_function 9 (register_function 8 (new_transaction (saga_of [])).1)

undone_both : AllReturn (undo world) (8 ∷ 9 ∷ []) (set_undo_state true two_registered)
unfolding undo undo_local undo_nodes undo_function_name set_current_node set_undo_state lookup
    new_transaction register_function
undone_both = ((tt, refl), refl)

rollback_single_example :
    ((on_function_fail (undo world) 9 two_registered).0 ≡ ok tt)
    × (transactions (on_function_fail (undo world) 9 two_registered).1 ≡ [])
    × ((on_function_fail (undo world) 9 two_registered).1.env
        ≡ (undone_from_newest (undo world) (8 ∷ 9 ∷ []) (set_undo_state true two_registered)).env)
rollback_single_example =
    rollback_single world 9 (8 ∷ 9 ∷ []) (saga_of []) two_registered refl refl
      (registered 9 (registered 8 opened)) undone_both

run_value : (run world 8 (saga_of [])).0 ≡ ok (value (some "add_user_to_config"))
unfolding run pause_user_session change_session change_found disable run_nodes call_function_local
    set_current_node with_callback change_node change_current change_status complete run_remote
    finish_run reset_user_session renew get_response_data return_values register_function
    in_transaction lookup insert keys
run_value = refl

run_returns : (run world 8 (saga_of [])).0 ≢ err key_error
run_returns e = cc (run_value, e)

run_renews_session_example : IsRenewed world "s1" refl (run world 8 (saga_of [])).1
run_renews_session_example = run_renews_session world "s1" refl 8 (saga_of []) refl run_returns

-- A transaction is opened within two others, a function is registered, and its failure rolls back.
abbrev opened_saga : Saga (List String) String
opened_saga = register_function 8 (new_transaction (saga_of (1 ∷ 0 ∷ []))).1

opened_normal : opened_saga.undo_state ≡ false
unfolding new_transaction register_function
opened_normal = refl

reachable_example : IsWellFormed (on_function_fail (undo world) 8 opened_saga).1
reachable_example =
    Reach-IsWellFormed world nested_IsWellFormed
      (next (next (next here then_opened) (then_registered 8)) (failed 8 opened_normal))
