-- ===== src/Rpc/Function.antt =====
-- class Function of mcvirt/rpc/expose_method.py: running an exposed method on the nodes that it was
-- called for, and undoing it there.
pub mod Undo
pub mod Run
pub mod Reachable
mod Tests
use Prim.Native.String.{◌++◌ as append}
use mcvirt.Base.{
  ℕ, String, Bool, true, false, not, ◌&&◌, ◌||◌, Option, none, some, List, [], ◌∷◌, map, ◌==◌,
  if◌then◌else◌,
}
use mcvirt.Base.Dict.{Dict, lookup, insert, has, keys}
use mcvirt.Base.Exec.{Result, ok, err, Exec, and_then}
use mcvirt.Exceptions.{Exception, key_error, task_cancelled}
use mcvirt.Auth.Session.{SessionInfo, Sessions, disable, renew}
use mcvirt.Rpc.State.{NodeStatus, Function, Saga, World, update}
use mcvirt.Rpc.Transaction.{in_transaction, register_function, on_function_fail}

-- What a call returns: `return_dict` asks for the value of each node.
pub data Response (V : Type 0) : Type 0 where
  by_node : Dict (Option V) → Response V
  value : Option V → Response V

-- A method name that was passed to the decorator, if it is neither None nor empty.
abbrev pub or_name : Option String → String → String
or_name none default = default
or_name (some name) default = if name == "" then default else name

abbrev pub is_node : Option String → String → Bool
is_node none hostname = false
is_node (some node) hostname = node == hostname

module _ {V : Type 0} where
  -- {node: {…} for node in nodes}
  pub init_nodes : List V → Dict V → List String → Dict (NodeStatus V)
  init_nodes args kwargs [] = []
  init_nodes args kwargs (node ∷ nodes) =
      insert node (record { complete = false; return_val = none; kwargs = kwargs; args = args })
        (init_nodes args kwargs nodes)

  -- self.nodes[node] with the change made to it, of a node that is there
  pub change_status :
      (NodeStatus V → NodeStatus V) → String → Dict (NodeStatus V) → Dict (NodeStatus V)
  change_status g node [] = []
  change_status g node ((n, status) ∷ nodes) =
      if n == node then (n, g status) ∷ nodes else (n, status) ∷ change_status g node nodes

  pub add_all : Dict V → Dict V → Dict V
  add_all [] kwargs = kwargs
  add_all ((k, v) ∷ more) kwargs = add_all more (insert k v kwargs)

module _ {Env V : Type 0} where
  abbrev set_function : ℕ → Function V → Saga Env V → Saga Env V
  set_function f function s = record s { functions = update s.functions f function }

  pub set_current_node : ℕ → String → Saga Env V → Saga Env V
  set_current_node f node s = set_function f (record (s.functions f) { current_node = some node }) s

  pub change_node : ℕ → (NodeStatus V → NodeStatus V) → String → Saga Env V → Saga Env V
  unfolding change_status
  change_node f g node s =
      set_function f (record (s.functions f) { nodes = change_status g node (s.functions f).nodes })
        s

  -- self.nodes[self.current_node]
  pub change_current : ℕ → (NodeStatus V → NodeStatus V) → Exec Exception (Saga Env V) (Unit {0})
  unfolding change_node
  change_current f g s = elim (s.functions f).current_node [
    | none ↦ (err key_error, s)
    | some node ↦
        if has node (s.functions f).nodes
        then (ok tt, change_node f g node s)
        else (err key_error, s)
  ]

  pub complete : ℕ → Exec Exception (Saga Env V) (Unit {0})
  unfolding change_current
  complete f = change_current f (λ status. record status { complete = true })

  pub add_undo_argument : ℕ → Dict V → Exec Exception (Saga Env V) (Unit {0})
  unfolding change_current add_all
  add_undo_argument f more =
      change_current f (λ status. record status { kwargs = add_all more status.kwargs })

  change_found :
      Option SessionInfo
      → String
      → (Sessions → SessionInfo → SessionInfo)
      → Exec Exception (Saga Env V) (Unit {0})
  change_found none id g s = (err key_error, s)
  change_found (some info) id g s = (
    ok tt,
    record s {
      sessions = record (s.sessions) {
        user_sessions = insert id (g s.sessions info) s.sessions.user_sessions;
      };
    },
  )

  -- A change of the session of the current request, if there is one.
  pub change_session :
      Option String
      → (Sessions → SessionInfo → SessionInfo)
      → Exec Exception (Saga Env V) (Unit {0})
  unfolding change_found
  change_session none g s = (ok tt, s)
  change_session (some id) g s = change_found (lookup id s.sessions.user_sessions) id g s

module _ {Env V : Type 0} (w : World Env V) where
  open w use {
    hostname, session_id, is_cluster_master, task_cancelled as is_task_cancelled, cluster_nodes,
    has_method, get_remote_object, invoke, invoke_undo, self_value, convert,
  }

  -- The nodes that a call is for: the arguments `nodes` and `all_nodes` count only where the method
  -- is declared with `remote_nodes`.
  pub select_nodes : Bool → Option (List String) → Option Bool → Env → List String
  select_nodes true (some nodes) all_nodes env = nodes
  select_nodes true none (some true) env = cluster_nodes env
  select_nodes true none (some false) env = hostname ∷ []
  select_nodes true none none env = hostname ∷ []
  select_nodes false nodes all_nodes env = hostname ∷ []

  pub undo_function_name : Function V → String
  undo_function_name fn =
      let default = or_name fn.undo_method (append "undo__" fn.name) in
      if is_node fn.current_node hostname then default else or_name fn.remote_undo_method default

  -- The keyword arguments, with the function object itself where the method supports it.
  pub with_callback : ℕ → Function V → Dict V → Dict V
  with_callback f fn kwargs =
      if fn.support_callback then insert "_f" (self_value f) kwargs else kwargs

  pub convert_kwargs : String → Dict V → Dict V
  convert_kwargs node [] = []
  convert_kwargs node ((k, v) ∷ kwargs) = (k, convert node v) ∷ convert_kwargs node kwargs

  -- An action on the environment.
  abbrev pub on_env :
      {A : Type 0} → (Env → Result Exception A × Env) → Exec Exception (Saga Env V) A
  on_env m s = let (r, env) = m s.env in (r, record s { env = env })

  pub undo_remote : ℕ → String → NodeStatus V → Exec Exception (Saga Env V) (Unit {0})
  unfolding undo_function_name with_callback convert_kwargs set_current_node
  undo_remote f node status s =
      let s1 = set_current_node f node s in
      let fn = s1.functions f in
      let name = undo_function_name fn in
      and_then (on_env (get_remote_object f node) s1) (λ _ s2.
        if has_method f node name
        then on_env
            (invoke_undo f node name (map (convert node) status.args)
              (convert_kwargs node (with_callback f fn status.kwargs)))
            s2
        else (ok tt, s2))

  -- The loop over the remote nodes.
  pub undo_nodes : ℕ → Dict (NodeStatus V) → Exec Exception (Saga Env V) (Unit {0})
  unfolding undo_remote
  undo_nodes f [] s = (ok tt, s)
  undo_nodes f ((node, status) ∷ nodes) s =
      and_then
        (if node == hostname || not status.complete
          then (ok tt, s)
          else undo_remote f node status s)
        (λ _. undo_nodes f nodes)

  -- The name that is looked for is found before the current node is set, the name that is called
  -- after it.
  pub undo_local : ℕ → Exec Exception (Saga Env V) (Unit {0})
  unfolding undo_function_name set_current_node
  undo_local f s = elim (lookup hostname (s.functions f).nodes) [
    | none ↦ (ok tt, s)
    | some status ↦
        if status.complete && has_method f hostname (undo_function_name (s.functions f))
        then (let s1 = set_current_node f hostname s in
            on_env
              (invoke_undo f hostname (undo_function_name (s1.functions f)) status.args
                status.kwargs)
              s1)
        else (ok tt, s)
  ]

  pub undo : ℕ → Exec Exception (Saga Env V) (Unit {0})
  unfolding undo_local undo_nodes
  undo f s = and_then (undo_local f s) (λ _ s1. undo_nodes f (s1.functions f).nodes s1)

  pub pause_user_session : Exec Exception (Saga Env V) (Unit {0})
  unfolding change_session disable
  pause_user_session = change_session session_id (λ _. disable)

  pub reset_user_session : Exec Exception (Saga Env V) (Unit {0})
  unfolding change_session renew
  reset_user_session = change_session session_id renew

  pub call_function_local : ℕ → Exec Exception (Saga Env V) (Unit {0})
  unfolding set_current_node with_callback change_node
  call_function_local f s =
      let s1 = set_current_node f hostname s in
      let fn = s1.functions f in
      elim (lookup hostname fn.nodes) [
        | none ↦ (err key_error, s1)
        | some status ↦
            and_then (invoke f hostname fn.name status.args (with_callback f fn status.kwargs) s1)
              (λ v s2. (ok tt, change_node f (λ st. record st { return_val = some v }) hostname s2))
      ]

  pub call_function_remote : ℕ → String → Exec Exception (Saga Env V) (Unit {0})
  unfolding set_current_node with_callback convert_kwargs change_node
  call_function_remote f node s =
      let s1 = set_current_node f node s in
      and_then (on_env (get_remote_object f node) s1) (λ _ s2.
        let fn = s2.functions f in
        elim (lookup node fn.nodes) [
          | none ↦ (err key_error, s2)
          | some status ↦
              and_then
                (invoke f node (or_name fn.remote_method fn.name) (map (convert node) status.args)
                  (convert_kwargs node (with_callback f fn status.kwargs)) s2)
                (λ v s3. (ok tt, change_node f (λ st. record st { return_val = some v }) node s3))
        ])

  pub run_remote : ℕ → List String → Exec Exception (Saga Env V) (Unit {0})
  unfolding call_function_remote complete
  run_remote f [] s = (ok tt, s)
  run_remote f (node ∷ nodes) s =
      and_then
        (if node == hostname
          then (ok tt, s)
          else and_then (call_function_remote f node s) (λ _. complete f))
        (λ _. run_remote f nodes)

  -- The body of the `try`: the local node first, then the others.
  pub run_nodes : ℕ → Exec Exception (Saga Env V) (Unit {0})
  unfolding call_function_local complete run_remote
  run_nodes f s =
      and_then
        (if has hostname (s.functions f).nodes
          then and_then (call_function_local f s) (λ _. complete f)
          else (ok tt, s))
        (λ _ s1. run_remote f (keys (s1.functions f).nodes) s1)

  pub return_values : Dict (NodeStatus V) → Dict (Option V)
  return_values [] = []
  return_values ((node, status) ∷ nodes) = (node, status.return_val) ∷ return_values nodes

  abbrev pub return_of : Option (NodeStatus V) → Option V
  return_of none = none
  return_of (some status) = status.return_val

  abbrev pub first_status : Dict (NodeStatus V) → Option (NodeStatus V)
  first_status [] = none
  first_status ((_, status) ∷ _) = some status

  pub get_response_data : Function V → Response V
  unfolding return_values
  get_response_data fn =
      if fn.return_dict
      then by_node (return_values fn.nodes)
      else if has hostname fn.nodes
      then value (return_of (lookup hostname fn.nodes))
      else value (return_of (first_status fn.nodes))

  -- Resets the session, and then raises `exc`, or the exception that the undo ended with.
  pub reset_and_raise :
      Exception
      → Result Exception (Unit {0}) × Saga Env V
      → Result Exception (Response V) × Saga Env V
  unfolding reset_user_session
  reset_and_raise exc (ok _, s) = and_then (reset_user_session s) (λ _ t. (err exc, t))
  reset_and_raise exc (err exc2, s) = and_then (reset_user_session s) (λ _ t. (err exc2, t))

  -- The handler of the exception that ended the `try`. (A bare `raise` behind a handled exception
  -- raises the first one again.)
  pub handle_failure : ℕ → Exception → Exec Exception (Saga Env V) (Response V)
  unfolding undo reset_and_raise
  handle_failure f exc s =
      reset_and_raise exc (if is_cluster_master then on_function_fail undo f s else (ok tt, s))

  pub finish_run :
      ℕ → Result Exception (Unit {0}) × Saga Env V → Result Exception (Response V) × Saga Env V
  unfolding handle_failure reset_user_session get_response_data
  finish_run f (ok _, s) =
      and_then (reset_user_session s) (λ _ t. (ok (get_response_data (t.functions f)), t))
  finish_run f (err exc, s) = handle_failure f exc s

  pub run : ℕ → Exec Exception (Saga Env V) (Response V)
  unfolding pause_user_session run_nodes finish_run
  run f s =
      if is_task_cancelled s.env
      then (err task_cancelled, s)
      else and_then (pause_user_session s) (λ _ s1.
        finish_run f (run_nodes f (if is_cluster_master then register_function f s1 else s1)))

  -- What the decorated method does: run the function, and unregister it outside of a transaction.
  pub inner : ℕ → Exec Exception (Saga Env V) (Response V)
  unfolding run
  inner f s = and_then (run f s) (λ response t.
      (ok response, if in_transaction t then t else record t { unregistered = f ∷ t.unregistered }))
