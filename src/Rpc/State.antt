-- ===== src/Rpc/State.antt =====
-- The objects of mcvirt/rpc/expose_method.py: `Transaction`, `Function`, and what they share.
-- Objects are named by reference, as `Transaction.transactions` and the loops over it depend on
-- identity: `heap` and `functions` hold the attributes of each object, and `lists` the contents of
-- each list object that `Transaction.transactions` has been bound to.
use mcvirt.Base.{ℕ, String, Bool, Option, List, ◌≡◌, nat_eq, if◌then◌else◌, arith}
use mcvirt.Base.Dict.{Dict}
use mcvirt.Base.Exec.{Result}
use mcvirt.Exceptions.{Exception}
use mcvirt.Auth.Session.{Sessions}

-- `functions` holds references to `Function` objects, the newest first.
pub record Transaction : Type 0 where
  pub id_ : ℕ
  pub functions : List ℕ
  pub complete : Bool

-- The entry of `Function.nodes` for one node.
pub record NodeStatus (V : Type 0) : Type 0 where
  pub complete : Bool
  pub return_val : Option V
  pub kwargs : Dict V
  pub args : List V

-- A call of an exposed method. `name` is `function.__name__`.
pub record Function (V : Type 0) : Type 0 where
  pub name : String
  pub nodes : Dict (NodeStatus V)
  pub current_node : Option String
  pub return_dict : Bool
  pub support_callback : Bool
  pub undo_method : Option String
  pub remote_method : Option String
  pub remote_undo_method : Option String

-- `Env` is the state of the rest of the system, which the exposed methods change, and `V` the
-- values that they take and return.
pub record Saga (Env V : Type 0) : Type 0 where
  pub heap : ℕ → Transaction
  pub next_ref : ℕ
  pub lists : ℕ → List ℕ
  -- the list object that `Transaction.transactions` is bound to
  pub current : ℕ
  pub undo_state : Bool
  pub functions : ℕ → Function V
  -- the functions that have been unregistered from the Pyro daemon
  pub unregistered : List ℕ
  pub sessions : Sessions
  pub env : Env

abbrev pub update {ℓ} : {A : Type ℓ} → (ℕ → A) → ℕ → A → ℕ → A
update f p v q = if nat_eq p q then v else f q

pub update_self {ℓ} : {A : Type ℓ} (f : ℕ → A) (p : ℕ) (v : A) → update f p v p ≡ v
update_self f p v = ground arith

-- Transaction.transactions
abbrev pub transactions : {Env V : Type 0} → Saga Env V → List ℕ
transactions s = s.lists s.current

-- What a `Function` meets outside of this module: the cluster, the task scheduler, and the methods
-- that it calls by name. A method may do anything to the system, run other functions included; an
-- undo method runs with `Transaction.undo_state` set, where no transaction is touched, and is an
-- action on the environment.
pub record World (Env V : Type 0) : Type 0 where
  -- get_hostname()
  pub hostname : String
  -- the current Pyro session, if Expose.SESSION_OBJECT is set and there is one
  pub session_id : Option String
  -- obj.po__is_cluster_master
  pub is_cluster_master : Bool
  -- whether there is a current task pointer and it is cancelled
  pub task_cancelled : Env → Bool
  pub cluster_nodes : Env → List String
  -- hasattr of the object on a node, by the method's name
  pub has_method : ℕ → String → String → Bool
  pub get_remote_object : ℕ → String → Env → Result Exception (Unit {0}) × Env
  pub invoke : ℕ → String → String → List V → Dict V → Saga Env V → Result Exception V × Saga Env V
  pub invoke_undo : ℕ → String → String → List V → Dict V → Env → Result Exception (Unit {0}) × Env
  -- the function object, as the `_f` argument of a method
  pub self_value : ℕ → V
  -- an argument as `_convert_local_object` passes it to a node
  pub convert : String → V → V
