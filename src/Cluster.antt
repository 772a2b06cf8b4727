-- ===== src/Cluster.antt =====
-- The nodes of a cluster that suit a virtual machine, of mcvirt/cluster/cluster.py. A list that is
-- changed while the loop runs over it is read by the index that Python keeps.
pub mod Compatible
pub mod Skipped
mod Tests
use mcvirt.Base.{
  ℕ, zero, suc, String, Bool, true, not, Option, none, some, List, [], ◌∷◌, ◌++◌, if◌then◌else◌,
}
use mcvirt.Base.Lists.{contains, remove, length, get_elem?}
use mcvirt.Base.Exec.{Result, ok, err}
use mcvirt.Exceptions.{Exception, value_error, node_does_not_exist}

-- The configuration of the cluster on a node: the names of the other nodes.
pub record Members : Type 0 where
  pub hostname : String
  pub nodes : List String

-- get_nodes with return_all
unfoldable pub all_nodes : Bool → Members → List String
all_nodes include_local c = if include_local then c.nodes ++ (c.hostname ∷ []) else c.nodes

unfoldable pub check_node_exists : String → Bool → Members → Bool
unfolding all_nodes
check_node_exists node include_local c = contains (all_nodes include_local c) node

unfoldable pub ensure_node_exists : String → Bool → Members → Result Exception (Unit {0})
unfolding check_node_exists
ensure_node_exists node include_local c =
    if check_node_exists node include_local c then ok tt else err node_does_not_exist

-- available_nodes.remove(node)
unfoldable pub dropped : String → List String → Result Exception (List String)
dropped node available =
    if contains available node then ok (remove available node) else err value_error

-- What follows a call that may raise.
abbrev pub follow :
    {A B : Type 0} → Result Exception A → (A → Result Exception B) → Result Exception B
follow (err e) f = err e
follow (ok a) f = f a

-- The inner loop, over the lists of nodes.
unfoldable pub check_lists :
    String → List (List String) → List String → Result Exception (List String)
unfolding dropped
check_lists node [] available = ok available
check_lists node (node_list ∷ node_lists) available =
    if contains node_list node
    then check_lists node node_lists available
    else follow (dropped node available) (check_lists node node_lists)

-- The outer loop, for a number of rounds, at an index.
unfoldable pub check_from :
    ℕ → ℕ → List (List String) → List String → Result Exception (List String)
unfolding check_lists
check_from zero index node_lists available = ok available
check_from (suc rounds) index node_lists available = elim (get_elem? available index) [
  | none ↦ ok available
  | some node ↦
      follow (check_lists node node_lists available) (check_from rounds (suc index) node_lists)
]

-- The list does not grow, so it has no more rounds than nodes.
unfoldable pub get_compatible_nodes : List (List String) → Members → Result Exception (List String)
unfolding all_nodes check_from
get_compatible_nodes node_lists c =
    check_from (length (all_nodes true c)) 0 node_lists (all_nodes true c)
