-- ===== src/Storage/Factory.antt =====
-- mcvirt/storage/factory.py: the lookups of storage backends, and their list with its filters.
pub mod Meets
pub mod Matches
pub mod Filter
use mcvirt.Base.{
  String, Bool, true, false, not, Option, none, some, List, [], ◌∷◌, ◌==◌, nat_eq, if◌then◌else◌,
}
use mcvirt.Base.Lists.{contains, length, filter}
use mcvirt.Base.Dict.{Dict, keys}
use mcvirt.Base.Exec.{Result, ok, err, pure, gets, reads, guard, ◌>>=◌, ◌>>◌}
use mcvirt.Exceptions.{storage_backend_does_not_exist}
use mcvirt.Auth.Groups.{item}
use mcvirt.Storage.Backend.{
  Storage, StorageMethod, Backend, local_backends, is_shared, get_backend_nodes, truthy,
  get_location, is_drbd_suitable,
}
use mcvirt.Storage.Volume.{StorageClass, lvm, file, get_class}
use mcvirt.Storage.Nodes.{same_flag}

-- The arguments of get_all. A flag that is None counts as false.
pub record Wanted : Type 0 where
  pub available_on_local_node : Bool
  pub nodes : List String
  pub drbd : Bool
  pub storage_type : Option String
  pub shared : Option Bool
  pub nodes_predefined : Bool
  pub is_global : Option Bool
  pub default_location : Option String

unfoldable pub same_class : StorageClass → StorageClass → Bool
same_class lvm lvm = true
same_class file file = true
same_class _ _ = false

-- location == default_location
unfoldable pub same_location : Option String → String → Bool
same_location none wanted = false
same_location (some location) wanted = location == wanted

-- False, if there is none.
unfoldable pub id_by_name : String → Dict Backend → Option String
id_by_name name [] = none
id_by_name name ((id, config) ∷ backends) =
    if config.name == name then some id else id_by_name name backends

-- The test of the nodes that are asked for: as many as these are available, or at least one.
unfoldable pub enough_nodes : List String → Bool → List String → Bool
enough_nodes [] predefined available = true
enough_nodes (node ∷ nodes) predefined available =
    let found = length (filter (contains available) (node ∷ nodes)) in
    if predefined then nat_eq (length (node ∷ nodes)) found else not (nat_eq found 0)

module _ {K : Type 0} where
  unfoldable pub check_exists : String → Storage K → Bool
  check_exists id s = contains (keys (local_backends s)) id

  -- The class of the object; the cache holds an object for an id that was looked up before.
  unfoldable pub get_object : String → StorageMethod K StorageClass
  unfolding check_exists item get_class
  get_object id = do
    found ← gets (check_exists id)
    guard found storage_backend_does_not_exist
    config ← reads (λ s. item (local_backends s) id)
    reads (λ _. get_class config.storage_type)

  -- The id of the object. An empty id counts as none.
  unfoldable pub get_object_by_name : String → StorageMethod K String
  unfolding id_by_name truthy get_object
  get_object_by_name name = do
    object_id ← gets (λ s. id_by_name name (local_backends s))
    guard (truthy object_id) storage_backend_does_not_exist
    id ← pure (elim object_id [ none ↦ "" | some id ↦ id ])
    class ← get_object id
    pure id

  -- if not a: continue
  unfoldable pub also : StorageMethod K Bool → StorageMethod K Bool → StorageMethod K Bool
  also a b = do x ← a; if x then b else pure false

  -- No backend is global.
  unfoldable pub global_matches : Option Bool → StorageMethod K Bool
  global_matches none = pure true
  global_matches (some wanted) = pure (not wanted)

  unfoldable pub default_matches : String → Option String → StorageMethod K Bool
  unfolding get_location same_location
  default_matches id none = pure true
  default_matches id (some wanted) = do
    location ← get_location id none true
    pure (same_location location wanted)

  unfoldable pub local_matches : String → Bool → StorageMethod K Bool
  unfolding get_backend_nodes
  local_matches id false = pure true
  local_matches id true = do
    nodes ← get_backend_nodes id
    local ← gets (λ s. s.hostname)
    pure (contains nodes local)

  unfoldable pub nodes_match : String → List String → Bool → StorageMethod K Bool
  unfolding get_backend_nodes enough_nodes
  nodes_match id [] predefined = pure true
  nodes_match id (node ∷ nodes) predefined = do
    available ← get_backend_nodes id
    pure (enough_nodes (node ∷ nodes) predefined available)

  unfoldable pub drbd_matches : String → Bool → StorageMethod K Bool
  unfolding is_drbd_suitable
  drbd_matches id false = pure true
  drbd_matches id true = is_drbd_suitable id

  -- if storage_type and not self.get_class(storage_type) != storage_object.__class__: continue
  unfoldable pub type_matches : Option String → StorageClass → StorageMethod K Bool
  unfolding truthy get_class same_class
  type_matches none class = pure true
  type_matches (some storage_type) class =
      if truthy (some storage_type)
      then (do wanted ← reads (λ _. get_class storage_type); pure (not (same_class wanted class)))
      else pure true

  unfoldable pub shared_matches : String → Option Bool → StorageMethod K Bool
  unfolding is_shared same_flag
  shared_matches id none = pure true
  shared_matches id (some wanted) = do shared ← is_shared id; pure (same_flag wanted shared)

  -- The tests of the loop, after that of the object.
  unfoldable pub passes : Wanted → String → StorageClass → StorageMethod K Bool
  unfolding also global_matches default_matches local_matches nodes_match drbd_matches type_matches
      shared_matches
  passes w id class = also (global_matches w.is_global) (
      also (default_matches id w.default_location) (
        also (local_matches id w.available_on_local_node) (
          also (nodes_match id w.nodes w.nodes_predefined) (
            also (drbd_matches id w.drbd)
              (also (type_matches w.storage_type class) (shared_matches id w.shared))))))

  -- One round of the loop: whether the backend is appended.
  unfoldable pub listed : Wanted → String → StorageMethod K Bool
  unfolding get_object passes
  listed w id = do class ← get_object id; passes w id class

  unfoldable pub select : Wanted → List String → StorageMethod K (List String)
  unfolding listed
  select w [] = pure []
  select w (id ∷ ids) =
      let rest = select w ids in
      do found ← listed w id; others ← rest; pure (if found then id ∷ others else others)

  unfoldable pub get_all : Wanted → StorageMethod K (List String)
  unfolding select
  get_all w = do ids ← gets (λ s. keys (local_backends s)); select w ids
