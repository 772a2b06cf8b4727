-- ===== src/Storage/Factory/Matches.antt =====
-- The tests of the loop of `get_all`, one by one, for one storage backend.
use mcvirt.Base.{
  String, Bool, true, false, not, ◌||◌, Option, none, some, List, [], ◌∷◌, ◌==◌, ◌≡◌, refl, ap,
  if◌then◌else◌, inl, inr, Bool-cases,
}
use mcvirt.Base.Lists.{contains}
use mcvirt.Base.Dict.{keys, lookup}
use mcvirt.Base.Exec.{ok}
use mcvirt.Auth.Groups.{item}
use mcvirt.Storage.Backend.{
  Storage, Backend, local_backends, assert_manage, get_backend, is_shared, get_backend_nodes,
  truthy, get_location, is_drbd_suitable,
}
use mcvirt.Storage.Volume.{StorageClass, get_class}
use mcvirt.Storage.Nodes.{same_flag}
use mcvirt.Storage.Factory.{
  Wanted, same_location, enough_nodes, check_exists, get_object, also, global_matches,
  default_matches, local_matches, nodes_match, drbd_matches, type_matches, shared_matches, passes,
  listed,
}
use mcvirt.Storage.Factory.Meets.{
  all_in, some_in, unless, differs, meets, all_found, some_found, Gives, and_then-Gives,
  contains-lookup, lookup-contains, also-Gives, same_flag_comm, IsClass, IsListable,
  location_of_default,
}

module _ {K : Type 0} (s : Storage K) (id : String) (config : Backend)
    (granted : assert_manage s ≡ (ok tt, s))
    (found : lookup id (local_backends s) ≡ some config) where
  get_backend_lem : get_backend id s ≡ (ok config, s)
  unfolding get_backend item
  get_backend_lem = rw (granted, found) refl

  is_shared_lem : is_shared id s ≡ (ok config.shared, s)
  unfolding is_shared
  is_shared_lem = rw get_backend_lem refl

  pub get_backend_nodes_lem : get_backend_nodes id s ≡ (ok (keys config.nodes), s)
  unfolding get_backend_nodes
  get_backend_nodes_lem = rw get_backend_lem refl

  get_location-Gives :
      contains (keys config.nodes) s.hostname ≡ true
      → Gives (get_location id none true s) s config.location
  unfolding get_location item
  get_location-Gives local =
      let (entry, present) = contains-lookup s.hostname config.nodes local in
      rw (get_backend_nodes_lem, local, get_backend_lem, present)
        (ap (λ l. (ok l, s)) (location_of_default entry config.location))

  global_matches-Gives :
      (wanted : Option Bool) → Gives (global_matches wanted s) s (unless wanted not)
  unfolding global_matches
  global_matches-Gives none = refl
  global_matches-Gives (some wanted) = refl

  default_matches-Gives :
      (wanted : Option String)
      → ((l : String) → wanted ≡ some l → contains (keys config.nodes) s.hostname ≡ true)
      → Gives (default_matches id wanted s) s (unless wanted (same_location config.location))
  unfolding default_matches
  default_matches-Gives none local = refl
  default_matches-Gives (some wanted) local =
      and_then-Gives (get_location id none true s) _ s config.location _
        (get_location-Gives (local wanted refl)) refl

  local_matches-Gives :
      (wanted : Bool)
      → Gives (local_matches id wanted s) s (not wanted || contains (keys config.nodes) s.hostname)
  unfolding local_matches
  local_matches-Gives false = refl
  local_matches-Gives true = rw get_backend_nodes_lem refl

  drbd_matches-Gives :
      (wanted : Bool) → Gives (drbd_matches id wanted s) s (not wanted || not config.shared)
  unfolding drbd_matches is_drbd_suitable
  drbd_matches-Gives false = refl
  drbd_matches-Gives true = rw is_shared_lem refl

  nodes_match-Gives :
      (nodes : List String) (predefined : Bool)
      → Gives (nodes_match id nodes predefined s) s (elim nodes [
        | [] ↦ true
        | node ∷ rest ↦
            if predefined
            then all_in (node ∷ rest) (keys config.nodes)
            else some_in (node ∷ rest) (keys config.nodes)
      ])
  unfolding nodes_match enough_nodes
  nodes_match-Gives [] predefined = refl
  nodes_match-Gives (node ∷ nodes) true =
      rw get_backend_nodes_lem (ap (λ b. (ok b, s)) (all_found (node ∷ nodes) (keys config.nodes)))
  nodes_match-Gives (node ∷ nodes) false =
      rw get_backend_nodes_lem (ap (λ b. (ok b, s)) (some_found (node ∷ nodes) (keys config.nodes)))

  shared_matches-Gives :
      (wanted : Option Bool)
      → Gives (shared_matches id wanted s) s (unless wanted (same_flag config.shared))
  unfolding shared_matches
  shared_matches-Gives none = refl
  shared_matches-Gives (some wanted) =
      rw is_shared_lem (ap (λ b. (ok b, s)) (same_flag_comm wanted config.shared))

  type_matches-Gives :
      (wanted : Option String) (class : StorageClass)
      → get_class config.storage_type ≡ ok class
      → ((t : String) → wanted ≡ some t → IsClass t)
      → Gives (type_matches wanted class s) s (
          not (truthy wanted)
          || unless wanted (λ t. differs (get_class t) (get_class config.storage_type)))
  unfolding type_matches truthy differs
  type_matches-Gives none class known classes = refl
  type_matches-Gives (some wanted) class known classes = elim (Bool-cases (wanted == "")) [
    | inl empty ↦ rw empty refl
    | inr given ↦ rw (given, (classes wanted refl).1, known) refl
  ]

  get_object-Gives :
      (class : StorageClass)
      → get_class config.storage_type ≡ ok class
      → Gives (get_object id s) s class
  unfolding get_object check_exists item
  get_object-Gives class known =
      rw (lookup-contains id (local_backends s) config found, found, known) refl

  passes-Gives :
      (w : Wanted) (class : StorageClass)
      → get_class config.storage_type ≡ ok class
      → IsListable w s.hostname config
      → Gives (passes w id class s) s (meets w s.hostname config)
  unfolding passes meets
  passes-Gives w class known listable =
      let t6 = also (type_matches w.storage_type class) (shared_matches id w.shared) in
      let t5 = also (drbd_matches id w.drbd) t6 in
      let t4 = also (nodes_match id w.nodes w.nodes_predefined) t5 in
      let t3 = also (local_matches id w.available_on_local_node) t4 in
      let t2 = also (default_matches id w.default_location) t3 in
      also-Gives (global_matches w.is_global) t2 s _ _ (global_matches-Gives w.is_global) (
        also-Gives (default_matches id w.default_location) t3 s _ _
          (default_matches-Gives w.default_location listable.2)
          (also-Gives (local_matches id w.available_on_local_node) t4 s _ _
            (local_matches-Gives w.available_on_local_node)
            (also-Gives (nodes_match id w.nodes w.nodes_predefined) t5 s _ _
              (nodes_match-Gives w.nodes w.nodes_predefined)
              (also-Gives (drbd_matches id w.drbd) t6 s _ _ (drbd_matches-Gives w.drbd) (
                also-Gives (type_matches w.storage_type class) (shared_matches id w.shared) s _ _
                  (type_matches-Gives w.storage_type class known listable.1)
                  (shared_matches-Gives w.shared))))))

  pub listed-Gives :
      (w : Wanted)
      → IsListable w s.hostname config
      → Gives (listed w id s) s (meets w s.hostname config)
  unfolding listed
  listed-Gives w listable =
      let (class, known) = listable.0 in
      and_then-Gives (get_object id s) _ s class _ (get_object-Gives class known)
        (passes-Gives w class known listable)
