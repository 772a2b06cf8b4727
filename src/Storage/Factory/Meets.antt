-- ===== src/Storage/Factory/Meets.antt =====
-- What the filters of `get_all` of mcvirt/storage/factory.py ask of a storage backend.
use mcvirt.Base.{
  ◌≤◌, String, Bool, true, false, not, ◌&&◌, ◌||◌, Option, none, some, List, [], ◌∷◌, ◌==◌, ◌≡◌,
  refl, ap, ◌∙◌, arith, nat_eq, if◌then◌else◌, inl, inr, Bool-cases, Option-cases,
}
use mcvirt.Base.Lists.{contains, length, filter}
use mcvirt.Base.Dict.{Dict, keys, lookup}
use mcvirt.Base.Exec.{Result, ok, err, and_then}
use mcvirt.Exceptions.{Exception}
use mcvirt.Storage.Backend.{Storage, StorageMethod, NodeConfig, Backend, truthy, location_of}
use mcvirt.Storage.Volume.{StorageClass, get_class}
use mcvirt.Storage.Nodes.{same_flag}
use mcvirt.Storage.Factory.{Wanted, same_class, same_location, also}

-- Every node of a list is in another one, and some node is.
unfoldable pub all_in : List String → List String → Bool
all_in [] available = true
all_in (node ∷ nodes) available = contains available node && all_in nodes available

unfoldable pub some_in : List String → List String → Bool
some_in [] available = false
some_in (node ∷ nodes) available = contains available node || some_in nodes available

-- An option of the filter that is not given leaves every backend.
abbrev pub unless : {A : Type 0} → Option A → (A → Bool) → Bool
unless none test = true
unless (some a) test = test a

-- The storage type, if one is given: the class of the backend is another one.
unfoldable pub differs : Result Exception StorageClass → Result Exception StorageClass → Bool
unfolding same_class
differs (ok wanted) (ok found) = not (same_class wanted found)
differs (ok wanted) (err e) = false
differs (err e) found = false

-- What the filter asks of a configuration.
unfoldable pub meets : Wanted → String → Backend → Bool
unfolding truthy same_location differs
meets w host b =
    unless w.is_global not
    && (unless w.default_location (same_location b.location)
        && ((not w.available_on_local_node || contains (keys b.nodes) host)
            && ((elim w.nodes [
              | [] ↦ true
              | node ∷ nodes ↦
                  if w.nodes_predefined
                  then all_in (node ∷ nodes) (keys b.nodes)
                  else some_in (node ∷ nodes) (keys b.nodes)
            ])
                && ((not w.drbd || not b.shared)
                    && ((not (truthy w.storage_type)
                          || unless w.storage_type
                              (λ t. differs (get_class t) (get_class b.storage_type)))
                        && unless w.shared (same_flag b.shared))))))

filter-le :
    (nodes available : List String) → length (filter (contains available) nodes) ≤ length nodes
unfolding filter
filter-le [] available = omega arith
filter-le (node ∷ nodes) available = ground (arith, filter-le nodes available)

pub all_found :
    (nodes available : List String)
    → nat_eq (length nodes) (length (filter (contains available) nodes)) ≡ all_in nodes available
unfolding filter all_in
all_found [] available = ground arith
all_found (node ∷ nodes) available =
    ground (arith, all_found nodes available, filter-le nodes available)

pub some_found :
    (nodes available : List String)
    → not (nat_eq (length (filter (contains available) nodes)) 0) ≡ some_in nodes available
unfolding filter some_in
some_found [] available = ground arith
some_found (node ∷ nodes) available = ground (arith, some_found nodes available)

-- A method returned an answer and changed nothing.
abbrev pub Gives : {K A : Type 0} → Result Exception A × Storage K → Storage K → A → Type 0
Gives r s a = r ≡ (ok a, s)

pub and_then-Gives :
    {K A B : Type 0} (r : Result Exception A × Storage K) (f : A → StorageMethod K B)
    (s : Storage K) (a : A) (b : B)
    → Gives r s a
    → Gives (f a s) s b
    → Gives (and_then r f) s b
and_then-Gives r f s a b first second = ap (λ r. and_then r f) first ∙ second

pub contains-lookup :
    {V : Type 0} (k : String) (d : Dict V)
    → contains (keys d) k ≡ true
    → (v : V) × (lookup k d ≡ some v)
unfolding contains keys lookup
contains-lookup k [] present = cc
contains-lookup k ((j, v) ∷ d) present = elim (Bool-cases (j == k)) [
  | inl same ↦ (v, rw same refl)
  | inr other ↦ rw other (contains-lookup k d (ground arith))
]

pub lookup-contains :
    {V : Type 0} (k : String) (d : Dict V) (v : V)
    → lookup k d ≡ some v
    → contains (keys d) k ≡ true
unfolding contains keys lookup
lookup-contains k [] v found = cc
lookup-contains k ((j, w) ∷ d) v found = elim (Bool-cases (j == k)) [
  | inl same ↦ rw same refl
  | inr other ↦ rw other (lookup-contains k d v (ground arith))
]

-- A further test, which counts only if those before it are passed.
pub also-Gives :
    {K : Type 0} (a b : StorageMethod K Bool) (s : Storage K) (x y : Bool)
    → Gives (a s) s x
    → Gives (b s) s y
    → Gives (also a b s) s (x && y)
unfolding also
also-Gives a b s true y first second = and_then-Gives (a s) _ s true y first second
also-Gives a b s false y first second = and_then-Gives (a s) _ s false false first refl

pub same_flag_comm : (a b : Bool) → same_flag a b ≡ same_flag b a
unfolding same_flag
same_flag_comm true true = refl
same_flag_comm true false = refl
same_flag_comm false true = refl
same_flag_comm false false = refl

-- The class of a name of a class.
abbrev pub IsClass : String → Type 0
IsClass name = (class : StorageClass) × (get_class name ≡ ok class)

-- What the filter needs to have an answer for a backend: its type and the type that is asked for are
-- known, and where a default location is asked for, the node has the backend.
abbrev pub IsListable : Wanted → String → Backend → Type 0
IsListable w host config =
    IsClass config.storage_type
    × ((t : String) → w.storage_type ≡ some t → IsClass t)
    × ((l : String) → w.default_location ≡ some l → contains (keys config.nodes) host ≡ true)

pub location_of_default :
    (entry : NodeConfig) (default : Option String) → location_of entry default true ≡ default
unfolding location_of
location_of_default entry default = elim (Option-cases entry.location) [
  | inl absent ↦ rw absent refl
  | inr (own, present) ↦ rw present ground arith
]
