-- ===== src/Storage/Tests.antt =====
-- Concrete storage backends, on which each property of them applies: two nodes, of which only `b` has
-- the first backend, and a machine that uses the second one.
use mcvirt.Base.{
  String, true, false, none, some, [], ◌∷◌, ◌==◌, ◌≡◌, refl, ap, subst, inl, inr, Bool-cases,
}
use mcvirt.Base.Dict.{Dict, lookup, keys}
use mcvirt.Base.Lists.{contains}
use mcvirt.Base.Exec.{Result, ok, err, ok_injective}
use mcvirt.Exceptions.{Exception, storage_backend_in_use}
use mcvirt.Auth.Permission.{Request}
use mcvirt.Storage.Backend.{NodeConfig, Storage, Backend, assert_manage, call, used_by}
use mcvirt.Storage.Volume.{
  Node, Stat, get_class, Change, lvm, file, chown, chmod, check_permissions,
}
use mcvirt.Storage.Volume.Access.{IsPosix, check_permissions-again}
use mcvirt.Storage.Cluster.{on_cluster, get_nodes}
use mcvirt.Storage.Cluster.Everywhere.{Lacks, Lists, on_cluster-Lacks, on_cluster-Lists}
use mcvirt.Storage.Nodes.{ensure_can_remove_node, add_node_to_config, remove_node_from_config}
use mcvirt.Storage.Nodes.Removal.{ensure_can_remove_node_lem}
use mcvirt.Storage.Factory.{Wanted, get_all}
use mcvirt.Storage.Factory.Meets.{IsClass, IsListable}
use mcvirt.Storage.Factory.Filter.{get_all-meeting, meeting}

abbrev internal : Request
internal = record {
  startup_period = false;
  internal_request = true;
  elevated_permissions = none;
  permission_asserted = none;
  session_id = none;
  proxy_user = none;
  user_sessions = [];
  config = record {
    superusers = [];
    users = [];
    groups = [];
    virtual_machines = [];
    ldap_usernames = [];
  };
}

abbrev idle_run : String → Change → Stat → Result Exception (Unit {0}) × Stat
idle_run host (chown path) k = (ok tt, record k { is_user = true; is_group = true })
idle_run host (chmod path mode) k = (ok tt, record k { mode = mode })
idle_run host _ k = (ok tt, k)

-- A node with one directory, of which its disks keep what `stat` reports.
abbrev concrete : Node Stat
concrete = record {
  volume_group_exists = λ host name k. name == "vg1";
  isdir = λ host path k. true;
  lexists = λ host path k. false;
  path_exists = λ host path k. true;
  stat = λ host path k. ok k;
  run = idle_run;
}

concrete-IsPosix : IsPosix concrete
concrete-IsPosix = record {
  stat_chown = λ host path k done. (k.mode, refl);
  stat_chmod = λ host path mode k before same done.
      ap (λ (b : Stat). Result.ok (record b { mode = mode })) (ok_injective same);
}

abbrev on_b : Backend
on_b = record {
  name = "one";
  storage_type = "Lvm";
  shared = false;
  nodes = ("b", record { location = some none }) ∷ [];
  location = some "vg1";
}

abbrev on_both : Backend
on_both = record {
  name = "two";
  storage_type = "File";
  shared = true;
  nodes =
      ("a", record { location = some none })
      ∷ ("b", record { location = some (some "/images") })
      ∷ [];
  location = some "/srv";
}

abbrev backends : Dict Backend
backends = ("sb-1", on_b) ∷ ("sb-2", on_both) ∷ []

-- The directory is root's, with the mode 0755.
abbrev cluster : Storage Stat
cluster = record {
  hostname = "a";
  request = internal;
  peer_request = internal;
  is_cluster_master = true;
  remote_nodes = "b" ∷ [];
  backends = λ _. backends;
  machines =
      (
        "vm-1",
        record {
          hard_drives = record { storage_backend = "sb-2"; is_drbd = false } ∷ [];
          available_nodes = none;
        },
      )
      ∷ [];
  kernel = record { is_user = false; is_group = false; mode = 493 };
}

abbrev wanted : Wanted
wanted = record {
  available_on_local_node = true;
  nodes = "b" ∷ "c" ∷ [];
  drbd = false;
  storage_type = some "Lvm";
  shared = some true;
  nodes_predefined = false;
  is_global = none;
  default_location = none;
}

some_injective : {A : Type 0} (a b : A) → some a ≡ some b → a ≡ b
some_injective a b same = ap (λ o. elim o [ none ↦ a | some c ↦ c ]) same

-- The filter asks for a type that is known, and for no location.
known-IsListable : (config : Backend) → IsClass config.storage_type → IsListable wanted "a" config
unfolding get_class
known-IsListable config known =
    (known, (λ t same. subst IsClass (some_injective "Lvm" t same) (lvm, refl)), (λ l same. cc))

cluster-IsListable :
    (id : String) (config : Backend)
    → lookup id backends ≡ some config
    → IsListable wanted "a" config
unfolding lookup get_class
cluster-IsListable id config = elim (Bool-cases ("sb-1" == id)) [
  | inl first ↦ rw first (λ found.
      subst (IsListable wanted "a") (some_injective on_b config found)
        (known-IsListable on_b (lvm, refl)))
  | inr other ↦ elim (Bool-cases ("sb-2" == id)) [
    | inl second ↦
        rw (other, second)
          (λ found.
            subst (IsListable wanted "a") (some_injective on_both config found)
              (known-IsListable on_both (file, refl)))
    | inr missing ↦ rw (other, missing) (λ found. cc)
  ]
]

cluster_granted : assert_manage cluster ≡ (ok tt, cluster)
unfolding assert_manage call
cluster_granted = refl

listed_example :
    get_all wanted cluster ≡ (ok (meeting wanted "a" backends (keys backends)), cluster)
listed_example = get_all-meeting cluster wanted cluster_granted cluster-IsListable

removable_example :
    ensure_can_remove_node "sb-2" "b" cluster ≡ (err storage_backend_in_use, cluster)
unfolding lookup contains keys used_by
removable_example = ensure_can_remove_node_lem cluster "sb-2" "b" on_both cluster_granted refl

access_example :
    check_permissions concrete file
      (some "/srv")
      (check_permissions concrete file (some "/srv") cluster).1
    ≡ (ok tt, (check_permissions concrete file (some "/srv") cluster).1)
unfolding check_permissions
access_example = check_permissions-again concrete-IsPosix "/srv" cluster refl

removed : (on_cluster (remove_node_from_config "sb-2" "b") cluster).0 ≡ ok tt
unfolding on_cluster remove_node_from_config contains lookup
removed = refl

removal_example :
    Lacks "sb-2" "b" ((on_cluster (remove_node_from_config "sb-2" "b") cluster).1.backends "b")
unfolding contains get_nodes
removal_example = on_cluster-Lacks "sb-2" "b" cluster "b" removed refl

abbrev new_node : NodeConfig
new_node = record { location = some (some "/srv/c") }

added : (on_cluster (add_node_to_config "sb-2" "c" new_node) cluster).0 ≡ ok tt
unfolding on_cluster add_node_to_config contains lookup
added = refl

added_node_example :
    Lists "sb-2" "c" new_node
      ((on_cluster (add_node_to_config "sb-2" "c" new_node) cluster).1.backends "b")
unfolding contains get_nodes
added_node_example = on_cluster-Lists "sb-2" "c" new_node cluster "b" added refl
