-- ===== src/Storage/Volume.antt =====
-- The classes of mcvirt/storage/lvm.py and mcvirt/storage/file.py, and their volumes. The programs of
-- LVM, `dd` and the calls of `os` are the parameter `Node`.
pub mod Access
use mcvirt.Base.{
  ℕ, ◌+◌, ◌*◌, ◌/◌, ◌%◌, String, Bool, true, false, not, ◌&&◌, ◌||◌, Option, none, some, List, [],
  ◌∷◌, ◌==◌, nat_eq, if◌then◌else◌,
}
use Prim.Native.String.{◌++◌ as ◌+++◌}
use mcvirt.Base.Exec.{Result, ok, err, Exec, pure, modify, gets, reads, guard, ◌>>=◌, ◌>>◌}
use mcvirt.Exceptions.{
  Exception, mcvirt_command, type_error, unknown_storage_type, invalid_storage_configuration,
  volume_does_not_exist, volume_already_exists, volume_is_not_active, external_storage_command,
  not_implemented,
}
use mcvirt.Auth.Users.{cluster_user}
use mcvirt.Auth.Permission.{assert_permission, assert_user_type}
use mcvirt.Storage.Backend.{
  Storage, StorageMethod, Backend, call, get_backend, get_location, get_backend_nodes,
}

pub data StorageClass : Type 0 where
  lvm file : StorageClass

-- storage_factory.get_class
unfoldable pub get_class : String → Result Exception StorageClass
get_class name =
    if name == "Lvm" then ok lvm else (if name == "File" then ok file else err unknown_storage_type)

-- os.stat: whether the owner is libvirt's user, and the group is libvirt's, and the mode.
pub record Stat : Type 0 where
  pub is_user : Bool
  pub is_group : Bool
  pub mode : ℕ

-- One command that changes the disks of a node.
pub data Change : Type 0 where
  lvcreate : String → String → ℕ → Change
  lvremove : String → Change
  lvchange : String → Change
  -- perform_dd of zeros
  dd : String → ℕ → Change
  unlink : String → Change
  -- os.chown to libvirt's user and group
  chown : String → Change
  chmod : String → ℕ → Change

-- A command that fails raises MCVirtCommandException, DDCommandError or OSError.
pub record Node (K : Type 0) : Type 0 where
  -- the exit code of `vgs` is zero
  pub volume_group_exists : String → String → K → Bool
  pub isdir : String → String → K → Bool
  pub lexists : String → String → K → Bool
  pub path_exists : String → String → K → Bool
  pub stat : String → String → K → Result Exception Stat
  pub run : String → Change → K → Result Exception (Unit {0}) × K

-- require_permissions_if_owned: rwx of the user and the group, 0770, and of others, 0007.
unfoldable pub has_owner_permissions : ℕ → Bool
has_owner_permissions mode = nat_eq (mode / 8 % 64) 63

unfoldable pub has_global_permissions : ℕ → Bool
has_global_permissions mode = nat_eq (mode % 8) 7

-- mode | 0770
unfoldable pub with_owner_permissions : ℕ → ℕ
with_owner_permissions mode = mode / 512 * 512 + 504 + mode % 8

-- The condition under which File.check_permissions changes the owner and the mode.
unfoldable pub needs_permissions : Stat → Bool
unfolding has_owner_permissions has_global_permissions
needs_permissions s =
    (not s.is_user || not s.is_group || not (has_owner_permissions s.mode))
    && not (has_global_permissions s.mode)

-- _id_volume_name, which is hidden for files
unfoldable pub id_volume_name : StorageClass → String → String
id_volume_name lvm id = id
id_volume_name file id = "." +++ id

module _ {K : Type 0} (n : Node K) where
  unfoldable pub run_change : Change → StorageMethod K (Unit {0})
  run_change change s =
      let (result, kernel) = n.run s.hostname change s.kernel in
      (result, record s { kernel = kernel })

  -- except …: raise ExternalStorageCommandErrorException
  unfoldable pub external : Change → StorageMethod K (Unit {0})
  unfolding run_change
  external change s = elim (run_change change s).0 [
    | ok done ↦ (ok done, (run_change change s).1)
    | err _ ↦ (err external_storage_command, (run_change change s).1)
  ]

  -- A location of None has no volume group or directory: the commands raise a TypeError.
  unfoldable pub check_exists_local : StorageClass → Option String → StorageMethod K Bool
  check_exists_local class none s = (err type_error, s)
  check_exists_local lvm (some volume_group) s =
      (ok (n.volume_group_exists s.hostname volume_group s.kernel), s)
  check_exists_local file (some directory) s = (ok (n.isdir s.hostname directory s.kernel), s)

  -- ensure_exists of the class
  unfoldable pub ensure_location_exists : StorageClass → Option String → StorageMethod K (Unit {0})
  unfolding check_exists_local
  ensure_location_exists class location = do
    found ← check_exists_local class location
    guard found invalid_storage_configuration

  unfoldable pub fix_permissions : String → StorageMethod K (Unit {0})
  unfolding run_change needs_permissions with_owner_permissions
  fix_permissions directory = do
    stat_info ← reads (λ s. n.stat s.hostname directory s.kernel)
    if needs_permissions stat_info
        then (run_change (chown directory)
            >> run_change (chmod directory (with_owner_permissions stat_info.mode)))
        else pure tt

  unfoldable pub check_permissions : StorageClass → Option String → StorageMethod K (Unit {0})
  unfolding fix_permissions
  check_permissions lvm directory s = (ok tt, s)
  check_permissions file none s = (err type_error, s)
  check_permissions file (some directory) s = fix_permissions directory s

  -- Base.node_pre_check
  unfoldable pub class_pre_check : StorageClass → Option String → StorageMethod K (Unit {0})
  unfolding ensure_location_exists check_permissions
  class_pre_check class location = do
    ensure_location_exists class location
    check_permissions class location

  unfoldable pub class_of : String → StorageMethod K StorageClass
  unfolding get_backend get_class
  class_of id = do config ← get_backend id; reads (λ _. get_class config.storage_type)

  -- A volume of a backend has the class of the backend.
  unfoldable pub path_in : StorageClass → String → Option String → StorageMethod K String
  path_in class name none s = (err type_error, s)
  path_in lvm name (some location) s = (ok ("/dev/" +++ location +++ "/" +++ name), s)
  path_in file name (some location) s = (ok (location +++ "/" +++ name), s)

  unfoldable pub get_path : StorageClass → String → String → StorageMethod K String
  unfolding get_location path_in
  get_path class id name = do location ← get_location id none false; path_in class name location

  unfoldable pub path_found : StorageClass → String → StorageMethod K Bool
  path_found lvm path = gets (λ s. n.lexists s.hostname path s.kernel)
  path_found file path = gets (λ s. n.path_exists s.hostname path s.kernel)

  unfoldable pub volume_exists : StorageClass → String → String → StorageMethod K Bool
  unfolding get_path path_found
  volume_exists class id name = do path ← get_path class id name; path_found class path

  unfoldable pub ensure_volume_exists : StorageClass → String → String → StorageMethod K (Unit {0})
  unfolding volume_exists
  ensure_volume_exists class id name = do
    found ← volume_exists class id name
    guard found volume_does_not_exist

  -- What create, delete and activate of the class ask for.
  unfoldable pub assert_volume : StorageClass → StorageMethod K (Unit {0})
  unfolding call assert_user_type assert_permission
  assert_volume lvm = call (assert_user_type (cluster_user ∷ []) true)
  assert_volume file = call (assert_permission "MANAGE_STORAGE_VOLUME" none false)

  run_create : StorageClass → String → String → ℕ → StorageMethod K (Unit {0})
  unfolding get_location get_path external
  run_create lvm id name size = do
    location ← get_location id none false
    elim location [
      | none ↦ λ s. (err type_error, s)
      | some volume_group ↦ external (lvcreate volume_group name size)
    ]
  run_create file id name size = do path ← get_path file id name; external (dd path size)

  unfoldable pub create_volume : StorageClass → String → String → ℕ → StorageMethod K (Unit {0})
  unfolding assert_volume volume_exists run_create
  create_volume class id name size = do
    assert_volume class
    found ← volume_exists class id name
    guard (not found) volume_already_exists
    run_create class id name size

  remove_path : StorageClass → String → StorageMethod K (Unit {0})
  unfolding external
  remove_path lvm path = external (lvremove path)
  remove_path file path = external (unlink path)

  unfoldable pub delete_volume : StorageClass → String → String → Bool → StorageMethod K (Unit {0})
  unfolding assert_volume get_path volume_exists remove_path
  delete_volume class id name ignore_non_existent = do
    assert_volume class
    path ← get_path class id name
    found ← volume_exists class id name
    guard (found || ignore_non_existent) volume_does_not_exist
    remove_path class path

  unfoldable pub is_active : StorageClass → String → String → StorageMethod K Bool
  unfolding ensure_volume_exists volume_exists get_path
  is_active lvm id name = do
    ensure_volume_exists lvm id name
    path ← get_path lvm id name
    gets (λ s. n.path_exists s.hostname path s.kernel)
  is_active file id name = volume_exists file id name

  unfoldable pub ensure_active : StorageClass → String → String → StorageMethod K (Unit {0})
  unfolding is_active
  ensure_active class id name = do
    active ← is_active class id name
    guard active volume_is_not_active
