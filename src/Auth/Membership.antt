-- ===== src/Auth/Membership.antt =====
-- The operations of mcvirt/auth/group/group.py, on one node: where the source
-- runs the change of the configuration on all nodes, this is the part that each node does.
pub mod Members
pub mod Deletion
use mcvirt.Base.{
  String, Bool, true, false, not, ◌&&◌, Option, none, some, List, [], ◌∷◌, ◌++◌, if◌then◌else◌,
}
use mcvirt.Base.Lists.{contains, remove}
use mcvirt.Base.Dict.{Dict, lookup, insert, delete, keys}
use mcvirt.Base.Exec.{Result, ok, err, pure, raise, modify, gets, reads, guard, ◌>>=◌, ◌>>◌}
use mcvirt.Exceptions.{
  Exception, key_error, value_error, insufficient_permissions, duplicate_permission,
  user_not_present_in_group, invalid_permission, group_already_contains_permission,
  group_does_not_contain_permission, group_in_use,
}
use mcvirt.Auth.Users.{User, GroupConfig, VmPermissions, Config, cluster_user, mem_user}
use mcvirt.Auth.Groups.{
  all_permissions, get_config, get_vm_config, get_users, group_permissions, get_id_by_name, item,
}
use mcvirt.Auth.Permission.{Request, Method, assert_permission, assert_user_type}

-- config['groups'] = groups
unfoldable pub set_groups : Dict GroupConfig → Request → Request
set_groups groups r = record r { config = record r.config { groups = groups } }

-- MCVirtConfig().update_config of the entry of one group, which is a KeyError without one.
unfoldable pub update_group :
    String → (GroupConfig → Result Exception GroupConfig) → Method (Unit {0})
unfolding set_groups get_config
update_group id f = do
  group ← reads (λ r. get_config id r.config)
  changed ← reads (λ _. f group)
  modify (λ r. set_groups (insert id changed r.config.groups) r)

-- l.remove(x), a ValueError where x is not in the list
unfoldable pub removed : List String → String → Result Exception (List String)
removed l x = if contains l x then ok (remove l x) else err value_error

unfoldable pub add_user_to_config : String → User → Method (Unit {0})
unfolding update_group assert_user_type
add_user_to_config id user = do
  assert_user_type (cluster_user ∷ []) true
  update_group id (λ group. ok (record group { users = group.users ++ (user.username ∷ []) }))

with_users : GroupConfig → Result Exception (List String) → Result Exception GroupConfig
with_users group (err e) = err e
with_users group (ok users) = ok (record group { users = users })

unfoldable pub remove_user_from_config : String → User → Method (Unit {0})
unfolding update_group assert_user_type with_users removed
remove_user_from_config id user = do
  assert_user_type (cluster_user ∷ []) true
  update_group id (λ group. with_users group (removed group.users user.username))

-- update_config of a virtual machine's permission configuration: the group's entry, which is made
-- where it lacks one.
unfoldable pub update_vm_group :
    String → String → (List String → Result Exception (List String)) → Method (Unit {0})
unfolding get_vm_config item
update_vm_group id vm f = do
  permissions ← reads (λ r. item r.config.virtual_machines vm)
  users ← reads (λ _. f (get_vm_config id permissions))
  modify (λ r. record r {
    config = record r.config {
      virtual_machines =
          insert vm (record permissions { groups = insert id users permissions.groups })
            r.config.virtual_machines;
    };
  })

unfoldable pub add_user_to_vm_config : String → User → String → Method (Unit {0})
unfolding update_vm_group assert_user_type
add_user_to_vm_config id user vm = do
  assert_user_type (cluster_user ∷ []) true
  update_vm_group id vm (λ users. ok (users ++ (user.username ∷ [])))

unfoldable pub remove_user_from_vm_config : String → User → String → Method (Unit {0})
unfolding update_vm_group assert_user_type removed
remove_user_from_vm_config id user vm = do
  assert_user_type (cluster_user ∷ []) true
  update_vm_group id vm (λ users. removed users user.username)

-- One of the two methods that change the configuration, by whether a virtual machine is given.
unfoldable pub add_user_to : String → User → Option String → Method (Unit {0})
unfolding add_user_to_config add_user_to_vm_config
add_user_to id user none = add_user_to_config id user
add_user_to id user (some vm) = add_user_to_vm_config id user vm

unfoldable pub remove_user_from : String → User → Option String → Method (Unit {0})
unfolding remove_user_from_config remove_user_from_vm_config
remove_user_from id user none = remove_user_from_config id user
remove_user_from id user (some vm) = remove_user_from_vm_config id user vm

unfoldable pub add_user : String → User → Option String → Bool → Method (Unit {0})
unfolding add_user_to assert_permission get_users
add_user id user vm ignore_duplicate = do
  assert_permission "MANAGE_GROUP_MEMBERS" vm false
  users ← reads (λ r. get_users id vm r.config)
  guard (not (mem_user user users && not ignore_duplicate)) duplicate_permission
  add_user_to id user vm

unfoldable pub remove_user : String → User → Option String → Method (Unit {0})
unfolding remove_user_from assert_permission get_users
remove_user id user vm = do
  assert_permission "MANAGE_GROUP_MEMBERS" vm false
  users ← reads (λ r. get_users id vm r.config)
  guard (mem_user user users) user_not_present_in_group
  remove_user_from id user vm

used_or : Result Exception (List User) → Result Exception Bool → Result Exception Bool
used_or (err e) rest = err e
used_or (ok []) rest = rest
used_or (ok (_ ∷ _)) rest = ok true

-- The loop of `in_use`, over the global members and then those of each virtual machine.
in_use_by : String → List (Option String) → Config → Result Exception Bool
unfolding get_users used_or
in_use_by id [] config = ok false
in_use_by id (vm ∷ vms) config = used_or (get_users id vm config) (in_use_by id vms config)

unfoldable pub some_of : List String → List (Option String)
some_of [] = []
some_of (vm ∷ vms) = some vm ∷ some_of vms

unfoldable pub in_use : String → Config → Result Exception Bool
unfolding in_use_by some_of
in_use id config = in_use_by id (none ∷ some_of (keys config.virtual_machines)) config

unfoldable pub remove_config : String → Method (Unit {0})
unfolding assert_user_type set_groups get_config
remove_config id = do
  assert_user_type (cluster_user ∷ []) true
  group ← reads (λ r. get_config id r.config)
  modify (λ r. set_groups (delete id r.config.groups) r)

unfoldable pub delete_group : String → Method (Unit {0})
unfolding remove_config in_use assert_permission
delete_group id = do
  assert_permission "MANAGE_GROUPS" none false
  used ← reads (λ r. in_use id r.config)
  guard (not used) group_in_use
  remove_config id

unfoldable pub add_permission_to_config : String → String → Method (Unit {0})
unfolding update_group assert_user_type
add_permission_to_config id permission = do
  assert_user_type (cluster_user ∷ []) true
  update_group id
      (λ group. ok (record group { permissions = group.permissions ++ (permission ∷ []) }))

with_permissions : GroupConfig → Result Exception (List String) → Result Exception GroupConfig
with_permissions group (err e) = err e
with_permissions group (ok permissions) = ok (record group { permissions = permissions })

unfoldable pub remove_permission_from_config : String → String → Method (Unit {0})
unfolding update_group assert_user_type with_permissions removed
remove_permission_from_config id permission = do
  assert_user_type (cluster_user ∷ []) true
  update_group id (λ group. with_permissions group (removed group.permissions permission))

unfoldable pub add_permission : String → String → Method (Unit {0})
unfolding add_permission_to_config assert_permission group_permissions
add_permission id permission = do
  assert_permission "MANAGE_GROUPS" none false
  guard (contains all_permissions permission) invalid_permission
  permissions ← reads (λ r. group_permissions id r.config)
  guard (not (contains permissions permission)) group_already_contains_permission
  add_permission_to_config id permission

unfoldable pub remove_permission : String → String → Method (Unit {0})
unfolding remove_permission_from_config assert_permission group_permissions
remove_permission id permission = do
  assert_permission "MANAGE_GROUPS" none false
  guard (contains all_permissions permission) invalid_permission
  permissions ← reads (λ r. group_permissions id r.config)
  guard (contains permissions permission) group_does_not_contain_permission
  remove_permission_from_config id permission
