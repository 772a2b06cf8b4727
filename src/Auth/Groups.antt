-- ===== src/Auth/Groups.antt =====
-- Permission groups and what a user may do: the lookups of mcvirt/auth/group/group.py and
-- mcvirt/auth/group/factory.py, `UserBase.get_groups` and `UserBase.get_permissions`. A permission is
-- its name in the enumeration PERMISSIONS. A group is its id, a virtual machine its name.
use mcvirt.Base.{
  String, Bool, true, false, Option, none, some, List, [], ◌∷◌, ◌++◌, ◌==◌, if◌then◌else◌,
}
use mcvirt.Base.Lists.{contains}
use mcvirt.Base.Dict.{Dict, lookup}
use mcvirt.Base.Exec.{Result, ok, err}
use mcvirt.Base.Raise.{◌>>=◌}
use mcvirt.Exceptions.{Exception, key_error}
use mcvirt.Auth.Users.{
  User, GroupConfig, VmPermissions, Config, type_permissions, get_user_by_username, mem_user,
  global_permissions,
}

-- The enumeration PERMISSIONS.
abbrev pub all_permissions : List String
all_permissions =
    "CHANGE_VM_POWER_STATE" ∷ "CREATE_VM" ∷ "MODIFY_VM" ∷ "MANAGE_VM_USERS" ∷ "VIEW_VNC_CONSOLE"
    ∷ "CLONE_VM" ∷ "DELETE_CLONE" ∷ "MANAGE_HOST_NETWORKS" ∷ "MANAGE_CLUSTER" ∷ "MANAGE_DRBD"
    ∷ "CAN_IGNORE_DRBD" ∷ "MIGRATE_VM" ∷ "DUPLICATE_VM" ∷ "SET_VM_LOCK" ∷ "BACKUP_VM"
    ∷ "CAN_IGNORE_CLUSTER" ∷ "MOVE_VM" ∷ "SET_VM_NODE" ∷ "MANAGE_USERS"
    ∷ "TEST_SUPERUSER_PERMISSION" ∷ "TEST_OWNER_PERMISSION" ∷ "TEST_USER_PERMISSION" ∷ "SUPERUSER"
    ∷ "MANAGE_NODE" ∷ "SET_SYNC_STATE" ∷ "MANAGE_ISO" ∷ "MANAGE_STORAGE_BACKEND"
    ∷ "MANAGE_STORAGE_VOLUME" ∷ "MANAGE_GROUPS" ∷ "MANAGE_GROUP_MEMBERS" ∷ "MANAGE_GLOBAL_WATCHDOG"
    ∷ "MODIFY_HARD_DRIVE" ∷ "MANAGE_VM_SNAPSHOTS" ∷ []

-- PERMISSIONS[name]
unfoldable pub permission_enum : String → Result Exception String
permission_enum name = if contains all_permissions name then ok name else err key_error

-- [PERMISSIONS[name] for name in names]
unfoldable pub permission_enums : List String → Result Exception (List String)
permission_enums [] = ok []
permission_enums (name ∷ names) =
    let rest = permission_enums names in
    do permission ← permission_enum name; permissions ← rest; ok (permission ∷ permissions)

unfoldable pub found_item : {V : Type 0} → Option V → Result Exception V
found_item none = err key_error
found_item (some v) = ok v

-- d[k]
unfoldable pub item : {V : Type 0} → Dict V → String → Result Exception V
unfolding found_item
item d k = found_item (lookup k d)

unfoldable pub get_config : String → Config → Result Exception GroupConfig
unfolding item
get_config id config = item config.groups id

unfoldable pub group_permissions : String → Config → Result Exception (List String)
unfolding get_config permission_enums
group_permissions id config = do group ← get_config id config; permission_enums group.permissions

-- The names in the group's configuration of a virtual machine: none where it has no such entry.
unfoldable pub get_vm_config : String → VmPermissions → List String
get_vm_config id permissions = elim (lookup id permissions.groups) [
  | none ↦ []
  | some users ↦ users
]

-- [user_factory.get_user_by_username(username) for username in usernames]
unfoldable pub user_objects : List String → Config → Result Exception (List User)
user_objects [] config = ok []
user_objects (username ∷ usernames) config =
    let rest = user_objects usernames config in
    do user ← get_user_by_username username config; users ← rest; ok (user ∷ users)

unfoldable pub get_users : String → Option String → Config → Result Exception (List User)
unfolding get_config get_vm_config user_objects item
get_users id none config = do group ← get_config id config; user_objects group.users config
get_users id (some vm) config = do
  permissions ← item config.virtual_machines vm
  user_objects (get_vm_config id permissions) config

unfoldable pub is_user_member : String → User → Option String → Config → Result Exception Bool
unfolding get_users
is_user_member id user vm config = do users ← get_users id vm config; ok (mem_user user users)

-- The loop of `get_groups` over the virtual machines: the group once for each of which the user is a
-- member.
unfoldable pub groups_of_vms : String → User → List String → Config → Result Exception (List String)
unfolding is_user_member
groups_of_vms id user [] config = ok []
groups_of_vms id user (vm ∷ vms) config =
    let rest = groups_of_vms id user vms config in
    do
      member ← is_user_member id user (some vm) config
      groups ← rest
      ok (if member then id ∷ groups else groups)

groups_among :
    Dict GroupConfig → Bool → User → List String → Config → Result Exception (List String)
unfolding is_user_member groups_of_vms
groups_among [] global user vms config = ok []
groups_among ((id, _) ∷ ids) global user vms config =
    let rest = groups_among ids global user vms config in
    do
      member ← (if global then is_user_member id user none config else ok false)
      found ← (if member then ok (id ∷ []) else groups_of_vms id user vms config)
      groups ← rest
      ok (found ++ groups)

unfoldable pub vm_list : Option String → List String
vm_list none = []
vm_list (some vm) = vm ∷ []

-- get_groups with all_virtual_machines=False
unfoldable pub get_groups : User → Bool → Option String → Config → Result Exception (List String)
unfolding groups_among vm_list
get_groups user global vm config = groups_among config.groups global user (vm_list vm) config

-- The permissions of all groups of a list, appended.
unfoldable pub groups_permissions : List String → Config → Result Exception (List String)
unfolding group_permissions
groups_permissions [] config = ok []
groups_permissions (id ∷ ids) config =
    let rest = groups_permissions ids config in
    do permissions ← group_permissions id config; others ← rest; ok (permissions ++ others)

-- The overrides that a virtual machine has for a user.
unfoldable pub vm_overrides : User → Option String → Config → Result Exception (List String)
unfolding item permission_enums
vm_overrides user none config = ok []
vm_overrides user (some vm) config = do
  permissions ← item config.virtual_machines vm
  elim (lookup user.username permissions.users) [
    | none ↦ ok []
    | some names ↦ permission_enums names
  ]

unfoldable pub get_permissions : User → Option String → Config → Result Exception (List String)
unfolding get_groups groups_permissions vm_overrides permission_enums global_permissions
get_permissions user vm config = do
  names ← global_permissions user config
  own ← permission_enums names
  groups ← get_groups user true vm config
  from_groups ← groups_permissions groups config
  overrides ← vm_overrides user vm config
  ok (type_permissions user.user_type ++ own ++ from_groups ++ overrides)

get_id_among : Dict GroupConfig → String → Option String
get_id_among [] name = none
get_id_among ((id, group) ∷ groups) name =
    if group.name == name then some id else get_id_among groups name

-- The id of the first group of that name; `False` is `none`.
unfoldable pub get_id_by_name : String → Config → Option String
unfolding get_id_among
get_id_by_name name config = get_id_among config.groups name
