-- ===== src/Auth/Users.antt =====
-- Users: mcvirt/auth/user_types and the lookups of mcvirt/auth/factory.py. A user object is its class
-- and its name, by which `UserBase.__eq__` compares; the cache of the objects is not modelled.
use mcvirt.Base.{String, Bool, true, false, ◌&&◌, none, some, List, [], ◌∷◌, ◌==◌, if◌then◌else◌}
use mcvirt.Base.Lists.{contains}
use mcvirt.Base.Dict.{Dict, lookup}
use mcvirt.Base.Exec.{Result, ok, err}
use mcvirt.Exceptions.{Exception, key_error, user_does_not_exist}

-- The subclasses of UserBase.
pub data UserType : Type 0 where
  local_user cluster_user connection_user drbd_hook_user ldap_user : UserType

pub record User : Type 0 where
  pub user_type : UserType
  pub username : String

-- A value of the dictionary `users` of the configuration.
pub record UserConfig : Type 0 where
  pub user_type : UserType
  pub password : String
  pub salt : String
  pub global_permissions : List String

-- A value of the dictionary `groups`.
pub record GroupConfig : Type 0 where
  pub name : String
  pub users : List String
  pub permissions : List String

-- The permission configuration of a virtual machine: overrides for users, and members of groups.
pub record VmPermissions : Type 0 where
  pub users : Dict (List String)
  pub groups : Dict (List String)

-- MCVirtConfig, as far as users are concerned, with the permission configuration of each virtual
-- machine. `ldap_usernames` is what the LDAP server reports.
pub record Config : Type 0 where
  pub superusers : List String
  pub users : Dict UserConfig
  pub groups : Dict GroupConfig
  pub virtual_machines : Dict VmPermissions
  pub ldap_usernames : List String

unfoldable pub same_type : UserType → UserType → Bool
same_type local_user local_user = true
same_type cluster_user cluster_user = true
same_type connection_user connection_user = true
same_type drbd_hook_user drbd_hook_user = true
same_type ldap_user ldap_user = true
same_type _ _ = false

-- The class attribute PERMISSIONS.
unfoldable pub type_permissions : UserType → List String
type_permissions connection_user = "MANAGE_USERS" ∷ "MANAGE_STORAGE_BACKEND" ∷ []
type_permissions drbd_hook_user = "SET_SYNC_STATE" ∷ []
type_permissions _ = []

unfoldable pub allow_proxy_user : UserType → Bool
allow_proxy_user cluster_user = true
allow_proxy_user connection_user = true
allow_proxy_user _ = false

unfoldable pub expire_session : UserType → Bool
expire_session local_user = true
expire_session _ = false

-- By SEARCH_ORDER: LDAP users come last, and the others in the order in which they are defined.
unfoldable pub get_user_types : List UserType
get_user_types = local_user ∷ cluster_user ∷ connection_user ∷ drbd_hook_user ∷ ldap_user ∷ []

unfoldable pub usernames_of_type : UserType → Dict UserConfig → List String
unfolding same_type
usernames_of_type t [] = []
usernames_of_type t ((username, config) ∷ users) =
    let rest = usernames_of_type t users in
    if same_type config.user_type t then username ∷ rest else rest

unfoldable pub get_all_usernames : UserType → Config → List String
unfolding usernames_of_type
get_all_usernames ldap_user config = config.ldap_usernames
get_all_usernames t config = usernames_of_type t config.users

unfoldable pub search_types : List UserType → String → Config → Result Exception User
unfolding get_all_usernames
search_types [] username config = err user_does_not_exist
search_types (t ∷ types) username config =
    let rest = search_types types username config in
    if contains (get_all_usernames t config) username
    then ok (record { user_type = t; username = username })
    else rest

unfoldable pub get_user_by_username : String → Config → Result Exception User
unfolding search_types get_user_types
get_user_by_username username config = search_types get_user_types username config

unfoldable pub same_user : User → User → Bool
unfolding same_type
same_user a b = same_type a.user_type b.user_type && a.username == b.username

-- user in users
unfoldable pub mem_user : User → List User → Bool
unfolding same_user
mem_user user [] = false
mem_user user (u ∷ users) = if same_user u user then true else mem_user user users

-- `_get_config()['global_permissions']`; an LDAP user has none, whatever the configuration holds.
unfoldable pub global_permissions : User → Config → Result Exception (List String)
global_permissions user config = elim user.user_type [
  | ldap_user ↦ ok []
  | _ ↦ elim (lookup user.username config.users) [
    | none ↦ err key_error
    | some user_config ↦ ok user_config.global_permissions
  ]
]
