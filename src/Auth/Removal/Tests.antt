-- ===== src/Auth/Removal/Tests.antt =====
-- A concrete node: fred is a superuser, and ann is the only member of a group.
use mcvirt.Base.{true, false, none, some, [], ◌∷◌, ◌≡◌, refl}
use mcvirt.Base.Lists.{contains}
use mcvirt.Base.Dict.{lookup, keys}
use mcvirt.Base.Exec.{ok, err}
use mcvirt.Exceptions.{user_does_not_exist}
use mcvirt.Auth.Users.{
  User, UserConfig, GroupConfig, Config, local_user, same_type, mem_user, get_user_by_username,
  search_types, get_user_types, get_all_usernames, usernames_of_type, allow_proxy_user,
}
use mcvirt.Auth.Groups.{get_users, get_config, item, user_objects}
use mcvirt.Auth.Permission.{
  Request, get_current_user_object, get_proxy_user_object, check_user_type, is_superuser, mem_type,
  check_permission, assert_permission, has_permission_asserted, set_permission_asserted,
}
use mcvirt.Auth.Membership.{some_of}
use mcvirt.Auth.Removal.{
  mem_text, equals_text, remove_if, leave_groups, leave_on, remove_user_config, leave_superusers,
  delete_user,
}
use mcvirt.Auth.Removal.Orphans.{deleted_member_orphaned}

abbrev local_config : UserConfig
local_config = record {
  user_type = local_user;
  password = "hash";
  salt = "salt";
  global_permissions = [];
}

abbrev editors : GroupConfig
editors = record { name = "editors"; users = "ann" ∷ []; permissions = "MODIFY_VM" ∷ [] }

abbrev with_member : Config
with_member = record {
  superusers = "fred" ∷ [];
  users = ("fred", local_config) ∷ ("ann", local_config) ∷ [];
  groups = ("g1", editors) ∷ [];
  virtual_machines = [];
  ldap_usernames = [];
}

abbrev of_fred : Request
of_fred = record {
  startup_period = false;
  internal_request = false;
  elevated_permissions = none;
  permission_asserted = some false;
  session_id = some "s";
  proxy_user = none;
  user_sessions = ("s", record { username = "fred"; disabled = false; expires = some 9 }) ∷ [];
  config = with_member;
}

abbrev ann : User
ann = record { user_type = local_user; username = "ann" }

ann_deleted : (delete_user ann of_fred).0 ≡ ok tt
unfolding delete_user assert_permission check_permission is_superuser check_user_type mem_type
    get_proxy_user_object get_current_user_object get_user_by_username search_types get_user_types
    get_all_usernames usernames_of_type same_type contains lookup keys allow_proxy_user
    has_permission_asserted set_permission_asserted leave_superusers leave_on some_of leave_groups
    get_users get_config item user_objects mem_text equals_text remove_if remove_user_config
ann_deleted = refl

ann_found : get_users "g1" none with_member ≡ ok (ann ∷ [])
unfolding get_users get_config item user_objects get_user_by_username search_types get_user_types
    get_all_usernames usernames_of_type same_type contains lookup
ann_found = refl

ann_member : mem_user ann (ann ∷ []) ≡ true
unfolding mem_user same_type
ann_member = refl

orphan_example : get_users "g1" none (delete_user ann of_fred).1.config ≡ err user_does_not_exist
orphan_example =
    deleted_member_orphaned ann "g1" none (ann ∷ []) of_fred ann_found ann_member
      (unfold contains in refl) ann_deleted
