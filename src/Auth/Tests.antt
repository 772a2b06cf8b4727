-- ===== src/Auth/Tests.antt =====
-- A concrete node: fred is a superuser, ann an ordinary user, and the group `g1` has a member on no
-- virtual machine.
use mcvirt.Base.{◌≤◌, ◌||◌, String, true, false, none, some, [], ◌∷◌, ◌≡◌, refl, ltb}
use mcvirt.Base.Lists.{contains}
use mcvirt.Base.Dict.{lookup, keys, delete}
use mcvirt.Base.Exec.{ok, ◌>>◌}
use mcvirt.Auth.Session.{Sessions, get_timeout, authenticate_user, authenticate_session}
use mcvirt.Auth.Session.Expiry.{later, outcome, login_lifetime}
use mcvirt.Auth.Users.{
  User, UserConfig, GroupConfig, Config, local_user, cluster_user, same_type, get_user_by_username,
  search_types, get_user_types, get_all_usernames, usernames_of_type, global_permissions,
  allow_proxy_user, type_permissions, mem_user,
}
use mcvirt.Auth.Groups.{
  get_permissions, get_groups, groups_permissions, get_users, get_config, item, permission_enums,
  vm_overrides, vm_list, is_user_member, user_objects,
}
use mcvirt.Auth.Permission.{
  Request, Cluster, get_current_user_object, get_proxy_user_object, check_user_type, is_superuser,
  mem_type, is_elevated, check_permission, assert_permission, assert_user_type,
  has_permission_asserted, set_permission_asserted, add_superuser, delete_superuser,
}
use mcvirt.Auth.Permission.Checks.{check_permission_decides}
use mcvirt.Auth.Permission.Superusers.{IsReady, add-delete_superuser}
use mcvirt.Auth.Elevation.{with_elevated}
use mcvirt.Auth.Elevation.Restored.{with_elevated_restores}
use mcvirt.Auth.Membership.{
  add_user_to_config, remove_user_from_config, delete_group, some_of, in_use, remove_config,
  set_groups,
}
use mcvirt.Auth.Membership.Members.{MayConfigure, add_user-undo}

abbrev local_config : UserConfig
local_config = record {
  user_type = local_user;
  password = "hash";
  salt = "salt";
  global_permissions = [];
}

abbrev editors : GroupConfig
editors = record { name = "editors"; users = []; permissions = "MODIFY_VM" ∷ [] }

abbrev sample_config : Config
sample_config = record {
  superusers = "fred" ∷ [];
  users = ("fred", local_config) ∷ ("ann", local_config) ∷ [];
  groups = ("g1", editors) ∷ [];
  virtual_machines = [];
  ldap_usernames = [];
}

-- A request of the user of a name.
abbrev request_of : String → Request
request_of username = record {
  startup_period = false;
  internal_request = false;
  elevated_permissions = some [];
  permission_asserted = some false;
  session_id = some "s1";
  proxy_user = none;
  user_sessions = ("s1", record { username = username; disabled = false; expires = some 9 }) ∷ [];
  config = sample_config;
}

abbrev fred : User
fred = record { user_type = local_user; username = "fred" }

abbrev ann : User
ann = record { user_type = local_user; username = "ann" }

abbrev sample_sessions : Sessions
sample_sessions = record { user_sessions = []; time = 100; session_timeout = 30 }

ann_current : get_current_user_object (request_of "ann") ≡ ok ann
unfolding get_current_user_object get_user_by_username search_types get_user_types get_all_usernames
    usernames_of_type same_type contains lookup
ann_current = refl

ann_proxy : get_proxy_user_object (request_of "ann") ≡ ok ann
unfolding get_proxy_user_object get_current_user_object get_user_by_username search_types
    get_user_types get_all_usernames usernames_of_type same_type contains lookup allow_proxy_user
ann_proxy = refl

ann_permissions : get_permissions ann none sample_config ≡ ok []
unfolding get_permissions type_permissions global_permissions permission_enums get_groups vm_list
    is_user_member get_users get_config item user_objects mem_user groups_permissions vm_overrides
    lookup
ann_permissions = refl

fred_superuser : is_superuser (request_of "fred") ≡ ok true
unfolding is_superuser check_user_type mem_type get_proxy_user_object get_current_user_object
    get_user_by_username search_types get_user_types get_all_usernames usernames_of_type same_type
    contains lookup allow_proxy_user
fred_superuser = refl

ann_ordinary : is_superuser (request_of "ann") ≡ ok false
unfolding is_superuser check_user_type mem_type get_proxy_user_object get_current_user_object
    get_user_by_username search_types get_user_types get_all_usernames usernames_of_type same_type
    contains lookup allow_proxy_user
ann_ordinary = refl

login_example :
    ((authenticate_session "fred" "s1"
        (later 60 (authenticate_user (some true) "fred" "s1" sample_sessions).1)).0
      ≡ outcome (ltb 60 (get_timeout sample_sessions)) "fred")
    × (get_timeout sample_sessions ≤ 60
        → lookup "s1"
            (authenticate_session "fred" "s1" (
              later 60
                (authenticate_user (some true) "fred" "s1" sample_sessions).1)).1.user_sessions
          ≡ none)
login_example = login_lifetime "fred" "s1" sample_sessions 60

decides_example :
    check_permission "MODIFY_VM" none none (request_of "ann")
    ≡ ok (
        same_type cluster_user local_user
        || contains ("fred" ∷ []) "ann"
        || is_elevated "MODIFY_VM" (request_of "ann")
        || contains [] "MODIFY_VM")
decides_example =
    check_permission_decides "MODIFY_VM" none (request_of "ann") ann ann [] refl refl ann_current
      ann_proxy ann_permissions

fred_granted : check_permission "MODIFY_VM" none none (request_of "fred") ≡ ok true
unfolding check_permission is_superuser check_user_type mem_type get_proxy_user_object
    get_current_user_object get_user_by_username search_types get_user_types get_all_usernames
    usernames_of_type same_type contains lookup allow_proxy_user
fred_granted = refl

restores_example :
    (with_elevated
      ("MANAGE_DRBD" ∷ "MANAGE_DRBD" ∷ [])
      (λ s. (ok tt, s))
      (request_of "ann")).1.elevated_permissions
    ≡ some []
restores_example =
    with_elevated_restores ("MANAGE_DRBD" ∷ "MANAGE_DRBD" ∷ []) (λ s. (ok tt, s)) (request_of "ann")
      (λ s. refl)

fred-IsReady : IsReady ann (request_of "fred")
unfolding contains get_user_by_username search_types get_user_types get_all_usernames
    usernames_of_type same_type
fred-IsReady = record { allowed = fred_superuser; known = refl; absent = refl }

abbrev two_nodes : Cluster
two_nodes = record {
  local = request_of "fred";
  is_cluster_master = true;
  nodes = request_of "fred" ∷ [];
}

superuser_example : (add_superuser ann false >> delete_superuser ann) two_nodes ≡ (ok tt, two_nodes)
superuser_example = add-delete_superuser ann false two_nodes fred-IsReady (fred-IsReady, tt)

-- A request that has passed a check of a permission.
abbrev asserted : Request
asserted = record (request_of "ann") { permission_asserted = some true }

asserted-MayConfigure : MayConfigure asserted
unfolding check_user_type mem_type get_current_user_object get_user_by_username search_types
    get_user_types get_all_usernames usernames_of_type same_type contains lookup
    has_permission_asserted
asserted-MayConfigure = record { from_cluster = false; type_checked = refl; permitted = refl }

add_user_example :
    (add_user_to_config "g1" ann >> remove_user_from_config "g1" ann) asserted ≡ (ok tt, asserted)
add_user_example =
    add_user-undo "g1" editors asserted ann asserted-MayConfigure (unfold lookup in refl)
      (unfold contains in refl)

fred_deletes : (delete_group "g1" (request_of "fred")).0 ≡ ok tt
unfolding delete_group in_use remove_config assert_permission assert_user_type
    set_permission_asserted has_permission_asserted set_groups check_permission is_superuser
    check_user_type mem_type get_proxy_user_object get_current_user_object get_user_by_username
    search_types get_user_types get_all_usernames usernames_of_type same_type contains lookup keys
    allow_proxy_user get_users get_config item user_objects some_of delete
fred_deletes = refl
