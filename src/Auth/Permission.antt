-- ===== src/Auth/Permission.antt =====
-- mcvirt/auth/auth.py: the permission checks, and the superusers; `Session.get_current_user_object`
-- and `Session.get_proxy_user_object` of mcvirt/auth/session.py.
pub mod Checks
pub mod Superusers
use mcvirt.Base.{
  String, Bool, true, false, not, ◌&&◌, ◌||◌, Option, none, some, List, [], ◌∷◌, ◌++◌,
  if◌then◌else◌,
}
use mcvirt.Base.Lists.{contains, remove}
use mcvirt.Base.Dict.{Dict, lookup}
use mcvirt.Base.Exec.{Result, ok, err, Exec, pure, modify, gets, reads, guard, ◌>>=◌, ◌>>◌}
use mcvirt.Exceptions.{
  Exception, key_error, current_user_error, user_does_not_exist, insufficient_permissions,
  duplicate_permission, user_not_present_in_group,
}
use mcvirt.Auth.Session.{SessionInfo}
use mcvirt.Auth.Users.{
  UserType, User, Config, cluster_user, same_type, allow_proxy_user, get_user_by_username,
}
use mcvirt.Auth.Groups.{get_permissions}

-- One node as a request sees it: Pyro4.current_context, the sessions and the configuration. A flag
-- that the context lacks is `false`, and a list or text that it lacks, or that is empty text, `none`.
pub record Request : Type 0 where
  pub startup_period : Bool
  pub internal_request : Bool
  pub elevated_permissions : Option (List String)
  pub permission_asserted : Option Bool
  pub session_id : Option String
  pub proxy_user : Option String
  pub user_sessions : Dict SessionInfo
  pub config : Config

-- A method of a daemon's objects, in a request.
abbrev pub Method : Type 0 → Type 0
Method A = Exec Exception Request A

unfoldable pub get_current_user_object : Request → Result Exception User
get_current_user_object r = elim r.session_id [
  | none ↦ err current_user_error
  | some session_id ↦ elim (lookup session_id r.user_sessions) [
    | none ↦ err key_error
    | some info ↦ get_user_by_username info.username r.config
  ]
]

-- try: return found, except UserDoesNotExistException: return current
proxied : Result Exception User → User → Result Exception User
proxied (err user_does_not_exist) current = ok current
proxied found current = found

-- What the current user and the request's `proxy_user` come to.
proxy_of : Result Exception User → Option String → Config → Result Exception User
unfolding proxied
proxy_of (err e) proxy_user config = err e
proxy_of (ok current) proxy_user config =
    if allow_proxy_user current.user_type
    then (elim proxy_user [
      | none ↦ ok current
      | some username ↦ proxied (get_user_by_username username config) current
    ])
    else ok current

unfoldable pub get_proxy_user_object : Request → Result Exception User
unfolding proxy_of get_current_user_object
get_proxy_user_object r = proxy_of (get_current_user_object r) r.proxy_user r.config

-- user.__class__.__name__ in user_type_names
unfoldable pub mem_type : UserType → List UserType → Bool
mem_type t [] = false
mem_type t (u ∷ types) = if same_type u t then true else mem_type t types

class_among : List UserType → Result Exception User → Result Exception Bool
unfolding mem_type
class_among types (err e) = err e
class_among types (ok user) = ok (mem_type user.user_type types)

unfoldable pub check_user_type : List UserType → Request → Result Exception Bool
unfolding class_among
check_user_type types r =
    if r.startup_period || r.internal_request
    then ok true
    else class_among types (get_current_user_object r)

unfoldable pub has_permission_asserted : Request → Bool
has_permission_asserted r = elim r.permission_asserted [ none ↦ false | some asserted ↦ asserted ]

unfoldable pub set_permission_asserted : Request → Request
set_permission_asserted r = record r {
  permission_asserted = elim r.permission_asserted [ none ↦ none | some _ ↦ some true ];
}

-- if not (type or (allow_indirect and asserted)): raise
unfoldable pub assert_user_type : List UserType → Bool → Method (Unit {0})
unfolding check_user_type has_permission_asserted
assert_user_type types allow_indirect = do
  has_type ← reads (check_user_type types)
  asserted ← gets has_permission_asserted
  guard (has_type || allow_indirect && asserted) insufficient_permissions

superuser_among : List String → Result Exception User → Result Exception Bool
superuser_among superusers (err e) = err e
superuser_among superusers (ok user) = ok (contains superusers user.username)

-- if found: return True, and the answer of the code that follows otherwise
or_else : Result Exception Bool → Result Exception Bool → Result Exception Bool
or_else (err e) rest = err e
or_else (ok true) rest = ok true
or_else (ok false) rest = rest

unfoldable pub is_superuser : Request → Result Exception Bool
unfolding or_else superuser_among
is_superuser r =
    or_else (check_user_type (cluster_user ∷ []) r)
      (superuser_among r.config.superusers (get_proxy_user_object r))

-- permission_enum in ELEVATED_PERMISSIONS
unfoldable pub is_elevated : String → Request → Bool
is_elevated permission r = elim r.elevated_permissions [
  | none ↦ false
  | some permissions ↦ contains permissions permission
]

among : String → Result Exception (List String) → Result Exception Bool
among permission (err e) = err e
among permission (ok permissions) = ok (contains permissions permission)

permissions_of : String → Option String → Result Exception User → Config → Result Exception Bool
unfolding among
permissions_of permission vm (err e) config = err e
permissions_of permission vm (ok user) config = among permission (get_permissions user vm config)

-- The user is the current one where none is given.
unfoldable pub check_permission :
    String → Option String → Option User → Request → Result Exception Bool
unfolding permissions_of is_elevated or_else
check_permission permission vm user r =
    if r.startup_period || r.internal_request
    then ok true
    else or_else (is_superuser r) (
        or_else (ok (is_elevated permission r)) (
          permissions_of permission vm
            (elim user [ none ↦ get_current_user_object r | some given ↦ ok given ]) r.config))

unfoldable pub assert_permission : String → Option String → Bool → Method (Unit {0})
unfolding check_permission set_permission_asserted has_permission_asserted
assert_permission permission vm allow_indirect = do
  granted ← reads (check_permission permission vm none)
  asserted ← gets has_permission_asserted
  if granted
      then modify set_permission_asserted
      else guard (allow_indirect && asserted) insufficient_permissions

-- update_config of `config['superusers']`
unfoldable pub set_superusers : List String → Request → Request
set_superusers superusers r = record r { config = record r.config { superusers = superusers } }

-- add_superuser and delete_superuser, on the node itself.
unfoldable pub add_local_superuser : User → Bool → Method (Unit {0})
unfolding is_superuser set_superusers
add_local_superuser user ignore_duplicate = do
  allowed ← reads is_superuser
  guard allowed insufficient_permissions
  superusers ← gets (λ r. r.config.superusers)
  if not (contains superusers user.username)
      then modify (set_superusers (superusers ++ (user.username ∷ [])))
      else guard ignore_duplicate duplicate_permission

unfoldable pub delete_local_superuser : User → Method (Unit {0})
unfolding is_superuser set_superusers
delete_local_superuser user = do
  allowed ← reads is_superuser
  guard allowed insufficient_permissions
  superusers ← gets (λ r. r.config.superusers)
  guard (contains superusers user.username) user_not_present_in_group
  modify (set_superusers (remove superusers user.username))

-- The node that a client called and the nodes of its cluster, each as the request that runs there.
pub record Cluster : Type 0 where
  pub local : Request
  pub is_cluster_master : Bool
  pub nodes : List Request

then_nodes :
    Result Exception (Unit {0}) × Request
    → Result Exception (Unit {0}) × List Request
    → List Request
    → Result Exception (Unit {0}) × List Request
then_nodes (ok _, r) (result, done) nodes = (result, r ∷ done)
then_nodes (err e, r) (result, done) nodes = (err e, r ∷ nodes)

-- cluster.run_remote_command, on nodes that can all be reached: the first error ends the loop.
unfoldable pub run_remote_command :
    Method (Unit {0}) → List Request → Result Exception (Unit {0}) × List Request
unfolding then_nodes
run_remote_command command [] = (ok tt, [])
run_remote_command command (r ∷ nodes) =
    then_nodes (command r) (run_remote_command command nodes) nodes

after_local :
    Result Exception (Unit {0}) × Request
    → Method (Unit {0})
    → Cluster
    → Result Exception (Unit {0}) × Cluster
unfolding run_remote_command
after_local (err e, local) command c = (err e, record c { local = local })
after_local (ok _, local) command c =
    if c.is_cluster_master
    then (let remote = run_remote_command command c.nodes in
        (remote.0, record c { local = local; nodes = remote.1 }))
    else (ok tt, record c { local = local })

-- remote_auth.add_superuser(remote_user_factory.get_user_by_username(username))
unfoldable pub remotely : (User → Method (Unit {0})) → User → Method (Unit {0})
remotely command user = do
  remote_user ← reads (λ r. get_user_by_username user.username r.config)
  command remote_user

unfoldable pub add_superuser : User → Bool → Exec Exception Cluster (Unit {0})
unfolding after_local remotely add_local_superuser
add_superuser user ignore_duplicate c =
    after_local (add_local_superuser user ignore_duplicate c.local)
      (remotely (λ remote. add_local_superuser remote ignore_duplicate) user) c

unfoldable pub delete_superuser : User → Exec Exception Cluster (Unit {0})
unfolding after_local remotely delete_local_superuser
delete_superuser user c =
    after_local (delete_local_superuser user c.local) (remotely delete_local_superuser user) c
