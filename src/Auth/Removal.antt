-- ===== src/Auth/Removal.antt =====
-- Deleting a user, of mcvirt/auth/user_types/user_base.py, on one node: where the source runs a change
-- of the configuration on all nodes, this is the part that each node does. LdapUser overrides
-- `delete`, and the cache of the user objects is not modelled.
pub mod Members
pub mod Orphans
mod Tests
use mcvirt.Base.{String, Bool, true, false, if◌then◌else◌, Option, none, some, List, [], ◌∷◌}
use mcvirt.Base.Lists.{contains}
use mcvirt.Base.Dict.{Dict, delete, keys}
use mcvirt.Base.Exec.{Result, ok, err, pure, raise, modify, gets, reads, ◌>>=◌, ◌>>◌}
use mcvirt.Exceptions.{Exception, key_error}
use mcvirt.Auth.Users.{User, UserConfig}
use mcvirt.Auth.Groups.{get_users, item}
use mcvirt.Auth.Permission.{Request, Method, assert_permission, delete_local_superuser}
use mcvirt.Auth.Membership.{some_of, remove_user}

-- `UserBase.__eq__` against a text, which has no method `get_username` and another class.
unfoldable pub equals_text : User → String → Bool
equals_text user text = false

-- text in users
unfoldable pub mem_text : String → List User → Bool
unfolding equals_text
mem_text text [] = false
mem_text text (user ∷ users) = if equals_text user text then true else mem_text text users

-- The body of the inner loop, once the members are known.
unfoldable pub remove_if : Bool → String → User → Option String → Method (Unit {0})
unfolding remove_user
remove_if true id user vm = remove_user id user vm
remove_if false id user vm = pure tt

-- for group in group_factory.get_all()
unfoldable pub leave_groups : List String → User → Option String → Method (Unit {0})
unfolding mem_text remove_if get_users
leave_groups [] user vm = pure tt
leave_groups (id ∷ ids) user vm =
    let rest = leave_groups ids user vm in
    do
      users ← reads (λ r. get_users id vm r.config)
      remove_if (mem_text user.username users) id user vm
      rest

-- for virtual_machine in [None] + get_all_virtual_machines()
unfoldable pub leave_on : List (Option String) → User → Method (Unit {0})
unfolding leave_groups
leave_on [] user = pure tt
leave_on (vm ∷ vms) user =
    let rest = leave_on vms user in
    do ids ← gets (λ r. keys r.config.groups); leave_groups ids user vm; rest

-- config['users'] = users
unfoldable pub set_users : Dict UserConfig → Request → Request
set_users users r = record r { config = record r.config { users = users } }

-- `del`, a KeyError where the name has no entry
unfoldable pub remove_user_config : User → Method (Unit {0})
unfolding item set_users
remove_user_config user = do
  entry ← reads (λ r. item r.config.users user.username)
  modify (λ r. set_users (delete user.username r.config.users) r)

unfoldable pub leave_superusers : Bool → User → Method (Unit {0})
unfolding delete_local_superuser
leave_superusers true user = delete_local_superuser user
leave_superusers false user = pure tt

unfoldable pub delete_user : User → Method (Unit {0})
unfolding assert_permission leave_superusers leave_on some_of remove_user_config
delete_user user = do
  assert_permission "MANAGE_USERS" none false
  superusers ← gets (λ r. r.config.superusers)
  leave_superusers (contains superusers user.username) user
  vms ← gets (λ r. keys r.config.virtual_machines)
  leave_on (none ∷ some_of vms) user
  remove_user_config user
