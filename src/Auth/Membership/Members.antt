-- ===== src/Auth/Membership/Members.antt =====
-- The members and permissions of a group: what the undo methods of mcvirt/auth/group/group.py undo.
use mcvirt.Base.{String, Bool, true, false, ◌||◌, some, [], ◌∷◌, ◌++◌, ◌≡◌, refl, eq_refl}
use mcvirt.Base.Lists.{contains, contains-append, append_nil, remove_fresh}
use mcvirt.Base.Dict.{lookup, insert, lookup-insert, insert-insert}
use mcvirt.Base.Exec.{Result, ok, ◌>>◌}
use mcvirt.Exceptions.{Exception}
use mcvirt.Auth.Users.{
  User, GroupConfig, cluster_user, get_user_by_username, search_types, get_all_usernames,
  get_user_types,
}
use mcvirt.Auth.Groups.{get_config, item}
use mcvirt.Auth.Permission.{
  Request, get_current_user_object, check_user_type, has_permission_asserted, assert_user_type,
}
use mcvirt.Auth.Membership.{
  set_groups, update_group, removed, with_users, with_permissions, add_user_to_config,
  remove_user_from_config, add_permission_to_config, remove_permission_from_config,
}

-- The request may change the configuration: it comes from another node of the cluster, or has passed
-- a check of a permission.
pub record MayConfigure (r : Request) : Type 0 where
  pub from_cluster : Bool
  pub type_checked : check_user_type (cluster_user ∷ []) r ≡ ok from_cluster
  pub permitted : (from_cluster || has_permission_asserted r) ≡ true

assert_passes :
    (r : Request) → MayConfigure r → assert_user_type (cluster_user ∷ []) true r ≡ (ok tt, r)
unfolding assert_user_type
assert_passes r may = simp (may.type_checked, may.permitted)

MayConfigure-set_groups :
    (r : Request) (id : String) (group : GroupConfig)
    → MayConfigure r
    → MayConfigure (set_groups (insert id group r.config.groups) r)
unfolding check_user_type get_current_user_object set_groups get_user_by_username search_types
    get_all_usernames get_user_types has_permission_asserted
MayConfigure-set_groups r id group may = record {
  from_cluster = may.from_cluster;
  type_checked = may.type_checked;
  permitted = may.permitted;
}

-- `update_group` of a group that is there.
update_group_found :
    (id : String) (f : GroupConfig → Result Exception GroupConfig) (group changed : GroupConfig)
    (r : Request)
    → lookup id r.config.groups ≡ some group
    → f group ≡ ok changed
    → update_group id f r ≡ (ok tt, set_groups (insert id changed r.config.groups) r)
unfolding update_group get_config item
update_group_found id f group changed r found changes = simp (found, changes)

module _ (id : String) (group : GroupConfig) (r : Request) where
  undo_user :
      (user : User)
      → contains group.users user.username ≡ false
      → with_users
          (record group { users = group.users ++ (user.username ∷ []) })
          (removed (group.users ++ (user.username ∷ [])) user.username)
        ≡ ok group
  unfolding with_users removed contains
  undo_user user absent = simp (
    contains-append group.users (user.username ∷ []) user.username,
    absent,
    eq_refl user.username,
    remove_fresh group.users [] user.username absent,
    append_nil group.users,
  )

  undo_permission :
      (permission : String)
      → contains group.permissions permission ≡ false
      → with_permissions
          (record group { permissions = group.permissions ++ (permission ∷ []) })
          (removed (group.permissions ++ (permission ∷ [])) permission)
        ≡ ok group
  unfolding with_permissions removed contains
  undo_permission permission absent = simp (
    contains-append group.permissions (permission ∷ []) permission,
    absent,
    eq_refl permission,
    remove_fresh group.permissions [] permission absent,
    append_nil group.permissions,
  )

  -- Two changes of a group of which the second takes back the first.
  change_and_undo :
      (do_it undo_it : GroupConfig → Result Exception GroupConfig) (changed : GroupConfig)
      → MayConfigure r
      → lookup id r.config.groups ≡ some group
      → do_it group ≡ ok changed
      → undo_it changed ≡ ok group
      → ((assert_user_type (cluster_user ∷ []) true >> update_group id do_it)
            >> (assert_user_type (cluster_user ∷ []) true >> update_group id undo_it))
          r
        ≡ (ok tt, r)
  change_and_undo do_it undo_it changed may found does undoes =
      let after = set_groups (insert id changed r.config.groups) r in
      simp
        (
          assert_passes r may,
          update_group_found id do_it group changed r found does,
          assert_passes after (MayConfigure-set_groups r id changed may),
          update_group_found id undo_it changed group after
              (unfold set_groups in simp (lookup-insert, eq_refl id)) undoes,
        )
        (unfold set_groups in simp (insert-insert id group changed r.config.groups found))

  -- Adding to a group a user who is not in it, and then running the method that the source names to
  -- undo this, both succeed in a request that may configure, and leave the node as it was.
  pub add_user-undo :
      (user : User)
      → MayConfigure r
      → lookup id r.config.groups ≡ some group
      → contains group.users user.username ≡ false
      → (add_user_to_config id user >> remove_user_from_config id user) r ≡ (ok tt, r)
  unfolding add_user_to_config remove_user_from_config
  add_user-undo user may found absent =
      change_and_undo (λ g. ok (record g { users = g.users ++ (user.username ∷ []) }))
        (λ g. with_users g (removed g.users user.username))
        (record group { users = group.users ++ (user.username ∷ []) }) may found refl
        (undo_user user absent)

  -- Adding to a group a permission that it does not have, and then running the method that the
  -- source names to undo this, both succeed in a request that may configure, and leave the node as
  -- it was.
  pub add_permission-undo :
      (permission : String)
      → MayConfigure r
      → lookup id r.config.groups ≡ some group
      → contains group.permissions permission ≡ false
      → (add_permission_to_config id permission >> remove_permission_from_config id permission) r
        ≡ (ok tt, r)
  unfolding add_permission_to_config remove_permission_from_config
  add_permission-undo permission may found absent =
      change_and_undo (λ g. ok (record g { permissions = g.permissions ++ (permission ∷ []) }))
        (λ g. with_permissions g (removed g.permissions permission))
        (record group { permissions = group.permissions ++ (permission ∷ []) }) may found refl
        (undo_permission permission absent)
