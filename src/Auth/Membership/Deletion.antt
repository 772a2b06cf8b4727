-- ===== src/Auth/Membership/Deletion.antt =====
-- That `delete` of mcvirt/auth/group/group.py only deletes a group without members.
use mcvirt.Base.{
  String, Bool, true, false, Option, none, List, [], ◌∷◌, ◌≡◌, refl, sym, ap, ◌∙◌, not, arith,
  eq_refl,
}
use mcvirt.Base.Lists.{All}
use mcvirt.Base.Dict.{lookup, keys, lookup-delete}
use mcvirt.Base.Exec.{Result, ok, err, guard, and_then_returns, and_then_after, guard_passes}
use mcvirt.Exceptions.{Exception, group_in_use}
use mcvirt.Auth.Users.{User, Config, cluster_user}
use mcvirt.Auth.Groups.{get_users, get_config}
use mcvirt.Auth.Permission.{Request, assert_permission, assert_user_type}
use mcvirt.Auth.Permission.Checks.{assert_permission-config}
use mcvirt.Auth.Membership.{
  set_groups, used_or, in_use_by, in_use, some_of, remove_config, delete_group,
}

used_or_none :
    (users : Result Exception (List User)) (rest : Result Exception Bool)
    → used_or users rest ≡ ok false
    → (users ≡ ok []) × (rest ≡ ok false)
unfolding used_or
used_or_none (err e) rest unused = cc
used_or_none (ok []) rest unused = (refl, unused)
used_or_none (ok (u ∷ us)) rest unused = ground arith

in_use_by_none :
    (id : String) (vms : List (Option String)) (config : Config)
    → in_use_by id vms config ≡ ok false
    → All (λ vm. get_users id vm config ≡ ok []) vms
unfolding in_use_by
in_use_by_none id [] config unused = tt
in_use_by_none id (vm ∷ vms) config unused =
    let split = used_or_none (get_users id vm config) (in_use_by id vms config) unused in
    (split.0, in_use_by_none id vms config split.1)

remove_config_gone :
    (id : String) (r : Request)
    → (remove_config id r).0 ≡ ok tt
    → lookup id (remove_config id r).1.config.groups ≡ none
unfolding remove_config
remove_config_gone id r removed =
    let IsGone = (λ (s : Request). lookup id s.config.groups ≡ none) in
    and_then_after IsGone (assert_user_type (cluster_user ∷ []) true r) _ tt
      (λ _ s.
        and_then_after IsGone (get_config id s.config, s) _ tt
          (λ _ s _. unfold set_groups in simp (lookup-delete, eq_refl id)))
      removed

not-true : (b : Bool) → not b ≡ true → b ≡ false
not-true true e = ground arith
not-true false e = refl

unused_config :
    (id : String) (r : Request) → (delete_group id r).0 ≡ ok tt → in_use id r.config ≡ ok false
unfolding delete_group
unused_config id r deleted =
    let asserted = and_then_returns (assert_permission "MANAGE_GROUPS" none false r) _ tt deleted in
    let s = (assert_permission "MANAGE_GROUPS" none false r).1 in
    let (used, (found, rest)) = and_then_returns (in_use id s.config, s) _ tt asserted.1.1 in
    let guarded = and_then_returns (guard (not used) group_in_use s) _ tt rest in
    ap (λ config. in_use id config) (sym (assert_permission-config "MANAGE_GROUPS" none false r))
    ∙ ap (λ answer. answer.0) found
    ∙ ap ok (
        not-true used
          (guard_passes (not used) group_in_use s (ap (λ answer. answer.0) guarded.1.0)))

-- When `delete` returns, the group had no user, globally and on every virtual machine, and its entry
-- is gone from the configuration.
pub delete_group_unused :
    (id : String) (r : Request)
    → (delete_group id r).0 ≡ ok tt
    → All (λ vm. get_users id vm r.config ≡ ok []) (none ∷ some_of (keys r.config.virtual_machines))
      × (lookup id (delete_group id r).1.config.groups ≡ none)
unfolding delete_group in_use
delete_group_unused id r deleted =
    let IsGone = (λ (s : Request). lookup id s.config.groups ≡ none) in
    (
      in_use_by_none id (none ∷ some_of (keys r.config.virtual_machines)) r.config
          (unused_config id r deleted),
      and_then_after IsGone (assert_permission "MANAGE_GROUPS" none false r) _ tt
          (λ _ s.
            and_then_after IsGone (in_use id s.config, s) _ tt
              (λ used s.
                and_then_after IsGone (guard (not used) group_in_use s) _ tt
                  (λ _ s. remove_config_gone id s)))
          deleted,
    )
