-- ===== src/Auth/Removal/Members.antt =====
-- What deleting a user changes, of mcvirt/auth/user_types/user_base.py.
use mcvirt.Base.{
  String, true, false, Option, none, List, [], ◌∷◌, ◌≡◌, refl, ap, subst, ◌∙◌, inl, inr, Bool-cases,
  if◌then◌else◌,
}
use mcvirt.Base.Lists.{contains, remove}
use mcvirt.Base.Dict.{delete, keys}
use mcvirt.Base.Exec.{
  ok, guard, guard_passes, and_then_returns, and_then_follow, and_then_keeps, Result-cases,
}
use mcvirt.Exceptions.{insufficient_permissions}
use mcvirt.Auth.Users.{User, Config}
use mcvirt.Auth.Groups.{get_users, item}
use mcvirt.Auth.Permission.{
  Request, assert_permission, delete_local_superuser, is_superuser, set_superusers,
}
use mcvirt.Auth.Permission.Checks.{assert_permission-config}
use mcvirt.Auth.Membership.{some_of}
use mcvirt.Auth.Removal.{
  equals_text, mem_text, remove_if, leave_groups, leave_on, set_users, remove_user_config,
  leave_superusers, delete_user,
}

mem_text_never : (text : String) (users : List User) → mem_text text users ≡ false
unfolding mem_text equals_text
mem_text_never text [] = refl
mem_text_never text (user ∷ users) = mem_text_never text users

leave_groups-keeps :
    (ids : List String) (user : User) (vm : Option String) (r : Request)
    → (leave_groups ids user vm r).1 ≡ r
unfolding leave_groups remove_if
leave_groups-keeps [] user vm r = refl
leave_groups-keeps (id ∷ ids) user vm r = elim (Result-cases (get_users id vm r.config)) [
  | inl (users, found) ↦
      simp (found, mem_text_never user.username users) (leave_groups-keeps ids user vm r)
  | inr (e, missing) ↦ simp missing
]

leave_on-keeps :
    (vms : List (Option String)) (user : User) (r : Request) → (leave_on vms user r).1 ≡ r
unfolding leave_on
leave_on-keeps [] user r = refl
leave_on-keeps (vm ∷ vms) user r =
    and_then_keeps r (leave_groups (keys r.config.groups) user vm r) (λ _. leave_on vms user)
      (leave_groups-keeps (keys r.config.groups) user vm r) (λ _. leave_on-keeps vms user)

-- The configuration once `user` is deleted.
abbrev pub config_without : User → Config → Config
config_without user config = record config {
  superusers =
      if contains config.superusers user.username
      then remove config.superusers user.username
      else config.superusers;
  users = delete user.username config.users;
}

superuser_allowed :
    (user : User) (r : Request)
    → (delete_local_superuser user r).0 ≡ ok tt
    → is_superuser r ≡ ok true
unfolding delete_local_superuser
superuser_allowed user r deleted =
    let (allowed, (found, rest)) = and_then_returns (is_superuser r, r) _ tt deleted in
    let guarded = and_then_returns (guard allowed insufficient_permissions r) _ tt rest in
    ap (λ answer. answer.0) found
    ∙ ap ok (guard_passes allowed insufficient_permissions r (ap (λ answer. answer.0) guarded.1.0))

leave_superusers-config :
    (user : User) (r : Request)
    → (leave_superusers (contains r.config.superusers user.username) user r).0 ≡ ok tt
    → (leave_superusers (contains r.config.superusers user.username) user r).1.config
      ≡ record r.config {
        superusers =
            if contains r.config.superusers user.username
            then remove r.config.superusers user.username
            else r.config.superusers;
      }
unfolding leave_superusers delete_local_superuser set_superusers
leave_superusers-config user r left =
    elim (Bool-cases (contains r.config.superusers user.username)) [
      | inl super ↦ simp (
        super,
        superuser_allowed user r (subst (λ b. (leave_superusers b user r).0 ≡ ok tt) super left),
      )
      | inr ordinary ↦ simp ordinary
    ]

remove_user_config-config :
    (user : User) (r : Request)
    → (remove_user_config user r).0 ≡ ok tt
    → (remove_user_config user r).1.config
      ≡ record r.config { users = delete user.username r.config.users }
unfolding remove_user_config set_users
remove_user_config-config user r removed =
    and_then_follow
      (λ s. s.config ≡ record r.config { users = delete user.username r.config.users })
      (item r.config.users user.username, r) _ tt (λ _ _ _. refl) removed

abbrev without_entry : User → Config → Config
without_entry user config = record config { users = delete user.username config.users }

-- When `delete` of a user returns, the configuration is as it was, the groups and their members
-- included, except that the entry of the user is gone, and the first of his among the superusers,
-- if he was one.
pub delete_user_config :
    (user : User) (r : Request)
    → (delete_user user r).0 ≡ ok tt
    → (delete_user user r).1.config ≡ config_without user r.config
unfolding delete_user
delete_user_config user r deleted =
    let IsDone = (λ (s : Request). s.config ≡ config_without user r.config) in
    let s1 = (assert_permission "MANAGE_USERS" none false r).1 in
    let leave = leave_superusers (contains s1.config.superusers user.username) user s1 in
    let vms = none ∷ some_of (keys leave.1.config.virtual_machines) in
    and_then_follow IsDone (assert_permission "MANAGE_USERS" none false r) _ tt
      (λ _ _ e1.
        and_then_follow IsDone leave _ tt
          (λ _ left e2.
            and_then_follow IsDone (leave_on vms user leave.1) _ tt
              (λ _ _ e3.
                remove_user_config-config user (leave_on vms user leave.1).1 e3
                ∙ ap (λ s. without_entry user s.config) (leave_on-keeps vms user leave.1)
                ∙ ap (without_entry user) (leave_superusers-config user s1 left)
                ∙ ap (config_without user) (assert_permission-config "MANAGE_USERS" none false r))
              e2)
          e1)
      deleted
