-- ===== src/Auth/Permission/Checks.antt =====
-- What decides a permission check of mcvirt/auth/auth.py.
use mcvirt.Base.{
  String, Bool, true, false, ◌&&◌, ◌||◌, Option, none, List, [], ◌∷◌, ◌≡◌, refl, sym, ap, ◌∙◌, inl,
  inr, if◌then◌else◌, Bool-cases,
}
use mcvirt.Base.Lists.{contains}
use mcvirt.Base.Exec.{Result, ok, err, and_then, modify, gets, guard, ◌>>=◌}
use mcvirt.Exceptions.{Exception, insufficient_permissions}
use mcvirt.Auth.Users.{User, Config, cluster_user, same_type, allow_proxy_user}
use mcvirt.Auth.Groups.{get_permissions}
use mcvirt.Auth.Permission.{
  Request, get_current_user_object, get_proxy_user_object, proxy_of, mem_type, class_among,
  check_user_type, has_permission_asserted, or_else, superuser_among, is_superuser, is_elevated,
  among, permissions_of, check_permission, assert_permission, set_permission_asserted,
}

-- Outside of start-up and of internal requests, and where the user, the user he acts for and his
-- own permissions can be found, a request is granted a permission exactly if the user is a cluster
-- user, or the user he acts for is a superuser, or the permission is elevated in this request, or
-- his own permissions have it: acting for another user gives the rank of that user as superuser,
-- never his permissions.
pub check_permission_decides :
    (permission : String) (vm : Option String) (r : Request) (user proxy : User)
    (permissions : List String)
    → r.startup_period ≡ false
    → r.internal_request ≡ false
    → get_current_user_object r ≡ ok user
    → get_proxy_user_object r ≡ ok proxy
    → get_permissions user vm r.config ≡ ok permissions
    → check_permission permission vm none r
      ≡ ok (
          same_type cluster_user user.user_type
          || contains r.config.superusers proxy.username
          || is_elevated permission r
          || contains permissions permission)
unfolding check_permission is_superuser check_user_type class_among mem_type or_else superuser_among
    permissions_of among
check_permission_decides permission vm r user proxy permissions not_startup external current
      acts_for own =
    simp (not_startup, external, current)
      (elim (Bool-cases (same_type cluster_user user.user_type)) [
        | inl cluster ↦ simp cluster
        | inr other ↦
            simp (other, acts_for)
              (elim (Bool-cases (contains r.config.superusers proxy.username)) [
                | inl super ↦ simp super
                | inr ordinary ↦ simp ordinary (elim (Bool-cases (is_elevated permission r)) [
                  | inl elevated ↦ simp elevated
                  | inr plain ↦ simp (plain, own)
                ])
              ])
      ])

-- Whether a request comes from a superuser does not depend on the permissions elevated in it.
pub is_superuser-elevated :
    (r : Request) (elevated : Option (List String))
    → is_superuser (record r { elevated_permissions = elevated }) ≡ is_superuser r
unfolding is_superuser check_user_type get_current_user_object get_proxy_user_object
is_superuser-elevated r elevated = refl

or_elevated :
    (found : Bool) (rest : Result Exception Bool)
    → or_else (ok found) (or_else (ok true) rest) ≡ ok true
unfolding or_else
or_elevated true rest = refl
or_elevated false rest = refl

pub check_permission_elevated :
    (permission : String) (vm : Option String) (r : Request) (found : Bool)
    → is_superuser r ≡ ok found
    → is_elevated permission r ≡ true
    → check_permission permission vm none r ≡ ok true
unfolding check_permission
check_permission_elevated permission vm r found super elevated =
    elim (Bool-cases (r.startup_period || r.internal_request)) [
      | inl internal ↦ simp internal
      | inr external ↦ simp (external, super, elevated, or_elevated found)
    ]

refused_proxy :
    (user : User) (name : Option String) (config : Config)
    → allow_proxy_user user.user_type ≡ false
    → proxy_of (ok user) name config ≡ ok user
unfolding proxy_of
refused_proxy user name config refused = rw refused refl

own_proxy :
    (r : Request) (user : User) (name : Option String)
    → get_current_user_object r ≡ ok user
    → allow_proxy_user user.user_type ≡ false
    → get_proxy_user_object (record r { proxy_user = name }) ≡ ok user
unfolding get_proxy_user_object get_current_user_object
own_proxy r user name current refused =
    ap (λ found. proxy_of found name r.config) current ∙ refused_proxy user name r.config refused

-- Naming a proxy user in a request changes no permission check where the class of the current user
-- does not allow one.
pub proxy_ignored :
    (permission : String) (vm : Option String) (r : Request) (user : User) (name : Option String)
    → get_current_user_object r ≡ ok user
    → allow_proxy_user user.user_type ≡ false
    → check_permission permission vm none (record r { proxy_user = name })
      ≡ check_permission permission vm none r
unfolding check_permission is_superuser check_user_type get_current_user_object is_elevated
proxy_ignored permission vm r user name current refused =
    ap
      (λ proxy.
        if r.startup_period || r.internal_request
        then ok true
        else or_else
            (or_else (check_user_type (cluster_user ∷ []) r)
              (superuser_among r.config.superusers proxy))
            (or_else (ok (is_elevated permission r))
              (permissions_of permission vm (get_current_user_object r) r.config)))
      (own_proxy r user name current refused ∙ sym (own_proxy r user r.proxy_user current refused))

-- An assertion of a permission succeeds exactly if the check grants it, or the call allows an
-- indirect one and one has succeeded before; only in the first case the request is marked.
pub assert_permission_outcome :
    (permission : String) (vm : Option String) (indirect granted : Bool) (r : Request)
    → check_permission permission vm none r ≡ ok granted
    → assert_permission permission vm indirect r ≡ (
        if granted
        then (ok tt, set_permission_asserted r)
        else (if indirect && has_permission_asserted r
            then (ok tt, r)
            else (err insufficient_permissions, r)))
unfolding assert_permission
assert_permission_outcome permission vm indirect true r check = simp check
assert_permission_outcome permission vm indirect false r check =
    simp check (elim (Bool-cases (indirect && has_permission_asserted r)) [
      | inl before ↦ simp before
      | inr never ↦ simp never
    ])

config_kept :
    (found : Result Exception Bool) (indirect : Bool) (r : Request)
    → (and_then
        (found, r)
        (λ granted. gets has_permission_asserted >>= λ asserted.
          if granted
          then modify set_permission_asserted
          else guard (indirect && asserted) insufficient_permissions)).1.config
      ≡ r.config
unfolding set_permission_asserted
config_kept (err e) indirect r = refl
config_kept (ok true) indirect r = refl
config_kept (ok false) indirect r = elim (Bool-cases (indirect && has_permission_asserted r)) [
  | inl before ↦ simp before
  | inr never ↦ simp never
]

-- An assertion does not touch the configuration.
pub assert_permission-config :
    (permission : String) (vm : Option String) (indirect : Bool) (r : Request)
    → (assert_permission permission vm indirect r).1.config ≡ r.config
unfolding assert_permission
assert_permission-config permission vm indirect r =
    config_kept (check_permission permission vm none r) indirect r
