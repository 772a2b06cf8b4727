-- ===== src/Auth/Elevation.antt =====
-- `ElevatePermission` of mcvirt/auth/auth.py: permissions that the daemon grants to a request while
-- a block runs. Its messages to the system log are left out.
pub mod Restored
use mcvirt.Base.{String, Bool, true, false, Option, none, some, List, [], ◌∷◌, ◌++◌, if◌then◌else◌}
use mcvirt.Base.Lists.{contains, remove}
use mcvirt.Base.Exec.{Result}
use mcvirt.Exceptions.{Exception}
use mcvirt.Auth.Permission.{Request, Method}

-- The object: what was asked for, and what `__enter__` added.
pub record ElevatePermission : Type 0 where
  pub permissions_requested : List String
  pub permissions_assigned : List String

-- The loop of `__enter__` over the requested permissions: the list ELEVATED_PERMISSIONS and the
-- assigned ones, both of which it appends to.
unfoldable pub assign : List String → List String × List String → List String × List String
assign [] (elevated, assigned) = (elevated, assigned)
assign (permission ∷ requested) (elevated, assigned) = assign requested (
    if contains elevated permission
    then (elevated, assigned)
    else (elevated ++ (permission ∷ []), assigned ++ (permission ∷ [])))

unfoldable pub enter : ElevatePermission × Request → ElevatePermission × Request
unfolding assign
enter (e, r) = elim r.elevated_permissions [
  | none ↦ (e, r)
  | some elevated ↦
      let lists = assign e.permissions_requested (elevated, e.permissions_assigned) in
      (
        record e { permissions_assigned = lists.1 },
        record r { elevated_permissions = some lists.0 },
      )
]

-- The loop of `__exit__` over the assigned permissions.
unfoldable pub revoke : List String → List String → List String
revoke [] elevated = elevated
revoke (permission ∷ assigned) elevated =
    revoke assigned (if contains elevated permission then remove elevated permission else elevated)

unfoldable pub exit : ElevatePermission × Request → Request
unfolding revoke
exit (e, r) = record r {
  elevated_permissions = elim r.elevated_permissions [
    | none ↦ none
    | some elevated ↦ some (revoke e.permissions_assigned elevated)
  ];
}

-- with auth.elevate_permissions(*permissions): body. `__exit__` runs whether or not the body raises.
unfoldable pub with_elevated : {A : Type 0} → List String → Method A → Method A
unfolding enter exit
with_elevated permissions body r =
    let entered =
      enter (record { permissions_requested = permissions; permissions_assigned = [] }, r) in
    let result = body entered.1 in (result.0, exit (entered.0, result.1))
