-- ===== src/Auth/Elevation/Restored.antt =====
-- That a block with elevated permissions has them, and leaves the context as it was.
use mcvirt.Base.{
  String, Bool, true, false, Option, none, some, List, [], ◌∷◌, ◌++◌, ◌≡◌, refl, sym, ◌∙◌, ap,
  arith, ◌==◌, eq_iff, eq_refl, inl, inr, Bool-cases,
}
use mcvirt.Base.Lists.{contains, contains-append, append_nil, remove_fresh}
use mcvirt.Base.Exec.{ok}
use mcvirt.Auth.Permission.{
  Request, Method, is_elevated, is_superuser, check_permission, assert_permission,
}
use mcvirt.Auth.Permission.Checks.{
  is_superuser-elevated, check_permission_elevated, assert_permission_outcome,
}
use mcvirt.Auth.Elevation.{assign, enter, revoke, exit, with_elevated}

append_assoc : {A : Type 0} (xs ys zs : List A) → (xs ++ ys) ++ zs ≡ xs ++ (ys ++ zs)
append_assoc [] ys zs = refl
append_assoc (x ∷ xs) ys zs = ap (λ l. x ∷ l) (append_assoc xs ys zs)

-- Permissions none of which stands in `xs`.
AllFresh : List String → List String → Type 0
AllFresh xs [] = Unit
AllFresh xs (p ∷ ps) = (contains xs p ≡ false) × AllFresh xs ps

revoke_suffix : (xs ps : List String) → AllFresh xs ps → revoke ps (xs ++ ps) ≡ xs
unfolding revoke AllFresh contains
revoke_suffix xs [] fresh = append_nil xs
revoke_suffix xs (p ∷ ps) (new, fresh) =
    rw (contains-append xs (p ∷ ps) p, new, eq_refl p, remove_fresh xs ps p new)
      (revoke_suffix xs ps fresh)

AllFresh-append :
    (xs ps : List String) (p : String)
    → AllFresh xs ps
    → contains (xs ++ ps) p ≡ false
    → AllFresh xs (ps ++ (p ∷ []))
unfolding AllFresh
AllFresh-append xs [] p fresh new = (ap (λ l. contains l p) (sym (append_nil xs)) ∙ new, tt)
AllFresh-append xs (q ∷ ps) p (fresh_q, fresh) new = (
  fresh_q,
  AllFresh-append xs ps p fresh (
      unfold contains in
      ground (arith, new, contains-append xs ps p, contains-append xs (q ∷ ps) p)),
)

-- The assigned permissions are the suffix that `assign` appended, and are all new.
assign_suffix :
    (requested xs assigned : List String)
    → AllFresh xs assigned
    → ((assign requested (xs ++ assigned, assigned)).0
        ≡ xs ++ (assign requested (xs ++ assigned, assigned)).1)
      × AllFresh xs (assign requested (xs ++ assigned, assigned)).1
unfolding assign
assign_suffix [] xs assigned fresh = (refl, fresh)
assign_suffix (p ∷ requested) xs assigned fresh = elim (Bool-cases (contains (xs ++ assigned) p)) [
  | inl present ↦ rw (present, assign) (assign_suffix requested xs assigned fresh)
  | inr new ↦
      rw (new, assign, append_assoc xs assigned (p ∷ []))
        (assign_suffix requested xs (assigned ++ (p ∷ []))
          (AllFresh-append xs assigned p fresh new))
]

revoke-assign :
    (requested xs : List String)
    → revoke (assign requested (xs, [])).1 (assign requested (xs, [])).0 ≡ xs
revoke-assign requested xs =
    let suffix = assign_suffix requested xs [] (unfold AllFresh in tt) in
    ap (λ l. revoke (assign requested (l, [])).1 (assign requested (l, [])).0) (sym (append_nil xs))
    ∙ ap (λ l. revoke (assign requested (xs ++ [], [])).1 l) suffix.0
    ∙ revoke_suffix xs (assign requested (xs ++ [], [])).1 suffix.1

restores_from :
    {A : Type 0} (permissions : List String) (body : Method A) (r : Request)
    (before : Option (List String))
    → ((s : Request) → (body s).1.elevated_permissions ≡ s.elevated_permissions)
    → (with_elevated permissions body
        (record r { elevated_permissions = before })).1.elevated_permissions
      ≡ before
unfolding with_elevated enter exit
restores_from permissions body r none keeps =
    rw (keeps (record r { elevated_permissions = none })) refl
restores_from permissions body r (some elevated) keeps =
    rw (keeps (record r { elevated_permissions = some (assign permissions (elevated, [])).0 }))
      (ap some (revoke-assign permissions elevated))

-- A block with elevated permissions leaves the list of elevated permissions exactly as it found it,
-- whether or not its body raises, for every list of requested permissions and every body that itself
-- leaves the list alone; so such blocks can be nested.
pub with_elevated_restores :
    {A : Type 0} (permissions : List String) (body : Method A) (r : Request)
    → ((s : Request) → (body s).1.elevated_permissions ≡ s.elevated_permissions)
    → (with_elevated permissions body r).1.elevated_permissions ≡ r.elevated_permissions
with_elevated_restores permissions body r keeps =
    restores_from permissions body r r.elevated_permissions keeps

assign_keeps :
    (requested elevated assigned : List String) (p : String)
    → contains elevated p ≡ true
    → contains (assign requested (elevated, assigned)).0 p ≡ true
unfolding assign
assign_keeps [] elevated assigned p has_it = has_it
assign_keeps (q ∷ requested) elevated assigned p has_it = elim (Bool-cases (contains elevated q)) [
  | inl present ↦ rw (present, assign) (assign_keeps requested elevated assigned p has_it)
  | inr new ↦
      rw (new, assign)
        (assign_keeps requested (elevated ++ (q ∷ [])) (assigned ++ (q ∷ [])) p
          (rw (contains-append elevated (q ∷ []) p, has_it) refl))
]

assign_grants :
    (requested elevated assigned : List String) (p : String)
    → contains requested p ≡ true
    → contains (assign requested (elevated, assigned)).0 p ≡ true
unfolding assign contains
assign_grants [] elevated assigned p asked = ground arith
assign_grants (q ∷ requested) elevated assigned p asked = elim (Bool-cases (q == p)) [
  | inr other ↦ elim (Bool-cases (contains elevated q)) [
    | inl present ↦
        rw (present, assign) (assign_grants requested elevated assigned p (ground arith))
    | inr new ↦
        rw (new, assign)
          (assign_grants requested (elevated ++ (q ∷ [])) (assigned ++ (q ∷ [])) p (ground arith))
  ]
  | inl same ↦ elim (Bool-cases (contains elevated q)) [
    | inl present ↦
        rw (present, assign)
          (assign_keeps requested elevated assigned p (ground (arith, eq_iff q p)))
    | inr new ↦
        rw (new, assign)
          (assign_keeps requested (elevated ++ (q ∷ [])) (assigned ++ (q ∷ [])) p
            (rw (contains-append elevated (q ∷ []) p, same) (ground arith)))
  ]
]

grants_from :
    (permissions : List String) (r : Request) (elevated : List String) (p : String)
    (vm : Option String) (found : Bool)
    → contains permissions p ≡ true
    → is_superuser r ≡ ok found
    → check_permission p vm none
        (enter (
          record { permissions_requested = permissions; permissions_assigned = [] },
          record r { elevated_permissions = some elevated },
        )).1
      ≡ ok true
unfolding enter
grants_from permissions r elevated p vm found asked super =
    check_permission_elevated p vm
      (record r { elevated_permissions = some (assign permissions (elevated, [])).0 }) found
      (is_superuser-elevated r (some (assign permissions (elevated, [])).0) ∙ super)
      (unfold is_elevated in assign_grants permissions elevated [] p asked)

-- Inside a block with elevated permissions, an assertion of each requested one succeeds, for every
-- request whose context has the list of elevated permissions and which has a user.
pub with_elevated_grants :
    (permissions : List String) (p : String) (vm : Option String) (indirect : Bool) (r : Request)
    (elevated : List String) (found : Bool)
    → contains permissions p ≡ true
    → r.elevated_permissions ≡ some elevated
    → is_superuser r ≡ ok found
    → (with_elevated permissions (assert_permission p vm indirect) r).0 ≡ ok tt
unfolding with_elevated
with_elevated_grants permissions p vm indirect r elevated found asked present super =
    ap
      (λ before.
        (with_elevated permissions (assert_permission p vm indirect)
          (record r { elevated_permissions = before })).0)
      present
    ∙ ap (λ outcome. outcome.0)
        (assert_permission_outcome p vm indirect true
          (enter (
            record { permissions_requested = permissions; permissions_assigned = [] },
            record r { elevated_permissions = some elevated },
          )).1
          (grants_from permissions r elevated p vm found asked super))
