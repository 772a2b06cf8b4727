-- ===== src/Storage/Volume/Access.antt =====
-- What `File.check_permissions` leaves, under what POSIX documents of `chown` and `chmod`.
use mcvirt.Base.{ℕ, String, true, false, ◌≡◌, refl, ap, ◌∙◌, arith, some, inl, inr, Bool-cases}
use mcvirt.Base.Exec.{ok, and_then_returns, and_then-eq_ok, and_then_holds, ◌>>◌, Result-cases}
use mcvirt.Storage.Backend.{Storage}
use mcvirt.Storage.Volume.{
  Node, Stat, chown, chmod, file, has_owner_permissions, with_owner_permissions, needs_permissions,
  run_change, fix_permissions, check_permissions,
}

-- chown to libvirt's user and group sets both, and keeps a mode or clears bits above 0777; chmod sets
-- the mode and keeps the owner.
pub record IsPosix {K : Type 0} (n : Node K) : Type 0 where
  pub stat_chown :
      (host path : String) (k : K)
      → (n.run host (chown path) k).0 ≡ ok tt
      → (mode : ℕ) × (n.stat host path (n.run host (chown path) k).1
          ≡ ok (record { is_user = true; is_group = true; mode = mode }))
  pub stat_chmod :
      (host path : String) (mode : ℕ) (k : K) (before : Stat)
      → n.stat host path k ≡ ok before
      → (n.run host (chmod path mode) k).0 ≡ ok tt
      → n.stat host path (n.run host (chmod path mode) k).1 ≡ ok (record before { mode = mode })

owner_permissions : (mode : ℕ) → has_owner_permissions (with_owner_permissions mode) ≡ true
unfolding has_owner_permissions with_owner_permissions
owner_permissions mode = ground arith

suitable :
    (mode : ℕ)
    → needs_permissions
        (record { is_user = true; is_group = true; mode = with_owner_permissions mode })
      ≡ false
unfolding needs_permissions
suitable mode = rw (owner_permissions mode) refl

module _ {K : Type 0} {n : Node K} (laws : IsPosix n) (directory : String) (s : Storage K) where
  changed :
      (stat : Stat)
      → ((run_change n (chown directory)
            >> run_change n (chmod directory (with_owner_permissions stat.mode)))
          s).0
        ≡ ok tt
      → (n.stat s.hostname directory
            ((run_change n (chown directory)
                >> run_change n (chmod directory (with_owner_permissions stat.mode)))
              s).1.kernel
          ≡ ok
              (record { is_user = true; is_group = true; mode = with_owner_permissions stat.mode }))
  unfolding run_change
  changed stat done =
      let (u, (owned, rest)) = and_then_returns (run_change n (chown directory) s) _ tt done in
      let k = (n.run s.hostname (chown directory) s.kernel).1 in
      let (mode, is) = laws.stat_chown s.hostname directory s.kernel (ap (λ r. r.0) owned) in
      ap (λ t. n.stat s.hostname directory t.1.kernel)
        (and_then-eq_ok (run_change n (chown directory) s)
          (λ _. run_change n (chmod directory (with_owner_permissions stat.mode))) tt
          (ap (λ r. r.0) owned))
      ∙ laws.stat_chmod s.hostname directory (with_owner_permissions stat.mode) k
          (record { is_user = true; is_group = true; mode = mode }) is rest

  -- The directory is there, and nothing has to be changed any more.
  abbrev IsSettled : Storage K → Type 0
  IsSettled t =
      (stat : Stat) × (n.stat s.hostname directory t.kernel ≡ ok stat)
      × (needs_permissions stat ≡ false)

  fix_permissions-IsSettled :
      (fix_permissions n directory s).0 ≡ ok tt → IsSettled (fix_permissions n directory s).1
  unfolding fix_permissions
  fix_permissions-IsSettled = elim (Result-cases (n.stat s.hostname directory s.kernel)) [
    | inr (e, unknown) ↦ rw unknown (λ done. cc)
    | inl (stat, known) ↦ elim (Bool-cases (needs_permissions stat)) [
      | inl needed ↦ rw (known, needed) (λ done. (_, changed stat done, suitable stat.mode))
      | inr enough ↦ rw (known, enough) (λ done. (stat, known, enough))
    ]
  ]

  fix_permissions-host : (fix_permissions n directory s).1.hostname ≡ s.hostname
  unfolding fix_permissions run_change
  fix_permissions-host =
      and_then_holds (λ t. t.hostname ≡ s.hostname) (n.stat s.hostname directory s.kernel, s) _ refl
        (λ stat t same. elim (Bool-cases (needs_permissions stat)) [
          | inl needed ↦ rw needed (
              and_then_holds (λ u. u.hostname ≡ s.hostname) (run_change n (chown directory) t) _
                same (λ _ u kept. kept))
          | inr enough ↦ rw enough same
        ])

  -- With chown, chmod and stat as POSIX documents them: when the check of the permissions of a
  -- directory has returned, running it again returns and changes nothing.
  pub check_permissions-again :
      (check_permissions n file (some directory) s).0 ≡ ok tt
      → check_permissions n file (some directory) (check_permissions n file (some directory) s).1
        ≡ (ok tt, (check_permissions n file (some directory) s).1)
  unfolding check_permissions fix_permissions
  check_permissions-again done =
      let (stat, known, enough) = fix_permissions-IsSettled done in
      rw (fix_permissions-host, known, enough) refl
