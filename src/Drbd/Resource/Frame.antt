-- ===== src/Drbd/Resource/Frame.antt =====
-- What the commands and queries of a DRBD resource leave alone.
use mcvirt.Base.{Bool, not, ◌&&◌, ◌≡◌, refl, ap, ◌∙◌}
use mcvirt.Base.Exec.{Result, ok, err, and_then}
use mcvirt.Exceptions.{Exception, mcvirt_command}
use mcvirt.Drbd.Resource.{
  Command, role, to_secondary, Drbdadm, Resource, DrbdMethod, execute, sleep, retried,
  drbd_set_secondary, get_role,
}
use mcvirt.Drbd.Resource.Checks.{get_role-state, execute-state}

module _ {K : Type 0} where
  -- A method that changes what DRBD holds, and at most the sync state of the configuration.
  abbrev pub ChangesKernel : {A : Type 0} → DrbdMethod K A → Type 0
  ChangesKernel method =
      (r : Resource K)
      → (k : K) × (b : Bool) × ((method r).1 ≡ record r { kernel = k; sync_state = b })

  pub then-ChangesKernel :
      {A B : Type 0} (answer : Result Exception A × Resource K) (r : Resource K)
      (f : A → DrbdMethod K B)
      → (k : K) × (b : Bool) × (answer.1 ≡ record r { kernel = k; sync_state = b })
      → ((a : A) → ChangesKernel (f a))
      → (k : K) × (b : Bool) × ((and_then answer f).1 ≡ record r { kernel = k; sync_state = b })
  then-ChangesKernel (err e, s) r f (k, b, same) keeps = (k, b, same)
  then-ChangesKernel (ok a, s) r f (k, b, same) keeps =
      let (k', b', after) = keeps a s in
      (k', b', after ∙ ap (λ (t : Resource K). record t { kernel = k'; sync_state = b' }) same)

module _ {K : Type 0} (d : Drbdadm K) where
  pub execute-ChangesKernel : (command : Command) → ChangesKernel (execute d command)
  execute-ChangesKernel command r =
      ((d.run r.hostname command r.kernel).1, r.sync_state, execute-state d r command)

  pub sleep-ChangesKernel : ChangesKernel (sleep d)
  unfolding sleep
  sleep-ChangesKernel r = ((d.wait r.kernel).0, r.sync_state && not (d.wait r.kernel).1, refl)

  pub retried-ChangesKernel :
      (result : Result Exception (Unit {0})) (command : Command)
      → ChangesKernel (retried d result command)
  unfolding retried
  retried-ChangesKernel (ok _) command r = (r.kernel, r.sync_state, refl)
  retried-ChangesKernel (err mcvirt_command) command r =
      then-ChangesKernel (sleep d r) r (λ _. execute d command) (sleep-ChangesKernel r)
        (λ _. execute-ChangesKernel command)
  retried-ChangesKernel (err _) command r = (r.kernel, r.sync_state, refl)

  pub drbd_set_secondary-ChangesKernel : ChangesKernel (drbd_set_secondary d)
  unfolding drbd_set_secondary
  drbd_set_secondary-ChangesKernel r =
      let (k, b, after) =
        retried-ChangesKernel (execute d to_secondary r).0 to_secondary
          (execute d to_secondary r).1 in
      (
        k,
        b,
        after
            ∙ ap (λ (t : Resource K). record t { kernel = k; sync_state = b })
                (execute-state d r to_secondary),
      )

  pub get_role-ChangesKernel : ChangesKernel (get_role d)
  get_role-ChangesKernel r = ((d.run r.hostname role r.kernel).1, r.sync_state, get_role-state d r)
