-- ===== src/VirtualMachine/Migration/Steps.antt =====
-- What the steps of a migration and of its recovery leave: the node in the configuration of the machine,
-- and the loops over its hard drives, of mcvirt/virtual_machine/virtual_machine.py.
use mcvirt.Base.{
  String, Bool, List, true, false, Option, some, [], ◌∷◌, ◌≡◌, refl, ap, ◌∙◌, if◌then◌else◌,
}
use mcvirt.Base.Exec.{
  Result, ok, err, and_then, modify, and_then_after, and_then_follow, and_then_holds, pure, ◌>>◌,
}
use mcvirt.Exceptions.{Exception}
use mcvirt.Auth.Users.{cluster_user}
use mcvirt.Auth.Permission.{assert_user_type}
use mcvirt.VirtualMachine.{Host, Vm, call, set_vm, update_vm_config}
use mcvirt.VirtualMachine.Registration.{Site, SiteMethod, on_host, set_node}
use mcvirt.VirtualMachine.Migration.{each_disk}

abbrev moved : Option String → Vm → Vm
moved node vm = record vm { node = node }

stored_node :
    (node : Option String) (h : Host) (r : Result Exception (Unit {0}))
    → (and_then (r, h) (λ _. modify (set_vm (moved node)))).0 ≡ ok tt
    → ((and_then (r, h) (λ _. modify (set_vm (moved node)))).1.vm.node ≡ node)
      × ((and_then (r, h) (λ _. modify (set_vm (moved node)))).1.hostname ≡ h.hostname)
unfolding set_vm
stored_node at h (ok u) = λ done. (refl, refl)
stored_node at h (err e) = λ done. cc

module _ {K : Type 0} where
  -- The configuration after the node was set.
  pub set_node_lem :
      (node : Option String) (s : Site K)
      → (set_node node s).0 ≡ ok tt
      → ((set_node node s).1.host.vm.node ≡ node)
        × ((set_node node s).1.host.hostname ≡ s.host.hostname)
        × ((set_node node s).1.kernel ≡ s.kernel)
  unfolding set_node on_host update_vm_config call
  set_node_lem node s done =
      let a = assert_user_type (cluster_user ∷ []) true s.host.request in
      let (is, same) = stored_node node (record s.host { request = a.1 }) a.0 done in
      (is, same, refl)

  -- What each step for a disk keeps, the loop over the disks keeps.
  pub each_disk-holds :
      (Q : Site K → Type 0) (body : String → SiteMethod K (Unit {0}))
      → ((disk : String) (t : Site K) → Q t → Q (body disk t).1)
      → (disks : List String) (s : Site K) → Q s
      → Q (each_disk body disks s).1
  unfolding each_disk
  each_disk-holds Q body keeps [] s q = q
  each_disk-holds Q body keeps (disk ∷ disks) s q =
      and_then_holds Q (body disk s) (λ _. each_disk body disks) (keeps disk s q)
        (λ _ t. each_disk-holds Q body keeps disks t)

  -- A node that is recovered on, if libvirt has the machine there.
  abbrev pub recover_if :
      Bool → (String → SiteMethod K (Unit {0})) → String → SiteMethod K (Unit {0})
  recover_if here demote node s =
      (if here then (each_disk demote s.disks >> set_node (some node)) else pure tt) s

  pub recover_if-node :
      (here : Bool) (demote : String → SiteMethod K (Unit {0})) (node : String) (s : Site K)
      → (recover_if here demote node s).0 ≡ ok tt
      → (recover_if here demote node s).1.host.vm.node
        ≡ (if here then some node else s.host.vm.node)
  recover_if-node false demote node s = λ done. refl
  recover_if-node true demote node s =
      and_then_after (λ (t : Site K). t.host.vm.node ≡ some node) (each_disk demote s.disks s) _ tt
        (λ _ t done. (set_node_lem (some node) t done).0)

  pub recover_if-domains :
      (has : String → K → Bool) (here : Bool) (demote : String → SiteMethod K (Unit {0}))
      (node : String) (s : Site K)
      → ((disk n : String) (t : Site K) → has n (demote disk t).1.kernel ≡ has n t.kernel)
      → (recover_if here demote node s).0 ≡ ok tt
      → (n : String) → has n (recover_if here demote node s).1.kernel ≡ has n s.kernel
  recover_if-domains has false demote node s keeps done n = refl
  recover_if-domains has true demote node s keeps done n =
      and_then_follow (λ (t : Site K). has n t.kernel ≡ has n s.kernel) (each_disk demote s.disks s)
        (λ _. set_node (some node)) tt
        (λ _ ran set.
          ap (has n) (set_node_lem (some node) (each_disk demote s.disks s).1 set).2
          ∙ each_disk-holds (λ (t : Site K). has n t.kernel ≡ has n s.kernel) demote
              (λ disk t same. keeps disk n t ∙ same) s.disks s refl)
        done
