-- ===== src/Drbd/Allocation/Invariant.antt =====
-- That DRBD drives keep different ports.
use mcvirt.Base.{
  ℕ, String, Bool, true, false, ◌||◌, ◌≡◌, refl, sym, subst, Option, none, some, List, [], ◌∷◌,
}
use mcvirt.Base.Exec.{Result, ok, err, and_then, pure, and_then_holds}
use mcvirt.Exceptions.{Exception}
use mcvirt.Auth.Users.{cluster_user}
use mcvirt.Auth.Permission.{assert_user_type}
use mcvirt.Auth.Groups.{item}
use mcvirt.Drbd.Allocation.{
  Drives, DrivesMethod, DriveNumbers, mem_number, mem_port, get_used_drbd_ports, update_drive,
  store_port, port_or_new, get_drbd_port,
}
use mcvirt.Drbd.Allocation.Fresh.{
  Distinct, with_port, Distinct-with_port, get_available_drbd_port_first,
}

abbrev pub HasDistinctPorts : Drives → Type 0
HasDistinctPorts s = Distinct (get_used_drbd_ports s.drives)

not_used : (a b : Bool) → (a || b) ≡ false → a ≡ false
not_used true b free = free
not_used false b free = refl

module _ (id : String) (port : ℕ) where
  -- A new port is written to the entry that has been read.
  write_port : DriveNumbers → DrivesMethod (Unit {0})
  write_port drive s = (ok tt, record s { drives = with_port id drive port s.drives })

  found-Distinct :
      (answer : Result Exception DriveNumbers) (s : Drives)
      → HasDistinctPorts s
      → mem_number port (get_used_drbd_ports s.drives) ≡ false
      → HasDistinctPorts (and_then (answer, s) write_port).1
  unfolding write_port
  found-Distinct (err e) s distinct absent = distinct
  found-Distinct (ok drive) s distinct absent =
      Distinct-with_port port id drive s.drives distinct absent

  asserted-Distinct :
      (answer : Result Exception (Unit {0})) (s : Drives)
      → HasDistinctPorts s
      → mem_number port (get_used_drbd_ports s.drives) ≡ false
      → HasDistinctPorts (and_then (answer, s) (λ _ t. and_then (item t.drives id, t) write_port)).1
  asserted-Distinct (err e) s distinct absent = distinct
  asserted-Distinct (ok _) s distinct absent = found-Distinct (item s.drives id) s distinct absent

  store_port-Distinct :
      (s : Drives)
      → HasDistinctPorts s
      → mem_number port (get_used_drbd_ports s.drives) ≡ false
      → HasDistinctPorts (store_port id (some port) s).1
  unfolding store_port update_drive write_port
  store_port-Distinct s distinct absent =
      let r = assert_user_type (cluster_user ∷ []) true s.request in
      and_then_holds HasDistinctPorts _ (λ _. pure (some port))
        (asserted-Distinct r.0 (record s { request = r.1 }) distinct absent) (λ _ t same. same)

port_or_new-Distinct :
    (id : String) (listening : List ℕ) (generate : Bool) (port : Option ℕ) (s : Drives)
    → HasDistinctPorts s
    → HasDistinctPorts (port_or_new id listening generate port s).1
unfolding port_or_new
port_or_new-Distinct id listening generate (some port) s distinct = distinct
port_or_new-Distinct id listening false none s distinct = distinct
port_or_new-Distinct id listening true none s distinct =
    let (port, found, later, free, first, near) =
      get_available_drbd_port_first s.drives listening in
    subst (λ o. HasDistinctPorts (store_port id o s).1) (sym found)
      (store_port-Distinct id port s distinct (not_used _ (mem_port port listening) free))

-- Asking a drive for its port, which generates and stores one if it has none and this is asked for,
-- leaves different drives with different ports, if they had before, also where the call raises.
pub get_drbd_port-HasDistinctPorts :
    (id : String) (listening : List ℕ) (generate : Bool) (s : Drives)
    → HasDistinctPorts s
    → HasDistinctPorts (get_drbd_port id listening generate s).1
unfolding get_drbd_port
get_drbd_port-HasDistinctPorts id listening generate s distinct =
    and_then_holds HasDistinctPorts (item s.drives id, s) _ distinct
      (λ drive t. port_or_new-Distinct id listening generate drive.drbd_port t)
