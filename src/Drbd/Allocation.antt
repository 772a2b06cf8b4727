-- ===== src/Drbd/Allocation.antt =====
-- The ports and minor numbers that DRBD drives are given, and the size of the meta-data volume, of
-- mcvirt/virtual_machine/hard_drive/drbd.py and mcvirt/node/drbd.py. The attributes that cache the
-- numbers of the configuration are not modelled; the ports that the nodes listen on are an argument.
pub mod Fresh
pub mod Invariant
use mcvirt.Base.{
  ℕ, zero, suc, ◌+◌, ◌*◌, ◌/◌, String, Bool, true, false, ◌||◌, Option, none, some, List, [], ◌∷◌,
  nat_eq, if◌then◌else◌,
}
use mcvirt.Base.Dict.{Dict, lookup, insert}
use mcvirt.Base.Exec.{Result, ok, err, Exec, pure, modify, gets, reads, ◌>>=◌, ◌>>◌}
use mcvirt.Exceptions.{Exception, key_error}
use mcvirt.Auth.Users.{cluster_user}
use mcvirt.Auth.Permission.{Request, assert_user_type}
use mcvirt.Auth.Groups.{item}

-- The entries of a DRBD drive's configuration.
pub record DriveNumbers : Type 0 where
  pub drbd_port : Option ℕ
  pub drbd_minor : Option ℕ

-- A request, and the DRBD drives of the cluster by their ids.
pub record Drives : Type 0 where
  pub request : Request
  pub drives : Dict DriveNumbers

abbrev pub DrivesMethod : Type 0 → Type 0
DrivesMethod A = Exec Exception Drives A

-- n in l, for a list that holds None for a drive without a number
unfoldable pub mem_number : ℕ → List (Option ℕ) → Bool
mem_number n [] = false
mem_number n (none ∷ used) = mem_number n used
mem_number n (some m ∷ used) = if nat_eq m n then true else mem_number n used

unfoldable pub mem_port : ℕ → List ℕ → Bool
mem_port n [] = false
mem_port n (m ∷ ports) = if nat_eq m n then true else mem_port n ports

unfoldable pub get_used_drbd_ports : Dict DriveNumbers → List (Option ℕ)
get_used_drbd_ports [] = []
get_used_drbd_ports ((_, drive) ∷ drives) = drive.drbd_port ∷ get_used_drbd_ports drives

unfoldable pub get_used_drbd_minors : Dict DriveNumbers → List (Option ℕ)
get_used_drbd_minors [] = []
get_used_drbd_minors ((_, drive) ∷ drives) = drive.drbd_minor ∷ get_used_drbd_minors drives

-- The loop over the numbers from a first one on; `none` means that it would go on.
unfoldable pub free_from : ℕ → ℕ → List (Option ℕ) → List ℕ → Option ℕ
unfolding mem_number mem_port
free_from zero test_number used listening = none
free_from (suc fuel) test_number used listening =
    let rest = free_from fuel (test_number + 1) used listening in
    if mem_number test_number used || mem_port test_number listening then rest else some test_number

-- One more round than there are numbers in use.
unfoldable pub rounds : List (Option ℕ) → List ℕ → ℕ
rounds [] [] = 1
rounds [] (_ ∷ listening) = rounds [] listening + 1
rounds (_ ∷ used) listening = rounds used listening + 1

abbrev pub initial_port : ℕ
initial_port = 7789

abbrev pub initial_minor : ℕ
initial_minor = 1

unfoldable pub get_available_drbd_port : Dict DriveNumbers → List ℕ → Option ℕ
unfolding free_from rounds get_used_drbd_ports
get_available_drbd_port drives listening =
    let used = get_used_drbd_ports drives in
    free_from (rounds used listening) initial_port used listening

unfoldable pub get_available_drbd_minor : Dict DriveNumbers → Option ℕ
unfolding free_from rounds get_used_drbd_minors
get_available_drbd_minor drives =
    let used = get_used_drbd_minors drives in free_from (rounds used []) initial_minor used []

-- update_config of one entry of the drive, on all nodes
unfoldable pub update_drive : String → (DriveNumbers → DriveNumbers) → DrivesMethod (Unit {0})
unfolding assert_user_type item
update_drive id change = do
  λ s.
      let (result, r) = assert_user_type (cluster_user ∷ []) true s.request in
      (result, record s { request = r })
  drive ← reads (λ s. item s.drives id)
  modify (λ s. record s { drives = insert id (change drive) s.drives })

-- A number that has just been generated is written to the configuration.
unfoldable pub store_port : String → Option ℕ → DrivesMethod (Option ℕ)
unfolding update_drive
store_port id none = pure none
store_port id (some port) = do
  update_drive id (λ drive. record drive { drbd_port = some port })
  pure (some port)

unfoldable pub store_minor : String → Option ℕ → DrivesMethod (Option ℕ)
unfolding update_drive
store_minor id none = pure none
store_minor id (some minor) = do
  update_drive id (λ drive. record drive { drbd_minor = some minor })
  pure (some minor)

port_or_new : String → List ℕ → Bool → Option ℕ → DrivesMethod (Option ℕ)
unfolding get_available_drbd_port store_port
port_or_new id listening generate (some port) = pure (some port)
port_or_new id listening false none = pure none
port_or_new id listening true none = do
  available ← gets (λ s. get_available_drbd_port s.drives listening)
  store_port id available

unfoldable pub get_drbd_port : String → List ℕ → Bool → DrivesMethod (Option ℕ)
unfolding item port_or_new
get_drbd_port id listening generate = do
  drive ← reads (λ s. item s.drives id)
  port_or_new id listening generate drive.drbd_port

minor_or_new : String → Bool → Option ℕ → DrivesMethod (Option ℕ)
unfolding get_available_drbd_minor store_minor
minor_or_new id generate (some minor) = pure (some minor)
minor_or_new id false none = pure none
minor_or_new id true none = do
  available ← gets (λ s. get_available_drbd_minor s.drives)
  store_minor id available

unfoldable pub get_drbd_minor : String → Bool → DrivesMethod (Option ℕ)
unfolding item minor_or_new
get_drbd_minor id generate = do
  drive ← reads (λ s. item s.drives id)
  minor_or_new id generate drive.drbd_minor

-- The size in bytes of the meta-data volume for a raw volume of a number of sectors. Both operands of
-- the division are integers, so it rounds down before `ceil` is taken.
unfoldable pub calculate_meta_data_size : ℕ → ℕ → ℕ
calculate_meta_data_size raw_size_sectors sector_size =
    (raw_size_sectors / 262144 * 8 + 72) * sector_size
