-- ===== src/Drbd/States/Decoding.antt =====
-- That what `drbdadm` prints for its states is read back.
use Prim.Native.String.{◌++◌ as ◌+++◌}
use mcvirt.Base.{◌≡◌, refl}
use mcvirt.Base.Exec.{ok}
use mcvirt.Drbd.States.{
  ConnectionState, RoleState, DiskState, stand_alone, primary, secondary, unknown, diskless,
  attaching, failed, negotiating, inconsistent, outdated, d_unknown, consistent, up_to_date,
  connection_value, role_value, disk_value, decode_connection, decode_roles, decode_disks,
}

decode_connection-value :
    (s : ConnectionState) → decode_connection (connection_value s +++ "\n") ≡ ok s
unfolding decode_connection
decode_connection-value stand_alone = refl
decode_connection-value _ = refl

pub decode_roles-value :
    (a b : RoleState) → decode_roles (role_value a +++ "/" +++ role_value b +++ "\n") ≡ ok (a, b)
unfolding decode_roles
decode_roles-value primary primary = refl
decode_roles-value primary _ = refl
decode_roles-value secondary primary = refl
decode_roles-value secondary _ = refl
decode_roles-value unknown primary = refl
decode_roles-value unknown _ = refl

decode_disks-value :
    (a b : DiskState) → decode_disks (disk_value a +++ "/" +++ disk_value b +++ "\n") ≡ ok (a, b)
unfolding decode_disks
decode_disks-value diskless diskless = refl
decode_disks-value diskless _ = refl
decode_disks-value attaching diskless = refl
decode_disks-value attaching _ = refl
decode_disks-value failed diskless = refl
decode_disks-value failed _ = refl
decode_disks-value negotiating diskless = refl
decode_disks-value negotiating _ = refl
decode_disks-value inconsistent diskless = refl
decode_disks-value inconsistent _ = refl
decode_disks-value outdated diskless = refl
decode_disks-value outdated _ = refl
decode_disks-value d_unknown diskless = refl
decode_disks-value d_unknown _ = refl
decode_disks-value consistent diskless = refl
decode_disks-value consistent _ = refl
decode_disks-value up_to_date diskless = refl
decode_disks-value up_to_date _ = refl

-- Every state that DRBD documents is read back from what `drbdadm` prints for it: a connection state
-- from its own line, and the states of the two nodes from a line that separates them by a slash.
pub decode-value :
    (c : ConnectionState) (a b : RoleState) (x y : DiskState)
    → (decode_connection (connection_value c +++ "\n") ≡ ok c)
      × (decode_roles (role_value a +++ "/" +++ role_value b +++ "\n") ≡ ok (a, b))
      × (decode_disks (disk_value x +++ "/" +++ disk_value y +++ "\n") ≡ ok (x, y))
decode-value c a b x y = (decode_connection-value c, decode_roles-value a b, decode_disks-value x y)
