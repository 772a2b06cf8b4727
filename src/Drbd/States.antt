-- ===== src/Drbd/States.antt =====
-- The states that `drbdadm` reports: the enumerations of mcvirt/virtual_machine/hard_drive/drbd.py and
-- `DRBD_STATES`, with the reading of the output of `drbdadm`.
pub mod Decoding
use mcvirt.Base.{String, Bool, true, false, Option, none, some, List, [], ◌∷◌, ◌==◌, if◌then◌else◌}
use mcvirt.Base.Text.{strip, split}
use mcvirt.Base.Exec.{Result, ok, err}
use mcvirt.Base.Raise.{◌>>=◌}
use mcvirt.Exceptions.{Exception, value_error}

pub data ConnectionState : Type 0 where
  stand_alone disconnecting unconnected timeout broken_pipe network_failure : ConnectionState
  protocol_error tear_down wf_connection wf_report_params connected : ConnectionState
  starting_sync_s starting_sync_t wf_bit_map_s wf_bit_map_t wf_sync_uuid : ConnectionState
  sync_source sync_target paused_sync_s paused_sync_t verify_s verify_t : ConnectionState

pub data RoleState : Type 0 where
  primary secondary unknown : RoleState

pub data DiskState : Type 0 where
  diskless attaching failed negotiating inconsistent : DiskState
  outdated d_unknown consistent up_to_date : DiskState

unfoldable pub connection_value : ConnectionState → String
connection_value stand_alone = "StandAlone"
connection_value disconnecting = "Disconnecting"
connection_value unconnected = "Unconnected"
connection_value timeout = "Timeout"
connection_value broken_pipe = "BrokenPipe"
connection_value network_failure = "NetworkFailure"
connection_value protocol_error = "ProtocolError"
connection_value tear_down = "TearDown"
connection_value wf_connection = "WFConnection"
connection_value wf_report_params = "WFReportParams"
connection_value connected = "Connected"
connection_value starting_sync_s = "StartingSyncS"
connection_value starting_sync_t = "StartingSyncT"
connection_value wf_bit_map_s = "WFBitMapS"
connection_value wf_bit_map_t = "WFBitMapT"
connection_value wf_sync_uuid = "WFSyncUUID"
connection_value sync_source = "SyncSource"
connection_value sync_target = "SyncTarget"
connection_value paused_sync_s = "PausedSyncS"
connection_value paused_sync_t = "PausedSyncT"
connection_value verify_s = "VerifyS"
connection_value verify_t = "VerifyT"

unfoldable pub role_value : RoleState → String
role_value primary = "Primary"
role_value secondary = "Secondary"
role_value unknown = "Unknown"

unfoldable pub disk_value : DiskState → String
disk_value diskless = "Diskless"
disk_value attaching = "Attaching"
disk_value failed = "Failed"
disk_value negotiating = "Negotiating"
disk_value inconsistent = "Inconsistent"
disk_value outdated = "Outdated"
disk_value d_unknown = "DUnknown"
disk_value consistent = "Consistent"
disk_value up_to_date = "UpToDate"

abbrev pub all_connections : List ConnectionState
all_connections =
    stand_alone ∷ disconnecting ∷ unconnected ∷ timeout ∷ broken_pipe ∷ network_failure
    ∷ protocol_error ∷ tear_down ∷ wf_connection ∷ wf_report_params ∷ connected ∷ starting_sync_s
    ∷ starting_sync_t ∷ wf_bit_map_s ∷ wf_bit_map_t ∷ wf_sync_uuid ∷ sync_source ∷ sync_target
    ∷ paused_sync_s ∷ paused_sync_t ∷ verify_s ∷ verify_t ∷ []

abbrev pub all_roles : List RoleState
all_roles = primary ∷ secondary ∷ unknown ∷ []

abbrev pub all_disks : List DiskState
all_disks =
    diskless ∷ attaching ∷ failed ∷ negotiating ∷ inconsistent ∷ outdated ∷ d_unknown ∷ consistent
    ∷ up_to_date ∷ []

module _ {S : Type 0} (value : S → String) where
  -- The member of an enumeration with a value, which is a ValueError where there is none.
  unfoldable pub member : List S → String → Result Exception S
  member [] text = err value_error
  member (s ∷ states) text = if value s == text then ok s else member states text

  -- state in states, for members of an enumeration
  unfoldable pub mem_state : S → List S → Bool
  mem_state s [] = false
  mem_state s (t ∷ states) = if value t == value s then true else mem_state s states

  -- (a, b) = text.split('/'), each a member
  pair_of : List S → List String → Result Exception (S × S)
  unfolding member
  pair_of states (a ∷ b ∷ []) = do
    local_state ← member states a
    remote_state ← member states b
    ok (local_state, remote_state)
  pair_of states _ = err value_error

  unfoldable pub decode_pair : List S → String → Result Exception (S × S)
  unfolding pair_of strip split
  decode_pair states stdout = pair_of states (split b'/' (strip stdout))

unfoldable pub decode_connection : String → Result Exception ConnectionState
unfolding member strip connection_value
decode_connection stdout = member connection_value all_connections (strip stdout)

unfoldable pub decode_roles : String → Result Exception (RoleState × RoleState)
unfolding decode_pair role_value
decode_roles stdout = decode_pair role_value all_roles stdout

unfoldable pub decode_disks : String → Result Exception (DiskState × DiskState)
unfolding decode_pair disk_value
decode_disks stdout = decode_pair disk_value all_disks stdout

-- DRBD_STATES
abbrev pub connection_ok : List ConnectionState
connection_ok =
    connected ∷ verify_s ∷ verify_t ∷ paused_sync_s ∷ starting_sync_s ∷ sync_source ∷ wf_bit_map_s
    ∷ wf_bit_map_t ∷ wf_sync_uuid ∷ []

abbrev pub connection_connected : List ConnectionState
connection_connected =
    connected ∷ verify_s ∷ verify_t ∷ paused_sync_s ∷ starting_sync_s ∷ sync_source ∷ sync_target
    ∷ wf_bit_map_s ∷ wf_bit_map_t ∷ wf_sync_uuid ∷ []

abbrev pub connection_warning : List ConnectionState
connection_warning =
    stand_alone ∷ disconnecting ∷ unconnected ∷ broken_pipe ∷ network_failure ∷ wf_connection
    ∷ wf_report_params ∷ []

abbrev pub disk_ok : List DiskState
disk_ok = up_to_date ∷ []

abbrev pub disk_warning : List DiskState
disk_warning = consistent ∷ d_unknown ∷ []

-- `is`, on members of an enumeration
unfoldable pub is_role : RoleState → RoleState → Bool
unfolding role_value
is_role a b = role_value a == role_value b

unfoldable pub is_disk : DiskState → DiskState → Bool
unfolding disk_value
is_disk a b = disk_value a == disk_value b

unfoldable pub is_connection : ConnectionState → ConnectionState → Bool
unfolding connection_value
is_connection a b = connection_value a == connection_value b
