-- ===== src/Mng.antt =====
-- The management TLVs: the structures of proc.h as the cases of one type, for `BaseMngTlv`, and
-- `call_tlv_data` of msg.cpp, which selects the function of proc.cpp by the management id.
pub mod DataSets
pub mod Settings
pub mod Linuxptp
pub mod Scalars
pub mod Tables
pub mod Codecs
pub mod Safety
pub mod Sizes
pub mod Dispatch
use libpmc.Base.{ℕ, Bool, true, false, List, [], Option, none, some, ◌==◌, if◌then◌else◌}
use libpmc.Base.Int.{ℤ, pos}
use libpmc.Wire.{Proc, ◌>>=◌, pure, fault}
use libpmc.Ids.{MngId, mng_all_vals}
use libpmc.Types.{ClockIdentity, PtpText, Timestamp, fresh_timestamp, fresh_text}
use libpmc.Mng.DataSets.{
  DefaultDataSet, fresh_default_data_set, default_data_set_f, CurrentDataSet,
  fresh_current_data_set, current_data_set_f, ParentDataSet, fresh_parent_data_set,
  parent_data_set_f, TimePropertiesDataSet, fresh_time_properties_data_set,
  time_properties_data_set_f, PortDataSet, fresh_port_data_set, port_data_set_f,
  TransparentClockPortDataSet, fresh_transparent_clock_port_data_set,
  transparent_clock_port_data_set_f, TransparentClockDefaultDataSet,
  fresh_transparent_clock_default_data_set, transparent_clock_default_data_set_f,
  ExtPortConfigPortDataSet, fresh_ext_port_config_port_data_set, ext_port_config_port_data_set_f,
}
use libpmc.Mng.Settings.{
  UtcProperties, fresh_utc_properties, utc_properties_f, TimescaleProperties,
  fresh_timescale_properties, timescale_properties_f, AlternateMaster, fresh_alternate_master,
  alternate_master_f, AlternateTimeOffsetEnable, fresh_alternate_time_offset_enable,
  alternate_time_offset_enable_f, AlternateTimeOffsetName, fresh_alternate_time_offset_name,
  alternate_time_offset_name_f, AlternateTimeOffsetProperties,
  fresh_alternate_time_offset_properties, alternate_time_offset_properties_f,
}
use libpmc.Mng.Linuxptp.{
  TimeStatusNp, fresh_time_status_np, time_status_np_f, GrandmasterSettingsNp,
  fresh_grandmaster_settings_np, grandmaster_settings_np_f, PortDataSetNp, fresh_port_data_set_np,
  port_data_set_np_f, SubscribeEventsNp, fresh_subscribe_events_np, subscribe_events_np_f,
  PortPropertiesNp, fresh_port_properties_np, port_properties_np_f,
}
use libpmc.Mng.Scalars.{
  user_description_f, initialize_f, priority1_f, priority2_f, domain_f, slave_only_f,
  log_announce_interval_f, announce_receipt_timeout_f, log_sync_interval_f, version_number_f,
  time_f, clock_accuracy_f, traceability_properties_f, unicast_negotiation_enable_f,
  path_trace_enable_f, unicast_master_max_table_size_f, acceptable_master_table_enabled_f,
  acceptable_master_max_table_size_f, alternate_time_offset_max_key_f,
  log_min_pdelay_req_interval_f, primary_domain_f, delay_mechanism_f,
  external_port_configuration_enabled_f, master_only_f, holdover_upgrade_enable_f,
  synchronization_uncertain_np_f,
}
use libpmc.Mng.Tables.{
  ClockDescription, FaultLog, AddressTable, AcceptableMasterTable, PortStatsNp,
  fresh_clock_description, fresh_fault_log, fresh_address_table, fresh_acceptable_master_table,
  fresh_port_stats_np, clock_description_f, fault_log_f, path_trace_list_f,
  grandmaster_cluster_table_f, unicast_master_table_f, acceptable_master_table_f, port_stats_np_f,
}

-- A structure of proc.h; one of a single field is that field.
pub data MngTlv : Type 0 where
  clock_description : ClockDescription → MngTlv
  user_description : PtpText → MngTlv
  initialize : ℕ → MngTlv
  fault_log : FaultLog → MngTlv
  default_data_set : DefaultDataSet → MngTlv
  current_data_set : CurrentDataSet → MngTlv
  parent_data_set : ParentDataSet → MngTlv
  time_properties_data_set : TimePropertiesDataSet → MngTlv
  port_data_set : PortDataSet → MngTlv
  priority1 : ℕ → MngTlv
  priority2 : ℕ → MngTlv
  domain : ℕ → MngTlv
  slave_only : ℕ → MngTlv
  log_announce_interval : ℤ → MngTlv
  announce_receipt_timeout : ℕ → MngTlv
  log_sync_interval : ℤ → MngTlv
  version_number : ℕ → MngTlv
  time : Timestamp → MngTlv
  clock_accuracy : ℕ → MngTlv
  utc_properties : UtcProperties → MngTlv
  traceability_properties : ℕ → MngTlv
  timescale_properties : TimescaleProperties → MngTlv
  unicast_negotiation_enable : ℕ → MngTlv
  path_trace_list : (List ClockIdentity) → MngTlv
  path_trace_enable : ℕ → MngTlv
  grandmaster_cluster_table : AddressTable → MngTlv
  unicast_master_table : AddressTable → MngTlv
  unicast_master_max_table_size : ℕ → MngTlv
  acceptable_master_table : AcceptableMasterTable → MngTlv
  acceptable_master_table_enabled : ℕ → MngTlv
  acceptable_master_max_table_size : ℕ → MngTlv
  alternate_master : AlternateMaster → MngTlv
  alternate_time_offset_enable : AlternateTimeOffsetEnable → MngTlv
  alternate_time_offset_name : AlternateTimeOffsetName → MngTlv
  alternate_time_offset_max_key : ℕ → MngTlv
  alternate_time_offset_properties : AlternateTimeOffsetProperties → MngTlv
  transparent_clock_port_data_set : TransparentClockPortDataSet → MngTlv
  log_min_pdelay_req_interval : ℤ → MngTlv
  transparent_clock_default_data_set : TransparentClockDefaultDataSet → MngTlv
  primary_domain : ℕ → MngTlv
  delay_mechanism : ℕ → MngTlv
  external_port_configuration_enabled : ℕ → MngTlv
  master_only : ℕ → MngTlv
  holdover_upgrade_enable : ℕ → MngTlv
  ext_port_config_port_data_set : ExtPortConfigPortDataSet → MngTlv
  time_status_np : TimeStatusNp → MngTlv
  grandmaster_settings_np : GrandmasterSettingsNp → MngTlv
  port_data_set_np : PortDataSetNp → MngTlv
  subscribe_events_np : SubscribeEventsNp → MngTlv
  port_properties_np : PortPropertiesNp → MngTlv
  port_stats_np : PortStatsNp → MngTlv
  synchronization_uncertain_np : ℕ → MngTlv

-- The id whose structure this is.
unfoldable pub kind : MngTlv → MngId
kind (clock_description x) = MngId.clock_description
kind (user_description x) = MngId.user_description
kind (initialize x) = MngId.initialize
kind (fault_log x) = MngId.fault_log
kind (default_data_set x) = MngId.default_data_set
kind (current_data_set x) = MngId.current_data_set
kind (parent_data_set x) = MngId.parent_data_set
kind (time_properties_data_set x) = MngId.time_properties_data_set
kind (port_data_set x) = MngId.port_data_set
kind (priority1 x) = MngId.priority1
kind (priority2 x) = MngId.priority2
kind (domain x) = MngId.domain
kind (slave_only x) = MngId.slave_only
kind (log_announce_interval x) = MngId.log_announce_interval
kind (announce_receipt_timeout x) = MngId.announce_receipt_timeout
kind (log_sync_interval x) = MngId.log_sync_interval
kind (version_number x) = MngId.version_number
kind (time x) = MngId.time
kind (clock_accuracy x) = MngId.clock_accuracy
kind (utc_properties x) = MngId.utc_properties
kind (traceability_properties x) = MngId.traceability_properties
kind (timescale_properties x) = MngId.timescale_properties
kind (unicast_negotiation_enable x) = MngId.unicast_negotiation_enable
kind (path_trace_list x) = MngId.path_trace_list
kind (path_trace_enable x) = MngId.path_trace_enable
kind (grandmaster_cluster_table x) = MngId.grandmaster_cluster_table
kind (unicast_master_table x) = MngId.unicast_master_table
kind (unicast_master_max_table_size x) = MngId.unicast_master_max_table_size
kind (acceptable_master_table x) = MngId.acceptable_master_table
kind (acceptable_master_table_enabled x) = MngId.acceptable_master_table_enabled
kind (acceptable_master_max_table_size x) = MngId.acceptable_master_max_table_size
kind (alternate_master x) = MngId.alternate_master
kind (alternate_time_offset_enable x) = MngId.alternate_time_offset_enable
kind (alternate_time_offset_name x) = MngId.alternate_time_offset_name
kind (alternate_time_offset_max_key x) = MngId.alternate_time_offset_max_key
kind (alternate_time_offset_properties x) = MngId.alternate_time_offset_properties
kind (transparent_clock_port_data_set x) = MngId.transparent_clock_port_data_set
kind (log_min_pdelay_req_interval x) = MngId.log_min_pdelay_req_interval
kind (transparent_clock_default_data_set x) = MngId.transparent_clock_default_data_set
kind (primary_domain x) = MngId.primary_domain
kind (delay_mechanism x) = MngId.delay_mechanism
kind (external_port_configuration_enabled x) = MngId.external_port_configuration_enabled
kind (master_only x) = MngId.master_only
kind (holdover_upgrade_enable x) = MngId.holdover_upgrade_enable
kind (ext_port_config_port_data_set x) = MngId.ext_port_config_port_data_set
kind (time_status_np x) = MngId.time_status_np
kind (grandmaster_settings_np x) = MngId.grandmaster_settings_np
kind (port_data_set_np x) = MngId.port_data_set_np
kind (subscribe_events_np x) = MngId.subscribe_events_np
kind (port_properties_np x) = MngId.port_properties_np
kind (port_stats_np x) = MngId.port_stats_np
kind (synchronization_uncertain_np x) = MngId.synchronization_uncertain_np

-- `new n##_t` in the case of the id. The ids with no data field have no structure.
pub fresh_tlv : MngId → Option MngTlv
fresh_tlv MngId.null_ptp_management = none
fresh_tlv MngId.clock_description = some (clock_description fresh_clock_description)
fresh_tlv MngId.user_description = some (user_description fresh_text)
fresh_tlv MngId.save_in_non_volatile_storage = none
fresh_tlv MngId.reset_non_volatile_storage = none
fresh_tlv MngId.initialize = some (initialize 0)
fresh_tlv MngId.fault_log = some (fault_log fresh_fault_log)
fresh_tlv MngId.fault_log_reset = none
fresh_tlv MngId.default_data_set = some (default_data_set fresh_default_data_set)
fresh_tlv MngId.current_data_set = some (current_data_set fresh_current_data_set)
fresh_tlv MngId.parent_data_set = some (parent_data_set fresh_parent_data_set)
fresh_tlv MngId.time_properties_data_set =
    some (time_properties_data_set fresh_time_properties_data_set)
fresh_tlv MngId.port_data_set = some (port_data_set fresh_port_data_set)
fresh_tlv MngId.priority1 = some (priority1 0)
fresh_tlv MngId.priority2 = some (priority2 0)
fresh_tlv MngId.domain = some (domain 0)
fresh_tlv MngId.slave_only = some (slave_only 0)
fresh_tlv MngId.log_announce_interval = some (log_announce_interval (pos 0))
fresh_tlv MngId.announce_receipt_timeout = some (announce_receipt_timeout 0)
fresh_tlv MngId.log_sync_interval = some (log_sync_interval (pos 0))
fresh_tlv MngId.version_number = some (version_number 0)
fresh_tlv MngId.enable_port = none
fresh_tlv MngId.disable_port = none
fresh_tlv MngId.time = some (time fresh_timestamp)
fresh_tlv MngId.clock_accuracy = some (clock_accuracy 0)
fresh_tlv MngId.utc_properties = some (utc_properties fresh_utc_properties)
fresh_tlv MngId.traceability_properties = some (traceability_properties 0)
fresh_tlv MngId.timescale_properties = some (timescale_properties fresh_timescale_properties)
fresh_tlv MngId.unicast_negotiation_enable = some (unicast_negotiation_enable 0)
fresh_tlv MngId.path_trace_list = some (path_trace_list [])
fresh_tlv MngId.path_trace_enable = some (path_trace_enable 0)
fresh_tlv MngId.grandmaster_cluster_table = some (grandmaster_cluster_table fresh_address_table)
fresh_tlv MngId.unicast_master_table = some (unicast_master_table fresh_address_table)
fresh_tlv MngId.unicast_master_max_table_size = some (unicast_master_max_table_size 0)
fresh_tlv MngId.acceptable_master_table =
    some (acceptable_master_table fresh_acceptable_master_table)
fresh_tlv MngId.acceptable_master_table_enabled = some (acceptable_master_table_enabled 0)
fresh_tlv MngId.acceptable_master_max_table_size = some (acceptable_master_max_table_size 0)
fresh_tlv MngId.alternate_master = some (alternate_master fresh_alternate_master)
fresh_tlv MngId.alternate_time_offset_enable =
    some (alternate_time_offset_enable fresh_alternate_time_offset_enable)
fresh_tlv MngId.alternate_time_offset_name =
    some (alternate_time_offset_name fresh_alternate_time_offset_name)
fresh_tlv MngId.alternate_time_offset_max_key = some (alternate_time_offset_max_key 0)
fresh_tlv MngId.alternate_time_offset_properties =
    some (alternate_time_offset_properties fresh_alternate_time_offset_properties)
fresh_tlv MngId.transparent_clock_port_data_set =
    some (transparent_clock_port_data_set fresh_transparent_clock_port_data_set)
fresh_tlv MngId.log_min_pdelay_req_interval = some (log_min_pdelay_req_interval (pos 0))
fresh_tlv MngId.transparent_clock_default_data_set =
    some (transparent_clock_default_data_set fresh_transparent_clock_default_data_set)
fresh_tlv MngId.primary_domain = some (primary_domain 0)
fresh_tlv MngId.delay_mechanism = some (delay_mechanism 0)
fresh_tlv MngId.external_port_configuration_enabled = some (external_port_configuration_enabled 0)
fresh_tlv MngId.master_only = some (master_only 0)
fresh_tlv MngId.holdover_upgrade_enable = some (holdover_upgrade_enable 0)
fresh_tlv MngId.ext_port_config_port_data_set =
    some (ext_port_config_port_data_set fresh_ext_port_config_port_data_set)
fresh_tlv MngId.time_status_np = some (time_status_np fresh_time_status_np)
fresh_tlv MngId.grandmaster_settings_np =
    some (grandmaster_settings_np fresh_grandmaster_settings_np)
fresh_tlv MngId.port_data_set_np = some (port_data_set_np fresh_port_data_set_np)
fresh_tlv MngId.subscribe_events_np = some (subscribe_events_np fresh_subscribe_events_np)
fresh_tlv MngId.port_properties_np = some (port_properties_np fresh_port_properties_np)
fresh_tlv MngId.port_stats_np = some (port_stats_np fresh_port_stats_np)
fresh_tlv MngId.synchronization_uncertain_np = some (synchronization_uncertain_np 0)

-- The function of the structure's type, on build and on parse.
pub proc_tlv : MngTlv → Proc MngTlv
proc_tlv (clock_description x) = do y ← clock_description_f x; pure (clock_description y)
proc_tlv (user_description x) = do y ← user_description_f x; pure (user_description y)
proc_tlv (initialize x) = do y ← initialize_f x; pure (initialize y)
proc_tlv (fault_log x) = do y ← fault_log_f x; pure (fault_log y)
proc_tlv (default_data_set x) = do y ← default_data_set_f x; pure (default_data_set y)
proc_tlv (current_data_set x) = do y ← current_data_set_f x; pure (current_data_set y)
proc_tlv (parent_data_set x) = do y ← parent_data_set_f x; pure (parent_data_set y)
proc_tlv (time_properties_data_set x) = do
  y ← time_properties_data_set_f x
  pure (time_properties_data_set y)
proc_tlv (port_data_set x) = do y ← port_data_set_f x; pure (port_data_set y)
proc_tlv (priority1 x) = do y ← priority1_f x; pure (priority1 y)
proc_tlv (priority2 x) = do y ← priority2_f x; pure (priority2 y)
proc_tlv (domain x) = do y ← domain_f x; pure (domain y)
proc_tlv (slave_only x) = do y ← slave_only_f x; pure (slave_only y)
proc_tlv (log_announce_interval x) = do
  y ← log_announce_interval_f x
  pure (log_announce_interval y)
proc_tlv (announce_receipt_timeout x) = do
  y ← announce_receipt_timeout_f x
  pure (announce_receipt_timeout y)
proc_tlv (log_sync_interval x) = do y ← log_sync_interval_f x; pure (log_sync_interval y)
proc_tlv (version_number x) = do y ← version_number_f x; pure (version_number y)
proc_tlv (time x) = do y ← time_f x; pure (time y)
proc_tlv (clock_accuracy x) = do y ← clock_accuracy_f x; pure (clock_accuracy y)
proc_tlv (utc_properties x) = do y ← utc_properties_f x; pure (utc_properties y)
proc_tlv (traceability_properties x) = do
  y ← traceability_properties_f x
  pure (traceability_properties y)
proc_tlv (timescale_properties x) = do y ← timescale_properties_f x; pure (timescale_properties y)
proc_tlv (unicast_negotiation_enable x) = do
  y ← unicast_negotiation_enable_f x
  pure (unicast_negotiation_enable y)
proc_tlv (path_trace_list x) = do y ← path_trace_list_f x; pure (path_trace_list y)
proc_tlv (path_trace_enable x) = do y ← path_trace_enable_f x; pure (path_trace_enable y)
proc_tlv (grandmaster_cluster_table x) = do
  y ← grandmaster_cluster_table_f x
  pure (grandmaster_cluster_table y)
proc_tlv (unicast_master_table x) = do y ← unicast_master_table_f x; pure (unicast_master_table y)
proc_tlv (unicast_master_max_table_size x) = do
  y ← unicast_master_max_table_size_f x
  pure (unicast_master_max_table_size y)
proc_tlv (acceptable_master_table x) = do
  y ← acceptable_master_table_f x
  pure (acceptable_master_table y)
proc_tlv (acceptable_master_table_enabled x) = do
  y ← acceptable_master_table_enabled_f x
  pure (acceptable_master_table_enabled y)
proc_tlv (acceptable_master_max_table_size x) = do
  y ← acceptable_master_max_table_size_f x
  pure (acceptable_master_max_table_size y)
proc_tlv (alternate_master x) = do y ← alternate_master_f x; pure (alternate_master y)
proc_tlv (alternate_time_offset_enable x) = do
  y ← alternate_time_offset_enable_f x
  pure (alternate_time_offset_enable y)
proc_tlv (alternate_time_offset_name x) = do
  y ← alternate_time_offset_name_f x
  pure (alternate_time_offset_name y)
proc_tlv (alternate_time_offset_max_key x) = do
  y ← alternate_time_offset_max_key_f x
  pure (alternate_time_offset_max_key y)
proc_tlv (alternate_time_offset_properties x) = do
  y ← alternate_time_offset_properties_f x
  pure (alternate_time_offset_properties y)
proc_tlv (transparent_clock_port_data_set x) = do
  y ← transparent_clock_port_data_set_f x
  pure (transparent_clock_port_data_set y)
proc_tlv (log_min_pdelay_req_interval x) = do
  y ← log_min_pdelay_req_interval_f x
  pure (log_min_pdelay_req_interval y)
proc_tlv (transparent_clock_default_data_set x) = do
  y ← transparent_clock_default_data_set_f x
  pure (transparent_clock_default_data_set y)
proc_tlv (primary_domain x) = do y ← primary_domain_f x; pure (primary_domain y)
proc_tlv (delay_mechanism x) = do y ← delay_mechanism_f x; pure (delay_mechanism y)
proc_tlv (external_port_configuration_enabled x) = do
  y ← external_port_configuration_enabled_f x
  pure (external_port_configuration_enabled y)
proc_tlv (master_only x) = do y ← master_only_f x; pure (master_only y)
proc_tlv (holdover_upgrade_enable x) = do
  y ← holdover_upgrade_enable_f x
  pure (holdover_upgrade_enable y)
proc_tlv (ext_port_config_port_data_set x) = do
  y ← ext_port_config_port_data_set_f x
  pure (ext_port_config_port_data_set y)
proc_tlv (time_status_np x) = do y ← time_status_np_f x; pure (time_status_np y)
proc_tlv (grandmaster_settings_np x) = do
  y ← grandmaster_settings_np_f x
  pure (grandmaster_settings_np y)
proc_tlv (port_data_set_np x) = do y ← port_data_set_np_f x; pure (port_data_set_np y)
proc_tlv (subscribe_events_np x) = do y ← subscribe_events_np_f x; pure (subscribe_events_np y)
proc_tlv (port_properties_np x) = do y ← port_properties_np_f x; pure (port_properties_np y)
proc_tlv (port_stats_np x) = do y ← port_stats_np_f x; pure (port_stats_np y)
proc_tlv (synchronization_uncertain_np x) = do
  y ← synchronization_uncertain_np_f x
  pure (synchronization_uncertain_np y)

-- A build casts the caller's structure to the type that the id wants: with another one the source
-- reads foreign memory.
build_tlv : MngId → MngTlv → Proc (Option MngTlv)
unfolding kind
build_tlv id d c =
    if (mng_all_vals (kind d)).value == (mng_all_vals id).value
    then (do x ← proc_tlv d; pure (some x)) c
    else fault

-- A parse makes a new structure. For an id with no data field the pointer is left as it was.
call_tlv : Bool → Option MngTlv → MngId → Option MngTlv → Proc (Option MngTlv)
unfolding build_tlv
call_tlv b none id tlv = pure tlv
call_tlv true (some new) id none = λ c. fault
call_tlv true (some new) id (some d) = build_tlv id d
call_tlv false (some new) id tlv = do x ← proc_tlv new; pure (some x)

-- MNG_PARSE_ERROR_e Message::call_tlv_data(mng_vals_e id, BaseMngTlv *&tlv)
unfoldable pub call_tlv_data : MngId → Option MngTlv → Proc (Option MngTlv)
unfolding call_tlv fresh_tlv
call_tlv_data id tlv c = call_tlv c.build (fresh_tlv id) id tlv c
