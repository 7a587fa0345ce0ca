-- ===== src/Mng/Codecs.antt =====
-- What is on the wire for each management TLV.
pub mod Write
pub mod Read
use libpmc.Base.{ℕ, ◌^◌, ◌<◌, List, length, map, All}
use libpmc.Base.Int.{InWord}
use libpmc.Wire.{net}
use libpmc.Wire.Codec.{concat}
use libpmc.Wire.Values.{net_int}
use libpmc.Types.{masked}
use libpmc.Types.Codecs.{
  timestamp_octets, text_octets, sent_text, ValidTimestamp, ValidText, IsIdentity,
}
use libpmc.Mng.{
  MngTlv, clock_description, user_description, initialize, fault_log, default_data_set,
  current_data_set, parent_data_set, time_properties_data_set, port_data_set, priority1, priority2,
  domain, slave_only, log_announce_interval, announce_receipt_timeout, log_sync_interval,
  version_number, time, clock_accuracy, utc_properties, traceability_properties,
  timescale_properties, unicast_negotiation_enable, path_trace_list, path_trace_enable,
  grandmaster_cluster_table, unicast_master_table, unicast_master_max_table_size,
  acceptable_master_table, acceptable_master_table_enabled, acceptable_master_max_table_size,
  alternate_master, alternate_time_offset_enable, alternate_time_offset_name,
  alternate_time_offset_max_key, alternate_time_offset_properties, transparent_clock_port_data_set,
  log_min_pdelay_req_interval, transparent_clock_default_data_set, primary_domain, delay_mechanism,
  external_port_configuration_enabled, master_only, holdover_upgrade_enable,
  ext_port_config_port_data_set, time_status_np, grandmaster_settings_np, port_data_set_np,
  subscribe_events_np, port_properties_np, port_stats_np, synchronization_uncertain_np,
}
use libpmc.Mng.DataSets.Codecs.{
  ValidDefaultDataSet, sent_default_data_set, default_data_set_octets, ValidCurrentDataSet,
  current_data_set_octets, ValidParentDataSet, sent_parent_data_set, parent_data_set_octets,
  ValidTimePropertiesDataSet, sent_time_properties_data_set, time_properties_data_set_octets,
}
use libpmc.Mng.DataSets.PortCodecs.{
  ValidPortDataSet, port_data_set_octets, ValidTransparentClockPortDataSet,
  sent_transparent_clock_port_data_set, transparent_clock_port_data_set_octets,
  ValidTransparentClockDefaultDataSet, transparent_clock_default_data_set_octets,
  ValidExtPortConfigPortDataSet, sent_ext_port_config_port_data_set,
  ext_port_config_port_data_set_octets,
}
use libpmc.Mng.Settings.Codecs.{
  ValidUtcProperties, sent_utc_properties, utc_properties_octets, ValidTimescaleProperties,
  sent_timescale_properties, timescale_properties_octets, ValidAlternateMaster,
  sent_alternate_master, alternate_master_octets, ValidAlternateTimeOffsetEnable,
  sent_alternate_time_offset_enable, alternate_time_offset_enable_octets,
  ValidAlternateTimeOffsetName, sent_alternate_time_offset_name, alternate_time_offset_name_octets,
  ValidAlternateTimeOffsetProperties, alternate_time_offset_properties_octets,
}
use libpmc.Mng.Linuxptp.Codecs.{
  ValidTimeStatusNp, time_status_np_octets, ValidGrandmasterSettingsNp,
  sent_grandmaster_settings_np, grandmaster_settings_np_octets, ValidPortDataSetNp,
  port_data_set_np_octets, ValidSubscribeEventsNp, subscribe_events_np_octets,
  ValidPortPropertiesNp, sent_port_properties_np, port_properties_np_octets,
}
use libpmc.Mng.Tables.Description.{
  ValidClockDescription, sent_clock_description, clock_description_octets,
}
use libpmc.Mng.Tables.Codecs.{
  ValidFaultLog, sent_fault_log, fault_log_octets, ValidAddressTable, sent_address_table,
  address_table_octets, ValidMasterTable, sent_master_table, master_table_octets,
}
use libpmc.Mng.Tables.Streams.{ValidStats, stats_octets}

-- The fields of the structure fit their C types, and its lists and texts their length fields.
abbrev pub ValidTlv : MngTlv → Type 0
ValidTlv (clock_description x) = ValidClockDescription x
ValidTlv (user_description x) = ValidText x
ValidTlv (initialize x) = x < 2 ^ 16
ValidTlv (fault_log x) = ValidFaultLog x
ValidTlv (default_data_set x) = ValidDefaultDataSet x
ValidTlv (current_data_set x) = ValidCurrentDataSet x
ValidTlv (parent_data_set x) = ValidParentDataSet x
ValidTlv (time_properties_data_set x) = ValidTimePropertiesDataSet x
ValidTlv (port_data_set x) = ValidPortDataSet x
ValidTlv (priority1 x) = x < 256
ValidTlv (priority2 x) = x < 256
ValidTlv (domain x) = x < 256
ValidTlv (slave_only x) = x < 256
ValidTlv (log_announce_interval x) = InWord 256 x
ValidTlv (announce_receipt_timeout x) = x < 256
ValidTlv (log_sync_interval x) = InWord 256 x
ValidTlv (version_number x) = x < 256
ValidTlv (time x) = ValidTimestamp x
ValidTlv (clock_accuracy x) = x < 256
ValidTlv (utc_properties x) = ValidUtcProperties x
ValidTlv (traceability_properties x) = x < 256
ValidTlv (timescale_properties x) = ValidTimescaleProperties x
ValidTlv (unicast_negotiation_enable x) = x < 256
ValidTlv (path_trace_list x) = All IsIdentity x
ValidTlv (path_trace_enable x) = x < 256
ValidTlv (grandmaster_cluster_table x) = ValidAddressTable 256 x
ValidTlv (unicast_master_table x) = ValidAddressTable (2 ^ 16) x
ValidTlv (unicast_master_max_table_size x) = x < 2 ^ 16
ValidTlv (acceptable_master_table x) = ValidMasterTable x
ValidTlv (acceptable_master_table_enabled x) = x < 256
ValidTlv (acceptable_master_max_table_size x) = x < 2 ^ 16
ValidTlv (alternate_master x) = ValidAlternateMaster x
ValidTlv (alternate_time_offset_enable x) = ValidAlternateTimeOffsetEnable x
ValidTlv (alternate_time_offset_name x) = ValidAlternateTimeOffsetName x
ValidTlv (alternate_time_offset_max_key x) = x < 256
ValidTlv (alternate_time_offset_properties x) = ValidAlternateTimeOffsetProperties x
ValidTlv (transparent_clock_port_data_set x) = ValidTransparentClockPortDataSet x
ValidTlv (log_min_pdelay_req_interval x) = InWord 256 x
ValidTlv (transparent_clock_default_data_set x) = ValidTransparentClockDefaultDataSet x
ValidTlv (primary_domain x) = x < 256
ValidTlv (delay_mechanism x) = x < 256
ValidTlv (external_port_configuration_enabled x) = x < 256
ValidTlv (master_only x) = x < 256
ValidTlv (holdover_upgrade_enable x) = x < 256
ValidTlv (ext_port_config_port_data_set x) = ValidExtPortConfigPortDataSet x
ValidTlv (time_status_np x) = ValidTimeStatusNp x
ValidTlv (grandmaster_settings_np x) = ValidGrandmasterSettingsNp x
ValidTlv (port_data_set_np x) = ValidPortDataSetNp x
ValidTlv (subscribe_events_np x) = ValidSubscribeEventsNp x
ValidTlv (port_properties_np x) = ValidPortPropertiesNp x
ValidTlv (port_stats_np x) = ValidStats x
ValidTlv (synchronization_uncertain_np x) = x < 256

-- The octets of the data field, without the pad.
abbrev pub tlv_octets : MngTlv → List ℕ
tlv_octets (clock_description x) = clock_description_octets x
tlv_octets (user_description x) = text_octets x
tlv_octets (initialize x) = net 2 x
tlv_octets (fault_log x) = fault_log_octets x
tlv_octets (default_data_set x) = default_data_set_octets x
tlv_octets (current_data_set x) = current_data_set_octets x
tlv_octets (parent_data_set x) = parent_data_set_octets x
tlv_octets (time_properties_data_set x) = time_properties_data_set_octets x
tlv_octets (port_data_set x) = port_data_set_octets x
tlv_octets (priority1 x) = net 1 x
tlv_octets (priority2 x) = net 1 x
tlv_octets (domain x) = net 1 x
tlv_octets (slave_only x) = net 1 (masked 0x1 x)
tlv_octets (log_announce_interval x) = net_int 1 x
tlv_octets (announce_receipt_timeout x) = net 1 x
tlv_octets (log_sync_interval x) = net_int 1 x
tlv_octets (version_number x) = net 1 x
tlv_octets (time x) = timestamp_octets x
tlv_octets (clock_accuracy x) = net 1 x
tlv_octets (utc_properties x) = utc_properties_octets x
tlv_octets (traceability_properties x) = net 1 (masked 0x30 x)
tlv_octets (timescale_properties x) = timescale_properties_octets x
tlv_octets (unicast_negotiation_enable x) = net 1 (masked 0x1 x)
tlv_octets (path_trace_list x) = concat (λ v. v) x
tlv_octets (path_trace_enable x) = net 1 (masked 0x1 x)
tlv_octets (grandmaster_cluster_table x) = address_table_octets 1 x
tlv_octets (unicast_master_table x) = address_table_octets 2 x
tlv_octets (unicast_master_max_table_size x) = net 2 x
tlv_octets (acceptable_master_table x) = master_table_octets x
tlv_octets (acceptable_master_table_enabled x) = net 1 (masked 0x1 x)
tlv_octets (acceptable_master_max_table_size x) = net 2 x
tlv_octets (alternate_master x) = alternate_master_octets x
tlv_octets (alternate_time_offset_enable x) = alternate_time_offset_enable_octets x
tlv_octets (alternate_time_offset_name x) = alternate_time_offset_name_octets x
tlv_octets (alternate_time_offset_max_key x) = net 1 x
tlv_octets (alternate_time_offset_properties x) = alternate_time_offset_properties_octets x
tlv_octets (transparent_clock_port_data_set x) = transparent_clock_port_data_set_octets x
tlv_octets (log_min_pdelay_req_interval x) = net_int 1 x
tlv_octets (transparent_clock_default_data_set x) = transparent_clock_default_data_set_octets x
tlv_octets (primary_domain x) = net 1 x
tlv_octets (delay_mechanism x) = net 1 x
tlv_octets (external_port_configuration_enabled x) = net 1 (masked 0x1 x)
tlv_octets (master_only x) = net 1 (masked 0x1 x)
tlv_octets (holdover_upgrade_enable x) = net 1 (masked 0x1 x)
tlv_octets (ext_port_config_port_data_set x) = ext_port_config_port_data_set_octets x
tlv_octets (time_status_np x) = time_status_np_octets x
tlv_octets (grandmaster_settings_np x) = grandmaster_settings_np_octets x
tlv_octets (port_data_set_np x) = port_data_set_np_octets x
tlv_octets (subscribe_events_np x) = subscribe_events_np_octets x
tlv_octets (port_properties_np x) = port_properties_np_octets x
tlv_octets (port_stats_np x) = stats_octets x
tlv_octets (synchronization_uncertain_np x) = net 1 x

-- What a build makes of the structure, and the receiver gets: masked flags, and length fields that
-- follow the contents.
abbrev pub sent_tlv : MngTlv → MngTlv
sent_tlv (clock_description x) = clock_description (sent_clock_description x)
sent_tlv (user_description x) = user_description (sent_text x)
sent_tlv (initialize x) = initialize x
sent_tlv (fault_log x) = fault_log (sent_fault_log x)
sent_tlv (default_data_set x) = default_data_set (sent_default_data_set x)
sent_tlv (current_data_set x) = current_data_set x
sent_tlv (parent_data_set x) = parent_data_set (sent_parent_data_set x)
sent_tlv (time_properties_data_set x) = time_properties_data_set (sent_time_properties_data_set x)
sent_tlv (port_data_set x) = port_data_set x
sent_tlv (priority1 x) = priority1 x
sent_tlv (priority2 x) = priority2 x
sent_tlv (domain x) = domain x
sent_tlv (slave_only x) = slave_only (masked 0x1 x)
sent_tlv (log_announce_interval x) = log_announce_interval x
sent_tlv (announce_receipt_timeout x) = announce_receipt_timeout x
sent_tlv (log_sync_interval x) = log_sync_interval x
sent_tlv (version_number x) = version_number x
sent_tlv (time x) = time x
sent_tlv (clock_accuracy x) = clock_accuracy x
sent_tlv (utc_properties x) = utc_properties (sent_utc_properties x)
sent_tlv (traceability_properties x) = traceability_properties (masked 0x30 x)
sent_tlv (timescale_properties x) = timescale_properties (sent_timescale_properties x)
sent_tlv (unicast_negotiation_enable x) = unicast_negotiation_enable (masked 0x1 x)
sent_tlv (path_trace_list x) = path_trace_list (map (λ v. v) x)
sent_tlv (path_trace_enable x) = path_trace_enable (masked 0x1 x)
sent_tlv (grandmaster_cluster_table x) = grandmaster_cluster_table (sent_address_table x)
sent_tlv (unicast_master_table x) = unicast_master_table (sent_address_table x)
sent_tlv (unicast_master_max_table_size x) = unicast_master_max_table_size x
sent_tlv (acceptable_master_table x) = acceptable_master_table (sent_master_table x)
sent_tlv (acceptable_master_table_enabled x) = acceptable_master_table_enabled (masked 0x1 x)
sent_tlv (acceptable_master_max_table_size x) = acceptable_master_max_table_size x
sent_tlv (alternate_master x) = alternate_master (sent_alternate_master x)
sent_tlv (alternate_time_offset_enable x) =
    alternate_time_offset_enable (sent_alternate_time_offset_enable x)
sent_tlv (alternate_time_offset_name x) =
    alternate_time_offset_name (sent_alternate_time_offset_name x)
sent_tlv (alternate_time_offset_max_key x) = alternate_time_offset_max_key x
sent_tlv (alternate_time_offset_properties x) = alternate_time_offset_properties x
sent_tlv (transparent_clock_port_data_set x) =
    transparent_clock_port_data_set (sent_transparent_clock_port_data_set x)
sent_tlv (log_min_pdelay_req_interval x) = log_min_pdelay_req_interval x
sent_tlv (transparent_clock_default_data_set x) = transparent_clock_default_data_set x
sent_tlv (primary_domain x) = primary_domain x
sent_tlv (delay_mechanism x) = delay_mechanism x
sent_tlv (external_port_configuration_enabled x) =
    external_port_configuration_enabled (masked 0x1 x)
sent_tlv (master_only x) = master_only (masked 0x1 x)
sent_tlv (holdover_upgrade_enable x) = holdover_upgrade_enable (masked 0x1 x)
sent_tlv (ext_port_config_port_data_set x) =
    ext_port_config_port_data_set (sent_ext_port_config_port_data_set x)
sent_tlv (time_status_np x) = time_status_np x
sent_tlv (grandmaster_settings_np x) = grandmaster_settings_np (sent_grandmaster_settings_np x)
sent_tlv (port_data_set_np x) = port_data_set_np x
sent_tlv (subscribe_events_np x) = subscribe_events_np x
sent_tlv (port_properties_np x) = port_properties_np (sent_port_properties_np x)
sent_tlv (port_stats_np x) = port_stats_np x
sent_tlv (synchronization_uncertain_np x) = synchronization_uncertain_np x
