-- ===== src/Mng/Codecs/Write.antt =====
-- A build of a management TLV writes its octets.
use libpmc.Base.{true}
use libpmc.Wire.Codec.{Runs, Runs-map}
use libpmc.Wire.Values.{u8-write, u16-write, i8-write}
use libpmc.Types.Codecs.{flags-write, timestamp-write, text-write}
use libpmc.Mng.{
  MngTlv, proc_tlv, clock_description, user_description, initialize, fault_log, default_data_set,
  current_data_set, parent_data_set, time_properties_data_set, port_data_set, priority1, priority2,
  domain, slave_only, log_announce_interval, announce_receipt_timeout, log_sync_interval,
  version_number, time, clock_accuracy, utc_properties, traceability_properties,
  timescale_properties, unicast_negotiation_enable, path_trace_list, path_trace_enable,
  grandmaster_cluster_table, unicast_master_table, unicast_master_max_table_size,
  acceptable_master_table, acceptable_master_table_enabled, acceptable_master_max_table_size,
  alternate_master, alternate_time_offset_enable, alternate_time_offset_name,
  alternate_time_offset_max_key, alternate_time_offset_properties, transparent_clock_port_data_set,
  log_min_pdelay_req_interval, transparent_clock_default_data_set, primary_domain, delay_mechanism,
  external_port_configuration_enabled, master_only, holdover_upgrade_enable,
  ext_port_config_port_data_set, time_status_np, grandmaster_settings_np, port_data_set_np,
  subscribe_events_np, port_properties_np, port_stats_np, synchronization_uncertain_np,
}
use libpmc.Mng.DataSets.Codecs.{
  default_data_set-write, current_data_set-write, parent_data_set-write,
  time_properties_data_set-write,
}
use libpmc.Mng.DataSets.PortCodecs.{
  port_data_set-write, transparent_clock_port_data_set-write,
  transparent_clock_default_data_set-write, ext_port_config_port_data_set-write,
}
use libpmc.Mng.Settings.Codecs.{
  utc_properties-write, timescale_properties-write, alternate_master-write,
  alternate_time_offset_enable-write, alternate_time_offset_name-write,
  alternate_time_offset_properties-write,
}
use libpmc.Mng.Linuxptp.Codecs.{
  time_status_np-write, grandmaster_settings_np-write, port_data_set_np-write,
  subscribe_events_np-write, port_properties_np-write,
}
use libpmc.Mng.Tables.Description.{clock_description-write}
use libpmc.Mng.Tables.Codecs.{
  fault_log-write, grandmaster_cluster_table-write, unicast_master_table-write,
  acceptable_master_table-write,
}
use libpmc.Mng.Tables.Streams.{port_stats_np-write, path_trace_list-write}
use libpmc.Mng.Scalars.{
  user_description_f, initialize_f, priority1_f, priority2_f, domain_f, slave_only_f,
  log_announce_interval_f, announce_receipt_timeout_f, log_sync_interval_f, version_number_f,
  time_f, clock_accuracy_f, traceability_properties_f, unicast_negotiation_enable_f,
  path_trace_enable_f, unicast_master_max_table_size_f, acceptable_master_table_enabled_f,
  acceptable_master_max_table_size_f, alternate_time_offset_max_key_f,
  log_min_pdelay_req_interval_f, primary_domain_f, delay_mechanism_f,
  external_port_configuration_enabled_f, master_only_f, holdover_upgrade_enable_f,
  synchronization_uncertain_np_f,
}
use libpmc.Mng.Codecs.{ValidTlv, tlv_octets, sent_tlv}

pub tlv-write : (d : MngTlv) → ValidTlv d → Runs true (proc_tlv d) (tlv_octets d) (sent_tlv d)
unfolding proc_tlv user_description_f initialize_f priority1_f priority2_f domain_f slave_only_f
    log_announce_interval_f announce_receipt_timeout_f log_sync_interval_f version_number_f time_f
    clock_accuracy_f traceability_properties_f unicast_negotiation_enable_f path_trace_enable_f
    unicast_master_max_table_size_f acceptable_master_table_enabled_f
    acceptable_master_max_table_size_f alternate_time_offset_max_key_f log_min_pdelay_req_interval_f
    primary_domain_f delay_mechanism_f external_port_configuration_enabled_f master_only_f
    holdover_upgrade_enable_f synchronization_uncertain_np_f
tlv-write (clock_description x) v = Runs-map clock_description (clock_description-write x v)
tlv-write (user_description x) v = Runs-map user_description (text-write v)
tlv-write (initialize x) v = Runs-map initialize u16-write
tlv-write (fault_log x) v = Runs-map fault_log (fault_log-write x v)
tlv-write (default_data_set x) v = Runs-map default_data_set (default_data_set-write x v)
tlv-write (current_data_set x) v = Runs-map current_data_set (current_data_set-write x v)
tlv-write (parent_data_set x) v = Runs-map parent_data_set (parent_data_set-write x v)
tlv-write (time_properties_data_set x) v =
    Runs-map time_properties_data_set (time_properties_data_set-write x v)
tlv-write (port_data_set x) v = Runs-map port_data_set (port_data_set-write x v)
tlv-write (priority1 x) v = Runs-map priority1 u8-write
tlv-write (priority2 x) v = Runs-map priority2 u8-write
tlv-write (domain x) v = Runs-map domain u8-write
tlv-write (slave_only x) v = Runs-map slave_only (flags-write 0x1 _)
tlv-write (log_announce_interval x) v = Runs-map log_announce_interval i8-write
tlv-write (announce_receipt_timeout x) v = Runs-map announce_receipt_timeout u8-write
tlv-write (log_sync_interval x) v = Runs-map log_sync_interval i8-write
tlv-write (version_number x) v = Runs-map version_number u8-write
tlv-write (time x) v = Runs-map time (timestamp-write v)
tlv-write (clock_accuracy x) v = Runs-map clock_accuracy u8-write
tlv-write (utc_properties x) v = Runs-map utc_properties (utc_properties-write x v)
tlv-write (traceability_properties x) v = Runs-map traceability_properties (flags-write 0x30 _)
tlv-write (timescale_properties x) v =
    Runs-map timescale_properties (timescale_properties-write x v)
tlv-write (unicast_negotiation_enable x) v = Runs-map unicast_negotiation_enable (flags-write 0x1 _)
tlv-write (path_trace_list x) v = Runs-map path_trace_list (path_trace_list-write x v)
tlv-write (path_trace_enable x) v = Runs-map path_trace_enable (flags-write 0x1 _)
tlv-write (grandmaster_cluster_table x) v =
    Runs-map grandmaster_cluster_table (grandmaster_cluster_table-write x v)
tlv-write (unicast_master_table x) v =
    Runs-map unicast_master_table (unicast_master_table-write x v)
tlv-write (unicast_master_max_table_size x) v = Runs-map unicast_master_max_table_size u16-write
tlv-write (acceptable_master_table x) v =
    Runs-map acceptable_master_table (acceptable_master_table-write x v)
tlv-write (acceptable_master_table_enabled x) v =
    Runs-map acceptable_master_table_enabled (flags-write 0x1 _)
tlv-write (acceptable_master_max_table_size x) v =
    Runs-map acceptable_master_max_table_size u16-write
tlv-write (alternate_master x) v = Runs-map alternate_master (alternate_master-write x v)
tlv-write (alternate_time_offset_enable x) v =
    Runs-map alternate_time_offset_enable (alternate_time_offset_enable-write x v)
tlv-write (alternate_time_offset_name x) v =
    Runs-map alternate_time_offset_name (alternate_time_offset_name-write x v)
tlv-write (alternate_time_offset_max_key x) v = Runs-map alternate_time_offset_max_key u8-write
tlv-write (alternate_time_offset_properties x) v =
    Runs-map alternate_time_offset_properties (alternate_time_offset_properties-write x v)
tlv-write (transparent_clock_port_data_set x) v =
    Runs-map transparent_clock_port_data_set (transparent_clock_port_data_set-write x v)
tlv-write (log_min_pdelay_req_interval x) v = Runs-map log_min_pdelay_req_interval i8-write
tlv-write (transparent_clock_default_data_set x) v =
    Runs-map transparent_clock_default_data_set (transparent_clock_default_data_set-write x v)
tlv-write (primary_domain x) v = Runs-map primary_domain u8-write
tlv-write (delay_mechanism x) v = Runs-map delay_mechanism u8-write
tlv-write (external_port_configuration_enabled x) v =
    Runs-map external_port_configuration_enabled (flags-write 0x1 _)
tlv-write (master_only x) v = Runs-map master_only (flags-write 0x1 _)
tlv-write (holdover_upgrade_enable x) v = Runs-map holdover_upgrade_enable (flags-write 0x1 _)
tlv-write (ext_port_config_port_data_set x) v =
    Runs-map ext_port_config_port_data_set (ext_port_config_port_data_set-write x v)
tlv-write (time_status_np x) v = Runs-map time_status_np (time_status_np-write x v)
tlv-write (grandmaster_settings_np x) v =
    Runs-map grandmaster_settings_np (grandmaster_settings_np-write x v)
tlv-write (port_data_set_np x) v = Runs-map port_data_set_np (port_data_set_np-write x v)
tlv-write (subscribe_events_np x) v = Runs-map subscribe_events_np (subscribe_events_np-write x v)
tlv-write (port_properties_np x) v = Runs-map port_properties_np (port_properties_np-write x v)
tlv-write (port_stats_np x) v = Runs-map port_stats_np (port_stats_np-write x v)
tlv-write (synchronization_uncertain_np x) v = Runs-map synchronization_uncertain_np u8-write
