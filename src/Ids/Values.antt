-- ===== src/Ids/Values.antt =====
-- The values of the management ids of ids.h are 16 bits wide.
use libpmc.Base.{◌<◌, arith}
use libpmc.Ids.{
  MngId, mng_all_vals, null_ptp_management, clock_description, user_description,
  save_in_non_volatile_storage, reset_non_volatile_storage, initialize, fault_log, fault_log_reset,
  default_data_set, current_data_set, parent_data_set, time_properties_data_set, port_data_set,
  priority1, priority2, domain, slave_only, log_announce_interval, announce_receipt_timeout,
  log_sync_interval, version_number, enable_port, disable_port, time, clock_accuracy,
  utc_properties, traceability_properties, timescale_properties, unicast_negotiation_enable,
  path_trace_list, path_trace_enable, grandmaster_cluster_table, unicast_master_table,
  unicast_master_max_table_size, acceptable_master_table, acceptable_master_table_enabled,
  acceptable_master_max_table_size, alternate_master, alternate_time_offset_enable,
  alternate_time_offset_name, alternate_time_offset_max_key, alternate_time_offset_properties,
  transparent_clock_port_data_set, log_min_pdelay_req_interval, transparent_clock_default_data_set,
  primary_domain, delay_mechanism, external_port_configuration_enabled, master_only,
  holdover_upgrade_enable, ext_port_config_port_data_set, time_status_np, grandmaster_settings_np,
  port_data_set_np, subscribe_events_np, port_properties_np, port_stats_np,
  synchronization_uncertain_np,
}

pub value-lt : (id : MngId) → (mng_all_vals id).value < 65536
unfolding mng_all_vals
value-lt null_ptp_management = omega arith
value-lt clock_description = omega arith
value-lt user_description = omega arith
value-lt save_in_non_volatile_storage = omega arith
value-lt reset_non_volatile_storage = omega arith
value-lt initialize = omega arith
value-lt fault_log = omega arith
value-lt fault_log_reset = omega arith
value-lt default_data_set = omega arith
value-lt current_data_set = omega arith
value-lt parent_data_set = omega arith
value-lt time_properties_data_set = omega arith
value-lt port_data_set = omega arith
value-lt priority1 = omega arith
value-lt priority2 = omega arith
value-lt domain = omega arith
value-lt slave_only = omega arith
value-lt log_announce_interval = omega arith
value-lt announce_receipt_timeout = omega arith
value-lt log_sync_interval = omega arith
value-lt version_number = omega arith
value-lt enable_port = omega arith
value-lt disable_port = omega arith
value-lt time = omega arith
value-lt clock_accuracy = omega arith
value-lt utc_properties = omega arith
value-lt traceability_properties = omega arith
value-lt timescale_properties = omega arith
value-lt unicast_negotiation_enable = omega arith
value-lt path_trace_list = omega arith
value-lt path_trace_enable = omega arith
value-lt grandmaster_cluster_table = omega arith
value-lt unicast_master_table = omega arith
value-lt unicast_master_max_table_size = omega arith
value-lt acceptable_master_table = omega arith
value-lt acceptable_master_table_enabled = omega arith
value-lt acceptable_master_max_table_size = omega arith
value-lt alternate_master = omega arith
value-lt alternate_time_offset_enable = omega arith
value-lt alternate_time_offset_name = omega arith
value-lt alternate_time_offset_max_key = omega arith
value-lt alternate_time_offset_properties = omega arith
value-lt transparent_clock_port_data_set = omega arith
value-lt log_min_pdelay_req_interval = omega arith
value-lt transparent_clock_default_data_set = omega arith
value-lt primary_domain = omega arith
value-lt delay_mechanism = omega arith
value-lt external_port_configuration_enabled = omega arith
value-lt master_only = omega arith
value-lt holdover_upgrade_enable = omega arith
value-lt ext_port_config_port_data_set = omega arith
value-lt time_status_np = omega arith
value-lt grandmaster_settings_np = omega arith
value-lt port_data_set_np = omega arith
value-lt subscribe_events_np = omega arith
value-lt port_properties_np = omega arith
value-lt port_stats_np = omega arith
value-lt synchronization_uncertain_np = omega arith
