-- ===== src/Mng/Sizes/ByKind.antt =====
-- `dataFieldSize` of proc.cpp on the structure of the id that it is asked for.
use libpmc.Base.{◌≡◌, refl, some, inl, inr, ◌⊎◌}
use libpmc.Ids.{MngId}
use libpmc.Mng.{
  MngTlv, kind, clock_description, user_description, initialize, fault_log, default_data_set,
  current_data_set, parent_data_set, time_properties_data_set, port_data_set, priority1, priority2,
  domain, slave_only, log_announce_interval, announce_receipt_timeout, log_sync_interval,
  version_number, time, clock_accuracy, utc_properties, traceability_properties,
  timescale_properties, unicast_negotiation_enable, path_trace_list, path_trace_enable,
  grandmaster_cluster_table, unicast_master_table, unicast_master_max_table_size,
  acceptable_master_table, acceptable_master_table_enabled, acceptable_master_max_table_size,
  alternate_master, alternate_time_offset_enable, alternate_time_offset_name,
  alternate_time_offset_max_key, alternate_time_offset_properties, transparent_clock_port_data_set,
  log_min_pdelay_req_interval, transparent_clock_default_data_set, primary_domain, delay_mechanism,
  external_port_configuration_enabled, master_only, holdover_upgrade_enable,
  ext_port_config_port_data_set, time_status_np, grandmaster_settings_np, port_data_set_np,
  subscribe_events_np, port_properties_np, port_stats_np, synchronization_uncertain_np,
}
use libpmc.Mng.Codecs.Read.{fresh_tlv-kind}
use libpmc.Mng.Sizes.{data_field_size, size_of, size_or_empty}
use libpmc.Mng.Sizes.Measure.{uncounted}

pub data_field_size-kind : (d : MngTlv) → data_field_size (kind d) (some d) ≡ size_of d
unfolding data_field_size size_or_empty
data_field_size-kind d = rw (fresh_tlv-kind d)

-- Only the clock description has an octet that the size function leaves out.
pub uncounted-cases : (d : MngTlv) → (uncounted d ≡ 0) ⊎ (kind d ≡ MngId.clock_description)
unfolding kind
uncounted-cases (clock_description x) = inr refl
uncounted-cases (user_description x) = inl refl
uncounted-cases (initialize x) = inl refl
uncounted-cases (fault_log x) = inl refl
uncounted-cases (default_data_set x) = inl refl
uncounted-cases (current_data_set x) = inl refl
uncounted-cases (parent_data_set x) = inl refl
uncounted-cases (time_properties_data_set x) = inl refl
uncounted-cases (port_data_set x) = inl refl
uncounted-cases (priority1 x) = inl refl
uncounted-cases (priority2 x) = inl refl
uncounted-cases (domain x) = inl refl
uncounted-cases (slave_only x) = inl refl
uncounted-cases (log_announce_interval x) = inl refl
uncounted-cases (announce_receipt_timeout x) = inl refl
uncounted-cases (log_sync_interval x) = inl refl
uncounted-cases (version_number x) = inl refl
uncounted-cases (time x) = inl refl
uncounted-cases (clock_accuracy x) = inl refl
uncounted-cases (utc_properties x) = inl refl
uncounted-cases (traceability_properties x) = inl refl
uncounted-cases (timescale_properties x) = inl refl
uncounted-cases (unicast_negotiation_enable x) = inl refl
uncounted-cases (path_trace_list x) = inl refl
uncounted-cases (path_trace_enable x) = inl refl
uncounted-cases (grandmaster_cluster_table x) = inl refl
uncounted-cases (unicast_master_table x) = inl refl
uncounted-cases (unicast_master_max_table_size x) = inl refl
uncounted-cases (acceptable_master_table x) = inl refl
uncounted-cases (acceptable_master_table_enabled x) = inl refl
uncounted-cases (acceptable_master_max_table_size x) = inl refl
uncounted-cases (alternate_master x) = inl refl
uncounted-cases (alternate_time_offset_enable x) = inl refl
uncounted-cases (alternate_time_offset_name x) = inl refl
uncounted-cases (alternate_time_offset_max_key x) = inl refl
uncounted-cases (alternate_time_offset_properties x) = inl refl
uncounted-cases (transparent_clock_port_data_set x) = inl refl
uncounted-cases (log_min_pdelay_req_interval x) = inl refl
uncounted-cases (transparent_clock_default_data_set x) = inl refl
uncounted-cases (primary_domain x) = inl refl
uncounted-cases (delay_mechanism x) = inl refl
uncounted-cases (external_port_configuration_enabled x) = inl refl
uncounted-cases (master_only x) = inl refl
uncounted-cases (holdover_upgrade_enable x) = inl refl
uncounted-cases (ext_port_config_port_data_set x) = inl refl
uncounted-cases (time_status_np x) = inl refl
uncounted-cases (grandmaster_settings_np x) = inl refl
uncounted-cases (port_data_set_np x) = inl refl
uncounted-cases (subscribe_events_np x) = inl refl
uncounted-cases (port_properties_np x) = inl refl
uncounted-cases (port_stats_np x) = inl refl
uncounted-cases (synchronization_uncertain_np x) = inl refl
