-- ===== src/Mng/Safety.antt =====
-- The functions of proc.cpp read only the octets of their data field.
use libpmc.Base.{List, []}
use libpmc.Wire.{proc_le64}
use libpmc.Types.{ClockIdentity}
use libpmc.Wire.Safety.{Safe, Safe-bind, Safe-pure, Safe-uint, Safe-int, Safe-le64}
use libpmc.Types.Safety.{
  type_safety, Safe-vector_f, Safe-vector_o, Safe-each, Safe-fault, Safe-identity, Eats-identity,
  Safe-address, Safe-master, Safe-port,
}
use libpmc.Mng.{
  MngTlv, proc_tlv, clock_description, user_description, initialize, fault_log, default_data_set,
  current_data_set, parent_data_set, time_properties_data_set, port_data_set, priority1, priority2,
  domain, slave_only, log_announce_interval, announce_receipt_timeout, log_sync_interval,
  version_number, time, clock_accuracy, utc_properties, traceability_properties,
  timescale_properties, unicast_negotiation_enable, path_trace_list, path_trace_enable,
  grandmaster_cluster_table, unicast_master_table, unicast_master_max_table_size,
  acceptable_master_table, acceptable_master_table_enabled, acceptable_master_max_table_size,
  alternate_master, alternate_time_offset_enable, alternate_time_offset_name,
  alternate_time_offset_max_key, alternate_time_offset_properties, transparent_clock_port_data_set,
  log_min_pdelay_req_interval, transparent_clock_default_data_set, primary_domain, delay_mechanism,
  external_port_configuration_enabled, master_only, holdover_upgrade_enable,
  ext_port_config_port_data_set, time_status_np, grandmaster_settings_np, port_data_set_np,
  subscribe_events_np, port_properties_np, port_stats_np, synchronization_uncertain_np,
}
use libpmc.Mng.DataSets.{
  DefaultDataSet, default_data_set_f, CurrentDataSet, current_data_set_f, ParentDataSet,
  parent_data_set_f, TimePropertiesDataSet, time_properties_data_set_f, PortDataSet,
  port_data_set_f, TransparentClockPortDataSet, transparent_clock_port_data_set_f,
  TransparentClockDefaultDataSet, transparent_clock_default_data_set_f, ExtPortConfigPortDataSet,
  ext_port_config_port_data_set_f,
}
use libpmc.Mng.Settings.{
  UtcProperties, utc_properties_f, TimescaleProperties, timescale_properties_f, AlternateMaster,
  alternate_master_f, AlternateTimeOffsetEnable, alternate_time_offset_enable_f,
  AlternateTimeOffsetName, alternate_time_offset_name_f, AlternateTimeOffsetProperties,
  alternate_time_offset_properties_f,
}
use libpmc.Mng.Linuxptp.{
  TimeStatusNp, time_status_np_f, GrandmasterSettingsNp, grandmaster_settings_np_f, PortDataSetNp,
  port_data_set_np_f, SubscribeEventsNp, subscribe_events_np_f, PortPropertiesNp,
  port_properties_np_f,
}
use libpmc.Mng.Scalars.{
  user_description_f, initialize_f, priority1_f, priority2_f, domain_f, slave_only_f,
  log_announce_interval_f, announce_receipt_timeout_f, log_sync_interval_f, version_number_f,
  time_f, clock_accuracy_f, traceability_properties_f, unicast_negotiation_enable_f,
  path_trace_enable_f, unicast_master_max_table_size_f, acceptable_master_table_enabled_f,
  acceptable_master_max_table_size_f, alternate_time_offset_max_key_f,
  log_min_pdelay_req_interval_f, primary_domain_f, delay_mechanism_f,
  external_port_configuration_enabled_f, master_only_f, holdover_upgrade_enable_f,
  synchronization_uncertain_np_f,
}
use libpmc.Mng.Tables.{
  ClockDescription, FaultLog, AddressTable, AcceptableMasterTable, PortStatsNp, clock_description_f,
  fault_log_f, path_trace_list_f, grandmaster_cluster_table_f, unicast_master_table_f,
  acceptable_master_table_f, port_stats_np_f,
}

Safe-default_data_set : (d : DefaultDataSet) → Safe (default_data_set_f d)
unfolding default_data_set_f
Safe-default_data_set d = search type_safety depth 11

Safe-current_data_set : (d : CurrentDataSet) → Safe (current_data_set_f d)
unfolding current_data_set_f
Safe-current_data_set d = search type_safety depth 6

Safe-parent_data_set : (d : ParentDataSet) → Safe (parent_data_set_f d)
unfolding parent_data_set_f
Safe-parent_data_set d = search type_safety depth 12

Safe-time_properties_data_set : (d : TimePropertiesDataSet) → Safe (time_properties_data_set_f d)
unfolding time_properties_data_set_f
Safe-time_properties_data_set d = search type_safety depth 6

Safe-port_data_set : (d : PortDataSet) → Safe (port_data_set_f d)
unfolding port_data_set_f
Safe-port_data_set d = search type_safety depth 13

Safe-transparent_clock_port_data_set :
    (d : TransparentClockPortDataSet) → Safe (transparent_clock_port_data_set_f d)
unfolding transparent_clock_port_data_set_f
Safe-transparent_clock_port_data_set d = search type_safety depth 7

Safe-transparent_clock_default_data_set :
    (d : TransparentClockDefaultDataSet) → Safe (transparent_clock_default_data_set_f d)
unfolding transparent_clock_default_data_set_f
Safe-transparent_clock_default_data_set d = search type_safety depth 7

Safe-ext_port_config_port_data_set :
    (d : ExtPortConfigPortDataSet) → Safe (ext_port_config_port_data_set_f d)
unfolding ext_port_config_port_data_set_f
Safe-ext_port_config_port_data_set d = search type_safety depth 5

Safe-utc_properties : (d : UtcProperties) → Safe (utc_properties_f d)
unfolding utc_properties_f
Safe-utc_properties d = search type_safety depth 5

Safe-timescale_properties : (d : TimescaleProperties) → Safe (timescale_properties_f d)
unfolding timescale_properties_f
Safe-timescale_properties d = search type_safety depth 5

Safe-alternate_master : (d : AlternateMaster) → Safe (alternate_master_f d)
unfolding alternate_master_f
Safe-alternate_master d = search type_safety depth 6

Safe-alternate_time_offset_enable :
    (d : AlternateTimeOffsetEnable) → Safe (alternate_time_offset_enable_f d)
unfolding alternate_time_offset_enable_f
Safe-alternate_time_offset_enable d = search type_safety depth 5

Safe-alternate_time_offset_name :
    (d : AlternateTimeOffsetName) → Safe (alternate_time_offset_name_f d)
unfolding alternate_time_offset_name_f
Safe-alternate_time_offset_name d = search type_safety depth 5

Safe-alternate_time_offset_properties :
    (d : AlternateTimeOffsetProperties) → Safe (alternate_time_offset_properties_f d)
unfolding alternate_time_offset_properties_f
Safe-alternate_time_offset_properties d = search type_safety depth 7

Safe-time_status_np : (d : TimeStatusNp) → Safe (time_status_np_f d)
unfolding time_status_np_f
Safe-time_status_np d = search type_safety depth 13

Safe-grandmaster_settings_np : (d : GrandmasterSettingsNp) → Safe (grandmaster_settings_np_f d)
unfolding grandmaster_settings_np_f
Safe-grandmaster_settings_np d = search type_safety depth 7

Safe-port_data_set_np : (d : PortDataSetNp) → Safe (port_data_set_np_f d)
unfolding port_data_set_np_f
Safe-port_data_set_np d = search type_safety depth 5

Safe-subscribe_events_np : (d : SubscribeEventsNp) → Safe (subscribe_events_np_f d)
unfolding subscribe_events_np_f
Safe-subscribe_events_np d = search type_safety depth 5

Safe-port_properties_np : (d : PortPropertiesNp) → Safe (port_properties_np_f d)
unfolding port_properties_np_f
Safe-port_properties_np d = search type_safety depth 7

Safe-clock_description : (d : ClockDescription) → Safe (clock_description_f d)
unfolding clock_description_f
Safe-clock_description d = search type_safety depth 14

Safe-fault_log : (d : FaultLog) → Safe (fault_log_f d)
unfolding fault_log_f
Safe-fault_log d =
    Safe-bind _ _ (Safe-uint 2 _)
      (λ n. Safe-bind _ _ (Safe-vector_f _ _ n _ (Safe-fault _)) (λ l. Safe-pure _))

Safe-path_trace_list : (d : List ClockIdentity) → Safe (path_trace_list_f d)
unfolding path_trace_list_f
Safe-path_trace_list d = Safe-vector_o _ _ 8 d (Safe-identity []) (Eats-identity [])

Safe-grandmaster_cluster_table : (d : AddressTable) → Safe (grandmaster_cluster_table_f d)
unfolding grandmaster_cluster_table_f
Safe-grandmaster_cluster_table d = Safe-bind _ _ (Safe-int 1 _) (λ q.
    Safe-bind _ _ (Safe-uint 1 _)
      (λ n. Safe-bind _ _ (Safe-vector_f _ _ n _ (Safe-address _)) (λ l. Safe-pure _)))

Safe-unicast_master_table : (d : AddressTable) → Safe (unicast_master_table_f d)
unfolding unicast_master_table_f
Safe-unicast_master_table d = Safe-bind _ _ (Safe-int 1 _) (λ q.
    Safe-bind _ _ (Safe-uint 2 _)
      (λ n. Safe-bind _ _ (Safe-vector_f _ _ n _ (Safe-address _)) (λ l. Safe-pure _)))

Safe-acceptable_master_table : (d : AcceptableMasterTable) → Safe (acceptable_master_table_f d)
unfolding acceptable_master_table_f
Safe-acceptable_master_table d =
    Safe-bind _ _ (Safe-int 2 _)
      (λ n. Safe-bind _ _ (Safe-vector_f _ _ _ _ (Safe-master _)) (λ l. Safe-pure _))

Safe-port_stats_np : (d : PortStatsNp) → Safe (port_stats_np_f d)
unfolding port_stats_np_f
Safe-port_stats_np d = Safe-bind _ _ (Safe-port _) (λ i.
    Safe-bind _ _ (Safe-each proc_le64 0 Safe-le64 _)
      (λ rx. Safe-bind _ _ (Safe-each proc_le64 0 Safe-le64 _) (λ tx. Safe-pure _)))

-- Whatever octets come, the parse of a management TLV stays in its data field.
pub Safe-tlv : (d : MngTlv) → Safe (proc_tlv d)
unfolding proc_tlv user_description_f initialize_f priority1_f priority2_f domain_f slave_only_f
    log_announce_interval_f announce_receipt_timeout_f log_sync_interval_f version_number_f time_f
    clock_accuracy_f traceability_properties_f unicast_negotiation_enable_f path_trace_enable_f
    unicast_master_max_table_size_f acceptable_master_table_enabled_f
    acceptable_master_max_table_size_f alternate_time_offset_max_key_f log_min_pdelay_req_interval_f
    primary_domain_f delay_mechanism_f external_port_configuration_enabled_f master_only_f
    holdover_upgrade_enable_f synchronization_uncertain_np_f
Safe-tlv (clock_description x) =
    Safe-bind _ _ (Safe-clock_description x) (λ y. Safe-pure (clock_description y))
Safe-tlv (user_description x) =
    Safe-bind _ _ (search type_safety) (λ y. Safe-pure (user_description y))
Safe-tlv (initialize x) = Safe-bind _ _ (search type_safety) (λ y. Safe-pure (initialize y))
Safe-tlv (fault_log x) = Safe-bind _ _ (Safe-fault_log x) (λ y. Safe-pure (fault_log y))
Safe-tlv (default_data_set x) =
    Safe-bind _ _ (Safe-default_data_set x) (λ y. Safe-pure (default_data_set y))
Safe-tlv (current_data_set x) =
    Safe-bind _ _ (Safe-current_data_set x) (λ y. Safe-pure (current_data_set y))
Safe-tlv (parent_data_set x) =
    Safe-bind _ _ (Safe-parent_data_set x) (λ y. Safe-pure (parent_data_set y))
Safe-tlv (time_properties_data_set x) =
    Safe-bind _ _ (Safe-time_properties_data_set x) (λ y. Safe-pure (time_properties_data_set y))
Safe-tlv (port_data_set x) = Safe-bind _ _ (Safe-port_data_set x) (λ y. Safe-pure (port_data_set y))
Safe-tlv (priority1 x) = Safe-bind _ _ (search type_safety) (λ y. Safe-pure (priority1 y))
Safe-tlv (priority2 x) = Safe-bind _ _ (search type_safety) (λ y. Safe-pure (priority2 y))
Safe-tlv (domain x) = Safe-bind _ _ (search type_safety) (λ y. Safe-pure (domain y))
Safe-tlv (slave_only x) = Safe-bind _ _ (search type_safety) (λ y. Safe-pure (slave_only y))
Safe-tlv (log_announce_interval x) =
    Safe-bind _ _ (search type_safety) (λ y. Safe-pure (log_announce_interval y))
Safe-tlv (announce_receipt_timeout x) =
    Safe-bind _ _ (search type_safety) (λ y. Safe-pure (announce_receipt_timeout y))
Safe-tlv (log_sync_interval x) =
    Safe-bind _ _ (search type_safety) (λ y. Safe-pure (log_sync_interval y))
Safe-tlv (version_number x) = Safe-bind _ _ (search type_safety) (λ y. Safe-pure (version_number y))
Safe-tlv (time x) = Safe-bind _ _ (search type_safety) (λ y. Safe-pure (time y))
Safe-tlv (clock_accuracy x) = Safe-bind _ _ (search type_safety) (λ y. Safe-pure (clock_accuracy y))
Safe-tlv (utc_properties x) =
    Safe-bind _ _ (Safe-utc_properties x) (λ y. Safe-pure (utc_properties y))
Safe-tlv (traceability_properties x) =
    Safe-bind _ _ (search type_safety) (λ y. Safe-pure (traceability_properties y))
Safe-tlv (timescale_properties x) =
    Safe-bind _ _ (Safe-timescale_properties x) (λ y. Safe-pure (timescale_properties y))
Safe-tlv (unicast_negotiation_enable x) =
    Safe-bind _ _ (search type_safety) (λ y. Safe-pure (unicast_negotiation_enable y))
Safe-tlv (path_trace_list x) =
    Safe-bind _ _ (Safe-path_trace_list x) (λ y. Safe-pure (path_trace_list y))
Safe-tlv (path_trace_enable x) =
    Safe-bind _ _ (search type_safety) (λ y. Safe-pure (path_trace_enable y))
Safe-tlv (grandmaster_cluster_table x) =
    Safe-bind _ _ (Safe-grandmaster_cluster_table x) (λ y. Safe-pure (grandmaster_cluster_table y))
Safe-tlv (unicast_master_table x) =
    Safe-bind _ _ (Safe-unicast_master_table x) (λ y. Safe-pure (unicast_master_table y))
Safe-tlv (unicast_master_max_table_size x) =
    Safe-bind _ _ (search type_safety) (λ y. Safe-pure (unicast_master_max_table_size y))
Safe-tlv (acceptable_master_table x) =
    Safe-bind _ _ (Safe-acceptable_master_table x) (λ y. Safe-pure (acceptable_master_table y))
Safe-tlv (acceptable_master_table_enabled x) =
    Safe-bind _ _ (search type_safety) (λ y. Safe-pure (acceptable_master_table_enabled y))
Safe-tlv (acceptable_master_max_table_size x) =
    Safe-bind _ _ (search type_safety) (λ y. Safe-pure (acceptable_master_max_table_size y))
Safe-tlv (alternate_master x) =
    Safe-bind _ _ (Safe-alternate_master x) (λ y. Safe-pure (alternate_master y))
Safe-tlv (alternate_time_offset_enable x) =
    Safe-bind _ _ (Safe-alternate_time_offset_enable x)
      (λ y. Safe-pure (alternate_time_offset_enable y))
Safe-tlv (alternate_time_offset_name x) =
    Safe-bind _ _ (Safe-alternate_time_offset_name x)
      (λ y. Safe-pure (alternate_time_offset_name y))
Safe-tlv (alternate_time_offset_max_key x) =
    Safe-bind _ _ (search type_safety) (λ y. Safe-pure (alternate_time_offset_max_key y))
Safe-tlv (alternate_time_offset_properties x) =
    Safe-bind _ _ (Safe-alternate_time_offset_properties x)
      (λ y. Safe-pure (alternate_time_offset_properties y))
Safe-tlv (transparent_clock_port_data_set x) =
    Safe-bind _ _ (Safe-transparent_clock_port_data_set x)
      (λ y. Safe-pure (transparent_clock_port_data_set y))
Safe-tlv (log_min_pdelay_req_interval x) =
    Safe-bind _ _ (search type_safety) (λ y. Safe-pure (log_min_pdelay_req_interval y))
Safe-tlv (transparent_clock_default_data_set x) =
    Safe-bind _ _ (Safe-transparent_clock_default_data_set x)
      (λ y. Safe-pure (transparent_clock_default_data_set y))
Safe-tlv (primary_domain x) = Safe-bind _ _ (search type_safety) (λ y. Safe-pure (primary_domain y))
Safe-tlv (delay_mechanism x) =
    Safe-bind _ _ (search type_safety) (λ y. Safe-pure (delay_mechanism y))
Safe-tlv (external_port_configuration_enabled x) =
    Safe-bind _ _ (search type_safety) (λ y. Safe-pure (external_port_configuration_enabled y))
Safe-tlv (master_only x) = Safe-bind _ _ (search type_safety) (λ y. Safe-pure (master_only y))
Safe-tlv (holdover_upgrade_enable x) =
    Safe-bind _ _ (search type_safety) (λ y. Safe-pure (holdover_upgrade_enable y))
Safe-tlv (ext_port_config_port_data_set x) =
    Safe-bind _ _ (Safe-ext_port_config_port_data_set x)
      (λ y. Safe-pure (ext_port_config_port_data_set y))
Safe-tlv (time_status_np x) =
    Safe-bind _ _ (Safe-time_status_np x) (λ y. Safe-pure (time_status_np y))
Safe-tlv (grandmaster_settings_np x) =
    Safe-bind _ _ (Safe-grandmaster_settings_np x) (λ y. Safe-pure (grandmaster_settings_np y))
Safe-tlv (port_data_set_np x) =
    Safe-bind _ _ (Safe-port_data_set_np x) (λ y. Safe-pure (port_data_set_np y))
Safe-tlv (subscribe_events_np x) =
    Safe-bind _ _ (Safe-subscribe_events_np x) (λ y. Safe-pure (subscribe_events_np y))
Safe-tlv (port_properties_np x) =
    Safe-bind _ _ (Safe-port_properties_np x) (λ y. Safe-pure (port_properties_np y))
Safe-tlv (port_stats_np x) = Safe-bind _ _ (Safe-port_stats_np x) (λ y. Safe-pure (port_stats_np y))
Safe-tlv (synchronization_uncertain_np x) =
    Safe-bind _ _ (search type_safety) (λ y. Safe-pure (synchronization_uncertain_np y))
