-- ===== src/Mng/Codecs/Read.antt =====
-- A parse of a management TLV reads its octets.
use libpmc.Base.{◌≡◌, [], arith, some, refl}
use libpmc.Base.Int.{pos}
use libpmc.Wire.Codec.{Runs-map, ReadsAll, ReadsAll-map, ReadsAll-Runs}
use libpmc.Wire.Values.{u8-read, u16-read, i8-read}
use libpmc.Types.{fresh_timestamp, fresh_text}
use libpmc.Types.Codecs.{masked-lt, flags-read, timestamp-read, text-read}
use libpmc.Mng.{
  MngTlv, kind, fresh_tlv, proc_tlv, clock_description, user_description, initialize, fault_log,
  default_data_set, current_data_set, parent_data_set, time_properties_data_set, port_data_set,
  priority1, priority2, domain, slave_only, log_announce_interval, announce_receipt_timeout,
  log_sync_interval, version_number, time, clock_accuracy, utc_properties, traceability_properties,
  timescale_properties, unicast_negotiation_enable, path_trace_list, path_trace_enable,
  grandmaster_cluster_table, unicast_master_table, unicast_master_max_table_size,
  acceptable_master_table, acceptable_master_table_enabled, acceptable_master_max_table_size,
  alternate_master, alternate_time_offset_enable, alternate_time_offset_name,
  alternate_time_offset_max_key, alternate_time_offset_properties, transparent_clock_port_data_set,
  log_min_pdelay_req_interval, transparent_clock_default_data_set, primary_domain, delay_mechanism,
  external_port_configuration_enabled, master_only, holdover_upgrade_enable,
  ext_port_config_port_data_set, time_status_np, grandmaster_settings_np, port_data_set_np,
  subscribe_events_np, port_properties_np, port_stats_np, synchronization_uncertain_np,
}
use libpmc.Mng.DataSets.Codecs.{
  default_data_set-read, current_data_set-read, parent_data_set-read, time_properties_data_set-read,
}
use libpmc.Mng.DataSets.PortCodecs.{
  port_data_set-read, transparent_clock_port_data_set-read, transparent_clock_default_data_set-read,
  ext_port_config_port_data_set-read,
}
use libpmc.Mng.DataSets.{
  fresh_default_data_set, fresh_current_data_set, fresh_parent_data_set,
  fresh_time_properties_data_set, fresh_port_data_set, fresh_transparent_clock_port_data_set,
  fresh_transparent_clock_default_data_set, fresh_ext_port_config_port_data_set,
}
use libpmc.Mng.Settings.Codecs.{
  utc_properties-read, timescale_properties-read, alternate_master-read,
  alternate_time_offset_enable-read, alternate_time_offset_name-read,
  alternate_time_offset_properties-read,
}
use libpmc.Mng.Settings.{
  fresh_utc_properties, fresh_timescale_properties, fresh_alternate_master,
  fresh_alternate_time_offset_enable, fresh_alternate_time_offset_name,
  fresh_alternate_time_offset_properties,
}
use libpmc.Mng.Linuxptp.Codecs.{
  time_status_np-read, grandmaster_settings_np-read, port_data_set_np-read,
  subscribe_events_np-read, port_properties_np-read,
}
use libpmc.Mng.Linuxptp.{
  fresh_time_status_np, fresh_grandmaster_settings_np, fresh_port_data_set_np,
  fresh_subscribe_events_np, fresh_port_properties_np,
}
use libpmc.Mng.Tables.Description.{clock_description-read}
use libpmc.Mng.Tables.Codecs.{
  fault_log-read, grandmaster_cluster_table-read, unicast_master_table-read,
  acceptable_master_table-read,
}
use libpmc.Mng.Tables.Streams.{port_stats_np-read, path_trace_list-read}
use libpmc.Mng.Tables.{
  fresh_clock_description, fresh_fault_log, fresh_address_table, fresh_acceptable_master_table,
  fresh_port_stats_np,
}
use libpmc.Mng.Scalars.{
  user_description_f, initialize_f, priority1_f, priority2_f, domain_f, slave_only_f,
  log_announce_interval_f, announce_receipt_timeout_f, log_sync_interval_f, version_number_f,
  time_f, clock_accuracy_f, traceability_properties_f, unicast_negotiation_enable_f,
  path_trace_enable_f, unicast_master_max_table_size_f, acceptable_master_table_enabled_f,
  acceptable_master_max_table_size_f, alternate_time_offset_max_key_f,
  log_min_pdelay_req_interval_f, primary_domain_f, delay_mechanism_f,
  external_port_configuration_enabled_f, master_only_f, holdover_upgrade_enable_f,
  synchronization_uncertain_np_f,
}
use libpmc.Mng.Codecs.{ValidTlv, tlv_octets, sent_tlv}

-- The new structure that a parse fills in for the id of `d`.
abbrev pub blank : MngTlv → MngTlv
blank (clock_description x) = clock_description fresh_clock_description
blank (user_description x) = user_description fresh_text
blank (initialize x) = initialize 0
blank (fault_log x) = fault_log fresh_fault_log
blank (default_data_set x) = default_data_set fresh_default_data_set
blank (current_data_set x) = current_data_set fresh_current_data_set
blank (parent_data_set x) = parent_data_set fresh_parent_data_set
blank (time_properties_data_set x) = time_properties_data_set fresh_time_properties_data_set
blank (port_data_set x) = port_data_set fresh_port_data_set
blank (priority1 x) = priority1 0
blank (priority2 x) = priority2 0
blank (domain x) = domain 0
blank (slave_only x) = slave_only 0
blank (log_announce_interval x) = log_announce_interval (pos 0)
blank (announce_receipt_timeout x) = announce_receipt_timeout 0
blank (log_sync_interval x) = log_sync_interval (pos 0)
blank (version_number x) = version_number 0
blank (time x) = time fresh_timestamp
blank (clock_accuracy x) = clock_accuracy 0
blank (utc_properties x) = utc_properties fresh_utc_properties
blank (traceability_properties x) = traceability_properties 0
blank (timescale_properties x) = timescale_properties fresh_timescale_properties
blank (unicast_negotiation_enable x) = unicast_negotiation_enable 0
blank (path_trace_list x) = path_trace_list []
blank (path_trace_enable x) = path_trace_enable 0
blank (grandmaster_cluster_table x) = grandmaster_cluster_table fresh_address_table
blank (unicast_master_table x) = unicast_master_table fresh_address_table
blank (unicast_master_max_table_size x) = unicast_master_max_table_size 0
blank (acceptable_master_table x) = acceptable_master_table fresh_acceptable_master_table
blank (acceptable_master_table_enabled x) = acceptable_master_table_enabled 0
blank (acceptable_master_max_table_size x) = acceptable_master_max_table_size 0
blank (alternate_master x) = alternate_master fresh_alternate_master
blank (alternate_time_offset_enable x) =
    alternate_time_offset_enable fresh_alternate_time_offset_enable
blank (alternate_time_offset_name x) = alternate_time_offset_name fresh_alternate_time_offset_name
blank (alternate_time_offset_max_key x) = alternate_time_offset_max_key 0
blank (alternate_time_offset_properties x) =
    alternate_time_offset_properties fresh_alternate_time_offset_properties
blank (transparent_clock_port_data_set x) =
    transparent_clock_port_data_set fresh_transparent_clock_port_data_set
blank (log_min_pdelay_req_interval x) = log_min_pdelay_req_interval (pos 0)
blank (transparent_clock_default_data_set x) =
    transparent_clock_default_data_set fresh_transparent_clock_default_data_set
blank (primary_domain x) = primary_domain 0
blank (delay_mechanism x) = delay_mechanism 0
blank (external_port_configuration_enabled x) = external_port_configuration_enabled 0
blank (master_only x) = master_only 0
blank (holdover_upgrade_enable x) = holdover_upgrade_enable 0
blank (ext_port_config_port_data_set x) =
    ext_port_config_port_data_set fresh_ext_port_config_port_data_set
blank (time_status_np x) = time_status_np fresh_time_status_np
blank (grandmaster_settings_np x) = grandmaster_settings_np fresh_grandmaster_settings_np
blank (port_data_set_np x) = port_data_set_np fresh_port_data_set_np
blank (subscribe_events_np x) = subscribe_events_np fresh_subscribe_events_np
blank (port_properties_np x) = port_properties_np fresh_port_properties_np
blank (port_stats_np x) = port_stats_np fresh_port_stats_np
blank (synchronization_uncertain_np x) = synchronization_uncertain_np 0

pub fresh_tlv-kind : (d : MngTlv) → fresh_tlv (kind d) ≡ some (blank d)
unfolding fresh_tlv kind
fresh_tlv-kind (clock_description x) = refl
fresh_tlv-kind (user_description x) = refl
fresh_tlv-kind (initialize x) = refl
fresh_tlv-kind (fault_log x) = refl
fresh_tlv-kind (default_data_set x) = refl
fresh_tlv-kind (current_data_set x) = refl
fresh_tlv-kind (parent_data_set x) = refl
fresh_tlv-kind (time_properties_data_set x) = refl
fresh_tlv-kind (port_data_set x) = refl
fresh_tlv-kind (priority1 x) = refl
fresh_tlv-kind (priority2 x) = refl
fresh_tlv-kind (domain x) = refl
fresh_tlv-kind (slave_only x) = refl
fresh_tlv-kind (log_announce_interval x) = refl
fresh_tlv-kind (announce_receipt_timeout x) = refl
fresh_tlv-kind (log_sync_interval x) = refl
fresh_tlv-kind (version_number x) = refl
fresh_tlv-kind (time x) = refl
fresh_tlv-kind (clock_accuracy x) = refl
fresh_tlv-kind (utc_properties x) = refl
fresh_tlv-kind (traceability_properties x) = refl
fresh_tlv-kind (timescale_properties x) = refl
fresh_tlv-kind (unicast_negotiation_enable x) = refl
fresh_tlv-kind (path_trace_list x) = refl
fresh_tlv-kind (path_trace_enable x) = refl
fresh_tlv-kind (grandmaster_cluster_table x) = refl
fresh_tlv-kind (unicast_master_table x) = refl
fresh_tlv-kind (unicast_master_max_table_size x) = refl
fresh_tlv-kind (acceptable_master_table x) = refl
fresh_tlv-kind (acceptable_master_table_enabled x) = refl
fresh_tlv-kind (acceptable_master_max_table_size x) = refl
fresh_tlv-kind (alternate_master x) = refl
fresh_tlv-kind (alternate_time_offset_enable x) = refl
fresh_tlv-kind (alternate_time_offset_name x) = refl
fresh_tlv-kind (alternate_time_offset_max_key x) = refl
fresh_tlv-kind (alternate_time_offset_properties x) = refl
fresh_tlv-kind (transparent_clock_port_data_set x) = refl
fresh_tlv-kind (log_min_pdelay_req_interval x) = refl
fresh_tlv-kind (transparent_clock_default_data_set x) = refl
fresh_tlv-kind (primary_domain x) = refl
fresh_tlv-kind (delay_mechanism x) = refl
fresh_tlv-kind (external_port_configuration_enabled x) = refl
fresh_tlv-kind (master_only x) = refl
fresh_tlv-kind (holdover_upgrade_enable x) = refl
fresh_tlv-kind (ext_port_config_port_data_set x) = refl
fresh_tlv-kind (time_status_np x) = refl
fresh_tlv-kind (grandmaster_settings_np x) = refl
fresh_tlv-kind (port_data_set_np x) = refl
fresh_tlv-kind (subscribe_events_np x) = refl
fresh_tlv-kind (port_properties_np x) = refl
fresh_tlv-kind (port_stats_np x) = refl
fresh_tlv-kind (synchronization_uncertain_np x) = refl

-- From a new structure of the same type.
pub tlv-read : (d : MngTlv) → ValidTlv d → ReadsAll (proc_tlv (blank d)) (tlv_octets d) (sent_tlv d)
unfolding proc_tlv user_description_f initialize_f priority1_f priority2_f domain_f slave_only_f
    log_announce_interval_f announce_receipt_timeout_f log_sync_interval_f version_number_f time_f
    clock_accuracy_f traceability_properties_f unicast_negotiation_enable_f path_trace_enable_f
    unicast_master_max_table_size_f acceptable_master_table_enabled_f
    acceptable_master_max_table_size_f alternate_time_offset_max_key_f log_min_pdelay_req_interval_f
    primary_domain_f delay_mechanism_f external_port_configuration_enabled_f master_only_f
    holdover_upgrade_enable_f synchronization_uncertain_np_f
tlv-read (clock_description x) v =
    ReadsAll-Runs (Runs-map clock_description (clock_description-read _ x v))
tlv-read (user_description x) v = ReadsAll-Runs (Runs-map user_description (text-read _ v))
tlv-read (initialize x) v = ReadsAll-Runs (Runs-map initialize (u16-read _ v))
tlv-read (fault_log x) v = ReadsAll-Runs (Runs-map fault_log (fault_log-read x v))
tlv-read (default_data_set x) v =
    ReadsAll-Runs (Runs-map default_data_set (default_data_set-read _ x v))
tlv-read (current_data_set x) v =
    ReadsAll-Runs (Runs-map current_data_set (current_data_set-read _ x v))
tlv-read (parent_data_set x) v =
    ReadsAll-Runs (Runs-map parent_data_set (parent_data_set-read _ x v))
tlv-read (time_properties_data_set x) v =
    ReadsAll-Runs (Runs-map time_properties_data_set (time_properties_data_set-read _ x v))
tlv-read (port_data_set x) v = ReadsAll-Runs (Runs-map port_data_set (port_data_set-read _ x v))
tlv-read (priority1 x) v = ReadsAll-Runs (Runs-map priority1 (u8-read _ v))
tlv-read (priority2 x) v = ReadsAll-Runs (Runs-map priority2 (u8-read _ v))
tlv-read (domain x) v = ReadsAll-Runs (Runs-map domain (u8-read _ v))
tlv-read (slave_only x) v =
    ReadsAll-Runs (Runs-map slave_only (flags-read 0x1 _ (masked-lt 0x1 _ (omega arith) v)))
tlv-read (log_announce_interval x) v = ReadsAll-Runs (Runs-map log_announce_interval (i8-read _ v))
tlv-read (announce_receipt_timeout x) v =
    ReadsAll-Runs (Runs-map announce_receipt_timeout (u8-read _ v))
tlv-read (log_sync_interval x) v = ReadsAll-Runs (Runs-map log_sync_interval (i8-read _ v))
tlv-read (version_number x) v = ReadsAll-Runs (Runs-map version_number (u8-read _ v))
tlv-read (time x) v = ReadsAll-Runs (Runs-map time (timestamp-read _ v))
tlv-read (clock_accuracy x) v = ReadsAll-Runs (Runs-map clock_accuracy (u8-read _ v))
tlv-read (utc_properties x) v = ReadsAll-Runs (Runs-map utc_properties (utc_properties-read _ x v))
tlv-read (traceability_properties x) v =
    ReadsAll-Runs
      (Runs-map traceability_properties (flags-read 0x30 _ (masked-lt 0x30 _ (omega arith) v)))
tlv-read (timescale_properties x) v =
    ReadsAll-Runs (Runs-map timescale_properties (timescale_properties-read _ x v))
tlv-read (unicast_negotiation_enable x) v =
    ReadsAll-Runs
      (Runs-map unicast_negotiation_enable (flags-read 0x1 _ (masked-lt 0x1 _ (omega arith) v)))
tlv-read (path_trace_list x) v = ReadsAll-map path_trace_list (path_trace_list-read x v)
tlv-read (path_trace_enable x) v =
    ReadsAll-Runs (Runs-map path_trace_enable (flags-read 0x1 _ (masked-lt 0x1 _ (omega arith) v)))
tlv-read (grandmaster_cluster_table x) v =
    ReadsAll-Runs (Runs-map grandmaster_cluster_table (grandmaster_cluster_table-read x v))
tlv-read (unicast_master_table x) v =
    ReadsAll-Runs (Runs-map unicast_master_table (unicast_master_table-read x v))
tlv-read (unicast_master_max_table_size x) v =
    ReadsAll-Runs (Runs-map unicast_master_max_table_size (u16-read _ v))
tlv-read (acceptable_master_table x) v =
    ReadsAll-Runs (Runs-map acceptable_master_table (acceptable_master_table-read x v))
tlv-read (acceptable_master_table_enabled x) v =
    ReadsAll-Runs (
      Runs-map acceptable_master_table_enabled (flags-read 0x1 _ (masked-lt 0x1 _ (omega arith) v)))
tlv-read (acceptable_master_max_table_size x) v =
    ReadsAll-Runs (Runs-map acceptable_master_max_table_size (u16-read _ v))
tlv-read (alternate_master x) v =
    ReadsAll-Runs (Runs-map alternate_master (alternate_master-read _ x v))
tlv-read (alternate_time_offset_enable x) v =
    ReadsAll-Runs (Runs-map alternate_time_offset_enable (alternate_time_offset_enable-read _ x v))
tlv-read (alternate_time_offset_name x) v =
    ReadsAll-Runs (Runs-map alternate_time_offset_name (alternate_time_offset_name-read _ x v))
tlv-read (alternate_time_offset_max_key x) v =
    ReadsAll-Runs (Runs-map alternate_time_offset_max_key (u8-read _ v))
tlv-read (alternate_time_offset_properties x) v =
    ReadsAll-Runs
      (Runs-map alternate_time_offset_properties (alternate_time_offset_properties-read _ x v))
tlv-read (transparent_clock_port_data_set x) v =
    ReadsAll-Runs
      (Runs-map transparent_clock_port_data_set (transparent_clock_port_data_set-read _ x v))
tlv-read (log_min_pdelay_req_interval x) v =
    ReadsAll-Runs (Runs-map log_min_pdelay_req_interval (i8-read _ v))
tlv-read (transparent_clock_default_data_set x) v =
    ReadsAll-Runs
      (Runs-map transparent_clock_default_data_set (transparent_clock_default_data_set-read _ x v))
tlv-read (primary_domain x) v = ReadsAll-Runs (Runs-map primary_domain (u8-read _ v))
tlv-read (delay_mechanism x) v = ReadsAll-Runs (Runs-map delay_mechanism (u8-read _ v))
tlv-read (external_port_configuration_enabled x) v = ReadsAll-Runs (
    Runs-map external_port_configuration_enabled
      (flags-read 0x1 _ (masked-lt 0x1 _ (omega arith) v)))
tlv-read (master_only x) v =
    ReadsAll-Runs (Runs-map master_only (flags-read 0x1 _ (masked-lt 0x1 _ (omega arith) v)))
tlv-read (holdover_upgrade_enable x) v =
    ReadsAll-Runs
      (Runs-map holdover_upgrade_enable (flags-read 0x1 _ (masked-lt 0x1 _ (omega arith) v)))
tlv-read (ext_port_config_port_data_set x) v =
    ReadsAll-Runs
      (Runs-map ext_port_config_port_data_set (ext_port_config_port_data_set-read _ x v))
tlv-read (time_status_np x) v = ReadsAll-Runs (Runs-map time_status_np (time_status_np-read _ x v))
tlv-read (grandmaster_settings_np x) v =
    ReadsAll-Runs (Runs-map grandmaster_settings_np (grandmaster_settings_np-read _ x v))
tlv-read (port_data_set_np x) v =
    ReadsAll-Runs (Runs-map port_data_set_np (port_data_set_np-read _ x v))
tlv-read (subscribe_events_np x) v =
    ReadsAll-Runs (Runs-map subscribe_events_np (subscribe_events_np-read _ x v))
tlv-read (port_properties_np x) v =
    ReadsAll-Runs (Runs-map port_properties_np (port_properties_np-read _ x v))
tlv-read (port_stats_np x) v = ReadsAll-Runs (Runs-map port_stats_np (port_stats_np-read x v))
tlv-read (synchronization_uncertain_np x) v =
    ReadsAll-Runs (Runs-map synchronization_uncertain_np (u8-read _ v))
