-- ===== src/Mng/Scalars.antt =====
-- The functions of proc.cpp for TLVs of one field; the structure is its field.
use libpmc.Base.{ℕ}
use libpmc.Base.Int.{ℤ}
use libpmc.Wire.{Proc, proc_u8, proc_u16, proc_i8}
use libpmc.Types.{Timestamp, PtpText, proc_timestamp, proc_ptp_text, proc_flags}

unfoldable pub user_description_f : PtpText → Proc PtpText
user_description_f x = proc_ptp_text x

unfoldable pub initialize_f : ℕ → Proc ℕ
initialize_f x = proc_u16 x

unfoldable pub priority1_f : ℕ → Proc ℕ
priority1_f x = proc_u8 x

unfoldable pub priority2_f : ℕ → Proc ℕ
priority2_f x = proc_u8 x

unfoldable pub domain_f : ℕ → Proc ℕ
domain_f x = proc_u8 x

unfoldable pub slave_only_f : ℕ → Proc ℕ
slave_only_f x = proc_flags 0x1 x

unfoldable pub log_announce_interval_f : ℤ → Proc ℤ
log_announce_interval_f x = proc_i8 x

unfoldable pub announce_receipt_timeout_f : ℕ → Proc ℕ
announce_receipt_timeout_f x = proc_u8 x

unfoldable pub log_sync_interval_f : ℤ → Proc ℤ
log_sync_interval_f x = proc_i8 x

unfoldable pub version_number_f : ℕ → Proc ℕ
version_number_f x = proc_u8 x

unfoldable pub time_f : Timestamp → Proc Timestamp
time_f x = proc_timestamp x

unfoldable pub clock_accuracy_f : ℕ → Proc ℕ
clock_accuracy_f x = proc_u8 x

unfoldable pub traceability_properties_f : ℕ → Proc ℕ
traceability_properties_f x = proc_flags 0x30 x

unfoldable pub unicast_negotiation_enable_f : ℕ → Proc ℕ
unicast_negotiation_enable_f x = proc_flags 0x1 x

unfoldable pub path_trace_enable_f : ℕ → Proc ℕ
path_trace_enable_f x = proc_flags 0x1 x

unfoldable pub unicast_master_max_table_size_f : ℕ → Proc ℕ
unicast_master_max_table_size_f x = proc_u16 x

unfoldable pub acceptable_master_table_enabled_f : ℕ → Proc ℕ
acceptable_master_table_enabled_f x = proc_flags 0x1 x

unfoldable pub acceptable_master_max_table_size_f : ℕ → Proc ℕ
acceptable_master_max_table_size_f x = proc_u16 x

unfoldable pub alternate_time_offset_max_key_f : ℕ → Proc ℕ
alternate_time_offset_max_key_f x = proc_u8 x

unfoldable pub log_min_pdelay_req_interval_f : ℤ → Proc ℤ
log_min_pdelay_req_interval_f x = proc_i8 x

unfoldable pub primary_domain_f : ℕ → Proc ℕ
primary_domain_f x = proc_u8 x

unfoldable pub delay_mechanism_f : ℕ → Proc ℕ
delay_mechanism_f x = proc_u8 x

unfoldable pub external_port_configuration_enabled_f : ℕ → Proc ℕ
external_port_configuration_enabled_f x = proc_flags 0x1 x

unfoldable pub master_only_f : ℕ → Proc ℕ
master_only_f x = proc_flags 0x1 x

unfoldable pub holdover_upgrade_enable_f : ℕ → Proc ℕ
holdover_upgrade_enable_f x = proc_flags 0x1 x

unfoldable pub synchronization_uncertain_np_f : ℕ → Proc ℕ
synchronization_uncertain_np_f x = proc_u8 x
