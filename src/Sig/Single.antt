-- ===== src/Sig/Single.antt =====
-- The signaling TLVs without lists, sig.h and sig.cpp.
use libpmc.Base.{ℕ, List, [], ◌%◌, ◌^◌}
use libpmc.Base.Int.{ℤ, pos}
use libpmc.Wire.{Proc, ◌>>=◌, ◌>>◌, pure, proc_u8, proc_u64, proc_i32, proc_octets, proc_binary}
use libpmc.Types.{
  proc_float64, TimeInterval, proc_time_interval, PortAddress, proc_port_address, PtpText,
  proc_ptp_text, proc_flags, proc_reserved, fresh_address, fresh_text,
}

-- proc(d.dataField, m_left), with m_left as a 16-bit length
unfoldable pub proc_left : List ℕ → Proc (List ℕ)
proc_left bin c = proc_binary bin (c.left % 2 ^ 16) c

pub record OrganizationExtension : Type 0 where
  pub organization_id : List ℕ
  pub organization_sub_type : List ℕ
  pub data_field : List ℕ

abbrev pub fresh_organization_extension : OrganizationExtension
fresh_organization_extension = record {
  organization_id = [];
  organization_sub_type = [];
  data_field = [];
}

unfoldable pub organization_extension_f : OrganizationExtension → Proc OrganizationExtension
organization_extension_f d = do
  x0 ← proc_octets 3 d.organization_id
  x1 ← proc_octets 3 d.organization_sub_type
  x2 ← proc_left d.data_field
  pure (record { organization_id = x0; organization_sub_type = x1; data_field = x2 })

pub record AlternateTimeOffsetIndicator : Type 0 where
  pub key_field : ℕ
  pub current_offset : ℤ
  pub jump_seconds : ℤ
  pub time_of_next_jump : ℕ
  pub display_name : PtpText

abbrev pub fresh_alternate_time_offset_indicator : AlternateTimeOffsetIndicator
fresh_alternate_time_offset_indicator = record {
  key_field = 0;
  current_offset = pos 0;
  jump_seconds = pos 0;
  time_of_next_jump = 0;
  display_name = fresh_text;
}

unfoldable pub alternate_time_offset_indicator_f :
    AlternateTimeOffsetIndicator → Proc AlternateTimeOffsetIndicator
alternate_time_offset_indicator_f d = do
  x0 ← proc_u8 d.key_field
  x1 ← proc_i32 d.current_offset
  x2 ← proc_i32 d.jump_seconds
  x3 ← proc_u64 d.time_of_next_jump
  x4 ← proc_ptp_text d.display_name
  pure (record {
    key_field = x0;
    current_offset = x1;
    jump_seconds = x2;
    time_of_next_jump = x3;
    display_name = x4;
  })

pub record EnhancedAccuracyMetrics : Type 0 where
  pub bc_hop_count : ℕ
  pub tc_hop_count : ℕ
  pub max_gm_inaccuracy : TimeInterval
  pub var_gm_inaccuracy : ℕ
  pub max_transient_inaccuracy : TimeInterval
  pub var_transient_inaccuracy : ℕ
  pub max_dynamic_inaccuracy : TimeInterval
  pub var_dynamic_inaccuracy : ℕ
  pub max_static_instance_inaccuracy : TimeInterval
  pub var_static_instance_inaccuracy : ℕ
  pub max_static_medium_inaccuracy : TimeInterval
  pub var_static_medium_inaccuracy : ℕ

abbrev pub fresh_enhanced_accuracy_metrics : EnhancedAccuracyMetrics
fresh_enhanced_accuracy_metrics = record {
  bc_hop_count = 0;
  tc_hop_count = 0;
  max_gm_inaccuracy = pos 0;
  var_gm_inaccuracy = 0;
  max_transient_inaccuracy = pos 0;
  var_transient_inaccuracy = 0;
  max_dynamic_inaccuracy = pos 0;
  var_dynamic_inaccuracy = 0;
  max_static_instance_inaccuracy = pos 0;
  var_static_instance_inaccuracy = 0;
  max_static_medium_inaccuracy = pos 0;
  var_static_medium_inaccuracy = 0;
}

unfoldable pub enhanced_accuracy_metrics_f : EnhancedAccuracyMetrics → Proc EnhancedAccuracyMetrics
enhanced_accuracy_metrics_f d = do
  x0 ← proc_u8 d.bc_hop_count
  x1 ← proc_u8 d.tc_hop_count
  proc_reserved
  proc_reserved
  x4 ← proc_time_interval d.max_gm_inaccuracy
  x5 ← proc_float64 d.var_gm_inaccuracy
  x6 ← proc_time_interval d.max_transient_inaccuracy
  x7 ← proc_float64 d.var_transient_inaccuracy
  x8 ← proc_time_interval d.max_dynamic_inaccuracy
  x9 ← proc_float64 d.var_dynamic_inaccuracy
  x10 ← proc_time_interval d.max_static_instance_inaccuracy
  x11 ← proc_float64 d.var_static_instance_inaccuracy
  x12 ← proc_time_interval d.max_static_medium_inaccuracy
  x13 ← proc_float64 d.var_static_medium_inaccuracy
  pure (record {
    bc_hop_count = x0;
    tc_hop_count = x1;
    max_gm_inaccuracy = x4;
    var_gm_inaccuracy = x5;
    max_transient_inaccuracy = x6;
    var_transient_inaccuracy = x7;
    max_dynamic_inaccuracy = x8;
    var_dynamic_inaccuracy = x9;
    max_static_instance_inaccuracy = x10;
    var_static_instance_inaccuracy = x11;
    max_static_medium_inaccuracy = x12;
    var_static_medium_inaccuracy = x13;
  })

pub record L1Sync : Type 0 where
  pub flags1 : ℕ
  pub flags2 : ℕ

abbrev pub fresh_l1_sync : L1Sync
fresh_l1_sync = record { flags1 = 0; flags2 = 0 }

unfoldable pub l1_sync_f : L1Sync → Proc L1Sync
l1_sync_f d = do
  x0 ← proc_flags 0xf d.flags1
  x1 ← proc_flags 0x7 d.flags2
  pure (record { flags1 = x0; flags2 = x1 })

pub record PortCommunicationAvailability : Type 0 where
  pub sync_message_availability : ℕ
  pub delay_resp_message_availability : ℕ

abbrev pub fresh_port_communication_availability : PortCommunicationAvailability
fresh_port_communication_availability = record {
  sync_message_availability = 0;
  delay_resp_message_availability = 0;
}

unfoldable pub port_communication_availability_f :
    PortCommunicationAvailability → Proc PortCommunicationAvailability
port_communication_availability_f d = do
  x0 ← proc_flags 0xf d.sync_message_availability
  x1 ← proc_flags 0xf d.delay_resp_message_availability
  pure (record { sync_message_availability = x0; delay_resp_message_availability = x1 })

pub record ProtocolAddress : Type 0 where
  pub port_protocol_address : PortAddress

abbrev pub fresh_protocol_address : ProtocolAddress
fresh_protocol_address = record { port_protocol_address = fresh_address }

unfoldable pub protocol_address_f : ProtocolAddress → Proc ProtocolAddress
protocol_address_f d = do
  x0 ← proc_port_address d.port_protocol_address
  pure (record { port_protocol_address = x0 })

pub record CumulativeRateRatio : Type 0 where
  pub scaled_cumulative_rate_ratio : ℤ

abbrev pub fresh_cumulative_rate_ratio : CumulativeRateRatio
fresh_cumulative_rate_ratio = record { scaled_cumulative_rate_ratio = pos 0 }

unfoldable pub cumulative_rate_ratio_f : CumulativeRateRatio → Proc CumulativeRateRatio
cumulative_rate_ratio_f d = do
  x0 ← proc_i32 d.scaled_cumulative_rate_ratio
  pure (record { scaled_cumulative_rate_ratio = x0 })
