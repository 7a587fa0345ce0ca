-- ===== src/Sig.antt =====
-- The signaling TLVs: the structures of sig.h and their functions in sig.cpp, which only parse, as the cases of
-- one type, and the selection of the function by the type of the TLV.
pub mod Records
pub mod Timing
pub mod Single
pub mod Safety
use libpmc.Base.{ℕ, List, [], ◌%◌, ◌^◌, Bool, Option, none, some, ◌==◌, ◌&&◌, ◌||◌, if◌then◌else◌}
use libpmc.Base.Int.{ℤ, pos}
use libpmc.Wire.{
  Proc, ◌>>=◌, ◌>>◌, pure, proc_u8, proc_u16, proc_u32, proc_u64, proc_i32, proc_octets,
  proc_binary,
}
use libpmc.Types.{
  proc_float64, TimeInterval, proc_time_interval, Timestamp, proc_timestamp, ClockIdentity,
  proc_clock_identity, PortIdentity, proc_port_identity, PortAddress, proc_port_address, PtpText,
  proc_ptp_text, proc_flags, proc_reserved, vector_o, fresh_timestamp, fresh_port, fresh_address,
  fresh_text,
}
use libpmc.Ids.{MngId}
use libpmc.Mng.{MngTlv}
use libpmc.Sig.Timing.{
  path_trace_f, SlaveRxSyncTimingData, slave_rx_sync_timing_data_f, fresh_slave_rx_sync_timing_data,
  SlaveRxSyncComputedData, slave_rx_sync_computed_data_f, fresh_slave_rx_sync_computed_data,
  SlaveTxEventTimestamps, slave_tx_event_timestamps_f, fresh_slave_tx_event_timestamps,
  SlaveDelayTimingDataNp, slave_delay_timing_data_np_f, fresh_slave_delay_timing_data_np,
}
use libpmc.Sig.Single.{
  OrganizationExtension, organization_extension_f, fresh_organization_extension,
  AlternateTimeOffsetIndicator, alternate_time_offset_indicator_f,
  fresh_alternate_time_offset_indicator, EnhancedAccuracyMetrics, enhanced_accuracy_metrics_f,
  fresh_enhanced_accuracy_metrics, L1Sync, l1_sync_f, fresh_l1_sync, PortCommunicationAvailability,
  port_communication_availability_f, fresh_port_communication_availability, ProtocolAddress,
  protocol_address_f, fresh_protocol_address, CumulativeRateRatio, cumulative_rate_ratio_f,
  fresh_cumulative_rate_ratio,
}

-- BaseSigTlv, and MANAGEMENT_t with the management TLV in it.
pub data SigTlv : Type 0 where
  organization_extension : OrganizationExtension → SigTlv
  alternate_time_offset_indicator : AlternateTimeOffsetIndicator → SigTlv
  enhanced_accuracy_metrics : EnhancedAccuracyMetrics → SigTlv
  l1_sync : L1Sync → SigTlv
  port_communication_availability : PortCommunicationAvailability → SigTlv
  protocol_address : ProtocolAddress → SigTlv
  slave_rx_sync_timing_data : SlaveRxSyncTimingData → SigTlv
  slave_rx_sync_computed_data : SlaveRxSyncComputedData → SigTlv
  slave_tx_event_timestamps : SlaveTxEventTimestamps → SigTlv
  cumulative_rate_ratio : CumulativeRateRatio → SigTlv
  slave_delay_timing_data_np : SlaveDelayTimingDataNp → SigTlv
  path_trace : List ClockIdentity → SigTlv
  management : MngId → MngTlv → SigTlv

-- `new n##_t` and the function for it, by the type of the TLV; `linuxptp` says that linuxptp is used.
-- A type that is ignored has none.
new_organization_extension : Proc (Option SigTlv)
new_organization_extension = do
  x ← organization_extension_f fresh_organization_extension
  pure (some (organization_extension x))

new_alternate_time_offset_indicator : Proc (Option SigTlv)
new_alternate_time_offset_indicator = do
  x ← alternate_time_offset_indicator_f fresh_alternate_time_offset_indicator
  pure (some (alternate_time_offset_indicator x))

new_enhanced_accuracy_metrics : Proc (Option SigTlv)
new_enhanced_accuracy_metrics = do
  x ← enhanced_accuracy_metrics_f fresh_enhanced_accuracy_metrics
  pure (some (enhanced_accuracy_metrics x))

new_l1_sync : Proc (Option SigTlv)
new_l1_sync = do x ← l1_sync_f fresh_l1_sync; pure (some (l1_sync x))

new_port_communication_availability : Proc (Option SigTlv)
new_port_communication_availability = do
  x ← port_communication_availability_f fresh_port_communication_availability
  pure (some (port_communication_availability x))

new_protocol_address : Proc (Option SigTlv)
new_protocol_address = do
  x ← protocol_address_f fresh_protocol_address
  pure (some (protocol_address x))

new_slave_rx_sync_timing_data : Proc (Option SigTlv)
new_slave_rx_sync_timing_data = do
  x ← slave_rx_sync_timing_data_f fresh_slave_rx_sync_timing_data
  pure (some (slave_rx_sync_timing_data x))

new_slave_rx_sync_computed_data : Proc (Option SigTlv)
new_slave_rx_sync_computed_data = do
  x ← slave_rx_sync_computed_data_f fresh_slave_rx_sync_computed_data
  pure (some (slave_rx_sync_computed_data x))

new_slave_tx_event_timestamps : Proc (Option SigTlv)
new_slave_tx_event_timestamps = do
  x ← slave_tx_event_timestamps_f fresh_slave_tx_event_timestamps
  pure (some (slave_tx_event_timestamps x))

new_cumulative_rate_ratio : Proc (Option SigTlv)
new_cumulative_rate_ratio = do
  x ← cumulative_rate_ratio_f fresh_cumulative_rate_ratio
  pure (some (cumulative_rate_ratio x))

new_slave_delay_timing_data_np : Proc (Option SigTlv)
new_slave_delay_timing_data_np = do
  x ← slave_delay_timing_data_np_f fresh_slave_delay_timing_data_np
  pure (some (slave_delay_timing_data_np x))

new_path_trace : Proc (Option SigTlv)
new_path_trace = do x ← path_trace_f []; pure (some (path_trace x))

pub sig_tlv : Bool → ℕ → Proc (Option SigTlv)
unfolding new_organization_extension new_alternate_time_offset_indicator
    new_enhanced_accuracy_metrics new_l1_sync new_port_communication_availability
    new_protocol_address new_slave_rx_sync_timing_data new_slave_rx_sync_computed_data
    new_slave_tx_event_timestamps new_cumulative_rate_ratio new_slave_delay_timing_data_np
    new_path_trace
sig_tlv linuxptp t =
    if t == 0x4000 || (t == 0x8000 || t == 3)
    then new_organization_extension
    else if t == 8
    then new_path_trace
    else if t == 9
    then new_alternate_time_offset_indicator
    else if t == 0x4001
    then new_enhanced_accuracy_metrics
    else if t == 0x8001
    then new_l1_sync
    else if t == 0x8002
    then new_port_communication_availability
    else if t == 0x8003
    then new_protocol_address
    else if t == 0x8004
    then new_slave_rx_sync_timing_data
    else if t == 0x8005
    then new_slave_rx_sync_computed_data
    else if t == 0x8006
    then new_slave_tx_event_timestamps
    else if t == 0x8007
    then new_cumulative_rate_ratio
    else if linuxptp && t == 0x7f00
    then new_slave_delay_timing_data_np
    else pure none
