-- ===== src/Sig/Safety.antt =====
-- A parse of a signaling TLV stays within its octets, whatever they are. The accuracy metrics, which
-- have floats, are left out: `proc` moves over a float twice.
use libpmc.Base.{ℕ, ◌≡◌, Bool, false, List, [], none, some, ◌==◌, ◌&&◌, ◌||◌, ◌%◌, ◌^◌, arith}
use libpmc.Wire.{proc_u16}
use libpmc.Wire.Safety.{
  Safe, Safe-bind, Safe-pure, Safe-if, Safe-binary, Safe-uint, Eats, Eats-bind, Eats-uint,
  Eats-less,
}
use libpmc.Types.{proc_clock_identity, ClockIdentity, vector_o}
use libpmc.Types.Safety.{type_safety, Safe-vector_o, Eats-identity, Safe-identity}
use libpmc.Sig.{
  sig_tlv, new_path_trace, path_trace, new_organization_extension, organization_extension,
  new_alternate_time_offset_indicator, alternate_time_offset_indicator, new_l1_sync, l1_sync,
  new_port_communication_availability, port_communication_availability, new_protocol_address,
  protocol_address, new_slave_rx_sync_timing_data, slave_rx_sync_timing_data,
  new_slave_rx_sync_computed_data, slave_rx_sync_computed_data, new_slave_tx_event_timestamps,
  slave_tx_event_timestamps, new_cumulative_rate_ratio, cumulative_rate_ratio,
  new_slave_delay_timing_data_np, slave_delay_timing_data_np,
}
use libpmc.Sig.Timing.{
  path_trace_f, SlaveRxSyncTimingData, slave_rx_sync_timing_data_f, fresh_slave_rx_sync_timing_data,
  SlaveRxSyncComputedData, slave_rx_sync_computed_data_f, fresh_slave_rx_sync_computed_data,
  SlaveTxEventTimestamps, slave_tx_event_timestamps_f, fresh_slave_tx_event_timestamps,
  SlaveDelayTimingDataNp, slave_delay_timing_data_np_f, fresh_slave_delay_timing_data_np,
}
use libpmc.Sig.Single.{
  proc_left, OrganizationExtension, organization_extension_f, fresh_organization_extension,
  AlternateTimeOffsetIndicator, alternate_time_offset_indicator_f,
  fresh_alternate_time_offset_indicator, L1Sync, l1_sync_f, fresh_l1_sync,
  PortCommunicationAvailability, port_communication_availability_f,
  fresh_port_communication_availability, ProtocolAddress, protocol_address_f,
  fresh_protocol_address, CumulativeRateRatio, cumulative_rate_ratio_f, fresh_cumulative_rate_ratio,
}
use libpmc.Sig.Records.{
  SlaveRxSyncTimingDataRec, proc_slave_rx_sync_timing_data_rec, fresh_slave_rx_sync_timing_data_rec,
  SlaveRxSyncComputedDataRec, proc_slave_rx_sync_computed_data_rec,
  fresh_slave_rx_sync_computed_data_rec, SlaveTxEventTimestampsRec,
  proc_slave_tx_event_timestamps_rec, fresh_slave_tx_event_timestamps_rec,
  SlaveDelayTimingDataNpRec, proc_slave_delay_timing_data_np_rec,
  fresh_slave_delay_timing_data_np_rec,
}

Safe-left : (bin : List ℕ) → Safe (proc_left bin)
unfolding proc_left
Safe-left bin = record { at = λ c dir room. (Safe-binary bin (c.left % 2 ^ 16)).at c dir room }

Safe-slave_rx_sync_timing_data_rec :
    (d : SlaveRxSyncTimingDataRec) → Safe (proc_slave_rx_sync_timing_data_rec d)
unfolding proc_slave_rx_sync_timing_data_rec
Safe-slave_rx_sync_timing_data_rec d = search type_safety depth 16

Eats-slave_rx_sync_timing_data_rec :
    (d : SlaveRxSyncTimingDataRec) → Eats 1 (proc_slave_rx_sync_timing_data_rec d)
unfolding proc_slave_rx_sync_timing_data_rec
Eats-slave_rx_sync_timing_data_rec d = Eats-less 1 2 (omega arith) (
    Eats-bind 2 (proc_u16 d.sequence_id) _ (Eats-uint 2 d.sequence_id) (Safe-uint 2 d.sequence_id)
      (λ n. search type_safety depth 16))

Safe-slave_rx_sync_computed_data_rec :
    (d : SlaveRxSyncComputedDataRec) → Safe (proc_slave_rx_sync_computed_data_rec d)
unfolding proc_slave_rx_sync_computed_data_rec
Safe-slave_rx_sync_computed_data_rec d = search type_safety depth 16

Eats-slave_rx_sync_computed_data_rec :
    (d : SlaveRxSyncComputedDataRec) → Eats 1 (proc_slave_rx_sync_computed_data_rec d)
unfolding proc_slave_rx_sync_computed_data_rec
Eats-slave_rx_sync_computed_data_rec d = Eats-less 1 2 (omega arith) (
    Eats-bind 2 (proc_u16 d.sequence_id) _ (Eats-uint 2 d.sequence_id) (Safe-uint 2 d.sequence_id)
      (λ n. search type_safety depth 16))

Safe-slave_tx_event_timestamps_rec :
    (d : SlaveTxEventTimestampsRec) → Safe (proc_slave_tx_event_timestamps_rec d)
unfolding proc_slave_tx_event_timestamps_rec
Safe-slave_tx_event_timestamps_rec d = search type_safety depth 16

Eats-slave_tx_event_timestamps_rec :
    (d : SlaveTxEventTimestampsRec) → Eats 1 (proc_slave_tx_event_timestamps_rec d)
unfolding proc_slave_tx_event_timestamps_rec
Eats-slave_tx_event_timestamps_rec d = Eats-less 1 2 (omega arith) (
    Eats-bind 2 (proc_u16 d.sequence_id) _ (Eats-uint 2 d.sequence_id) (Safe-uint 2 d.sequence_id)
      (λ n. search type_safety depth 16))

Safe-slave_delay_timing_data_np_rec :
    (d : SlaveDelayTimingDataNpRec) → Safe (proc_slave_delay_timing_data_np_rec d)
unfolding proc_slave_delay_timing_data_np_rec
Safe-slave_delay_timing_data_np_rec d = search type_safety depth 16

Eats-slave_delay_timing_data_np_rec :
    (d : SlaveDelayTimingDataNpRec) → Eats 1 (proc_slave_delay_timing_data_np_rec d)
unfolding proc_slave_delay_timing_data_np_rec
Eats-slave_delay_timing_data_np_rec d = Eats-less 1 2 (omega arith) (
    Eats-bind 2 (proc_u16 d.sequence_id) _ (Eats-uint 2 d.sequence_id) (Safe-uint 2 d.sequence_id)
      (λ n. search type_safety depth 16))

Safe-list_slave_rx_sync_timing_data_rec :
    (list : List SlaveRxSyncTimingDataRec)
    → Safe (vector_o proc_slave_rx_sync_timing_data_rec fresh_slave_rx_sync_timing_data_rec 34 list)
Safe-list_slave_rx_sync_timing_data_rec list =
    Safe-vector_o proc_slave_rx_sync_timing_data_rec fresh_slave_rx_sync_timing_data_rec 34 list
      (Safe-slave_rx_sync_timing_data_rec fresh_slave_rx_sync_timing_data_rec)
      (Eats-slave_rx_sync_timing_data_rec fresh_slave_rx_sync_timing_data_rec)

Safe-list_slave_rx_sync_computed_data_rec :
    (list : List SlaveRxSyncComputedDataRec)
    → Safe (
        vector_o proc_slave_rx_sync_computed_data_rec fresh_slave_rx_sync_computed_data_rec 22 list)
Safe-list_slave_rx_sync_computed_data_rec list =
    Safe-vector_o proc_slave_rx_sync_computed_data_rec fresh_slave_rx_sync_computed_data_rec 22 list
      (Safe-slave_rx_sync_computed_data_rec fresh_slave_rx_sync_computed_data_rec)
      (Eats-slave_rx_sync_computed_data_rec fresh_slave_rx_sync_computed_data_rec)

Safe-list_slave_tx_event_timestamps_rec :
    (list : List SlaveTxEventTimestampsRec)
    → Safe (vector_o proc_slave_tx_event_timestamps_rec fresh_slave_tx_event_timestamps_rec 12 list)
Safe-list_slave_tx_event_timestamps_rec list =
    Safe-vector_o proc_slave_tx_event_timestamps_rec fresh_slave_tx_event_timestamps_rec 12 list
      (Safe-slave_tx_event_timestamps_rec fresh_slave_tx_event_timestamps_rec)
      (Eats-slave_tx_event_timestamps_rec fresh_slave_tx_event_timestamps_rec)

Safe-list_slave_delay_timing_data_np_rec :
    (list : List SlaveDelayTimingDataNpRec)
    → Safe
        (vector_o proc_slave_delay_timing_data_np_rec fresh_slave_delay_timing_data_np_rec 30 list)
Safe-list_slave_delay_timing_data_np_rec list =
    Safe-vector_o proc_slave_delay_timing_data_np_rec fresh_slave_delay_timing_data_np_rec 30 list
      (Safe-slave_delay_timing_data_np_rec fresh_slave_delay_timing_data_np_rec)
      (Eats-slave_delay_timing_data_np_rec fresh_slave_delay_timing_data_np_rec)

Safe-organization_extension : (d : OrganizationExtension) → Safe (organization_extension_f d)
unfolding organization_extension_f
Safe-organization_extension d = search (type_safety, Safe-left) depth 16

Safe-alternate_time_offset_indicator :
    (d : AlternateTimeOffsetIndicator) → Safe (alternate_time_offset_indicator_f d)
unfolding alternate_time_offset_indicator_f
Safe-alternate_time_offset_indicator d = search type_safety depth 16

Safe-l1_sync : (d : L1Sync) → Safe (l1_sync_f d)
unfolding l1_sync_f
Safe-l1_sync d = search type_safety depth 16

Safe-port_communication_availability :
    (d : PortCommunicationAvailability) → Safe (port_communication_availability_f d)
unfolding port_communication_availability_f
Safe-port_communication_availability d = search type_safety depth 16

Safe-protocol_address : (d : ProtocolAddress) → Safe (protocol_address_f d)
unfolding protocol_address_f
Safe-protocol_address d = search type_safety depth 16

Safe-slave_rx_sync_timing_data : (d : SlaveRxSyncTimingData) → Safe (slave_rx_sync_timing_data_f d)
unfolding slave_rx_sync_timing_data_f
Safe-slave_rx_sync_timing_data d =
    search (type_safety, Safe-list_slave_rx_sync_timing_data_rec) depth 16

Safe-slave_rx_sync_computed_data :
    (d : SlaveRxSyncComputedData) → Safe (slave_rx_sync_computed_data_f d)
unfolding slave_rx_sync_computed_data_f
Safe-slave_rx_sync_computed_data d =
    search (type_safety, Safe-list_slave_rx_sync_computed_data_rec) depth 16

Safe-slave_tx_event_timestamps : (d : SlaveTxEventTimestamps) → Safe (slave_tx_event_timestamps_f d)
unfolding slave_tx_event_timestamps_f
Safe-slave_tx_event_timestamps d =
    search (type_safety, Safe-list_slave_tx_event_timestamps_rec) depth 16

Safe-cumulative_rate_ratio : (d : CumulativeRateRatio) → Safe (cumulative_rate_ratio_f d)
unfolding cumulative_rate_ratio_f
Safe-cumulative_rate_ratio d = search type_safety depth 16

Safe-slave_delay_timing_data_np :
    (d : SlaveDelayTimingDataNp) → Safe (slave_delay_timing_data_np_f d)
unfolding slave_delay_timing_data_np_f
Safe-slave_delay_timing_data_np d =
    search (type_safety, Safe-list_slave_delay_timing_data_np_rec) depth 16

Safe-path_trace : (d : List ClockIdentity) → Safe (path_trace_f d)
unfolding path_trace_f
Safe-path_trace d = Safe-vector_o proc_clock_identity [] 8 d (Safe-identity []) (Eats-identity [])

Safe-new_organization_extension : Safe new_organization_extension
unfolding new_organization_extension
Safe-new_organization_extension =
    Safe-bind _ _ (Safe-organization_extension fresh_organization_extension)
      (λ x. Safe-pure (some (organization_extension x)))

Safe-new_alternate_time_offset_indicator : Safe new_alternate_time_offset_indicator
unfolding new_alternate_time_offset_indicator
Safe-new_alternate_time_offset_indicator =
    Safe-bind _ _ (Safe-alternate_time_offset_indicator fresh_alternate_time_offset_indicator)
      (λ x. Safe-pure (some (alternate_time_offset_indicator x)))

Safe-new_l1_sync : Safe new_l1_sync
unfolding new_l1_sync
Safe-new_l1_sync = Safe-bind _ _ (Safe-l1_sync fresh_l1_sync) (λ x. Safe-pure (some (l1_sync x)))

Safe-new_port_communication_availability : Safe new_port_communication_availability
unfolding new_port_communication_availability
Safe-new_port_communication_availability =
    Safe-bind _ _ (Safe-port_communication_availability fresh_port_communication_availability)
      (λ x. Safe-pure (some (port_communication_availability x)))

Safe-new_protocol_address : Safe new_protocol_address
unfolding new_protocol_address
Safe-new_protocol_address =
    Safe-bind _ _ (Safe-protocol_address fresh_protocol_address)
      (λ x. Safe-pure (some (protocol_address x)))

Safe-new_slave_rx_sync_timing_data : Safe new_slave_rx_sync_timing_data
unfolding new_slave_rx_sync_timing_data
Safe-new_slave_rx_sync_timing_data =
    Safe-bind _ _ (Safe-slave_rx_sync_timing_data fresh_slave_rx_sync_timing_data)
      (λ x. Safe-pure (some (slave_rx_sync_timing_data x)))

Safe-new_slave_rx_sync_computed_data : Safe new_slave_rx_sync_computed_data
unfolding new_slave_rx_sync_computed_data
Safe-new_slave_rx_sync_computed_data =
    Safe-bind _ _ (Safe-slave_rx_sync_computed_data fresh_slave_rx_sync_computed_data)
      (λ x. Safe-pure (some (slave_rx_sync_computed_data x)))

Safe-new_slave_tx_event_timestamps : Safe new_slave_tx_event_timestamps
unfolding new_slave_tx_event_timestamps
Safe-new_slave_tx_event_timestamps =
    Safe-bind _ _ (Safe-slave_tx_event_timestamps fresh_slave_tx_event_timestamps)
      (λ x. Safe-pure (some (slave_tx_event_timestamps x)))

Safe-new_cumulative_rate_ratio : Safe new_cumulative_rate_ratio
unfolding new_cumulative_rate_ratio
Safe-new_cumulative_rate_ratio =
    Safe-bind _ _ (Safe-cumulative_rate_ratio fresh_cumulative_rate_ratio)
      (λ x. Safe-pure (some (cumulative_rate_ratio x)))

Safe-new_slave_delay_timing_data_np : Safe new_slave_delay_timing_data_np
unfolding new_slave_delay_timing_data_np
Safe-new_slave_delay_timing_data_np =
    Safe-bind _ _ (Safe-slave_delay_timing_data_np fresh_slave_delay_timing_data_np)
      (λ x. Safe-pure (some (slave_delay_timing_data_np x)))

Safe-new_path_trace : Safe new_path_trace
unfolding new_path_trace
Safe-new_path_trace = Safe-bind _ _ (Safe-path_trace []) (λ x. Safe-pure (some (path_trace x)))

pub Safe-sig_tlv : (linuxptp : Bool) (t : ℕ) → (t == 0x4001) ≡ false → Safe (sig_tlv linuxptp t)
unfolding sig_tlv
Safe-sig_tlv linuxptp t other = rw other (
    Safe-if (t == 0x4000 || (t == 0x8000 || t == 3)) _ _ Safe-new_organization_extension (
      Safe-if (t == 8) _ _ Safe-new_path_trace (
        Safe-if (t == 9) _ _ Safe-new_alternate_time_offset_indicator (
          Safe-if (t == 0x8001) _ _ Safe-new_l1_sync (
            Safe-if (t == 0x8002) _ _ Safe-new_port_communication_availability (
              Safe-if (t == 0x8003) _ _ Safe-new_protocol_address (
                Safe-if (t == 0x8004) _ _ Safe-new_slave_rx_sync_timing_data (
                  Safe-if (t == 0x8005) _ _ Safe-new_slave_rx_sync_computed_data (
                    Safe-if (t == 0x8006) _ _ Safe-new_slave_tx_event_timestamps (
                      Safe-if (t == 0x8007) _ _ Safe-new_cumulative_rate_ratio (
                        Safe-if (linuxptp && t == 0x7f00) _ _ Safe-new_slave_delay_timing_data_np
                          (Safe-pure none))))))))))))
