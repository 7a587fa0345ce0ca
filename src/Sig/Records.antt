-- ===== src/Sig/Records.antt =====
-- The records of the signaling TLVs that hold lists, sig.h and sig.cpp.
use libpmc.Base.{ℕ}
use libpmc.Base.Int.{ℤ, pos}
use libpmc.Wire.{Proc, ◌>>=◌, pure, proc_u16, proc_i32}
use libpmc.Types.{TimeInterval, proc_time_interval, Timestamp, proc_timestamp, fresh_timestamp}

pub record SlaveRxSyncTimingDataRec : Type 0 where
  pub sequence_id : ℕ
  pub sync_origin_timestamp : Timestamp
  pub total_correction_field : TimeInterval
  pub scaled_cumulative_rate_offset : ℤ
  pub sync_event_ingress_timestamp : Timestamp

abbrev pub fresh_slave_rx_sync_timing_data_rec : SlaveRxSyncTimingDataRec
fresh_slave_rx_sync_timing_data_rec = record {
  sequence_id = 0;
  sync_origin_timestamp = fresh_timestamp;
  total_correction_field = pos 0;
  scaled_cumulative_rate_offset = pos 0;
  sync_event_ingress_timestamp = fresh_timestamp;
}

unfoldable pub proc_slave_rx_sync_timing_data_rec :
    SlaveRxSyncTimingDataRec → Proc SlaveRxSyncTimingDataRec
proc_slave_rx_sync_timing_data_rec d = do
  x0 ← proc_u16 d.sequence_id
  x1 ← proc_timestamp d.sync_origin_timestamp
  x2 ← proc_time_interval d.total_correction_field
  x3 ← proc_i32 d.scaled_cumulative_rate_offset
  x4 ← proc_timestamp d.sync_event_ingress_timestamp
  pure (record {
    sequence_id = x0;
    sync_origin_timestamp = x1;
    total_correction_field = x2;
    scaled_cumulative_rate_offset = x3;
    sync_event_ingress_timestamp = x4;
  })

pub record SlaveRxSyncComputedDataRec : Type 0 where
  pub sequence_id : ℕ
  pub offset_from_master : TimeInterval
  pub mean_path_delay : TimeInterval
  pub scaled_neighbor_rate_ratio : ℤ

abbrev pub fresh_slave_rx_sync_computed_data_rec : SlaveRxSyncComputedDataRec
fresh_slave_rx_sync_computed_data_rec = record {
  sequence_id = 0;
  offset_from_master = pos 0;
  mean_path_delay = pos 0;
  scaled_neighbor_rate_ratio = pos 0;
}

unfoldable pub proc_slave_rx_sync_computed_data_rec :
    SlaveRxSyncComputedDataRec → Proc SlaveRxSyncComputedDataRec
proc_slave_rx_sync_computed_data_rec d = do
  x0 ← proc_u16 d.sequence_id
  x1 ← proc_time_interval d.offset_from_master
  x2 ← proc_time_interval d.mean_path_delay
  x3 ← proc_i32 d.scaled_neighbor_rate_ratio
  pure (record {
    sequence_id = x0;
    offset_from_master = x1;
    mean_path_delay = x2;
    scaled_neighbor_rate_ratio = x3;
  })

pub record SlaveTxEventTimestampsRec : Type 0 where
  pub sequence_id : ℕ
  pub event_egress_timestamp : Timestamp

abbrev pub fresh_slave_tx_event_timestamps_rec : SlaveTxEventTimestampsRec
fresh_slave_tx_event_timestamps_rec = record {
  sequence_id = 0;
  event_egress_timestamp = fresh_timestamp;
}

unfoldable pub proc_slave_tx_event_timestamps_rec :
    SlaveTxEventTimestampsRec → Proc SlaveTxEventTimestampsRec
proc_slave_tx_event_timestamps_rec d = do
  x0 ← proc_u16 d.sequence_id
  x1 ← proc_timestamp d.event_egress_timestamp
  pure (record { sequence_id = x0; event_egress_timestamp = x1 })

pub record SlaveDelayTimingDataNpRec : Type 0 where
  pub sequence_id : ℕ
  pub delay_origin_timestamp : Timestamp
  pub total_correction_field : TimeInterval
  pub delay_response_timestamp : Timestamp

abbrev pub fresh_slave_delay_timing_data_np_rec : SlaveDelayTimingDataNpRec
fresh_slave_delay_timing_data_np_rec = record {
  sequence_id = 0;
  delay_origin_timestamp = fresh_timestamp;
  total_correction_field = pos 0;
  delay_response_timestamp = fresh_timestamp;
}

unfoldable pub proc_slave_delay_timing_data_np_rec :
    SlaveDelayTimingDataNpRec → Proc SlaveDelayTimingDataNpRec
proc_slave_delay_timing_data_np_rec d = do
  x0 ← proc_u16 d.sequence_id
  x1 ← proc_timestamp d.delay_origin_timestamp
  x2 ← proc_time_interval d.total_correction_field
  x3 ← proc_timestamp d.delay_response_timestamp
  pure (record {
    sequence_id = x0;
    delay_origin_timestamp = x1;
    total_correction_field = x2;
    delay_response_timestamp = x3;
  })
