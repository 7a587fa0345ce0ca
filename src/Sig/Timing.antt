-- ===== src/Sig/Timing.antt =====
-- The signaling TLVs that hold lists of records, sig.h and sig.cpp.
use libpmc.Base.{ℕ, List, []}
use libpmc.Wire.{Proc, ◌>>=◌, ◌>>◌, pure, proc_u8}
use libpmc.Types.{
  ClockIdentity, proc_clock_identity, PortIdentity, proc_port_identity, proc_flags, proc_reserved,
  vector_o, fresh_port,
}
use libpmc.Sig.Records.{
  SlaveRxSyncTimingDataRec, proc_slave_rx_sync_timing_data_rec, fresh_slave_rx_sync_timing_data_rec,
  SlaveRxSyncComputedDataRec, proc_slave_rx_sync_computed_data_rec,
  fresh_slave_rx_sync_computed_data_rec, SlaveTxEventTimestampsRec,
  proc_slave_tx_event_timestamps_rec, fresh_slave_tx_event_timestamps_rec,
  SlaveDelayTimingDataNpRec, proc_slave_delay_timing_data_np_rec,
  fresh_slave_delay_timing_data_np_rec,
}

pub record SlaveRxSyncTimingData : Type 0 where
  pub sync_source_port_identity : PortIdentity
  pub list : List SlaveRxSyncTimingDataRec

abbrev pub fresh_slave_rx_sync_timing_data : SlaveRxSyncTimingData
fresh_slave_rx_sync_timing_data = record { sync_source_port_identity = fresh_port; list = [] }

unfoldable pub slave_rx_sync_timing_data_f : SlaveRxSyncTimingData → Proc SlaveRxSyncTimingData
slave_rx_sync_timing_data_f d = do
  x0 ← proc_port_identity d.sync_source_port_identity
  x1 ← vector_o proc_slave_rx_sync_timing_data_rec fresh_slave_rx_sync_timing_data_rec 34 d.list
  pure (record { sync_source_port_identity = x0; list = x1 })

pub record SlaveRxSyncComputedData : Type 0 where
  pub source_port_identity : PortIdentity
  pub computed_flags : ℕ
  pub list : List SlaveRxSyncComputedDataRec

abbrev pub fresh_slave_rx_sync_computed_data : SlaveRxSyncComputedData
fresh_slave_rx_sync_computed_data = record {
  source_port_identity = fresh_port;
  computed_flags = 0;
  list = [];
}

unfoldable pub slave_rx_sync_computed_data_f :
    SlaveRxSyncComputedData → Proc SlaveRxSyncComputedData
slave_rx_sync_computed_data_f d = do
  x0 ← proc_port_identity d.source_port_identity
  x1 ← proc_flags 0x7 d.computed_flags
  proc_reserved
  x3 ← vector_o proc_slave_rx_sync_computed_data_rec fresh_slave_rx_sync_computed_data_rec 22 d.list
  pure (record { source_port_identity = x0; computed_flags = x1; list = x3 })

pub record SlaveTxEventTimestamps : Type 0 where
  pub source_port_identity : PortIdentity
  pub event_message_type : ℕ
  pub list : List SlaveTxEventTimestampsRec

abbrev pub fresh_slave_tx_event_timestamps : SlaveTxEventTimestamps
fresh_slave_tx_event_timestamps = record {
  source_port_identity = fresh_port;
  event_message_type = 0;
  list = [];
}

unfoldable pub slave_tx_event_timestamps_f : SlaveTxEventTimestamps → Proc SlaveTxEventTimestamps
slave_tx_event_timestamps_f d = do
  x0 ← proc_port_identity d.source_port_identity
  x1 ← proc_u8 d.event_message_type
  proc_reserved
  x3 ← vector_o proc_slave_tx_event_timestamps_rec fresh_slave_tx_event_timestamps_rec 12 d.list
  pure (record { source_port_identity = x0; event_message_type = x1; list = x3 })

pub record SlaveDelayTimingDataNp : Type 0 where
  pub source_port_identity : PortIdentity
  pub list : List SlaveDelayTimingDataNpRec

abbrev pub fresh_slave_delay_timing_data_np : SlaveDelayTimingDataNp
fresh_slave_delay_timing_data_np = record { source_port_identity = fresh_port; list = [] }

unfoldable pub slave_delay_timing_data_np_f : SlaveDelayTimingDataNp → Proc SlaveDelayTimingDataNp
slave_delay_timing_data_np_f d = do
  x0 ← proc_port_identity d.source_port_identity
  x1 ← vector_o proc_slave_delay_timing_data_np_rec fresh_slave_delay_timing_data_np_rec 30 d.list
  pure (record { source_port_identity = x0; list = x1 })

unfoldable pub path_trace_f : List ClockIdentity → Proc (List ClockIdentity)
path_trace_f d = vector_o proc_clock_identity [] 8 d
