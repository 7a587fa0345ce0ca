-- ===== src/Mng/DataSets.antt =====
-- The data sets of proc.h and their functions in proc.cpp.
pub mod Codecs
pub mod PortCodecs
use libpmc.Base.{ℕ, []}
use libpmc.Base.Int.{ℤ, pos}
use libpmc.Wire.{Proc, ◌>>=◌, ◌>>◌, pure, proc_u8, proc_u16, proc_i8, proc_i16, proc_i32}
use libpmc.Types.{
  TimeInterval, ClockIdentity, PortIdentity, ClockQuality, proc_time_interval, proc_clock_identity,
  proc_port_identity, proc_clock_quality, proc_flags, proc_reserved, fresh_port, fresh_quality,
}

pub record DefaultDataSet : Type 0 where
  pub flags : ℕ
  pub number_ports : ℕ
  pub priority1 : ℕ
  pub clock_quality : ClockQuality
  pub priority2 : ℕ
  pub clock_identity : ClockIdentity
  pub domain_number : ℕ

abbrev pub fresh_default_data_set : DefaultDataSet
fresh_default_data_set = record {
  flags = 0;
  number_ports = 0;
  priority1 = 0;
  clock_quality = fresh_quality;
  priority2 = 0;
  clock_identity = [];
  domain_number = 0;
}

unfoldable pub default_data_set_f : DefaultDataSet → Proc DefaultDataSet
default_data_set_f d = do
  x0 ← proc_flags 0x3 d.flags
  proc_reserved
  x2 ← proc_u16 d.number_ports
  x3 ← proc_u8 d.priority1
  x4 ← proc_clock_quality d.clock_quality
  x5 ← proc_u8 d.priority2
  x6 ← proc_clock_identity d.clock_identity
  x7 ← proc_u8 d.domain_number
  pure (record {
    flags = x0;
    number_ports = x2;
    priority1 = x3;
    clock_quality = x4;
    priority2 = x5;
    clock_identity = x6;
    domain_number = x7;
  })

pub record CurrentDataSet : Type 0 where
  pub steps_removed : ℕ
  pub offset_from_master : TimeInterval
  pub mean_path_delay : TimeInterval

abbrev pub fresh_current_data_set : CurrentDataSet
fresh_current_data_set = record {
  steps_removed = 0;
  offset_from_master = pos 0;
  mean_path_delay = pos 0;
}

unfoldable pub current_data_set_f : CurrentDataSet → Proc CurrentDataSet
current_data_set_f d = do
  x0 ← proc_u16 d.steps_removed
  x1 ← proc_time_interval d.offset_from_master
  x2 ← proc_time_interval d.mean_path_delay
  pure (record { steps_removed = x0; offset_from_master = x1; mean_path_delay = x2 })

pub record ParentDataSet : Type 0 where
  pub parent_port_identity : PortIdentity
  pub flags : ℕ
  pub observed_parent_offset_scaled_log_variance : ℕ
  pub observed_parent_clock_phase_change_rate : ℤ
  pub grandmaster_priority1 : ℕ
  pub grandmaster_clock_quality : ClockQuality
  pub grandmaster_priority2 : ℕ
  pub grandmaster_identity : ClockIdentity

abbrev pub fresh_parent_data_set : ParentDataSet
fresh_parent_data_set = record {
  parent_port_identity = fresh_port;
  flags = 0;
  observed_parent_offset_scaled_log_variance = 0;
  observed_parent_clock_phase_change_rate = pos 0;
  grandmaster_priority1 = 0;
  grandmaster_clock_quality = fresh_quality;
  grandmaster_priority2 = 0;
  grandmaster_identity = [];
}

unfoldable pub parent_data_set_f : ParentDataSet → Proc ParentDataSet
parent_data_set_f d = do
  x0 ← proc_port_identity d.parent_port_identity
  x1 ← proc_flags 0x1 d.flags
  proc_reserved
  x3 ← proc_u16 d.observed_parent_offset_scaled_log_variance
  x4 ← proc_i32 d.observed_parent_clock_phase_change_rate
  x5 ← proc_u8 d.grandmaster_priority1
  x6 ← proc_clock_quality d.grandmaster_clock_quality
  x7 ← proc_u8 d.grandmaster_priority2
  x8 ← proc_clock_identity d.grandmaster_identity
  pure (record {
    parent_port_identity = x0;
    flags = x1;
    observed_parent_offset_scaled_log_variance = x3;
    observed_parent_clock_phase_change_rate = x4;
    grandmaster_priority1 = x5;
    grandmaster_clock_quality = x6;
    grandmaster_priority2 = x7;
    grandmaster_identity = x8;
  })

pub record TimePropertiesDataSet : Type 0 where
  pub current_utc_offset : ℤ
  pub flags : ℕ
  pub time_source : ℕ

abbrev pub fresh_time_properties_data_set : TimePropertiesDataSet
fresh_time_properties_data_set = record { current_utc_offset = pos 0; flags = 0; time_source = 0 }

unfoldable pub time_properties_data_set_f : TimePropertiesDataSet → Proc TimePropertiesDataSet
time_properties_data_set_f d = do
  x0 ← proc_i16 d.current_utc_offset
  x1 ← proc_flags 0x3f d.flags
  x2 ← proc_u8 d.time_source
  pure (record { current_utc_offset = x0; flags = x1; time_source = x2 })

pub record PortDataSet : Type 0 where
  pub port_identity : PortIdentity
  pub port_state : ℕ
  pub log_min_delay_req_interval : ℤ
  pub peer_mean_path_delay : TimeInterval
  pub log_announce_interval : ℤ
  pub announce_receipt_timeout : ℕ
  pub log_sync_interval : ℤ
  pub delay_mechanism : ℕ
  pub log_min_pdelay_req_interval : ℤ
  pub version_number : ℕ

abbrev pub fresh_port_data_set : PortDataSet
fresh_port_data_set = record {
  port_identity = fresh_port;
  port_state = 0;
  log_min_delay_req_interval = pos 0;
  peer_mean_path_delay = pos 0;
  log_announce_interval = pos 0;
  announce_receipt_timeout = 0;
  log_sync_interval = pos 0;
  delay_mechanism = 0;
  log_min_pdelay_req_interval = pos 0;
  version_number = 0;
}

unfoldable pub port_data_set_f : PortDataSet → Proc PortDataSet
port_data_set_f d = do
  x0 ← proc_port_identity d.port_identity
  x1 ← proc_u8 d.port_state
  x2 ← proc_i8 d.log_min_delay_req_interval
  x3 ← proc_time_interval d.peer_mean_path_delay
  x4 ← proc_i8 d.log_announce_interval
  x5 ← proc_u8 d.announce_receipt_timeout
  x6 ← proc_i8 d.log_sync_interval
  x7 ← proc_u8 d.delay_mechanism
  x8 ← proc_i8 d.log_min_pdelay_req_interval
  x9 ← proc_u8 d.version_number
  pure (record {
    port_identity = x0;
    port_state = x1;
    log_min_delay_req_interval = x2;
    peer_mean_path_delay = x3;
    log_announce_interval = x4;
    announce_receipt_timeout = x5;
    log_sync_interval = x6;
    delay_mechanism = x7;
    log_min_pdelay_req_interval = x8;
    version_number = x9;
  })

pub record TransparentClockPortDataSet : Type 0 where
  pub port_identity : PortIdentity
  pub flags : ℕ
  pub log_min_pdelay_req_interval : ℤ
  pub peer_mean_path_delay : TimeInterval

abbrev pub fresh_transparent_clock_port_data_set : TransparentClockPortDataSet
fresh_transparent_clock_port_data_set = record {
  port_identity = fresh_port;
  flags = 0;
  log_min_pdelay_req_interval = pos 0;
  peer_mean_path_delay = pos 0;
}

unfoldable pub transparent_clock_port_data_set_f :
    TransparentClockPortDataSet → Proc TransparentClockPortDataSet
transparent_clock_port_data_set_f d = do
  x0 ← proc_port_identity d.port_identity
  x1 ← proc_flags 0x1 d.flags
  x2 ← proc_i8 d.log_min_pdelay_req_interval
  x3 ← proc_time_interval d.peer_mean_path_delay
  pure (record {
    port_identity = x0;
    flags = x1;
    log_min_pdelay_req_interval = x2;
    peer_mean_path_delay = x3;
  })

pub record TransparentClockDefaultDataSet : Type 0 where
  pub clock_identity : ClockIdentity
  pub number_ports : ℕ
  pub delay_mechanism : ℕ
  pub primary_domain : ℕ

abbrev pub fresh_transparent_clock_default_data_set : TransparentClockDefaultDataSet
fresh_transparent_clock_default_data_set = record {
  clock_identity = [];
  number_ports = 0;
  delay_mechanism = 0;
  primary_domain = 0;
}

unfoldable pub transparent_clock_default_data_set_f :
    TransparentClockDefaultDataSet → Proc TransparentClockDefaultDataSet
transparent_clock_default_data_set_f d = do
  x0 ← proc_clock_identity d.clock_identity
  x1 ← proc_u16 d.number_ports
  x2 ← proc_u8 d.delay_mechanism
  x3 ← proc_u8 d.primary_domain
  pure
      (record { clock_identity = x0; number_ports = x1; delay_mechanism = x2; primary_domain = x3 })

pub record ExtPortConfigPortDataSet : Type 0 where
  pub flags : ℕ
  pub desired_state : ℕ

abbrev pub fresh_ext_port_config_port_data_set : ExtPortConfigPortDataSet
fresh_ext_port_config_port_data_set = record { flags = 0; desired_state = 0 }

unfoldable pub ext_port_config_port_data_set_f :
    ExtPortConfigPortDataSet → Proc ExtPortConfigPortDataSet
ext_port_config_port_data_set_f d = do
  x0 ← proc_flags 0x1 d.flags
  x1 ← proc_u8 d.desired_state
  pure (record { flags = x0; desired_state = x1 })
