-- ===== src/Mng/Linuxptp.antt =====
-- The TLVs of linuxptp of proc.h and their functions in proc.cpp.
pub mod Codecs
use libpmc.Base.{ℕ, List, []}
use libpmc.Base.Int.{ℤ, pos}
use libpmc.Wire.{
  Proc, ◌>>=◌, pure, proc_u8, proc_u16, proc_u32, proc_u64, proc_i16, proc_i32, proc_i64,
  proc_octets,
}
use libpmc.Types.{
  ClockIdentity, PortIdentity, ClockQuality, PtpText, proc_clock_identity, proc_port_identity,
  proc_clock_quality, proc_ptp_text, proc_flags, fresh_port, fresh_quality, fresh_text,
}

pub record TimeStatusNp : Type 0 where
  pub master_offset : ℤ
  pub ingress_time : ℤ
  pub cumulative_scaled_rate_offset : ℤ
  pub scaled_last_gm_phase_change : ℤ
  pub gm_time_base_indicator : ℕ
  pub nanoseconds_msb : ℕ
  pub nanoseconds_lsb : ℕ
  pub fractional_nanoseconds : ℕ
  pub gm_present : ℤ
  pub gm_identity : ClockIdentity

abbrev pub fresh_time_status_np : TimeStatusNp
fresh_time_status_np = record {
  master_offset = pos 0;
  ingress_time = pos 0;
  cumulative_scaled_rate_offset = pos 0;
  scaled_last_gm_phase_change = pos 0;
  gm_time_base_indicator = 0;
  nanoseconds_msb = 0;
  nanoseconds_lsb = 0;
  fractional_nanoseconds = 0;
  gm_present = pos 0;
  gm_identity = [];
}

unfoldable pub time_status_np_f : TimeStatusNp → Proc TimeStatusNp
time_status_np_f d = do
  x0 ← proc_i64 d.master_offset
  x1 ← proc_i64 d.ingress_time
  x2 ← proc_i32 d.cumulative_scaled_rate_offset
  x3 ← proc_i32 d.scaled_last_gm_phase_change
  x4 ← proc_u16 d.gm_time_base_indicator
  x5 ← proc_u16 d.nanoseconds_msb
  x6 ← proc_u64 d.nanoseconds_lsb
  x7 ← proc_u16 d.fractional_nanoseconds
  x8 ← proc_i32 d.gm_present
  x9 ← proc_clock_identity d.gm_identity
  pure (record {
    master_offset = x0;
    ingress_time = x1;
    cumulative_scaled_rate_offset = x2;
    scaled_last_gm_phase_change = x3;
    gm_time_base_indicator = x4;
    nanoseconds_msb = x5;
    nanoseconds_lsb = x6;
    fractional_nanoseconds = x7;
    gm_present = x8;
    gm_identity = x9;
  })

pub record GrandmasterSettingsNp : Type 0 where
  pub clock_quality : ClockQuality
  pub current_utc_offset : ℤ
  pub flags : ℕ
  pub time_source : ℕ

abbrev pub fresh_grandmaster_settings_np : GrandmasterSettingsNp
fresh_grandmaster_settings_np = record {
  clock_quality = fresh_quality;
  current_utc_offset = pos 0;
  flags = 0;
  time_source = 0;
}

unfoldable pub grandmaster_settings_np_f : GrandmasterSettingsNp → Proc GrandmasterSettingsNp
grandmaster_settings_np_f d = do
  x0 ← proc_clock_quality d.clock_quality
  x1 ← proc_i16 d.current_utc_offset
  x2 ← proc_flags 0x3f d.flags
  x3 ← proc_u8 d.time_source
  pure (record { clock_quality = x0; current_utc_offset = x1; flags = x2; time_source = x3 })

pub record PortDataSetNp : Type 0 where
  pub neighbor_prop_delay_thresh : ℕ
  pub as_capable : ℤ

abbrev pub fresh_port_data_set_np : PortDataSetNp
fresh_port_data_set_np = record { neighbor_prop_delay_thresh = 0; as_capable = pos 0 }

unfoldable pub port_data_set_np_f : PortDataSetNp → Proc PortDataSetNp
port_data_set_np_f d = do
  x0 ← proc_u32 d.neighbor_prop_delay_thresh
  x1 ← proc_i32 d.as_capable
  pure (record { neighbor_prop_delay_thresh = x0; as_capable = x1 })

pub record SubscribeEventsNp : Type 0 where
  pub duration : ℕ
  pub bitmask : List ℕ

abbrev pub fresh_subscribe_events_np : SubscribeEventsNp
fresh_subscribe_events_np = record { duration = 0; bitmask = [] }

unfoldable pub subscribe_events_np_f : SubscribeEventsNp → Proc SubscribeEventsNp
subscribe_events_np_f d = do
  x0 ← proc_u16 d.duration
  x1 ← proc_octets 64 d.bitmask
  pure (record { duration = x0; bitmask = x1 })

pub record PortPropertiesNp : Type 0 where
  pub port_identity : PortIdentity
  pub port_state : ℕ
  pub timestamping : ℕ
  pub interface : PtpText

abbrev pub fresh_port_properties_np : PortPropertiesNp
fresh_port_properties_np = record {
  port_identity = fresh_port;
  port_state = 0;
  timestamping = 0;
  interface = fresh_text;
}

unfoldable pub port_properties_np_f : PortPropertiesNp → Proc PortPropertiesNp
port_properties_np_f d = do
  x0 ← proc_port_identity d.port_identity
  x1 ← proc_u8 d.port_state
  x2 ← proc_u8 d.timestamping
  x3 ← proc_ptp_text d.interface
  pure (record { port_identity = x0; port_state = x1; timestamping = x2; interface = x3 })
