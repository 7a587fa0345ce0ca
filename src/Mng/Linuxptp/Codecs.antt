-- ===== src/Mng/Linuxptp/Codecs.antt =====
-- The octets of the TLVs of linuxptp, and that the functions write and read exactly those.
use libpmc.Base.{ℕ, ◌^◌, ◌<◌, ◌≡◌, true, false, List, ◌++◌, length, arith}
use libpmc.Base.Int.{InWord}
use libpmc.Wire.{net}
use libpmc.Wire.Codec.{Runs, Runs-bind, Runs-map}
use libpmc.Wire.Values.{
  net_int, u8-write, u8-read, u16-write, u16-read, u32-write, u32-read, u64-write, u64-read,
  i16-write, i16-read, i32-write, i32-read, i64-write, i64-read, octets-write, octets-read,
}
use libpmc.Types.{masked}
use libpmc.Types.Codecs.{
  masked-lt, flags-write, flags-read, identity-write, identity-read, port-write, port-read,
  quality-write, quality-read, text-write, text-read, port_octets, quality_octets, text_octets,
  sent_text, ValidPort, ValidQuality, ValidText, IsIdentity,
}
use libpmc.Mng.Linuxptp.{
  TimeStatusNp, time_status_np_f, GrandmasterSettingsNp, grandmaster_settings_np_f, PortDataSetNp,
  port_data_set_np_f, SubscribeEventsNp, subscribe_events_np_f, PortPropertiesNp,
  port_properties_np_f,
}

pub record ValidTimeStatusNp (d : TimeStatusNp) : Type 0 where
  pub master_offset : InWord (2 ^ 64) d.master_offset
  pub ingress_time : InWord (2 ^ 64) d.ingress_time
  pub cumulative_scaled_rate_offset : InWord (2 ^ 32) d.cumulative_scaled_rate_offset
  pub scaled_last_gm_phase_change : InWord (2 ^ 32) d.scaled_last_gm_phase_change
  pub gm_time_base_indicator : d.gm_time_base_indicator < 2 ^ 16
  pub nanoseconds_msb : d.nanoseconds_msb < 2 ^ 16
  pub nanoseconds_lsb : d.nanoseconds_lsb < 2 ^ 64
  pub fractional_nanoseconds : d.fractional_nanoseconds < 2 ^ 16
  pub gm_present : InWord (2 ^ 32) d.gm_present
  pub gm_identity : IsIdentity d.gm_identity

abbrev pub time_status_np_octets : TimeStatusNp → List ℕ
time_status_np_octets d =
    net_int 8 d.master_offset
    ++ (net_int 8 d.ingress_time
        ++ (net_int 4 d.cumulative_scaled_rate_offset
            ++ (net_int 4 d.scaled_last_gm_phase_change
                ++ (net 2 d.gm_time_base_indicator
                    ++ (net 2 d.nanoseconds_msb
                        ++ (net 8 d.nanoseconds_lsb
                            ++ (net 2 d.fractional_nanoseconds
                                ++ (net_int 4 d.gm_present ++ (d.gm_identity)))))))))

pub time_status_np-write :
    (d : TimeStatusNp)
    → ValidTimeStatusNp d
    → Runs true (time_status_np_f d) (time_status_np_octets d) d
unfolding time_status_np_f
time_status_np-write d v = Runs-bind _ i64-write (
    Runs-bind _ i64-write (
      Runs-bind _ i32-write (
        Runs-bind _ i32-write (
          Runs-bind _ u16-write (
            Runs-bind _ u16-write (
              Runs-bind _ u64-write (
                Runs-bind _ u16-write
                  (Runs-bind _ i32-write (Runs-map _ (identity-write v.gm_identity))))))))))

pub time_status_np-read :
    (w d : TimeStatusNp)
    → ValidTimeStatusNp d
    → Runs false (time_status_np_f w) (time_status_np_octets d) d
unfolding time_status_np_f
time_status_np-read w d v = Runs-bind _ (i64-read _ v.master_offset) (
    Runs-bind _ (i64-read _ v.ingress_time) (
      Runs-bind _ (i32-read _ v.cumulative_scaled_rate_offset) (
        Runs-bind _ (i32-read _ v.scaled_last_gm_phase_change) (
          Runs-bind _ (u16-read _ v.gm_time_base_indicator) (
            Runs-bind _ (u16-read _ v.nanoseconds_msb) (
              Runs-bind _ (u64-read _ v.nanoseconds_lsb) (
                Runs-bind _ (u16-read _ v.fractional_nanoseconds) (
                  Runs-bind _ (i32-read _ v.gm_present)
                    (Runs-map _ (identity-read _ v.gm_identity))))))))))

pub record ValidGrandmasterSettingsNp (d : GrandmasterSettingsNp) : Type 0 where
  pub clock_quality : ValidQuality d.clock_quality
  pub current_utc_offset : InWord 65536 d.current_utc_offset
  pub flags : d.flags < 256
  pub time_source : d.time_source < 256

abbrev pub sent_grandmaster_settings_np : GrandmasterSettingsNp → GrandmasterSettingsNp
sent_grandmaster_settings_np d = record d { flags = masked 0x3f d.flags }

abbrev pub grandmaster_settings_np_octets : GrandmasterSettingsNp → List ℕ
grandmaster_settings_np_octets d =
    quality_octets d.clock_quality
    ++ (net_int 2 d.current_utc_offset ++ (net 1 (masked 0x3f d.flags) ++ (net 1 d.time_source)))

pub grandmaster_settings_np-write :
    (d : GrandmasterSettingsNp)
    → ValidGrandmasterSettingsNp d
    → Runs true
        (grandmaster_settings_np_f d)
        (grandmaster_settings_np_octets d)
        (sent_grandmaster_settings_np d)
unfolding grandmaster_settings_np_f
grandmaster_settings_np-write d v =
    Runs-bind _ quality-write
      (Runs-bind _ i16-write (Runs-bind _ (flags-write 0x3f _) (Runs-map _ u8-write)))

pub grandmaster_settings_np-read :
    (w d : GrandmasterSettingsNp)
    → ValidGrandmasterSettingsNp d
    → Runs false
        (grandmaster_settings_np_f w)
        (grandmaster_settings_np_octets d)
        (sent_grandmaster_settings_np d)
unfolding grandmaster_settings_np_f
grandmaster_settings_np-read w d v = Runs-bind _ (quality-read _ v.clock_quality) (
    Runs-bind _ (i16-read _ v.current_utc_offset) (
      Runs-bind _ (flags-read 0x3f _ (masked-lt 0x3f _ (omega arith) v.flags))
        (Runs-map _ (u8-read _ v.time_source))))

pub record ValidPortDataSetNp (d : PortDataSetNp) : Type 0 where
  pub neighbor_prop_delay_thresh : d.neighbor_prop_delay_thresh < 2 ^ 32
  pub as_capable : InWord (2 ^ 32) d.as_capable

abbrev pub port_data_set_np_octets : PortDataSetNp → List ℕ
port_data_set_np_octets d = net 4 d.neighbor_prop_delay_thresh ++ (net_int 4 d.as_capable)

pub port_data_set_np-write :
    (d : PortDataSetNp)
    → ValidPortDataSetNp d
    → Runs true (port_data_set_np_f d) (port_data_set_np_octets d) d
unfolding port_data_set_np_f
port_data_set_np-write d v = Runs-bind _ u32-write (Runs-map _ i32-write)

pub port_data_set_np-read :
    (w d : PortDataSetNp)
    → ValidPortDataSetNp d
    → Runs false (port_data_set_np_f w) (port_data_set_np_octets d) d
unfolding port_data_set_np_f
port_data_set_np-read w d v =
    Runs-bind _ (u32-read _ v.neighbor_prop_delay_thresh) (Runs-map _ (i32-read _ v.as_capable))

pub record ValidSubscribeEventsNp (d : SubscribeEventsNp) : Type 0 where
  pub duration : d.duration < 2 ^ 16
  pub bitmask : length d.bitmask ≡ 64

abbrev pub subscribe_events_np_octets : SubscribeEventsNp → List ℕ
subscribe_events_np_octets d = net 2 d.duration ++ (d.bitmask)

pub subscribe_events_np-write :
    (d : SubscribeEventsNp)
    → ValidSubscribeEventsNp d
    → Runs true (subscribe_events_np_f d) (subscribe_events_np_octets d) d
unfolding subscribe_events_np_f
subscribe_events_np-write d v = Runs-bind _ u16-write (Runs-map _ (octets-write 64 _ v.bitmask))

pub subscribe_events_np-read :
    (w d : SubscribeEventsNp)
    → ValidSubscribeEventsNp d
    → Runs false (subscribe_events_np_f w) (subscribe_events_np_octets d) d
unfolding subscribe_events_np_f
subscribe_events_np-read w d v =
    Runs-bind _ (u16-read _ v.duration) (Runs-map _ (octets-read 64 _ _ v.bitmask))

pub record ValidPortPropertiesNp (d : PortPropertiesNp) : Type 0 where
  pub port_identity : ValidPort d.port_identity
  pub port_state : d.port_state < 256
  pub timestamping : d.timestamping < 256
  pub interface : ValidText d.interface

abbrev pub sent_port_properties_np : PortPropertiesNp → PortPropertiesNp
sent_port_properties_np d = record d { interface = sent_text d.interface }

abbrev pub port_properties_np_octets : PortPropertiesNp → List ℕ
port_properties_np_octets d =
    port_octets d.port_identity
    ++ (net 1 d.port_state ++ (net 1 d.timestamping ++ (text_octets d.interface)))

pub port_properties_np-write :
    (d : PortPropertiesNp)
    → ValidPortPropertiesNp d
    → Runs true (port_properties_np_f d) (port_properties_np_octets d) (sent_port_properties_np d)
unfolding port_properties_np_f
port_properties_np-write d v =
    Runs-bind _ (port-write v.port_identity)
      (Runs-bind _ u8-write (Runs-bind _ u8-write (Runs-map _ (text-write v.interface))))

pub port_properties_np-read :
    (w d : PortPropertiesNp)
    → ValidPortPropertiesNp d
    → Runs false (port_properties_np_f w) (port_properties_np_octets d) (sent_port_properties_np d)
unfolding port_properties_np_f
port_properties_np-read w d v = Runs-bind _ (port-read _ v.port_identity) (
    Runs-bind _ (u8-read _ v.port_state)
      (Runs-bind _ (u8-read _ v.timestamping) (Runs-map _ (text-read _ v.interface))))
