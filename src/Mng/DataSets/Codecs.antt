-- ===== src/Mng/DataSets/Codecs.antt =====
-- The octets of the data sets of a clock, and that the functions write and read exactly those.
use libpmc.Base.{ℕ, ◌^◌, ◌<◌, true, false, List, ◌++◌, arith}
use libpmc.Base.Int.{InWord}
use libpmc.Wire.{net}
use libpmc.Wire.Codec.{Runs, Runs-bind, Runs-map}
use libpmc.Wire.Values.{
  net_int, u8-write, u8-read, u16-write, u16-read, i16-write, i16-read, i32-write, i32-read,
}
use libpmc.Types.{masked}
use libpmc.Types.Codecs.{
  masked-lt, reserved-write, reserved-read, flags-write, flags-read, identity-write, identity-read,
  port-write, port-read, quality-write, quality-read, interval-write, interval-read, port_octets,
  quality_octets, ValidPort, ValidQuality, IsIdentity,
}
use libpmc.Mng.DataSets.{
  DefaultDataSet, default_data_set_f, CurrentDataSet, current_data_set_f, ParentDataSet,
  parent_data_set_f, TimePropertiesDataSet, time_properties_data_set_f,
}

pub record ValidDefaultDataSet (d : DefaultDataSet) : Type 0 where
  pub flags : d.flags < 256
  pub number_ports : d.number_ports < 2 ^ 16
  pub priority1 : d.priority1 < 256
  pub clock_quality : ValidQuality d.clock_quality
  pub priority2 : d.priority2 < 256
  pub clock_identity : IsIdentity d.clock_identity
  pub domain_number : d.domain_number < 256

abbrev pub sent_default_data_set : DefaultDataSet → DefaultDataSet
sent_default_data_set d = record d { flags = masked 0x3 d.flags }

abbrev pub default_data_set_octets : DefaultDataSet → List ℕ
default_data_set_octets d =
    net 1 (masked 0x3 d.flags)
    ++ (net 1 0
        ++ (net 2 d.number_ports
            ++ (net 1 d.priority1
                ++ (quality_octets d.clock_quality
                    ++ (net 1 d.priority2 ++ (d.clock_identity ++ (net 1 d.domain_number)))))))

pub default_data_set-write :
    (d : DefaultDataSet)
    → ValidDefaultDataSet d
    → Runs true (default_data_set_f d) (default_data_set_octets d) (sent_default_data_set d)
unfolding default_data_set_f
default_data_set-write d v = Runs-bind _ (flags-write 0x3 _) (
    Runs-bind _ reserved-write (
      Runs-bind _ u16-write (
        Runs-bind _ u8-write (
          Runs-bind _ quality-write (
            Runs-bind _ u8-write
              (Runs-bind _ (identity-write v.clock_identity) (Runs-map _ u8-write)))))))

pub default_data_set-read :
    (w d : DefaultDataSet)
    → ValidDefaultDataSet d
    → Runs false (default_data_set_f w) (default_data_set_octets d) (sent_default_data_set d)
unfolding default_data_set_f
default_data_set-read w d v =
    Runs-bind _ (flags-read 0x3 _ (masked-lt 0x3 _ (omega arith) v.flags)) (
      Runs-bind _ reserved-read (
        Runs-bind _ (u16-read _ v.number_ports) (
          Runs-bind _ (u8-read _ v.priority1) (
            Runs-bind _ (quality-read _ v.clock_quality) (
              Runs-bind _ (u8-read _ v.priority2) (
                Runs-bind _ (identity-read _ v.clock_identity)
                  (Runs-map _ (u8-read _ v.domain_number))))))))

pub record ValidCurrentDataSet (d : CurrentDataSet) : Type 0 where
  pub steps_removed : d.steps_removed < 2 ^ 16
  pub offset_from_master : InWord (2 ^ 64) d.offset_from_master
  pub mean_path_delay : InWord (2 ^ 64) d.mean_path_delay

abbrev pub current_data_set_octets : CurrentDataSet → List ℕ
current_data_set_octets d =
    net 2 d.steps_removed ++ (net_int 8 d.offset_from_master ++ (net_int 8 d.mean_path_delay))

pub current_data_set-write :
    (d : CurrentDataSet)
    → ValidCurrentDataSet d
    → Runs true (current_data_set_f d) (current_data_set_octets d) d
unfolding current_data_set_f
current_data_set-write d v =
    Runs-bind _ u16-write (Runs-bind _ interval-write (Runs-map _ interval-write))

pub current_data_set-read :
    (w d : CurrentDataSet)
    → ValidCurrentDataSet d
    → Runs false (current_data_set_f w) (current_data_set_octets d) d
unfolding current_data_set_f
current_data_set-read w d v = Runs-bind _ (u16-read _ v.steps_removed) (
    Runs-bind _ (interval-read _ v.offset_from_master)
      (Runs-map _ (interval-read _ v.mean_path_delay)))

pub record ValidParentDataSet (d : ParentDataSet) : Type 0 where
  pub parent_port_identity : ValidPort d.parent_port_identity
  pub flags : d.flags < 256
  pub observed_parent_offset_scaled_log_variance :
      d.observed_parent_offset_scaled_log_variance < 2 ^ 16
  pub observed_parent_clock_phase_change_rate :
      InWord (2 ^ 32) d.observed_parent_clock_phase_change_rate
  pub grandmaster_priority1 : d.grandmaster_priority1 < 256
  pub grandmaster_clock_quality : ValidQuality d.grandmaster_clock_quality
  pub grandmaster_priority2 : d.grandmaster_priority2 < 256
  pub grandmaster_identity : IsIdentity d.grandmaster_identity

abbrev pub sent_parent_data_set : ParentDataSet → ParentDataSet
sent_parent_data_set d = record d { flags = masked 0x1 d.flags }

abbrev pub parent_data_set_octets : ParentDataSet → List ℕ
parent_data_set_octets d =
    port_octets d.parent_port_identity
    ++ (net 1 (masked 0x1 d.flags)
        ++ (net 1 0
            ++ (net 2 d.observed_parent_offset_scaled_log_variance
                ++ (net_int 4 d.observed_parent_clock_phase_change_rate
                    ++ (net 1 d.grandmaster_priority1
                        ++ (quality_octets d.grandmaster_clock_quality
                            ++ (net 1 d.grandmaster_priority2 ++ (d.grandmaster_identity))))))))

pub parent_data_set-write :
    (d : ParentDataSet)
    → ValidParentDataSet d
    → Runs true (parent_data_set_f d) (parent_data_set_octets d) (sent_parent_data_set d)
unfolding parent_data_set_f
parent_data_set-write d v = Runs-bind _ (port-write v.parent_port_identity) (
    Runs-bind _ (flags-write 0x1 _) (
      Runs-bind _ reserved-write (
        Runs-bind _ u16-write (
          Runs-bind _ i32-write (
            Runs-bind _ u8-write (
              Runs-bind _ quality-write
                (Runs-bind _ u8-write (Runs-map _ (identity-write v.grandmaster_identity)))))))))

pub parent_data_set-read :
    (w d : ParentDataSet)
    → ValidParentDataSet d
    → Runs false (parent_data_set_f w) (parent_data_set_octets d) (sent_parent_data_set d)
unfolding parent_data_set_f
parent_data_set-read w d v = Runs-bind _ (port-read _ v.parent_port_identity) (
    Runs-bind _ (flags-read 0x1 _ (masked-lt 0x1 _ (omega arith) v.flags)) (
      Runs-bind _ reserved-read (
        Runs-bind _ (u16-read _ v.observed_parent_offset_scaled_log_variance) (
          Runs-bind _ (i32-read _ v.observed_parent_clock_phase_change_rate) (
            Runs-bind _ (u8-read _ v.grandmaster_priority1) (
              Runs-bind _ (quality-read _ v.grandmaster_clock_quality) (
                Runs-bind _ (u8-read _ v.grandmaster_priority2)
                  (Runs-map _ (identity-read _ v.grandmaster_identity)))))))))

pub record ValidTimePropertiesDataSet (d : TimePropertiesDataSet) : Type 0 where
  pub current_utc_offset : InWord 65536 d.current_utc_offset
  pub flags : d.flags < 256
  pub time_source : d.time_source < 256

abbrev pub sent_time_properties_data_set : TimePropertiesDataSet → TimePropertiesDataSet
sent_time_properties_data_set d = record d { flags = masked 0x3f d.flags }

abbrev pub time_properties_data_set_octets : TimePropertiesDataSet → List ℕ
time_properties_data_set_octets d =
    net_int 2 d.current_utc_offset ++ (net 1 (masked 0x3f d.flags) ++ (net 1 d.time_source))

pub time_properties_data_set-write :
    (d : TimePropertiesDataSet)
    → ValidTimePropertiesDataSet d
    → Runs true
        (time_properties_data_set_f d)
        (time_properties_data_set_octets d)
        (sent_time_properties_data_set d)
unfolding time_properties_data_set_f
time_properties_data_set-write d v =
    Runs-bind _ i16-write (Runs-bind _ (flags-write 0x3f _) (Runs-map _ u8-write))

pub time_properties_data_set-read :
    (w d : TimePropertiesDataSet)
    → ValidTimePropertiesDataSet d
    → Runs false
        (time_properties_data_set_f w)
        (time_properties_data_set_octets d)
        (sent_time_properties_data_set d)
unfolding time_properties_data_set_f
time_properties_data_set-read w d v = Runs-bind _ (i16-read _ v.current_utc_offset) (
    Runs-bind _ (flags-read 0x3f _ (masked-lt 0x3f _ (omega arith) v.flags))
      (Runs-map _ (u8-read _ v.time_source)))
