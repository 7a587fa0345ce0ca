-- ===== src/Mng/Settings/Codecs.antt =====
-- The octets of the settings of more than one field, and that the functions write and read exactly those.
use libpmc.Base.{ℕ, ◌^◌, ◌<◌, true, false, List, ◌++◌, arith}
use libpmc.Base.Int.{InWord}
use libpmc.Wire.{net}
use libpmc.Wire.Codec.{Runs, Runs-bind, Runs-map}
use libpmc.Wire.Values.{
  net_int, u8-write, u8-read, i8-write, i8-read, i16-write, i16-read, i32-write, i32-read,
}
use libpmc.Types.{masked}
use libpmc.Types.Codecs.{
  net48, masked-lt, flags-write, flags-read, u48-write, u48-read, text-write, text-read,
  text_octets, sent_text, ValidText,
}
use libpmc.Mng.Settings.{
  UtcProperties, utc_properties_f, TimescaleProperties, timescale_properties_f, AlternateMaster,
  alternate_master_f, AlternateTimeOffsetEnable, alternate_time_offset_enable_f,
  AlternateTimeOffsetName, alternate_time_offset_name_f, AlternateTimeOffsetProperties,
  alternate_time_offset_properties_f,
}

pub record ValidUtcProperties (d : UtcProperties) : Type 0 where
  pub current_utc_offset : InWord 65536 d.current_utc_offset
  pub flags : d.flags < 256

abbrev pub sent_utc_properties : UtcProperties → UtcProperties
sent_utc_properties d = record d { flags = masked 0x7 d.flags }

abbrev pub utc_properties_octets : UtcProperties → List ℕ
utc_properties_octets d = net_int 2 d.current_utc_offset ++ (net 1 (masked 0x7 d.flags))

pub utc_properties-write :
    (d : UtcProperties)
    → ValidUtcProperties d
    → Runs true (utc_properties_f d) (utc_properties_octets d) (sent_utc_properties d)
unfolding utc_properties_f
utc_properties-write d v = Runs-bind _ i16-write (Runs-map _ (flags-write 0x7 _))

pub utc_properties-read :
    (w d : UtcProperties)
    → ValidUtcProperties d
    → Runs false (utc_properties_f w) (utc_properties_octets d) (sent_utc_properties d)
unfolding utc_properties_f
utc_properties-read w d v =
    Runs-bind _ (i16-read _ v.current_utc_offset)
      (Runs-map _ (flags-read 0x7 _ (masked-lt 0x7 _ (omega arith) v.flags)))

pub record ValidTimescaleProperties (d : TimescaleProperties) : Type 0 where
  pub flags : d.flags < 256
  pub time_source : d.time_source < 256

abbrev pub sent_timescale_properties : TimescaleProperties → TimescaleProperties
sent_timescale_properties d = record d { flags = masked 0x8 d.flags }

abbrev pub timescale_properties_octets : TimescaleProperties → List ℕ
timescale_properties_octets d = net 1 (masked 0x8 d.flags) ++ (net 1 d.time_source)

pub timescale_properties-write :
    (d : TimescaleProperties)
    → ValidTimescaleProperties d
    → Runs true
        (timescale_properties_f d)
        (timescale_properties_octets d)
        (sent_timescale_properties d)
unfolding timescale_properties_f
timescale_properties-write d v = Runs-bind _ (flags-write 0x8 _) (Runs-map _ u8-write)

pub timescale_properties-read :
    (w d : TimescaleProperties)
    → ValidTimescaleProperties d
    → Runs false
        (timescale_properties_f w)
        (timescale_properties_octets d)
        (sent_timescale_properties d)
unfolding timescale_properties_f
timescale_properties-read w d v =
    Runs-bind _ (flags-read 0x8 _ (masked-lt 0x8 _ (omega arith) v.flags))
      (Runs-map _ (u8-read _ v.time_source))

pub record ValidAlternateMaster (d : AlternateMaster) : Type 0 where
  pub flags : d.flags < 256
  pub log_alternate_multicast_sync_interval : InWord 256 d.log_alternate_multicast_sync_interval
  pub number_of_alternate_masters : d.number_of_alternate_masters < 256

abbrev pub sent_alternate_master : AlternateMaster → AlternateMaster
sent_alternate_master d = record d { flags = masked 0x1 d.flags }

abbrev pub alternate_master_octets : AlternateMaster → List ℕ
alternate_master_octets d =
    net 1 (masked 0x1 d.flags)
    ++ (net_int 1 d.log_alternate_multicast_sync_interval ++ (net 1 d.number_of_alternate_masters))

pub alternate_master-write :
    (d : AlternateMaster)
    → ValidAlternateMaster d
    → Runs true (alternate_master_f d) (alternate_master_octets d) (sent_alternate_master d)
unfolding alternate_master_f
alternate_master-write d v =
    Runs-bind _ (flags-write 0x1 _) (Runs-bind _ i8-write (Runs-map _ u8-write))

pub alternate_master-read :
    (w d : AlternateMaster)
    → ValidAlternateMaster d
    → Runs false (alternate_master_f w) (alternate_master_octets d) (sent_alternate_master d)
unfolding alternate_master_f
alternate_master-read w d v =
    Runs-bind _ (flags-read 0x1 _ (masked-lt 0x1 _ (omega arith) v.flags)) (
      Runs-bind _ (i8-read _ v.log_alternate_multicast_sync_interval)
        (Runs-map _ (u8-read _ v.number_of_alternate_masters)))

pub record ValidAlternateTimeOffsetEnable (d : AlternateTimeOffsetEnable) : Type 0 where
  pub key_field : d.key_field < 256
  pub flags : d.flags < 256

abbrev pub sent_alternate_time_offset_enable : AlternateTimeOffsetEnable → AlternateTimeOffsetEnable
sent_alternate_time_offset_enable d = record d { flags = masked 0x1 d.flags }

abbrev pub alternate_time_offset_enable_octets : AlternateTimeOffsetEnable → List ℕ
alternate_time_offset_enable_octets d = net 1 d.key_field ++ (net 1 (masked 0x1 d.flags))

pub alternate_time_offset_enable-write :
    (d : AlternateTimeOffsetEnable)
    → ValidAlternateTimeOffsetEnable d
    → Runs true
        (alternate_time_offset_enable_f d)
        (alternate_time_offset_enable_octets d)
        (sent_alternate_time_offset_enable d)
unfolding alternate_time_offset_enable_f
alternate_time_offset_enable-write d v = Runs-bind _ u8-write (Runs-map _ (flags-write 0x1 _))

pub alternate_time_offset_enable-read :
    (w d : AlternateTimeOffsetEnable)
    → ValidAlternateTimeOffsetEnable d
    → Runs false
        (alternate_time_offset_enable_f w)
        (alternate_time_offset_enable_octets d)
        (sent_alternate_time_offset_enable d)
unfolding alternate_time_offset_enable_f
alternate_time_offset_enable-read w d v =
    Runs-bind _ (u8-read _ v.key_field)
      (Runs-map _ (flags-read 0x1 _ (masked-lt 0x1 _ (omega arith) v.flags)))

pub record ValidAlternateTimeOffsetName (d : AlternateTimeOffsetName) : Type 0 where
  pub key_field : d.key_field < 256
  pub display_name : ValidText d.display_name

abbrev pub sent_alternate_time_offset_name : AlternateTimeOffsetName → AlternateTimeOffsetName
sent_alternate_time_offset_name d = record d { display_name = sent_text d.display_name }

abbrev pub alternate_time_offset_name_octets : AlternateTimeOffsetName → List ℕ
alternate_time_offset_name_octets d = net 1 d.key_field ++ (text_octets d.display_name)

pub alternate_time_offset_name-write :
    (d : AlternateTimeOffsetName)
    → ValidAlternateTimeOffsetName d
    → Runs true
        (alternate_time_offset_name_f d)
        (alternate_time_offset_name_octets d)
        (sent_alternate_time_offset_name d)
unfolding alternate_time_offset_name_f
alternate_time_offset_name-write d v = Runs-bind _ u8-write (Runs-map _ (text-write v.display_name))

pub alternate_time_offset_name-read :
    (w d : AlternateTimeOffsetName)
    → ValidAlternateTimeOffsetName d
    → Runs false
        (alternate_time_offset_name_f w)
        (alternate_time_offset_name_octets d)
        (sent_alternate_time_offset_name d)
unfolding alternate_time_offset_name_f
alternate_time_offset_name-read w d v =
    Runs-bind _ (u8-read _ v.key_field) (Runs-map _ (text-read _ v.display_name))

pub record ValidAlternateTimeOffsetProperties (d : AlternateTimeOffsetProperties) : Type 0 where
  pub key_field : d.key_field < 256
  pub current_offset : InWord (2 ^ 32) d.current_offset
  pub jump_seconds : InWord (2 ^ 32) d.jump_seconds
  pub time_of_next_jump : d.time_of_next_jump < 2 ^ 48

abbrev pub alternate_time_offset_properties_octets : AlternateTimeOffsetProperties → List ℕ
alternate_time_offset_properties_octets d =
    net 1 d.key_field
    ++ (net_int 4 d.current_offset ++ (net_int 4 d.jump_seconds ++ (net48 d.time_of_next_jump)))

pub alternate_time_offset_properties-write :
    (d : AlternateTimeOffsetProperties)
    → ValidAlternateTimeOffsetProperties d
    → Runs true (alternate_time_offset_properties_f d) (alternate_time_offset_properties_octets d) d
unfolding alternate_time_offset_properties_f
alternate_time_offset_properties-write d v =
    Runs-bind _ u8-write
      (Runs-bind _ i32-write (Runs-bind _ i32-write (Runs-map _ (u48-write v.time_of_next_jump))))

pub alternate_time_offset_properties-read :
    (w d : AlternateTimeOffsetProperties)
    → ValidAlternateTimeOffsetProperties d
    → Runs false
        (alternate_time_offset_properties_f w)
        (alternate_time_offset_properties_octets d)
        d
unfolding alternate_time_offset_properties_f
alternate_time_offset_properties-read w d v = Runs-bind _ (u8-read _ v.key_field) (
    Runs-bind _ (i32-read _ v.current_offset)
      (Runs-bind _ (i32-read _ v.jump_seconds) (Runs-map _ (u48-read _ v.time_of_next_jump))))
