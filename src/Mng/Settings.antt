-- ===== src/Mng/Settings.antt =====
-- The settings of more than one field of proc.h and their functions in proc.cpp.
pub mod Codecs
use libpmc.Base.{ℕ}
use libpmc.Base.Int.{ℤ, pos}
use libpmc.Wire.{Proc, ◌>>=◌, pure, proc_u8, proc_i8, proc_i16, proc_i32}
use libpmc.Types.{PtpText, proc_ptp_text, proc_u48, proc_flags, fresh_text}

pub record UtcProperties : Type 0 where
  pub current_utc_offset : ℤ
  pub flags : ℕ

abbrev pub fresh_utc_properties : UtcProperties
fresh_utc_properties = record { current_utc_offset = pos 0; flags = 0 }

unfoldable pub utc_properties_f : UtcProperties → Proc UtcProperties
utc_properties_f d = do
  x0 ← proc_i16 d.current_utc_offset
  x1 ← proc_flags 0x7 d.flags
  pure (record { current_utc_offset = x0; flags = x1 })

pub record TimescaleProperties : Type 0 where
  pub flags : ℕ
  pub time_source : ℕ

abbrev pub fresh_timescale_properties : TimescaleProperties
fresh_timescale_properties = record { flags = 0; time_source = 0 }

unfoldable pub timescale_properties_f : TimescaleProperties → Proc TimescaleProperties
timescale_properties_f d = do
  x0 ← proc_flags 0x8 d.flags
  x1 ← proc_u8 d.time_source
  pure (record { flags = x0; time_source = x1 })

pub record AlternateMaster : Type 0 where
  pub flags : ℕ
  pub log_alternate_multicast_sync_interval : ℤ
  pub number_of_alternate_masters : ℕ

abbrev pub fresh_alternate_master : AlternateMaster
fresh_alternate_master = record {
  flags = 0;
  log_alternate_multicast_sync_interval = pos 0;
  number_of_alternate_masters = 0;
}

unfoldable pub alternate_master_f : AlternateMaster → Proc AlternateMaster
alternate_master_f d = do
  x0 ← proc_flags 0x1 d.flags
  x1 ← proc_i8 d.log_alternate_multicast_sync_interval
  x2 ← proc_u8 d.number_of_alternate_masters
  pure (record {
    flags = x0;
    log_alternate_multicast_sync_interval = x1;
    number_of_alternate_masters = x2;
  })

pub record AlternateTimeOffsetEnable : Type 0 where
  pub key_field : ℕ
  pub flags : ℕ

abbrev pub fresh_alternate_time_offset_enable : AlternateTimeOffsetEnable
fresh_alternate_time_offset_enable = record { key_field = 0; flags = 0 }

unfoldable pub alternate_time_offset_enable_f :
    AlternateTimeOffsetEnable → Proc AlternateTimeOffsetEnable
alternate_time_offset_enable_f d = do
  x0 ← proc_u8 d.key_field
  x1 ← proc_flags 0x1 d.flags
  pure (record { key_field = x0; flags = x1 })

pub record AlternateTimeOffsetName : Type 0 where
  pub key_field : ℕ
  pub display_name : PtpText

abbrev pub fresh_alternate_time_offset_name : AlternateTimeOffsetName
fresh_alternate_time_offset_name = record { key_field = 0; display_name = fresh_text }

unfoldable pub alternate_time_offset_name_f : AlternateTimeOffsetName → Proc AlternateTimeOffsetName
alternate_time_offset_name_f d = do
  x0 ← proc_u8 d.key_field
  x1 ← proc_ptp_text d.display_name
  pure (record { key_field = x0; display_name = x1 })

pub record AlternateTimeOffsetProperties : Type 0 where
  pub key_field : ℕ
  pub current_offset : ℤ
  pub jump_seconds : ℤ
  pub time_of_next_jump : ℕ

abbrev pub fresh_alternate_time_offset_properties : AlternateTimeOffsetProperties
fresh_alternate_time_offset_properties = record {
  key_field = 0;
  current_offset = pos 0;
  jump_seconds = pos 0;
  time_of_next_jump = 0;
}

unfoldable pub alternate_time_offset_properties_f :
    AlternateTimeOffsetProperties → Proc AlternateTimeOffsetProperties
alternate_time_offset_properties_f d = do
  x0 ← proc_u8 d.key_field
  x1 ← proc_i32 d.current_offset
  x2 ← proc_i32 d.jump_seconds
  x3 ← proc_u48 d.time_of_next_jump
  pure (record { key_field = x0; current_offset = x1; jump_seconds = x2; time_of_next_jump = x3 })
