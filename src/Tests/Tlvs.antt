-- ===== src/Tests/Tlvs.antt =====
-- The theorems on management TLVs and ids at concrete inputs.
use libpmc.Base.{ℕ, ◌+◌, ◌≡◌, ◌↔◌, refl, true, false, none, some, [], ◌∷◌, replicate, length, arith}
use libpmc.Wire.{Cursor, ok, pass, net, pure}
use libpmc.Types.{proc_u48}
use libpmc.Types.Codecs.{net48}
use libpmc.Types.Range.{proc_u48-read}
use libpmc.Wire.Codec.{within}
use libpmc.Wire.Safety.{After}
use libpmc.Ids.{MngId, no_implement_specific, mng_all_vals, find_tlv_id, blocked, is_empty}
use libpmc.Ids.Find.{find_tlv_id_iff}
use libpmc.Mng.{MngTlv, kind, call_tlv_data}
use libpmc.Mng.Codecs.{ValidTlv, tlv_octets, sent_tlv}
use libpmc.Mng.Dispatch.{
  call_tlv_data-After, call_tlv_data-unset, call_tlv_data-write, call_tlv_data-read,
  call_tlv_data-dataless, is_unset,
}
use libpmc.Mng.Sizes.{size_of}
use libpmc.Mng.Sizes.Measure.{declared_size, counted_size, even_up, uncounted}

abbrev priority : MngTlv
priority = MngTlv.priority1 128

priority-ValidTlv : ValidTlv priority
priority-ValidTlv = omega arith

abbrev writer : Cursor
writer = record { build = true; passed = []; rest = replicate 4 0; left = 4; moved = 0 }

abbrev reader : Cursor
reader = record { build = false; passed = []; rest = 128 ∷ 0 ∷ []; left = 2; moved = 0 }

call_tlv_data-write_example :
    call_tlv_data (kind priority) (some priority) writer
    ≡ within writer (tlv_octets priority) (some (sent_tlv priority))
call_tlv_data-write_example =
    call_tlv_data-write priority writer priority-ValidTlv refl (omega arith)

call_tlv_data-read_example :
    call_tlv_data (kind priority) none reader
    ≡ ok (some (sent_tlv priority)) (pass reader (tlv_octets priority))
unfolding net
call_tlv_data-read_example =
    call_tlv_data-read priority reader priority-ValidTlv refl (omega arith) (omega arith)
      (omega arith) (refl, tt)

call_tlv_data-After_example : After reader (call_tlv_data MngId.port_data_set none reader)
call_tlv_data-After_example = call_tlv_data-After MngId.port_data_set reader refl (omega arith)

call_tlv_data-dataless_example : call_tlv_data MngId.enable_port none reader ≡ ok none reader
unfolding is_empty mng_all_vals
call_tlv_data-dataless_example = call_tlv_data-dataless MngId.enable_port none reader refl

enable_port_unset : is_unset (call_tlv_data MngId.enable_port none reader) ≡ true
unfolding call_tlv_data pure
enable_port_unset = refl

call_tlv_data-unset_example : is_empty MngId.enable_port ≡ true
call_tlv_data-unset_example = call_tlv_data-unset MngId.enable_port reader refl enable_port_unset

declared_size_example : even_up (length (tlv_octets priority)) ≡ 2
unfolding mng_all_vals kind
declared_size_example = declared_size priority priority-ValidTlv 2 refl

abbrev about : MngTlv
about = MngTlv.user_description (record { length_field = 3; text_field = 97 ∷ 98 ∷ 99 ∷ [] })

about-ValidTlv : ValidTlv about
about-ValidTlv = record { short = omega arith }

counted_size_example :
    (n : ℕ) × (size_of about ≡ some n) × (length (tlv_octets about) ≡ n + uncounted about)
unfolding mng_all_vals kind
counted_size_example = counted_size about about-ValidTlv refl

find_tlv_id_iff_example :
    (find_tlv_id 0xc001 no_implement_specific ≡ some MngId.grandmaster_settings_np) ↔ (
      ((mng_all_vals MngId.grandmaster_settings_np).value ≡ 0xc001)
      × (blocked MngId.grandmaster_settings_np no_implement_specific ≡ false))
find_tlv_id_iff_example = find_tlv_id_iff 0xc001 no_implement_specific MngId.grandmaster_settings_np

abbrev seconds : Cursor
seconds = record {
  build = false;
  passed = [];
  rest = 0 ∷ 1 ∷ 0 ∷ 0 ∷ 0 ∷ 2 ∷ [];
  left = 6;
  moved = 0;
}

proc_u48-read_example : proc_u48 0 seconds ≡ within seconds (net48 4294967298) 4294967298
unfolding net
proc_u48-read_example =
    proc_u48-read 4294967298 0 seconds (omega arith) refl (omega arith)
      (refl, (refl, (refl, (refl, (refl, (refl, tt))))))
