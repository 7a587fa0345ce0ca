-- ===== src/Tests/Messages.antt =====
-- The getters of a signaling message at a concrete input.
use libpmc.Base.{
  ℕ, ◌<◌, ◌≡◌, ◌↔◌, refl, ◌==◌, Bool, true, false, none, Option, List, [], ◌∷◌, some, All, arith,
}
use libpmc.Wire.{Cursor, ok, pass, sig, cpu, net}
use libpmc.Ids.{MngId, find_tlv_id, mng_all_vals}
use libpmc.Mng.{MngTlv, kind, call_tlv_data}
use libpmc.Mng.Codecs.{ValidTlv, tlv_octets, sent_tlv}
use libpmc.Mng.Dispatch.{call_tlv_data-read}
use libpmc.Sig.{SigTlv, path_trace, management}
use libpmc.Message.{Message}
use libpmc.Message.Parse.{returned}
use libpmc.Message.Signaling.{parse_sig, is_in}
use libpmc.Message.Signaling.Stores.{MayStore, HasTlv}
use libpmc.Message.Getters.Casts.{IsRight, Reads, parse_sig-Reads, parse_sig-casts}
use libpmc.Message.Getters.{
  get_sig_mng_tlv, get_sig_mng_tlv_type, is_signaling, travers_sig_tlvs, get_sig_tlvs_count,
  get_sig_tlv_type, travers_sig_tlvs_lem,
}
use libpmc.Tests.{getter}

abbrev traced : Message
traced = record getter { type = 0xc; sig_tlvs = (8, some (path_trace [])) ∷ [] }

abbrev each_one : Message → ℕ → Option SigTlv → Bool
each_one m t tlv = true

travers_sig_tlvs_example : (travers_sig_tlvs each_one traced ≡ true) ↔ (
    (is_signaling traced ≡ true)
    × ((i : ℕ) × (i < get_sig_tlvs_count traced)
        × (each_one traced (get_sig_tlv_type i traced) none ≡ true)))
travers_sig_tlvs_example = travers_sig_tlvs_lem each_one traced

-- A signaling message with a MANAGEMENT TLV of priority1.
abbrev listener : Message
listener = record getter {
  type = 0xc;
  sig_moves = λ n. n == 0;
  prms = record getter.prms { allow_sig_tlvs = 1 ∷ [] };
}

abbrev managed : Message
managed = record listener {
  sig_tlvs = (1, some (management MngId.priority1 (MngTlv.priority1 7))) ∷ [];
}

abbrev managing : List ℕ
managing = 0 ∷ 1 ∷ 0 ∷ 4 ∷ 0x20 ∷ 0x05 ∷ 7 ∷ 0 ∷ []

abbrev seven : MngTlv
seven = MngTlv.priority1 7

abbrev seven_left : Cursor
seven_left = record { build = false; passed = []; rest = 7 ∷ 0 ∷ []; left = 2; moved = 0 }

seven-ValidTlv : ValidTlv seven
seven-ValidTlv = omega arith

seven_read :
    call_tlv_data MngId.priority1 none seven_left
    ≡ ok (some (sent_tlv seven)) (pass seven_left (tlv_octets seven))
unfolding net kind
seven_read =
    call_tlv_data-read seven seven_left seven-ValidTlv refl (omega arith) (omega arith)
      (omega arith) (refl, tt)

managing_parsed : parse_sig listener managing ≡ returned (some sig) managed
unfolding parse_sig is_in cpu find_tlv_id mng_all_vals net
managing_parsed = rw seven_read refl

parse_sig-casts_example :
    All (MayStore listener.prms) managed.sig_tlvs
    × ((i : ℕ) → IsRight (get_sig_mng_tlv_type i managed) × IsRight (get_sig_mng_tlv i managed))
parse_sig-casts_example = parse_sig-casts listener managing (some sig) managed managing_parsed

parse_sig-Reads_example :
    All HasTlv managed.sig_tlvs
    × ((i : ℕ) → Reads (get_sig_mng_tlv_type i managed) × Reads (get_sig_mng_tlv i managed))
parse_sig-Reads_example =
    parse_sig-Reads listener managing (some sig) managed managing_parsed (λ k. ground arith)
