-- ===== src/Message/Build.antt =====
-- `Message::build` of msg.cpp: the header of 34 octets, the management part of 14, the TLV header of
-- 6, and the data field.
pub mod Layout
pub mod Planned
pub mod Get
use libpmc.Base.{
  ℕ, ◌+◌, ◌-◌, ◌*◌, ◌%◌, Bool, true, false, not, ◌&&◌, Option, none, some, List, [], ◌∷◌, ◌++◌,
  length, drop, replicate, ltb, ◌==◌, if◌then◌else◌,
}
use libpmc.Wire.{
  Cursor, Outcome, ok, fail, fault, ParseError, too_small, invalid_id, size, net, Proc, ◌>>=◌, ◌>>◌,
  pure, proc_u8,
}
use libpmc.Types.{PortIdentity}
use libpmc.Types.Codecs.{port_octets}
use libpmc.Ids.{MngId, mng_all_vals, Action, action_value, is_get}
use libpmc.Mng.{MngTlv, call_tlv_data}
use libpmc.Mng.Sizes.{data_field_size}
use libpmc.Message.{Message, mng_msg_base_size}

-- The octets of managementMessage_p, of a message of `total` octets.
unfoldable pub header_octets : Message → ℕ → ℕ → List ℕ
header_octets m total sequence =
    ((0xd + m.prms.transport_specific * 16) % 256)
    ∷ 0x02
    ∷ (net 2 total
        ++ (m.prms.domain_number
            ∷ 0
            ∷ (if m.prms.is_unicast then 4 else 0)
            ∷ 0
            ∷ (replicate 8 0
                ++ (replicate 4 0
                    ++ (port_octets m.prms.self_id
                        ++ (net 2 sequence
                            ++ (0x04
                                ∷ 0x7f
                                ∷ (port_octets m.prms.target
                                    ++ (m.prms.boundary_hops
                                        ∷ m.prms.boundary_hops
                                        ∷ action_value m.send_action
                                        ∷ 0
                                        ∷ [])))))))))

-- The octets of managementTLV_t before a data field of `n` octets; MANAGEMENT is 1.
unfoldable pub tlv_header_octets : MngId → ℕ → List ℕ
tlv_header_octets id n = net 2 1 ++ (net 2 (2 + n) ++ net 2 (mng_all_vals id).value)

-- A built message with the buffer it stands in, or the error. What a failed build leaves in the
-- buffer and in the caller's data is not part of the model.
pub data Built : Type 0 where
  built : List ℕ → Message → Built
  refused : ParseError → Built
  crashed : Built

-- The pad octet at the end of an odd data field.
padded : Option MngTlv → Proc (Option MngTlv)
padded d c = (if c.moved % 2 == 1 then (do proc_u8 0; pure d) else pure d) c

-- The data field of a GET: zeros, as many as the id's data would take.
get_field : Option MngTlv → Option ℕ → Proc (Option MngTlv)
get_field d none c = fail invalid_id
get_field d (some n) c =
    let even = n + n % 2 in
    if ltb c.left even
    then fail too_small
    else if ltb (length c.rest) even
    then fault
    else ok d
        (record c { passed = c.passed ++ replicate even 0; rest = drop even c.rest; moved = even })

get_size : MngId → Option ℕ → Option ℕ
get_size id none = data_field_size id none
get_size id (some n) = some n

-- tlvSize != 0
has_size : Option ℕ → Bool
has_size none = true
has_size (some n) = not (n == 0)

is_data : Option MngTlv → Bool
is_data none = false
is_data (some d) = true

send_field : Message → Proc (Option MngTlv)
unfolding padded
send_field m = do d ← call_tlv_data m.tlv_id m.data_send; padded d

-- The three cases of `build` for the data field; the result is the data that was sent.
pub data_field : Message → Proc (Option MngTlv)
unfolding send_field get_field get_size has_size is_data
data_field m =
    let tlv_size = (mng_all_vals m.tlv_id).size in
    if not (is_get m.send_action) && is_data m.data_send
    then send_field m
    else if is_get m.send_action && (not m.prms.use_zero_get && has_size tlv_size)
    then get_field m.data_send (get_size m.tlv_id tlv_size)
    else pure m.data_send

-- The cursor on the data field of a buffer.
abbrev pub field_cursor : List ℕ → Cursor
field_cursor buf = record {
  build = true;
  passed = [];
  rest = drop mng_msg_base_size buf;
  left = length buf - mng_msg_base_size;
  moved = 0;
}

finish : Message → ℕ → Outcome (Option MngTlv) → Built
finish m sequence (fail e) = refused e
finish m sequence fault = crashed
finish m sequence (ok d c) =
    let total = mng_msg_base_size + c.moved in
    if total % 2 == 1
    then refused size
    else built
        (header_octets m total sequence
          ++ (tlv_header_octets m.tlv_id c.moved ++ (c.passed ++ c.rest)))
        (record m { msg_len = total; data_send = d })

-- MNG_PARSE_ERROR_e Message::build(void *buf, size_t bufSize, uint16_t sequence); `none` is a null
-- buffer.
unfoldable pub build : Message → Option (List ℕ) → ℕ → Built
unfolding finish
build m none sequence = refused too_small
build m (some buf) sequence =
    if ltb (length buf) mng_msg_base_size
    then refused too_small
    else finish m sequence (data_field m (field_cursor buf))
