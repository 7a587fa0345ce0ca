-- ===== src/Message/Parse.antt =====
-- `Message::parse` of msg.cpp: the header, the management part, the error status and the data field.
pub mod Safety
pub mod Handed
pub mod Fields
pub mod Steps
pub mod Reply
use libpmc.Base.{
  ℕ, ◌+◌, ◌-◌, ◌*◌, ◌/◌, ◌%◌, false, not, ◌&&◌, ◌||◌, Option, none, some, List, [], length, take,
  drop, ltb, ◌==◌, if◌then◌else◌,
}
use libpmc.Wire.{
  Cursor, Outcome, ok, fail, fault, ParseError, msg, invalid_id, invalid_tlv, too_small, header,
  action, cpu,
}
use libpmc.Types.{PortIdentity, PtpText, proc_ptp_text}
use libpmc.Ids.{MngId, find_tlv_id, check_reply_action}
use libpmc.Mng.{MngTlv, call_tlv_data}
use libpmc.Message.{Message}

-- What `parse` returns, and the message after it; `none` is MNG_PARSE_ERROR_OK. A signaling message
-- goes on to `parseSig` with the octets behind the header. `crashed` is a use of the pointer `tlv`
-- that no function set, or an access beyond the buffer. What a failed `proc` leaves in
-- m_errorDisplay is not part of the model.
pub data Parsed : Type 0 where
  returned : Option ParseError → Message → Parsed
  signaling : Message → List ℕ → Parsed
  crashed : Parsed

-- What follows a read of octets before octet `n`; a read beyond the buffer is a crash.
abbrev pub reading : List ℕ → ℕ → Parsed → Parsed
reading buf n next = if ltb (length buf) n then crashed else next

-- The values of octets, each behind a `reading` that covers them.
abbrev pub octet_at : List ℕ → ℕ → ℕ
octet_at buf i = cpu (take 1 (drop i buf))

abbrev pub word_at : List ℕ → ℕ → ℕ
word_at buf i = cpu (take 2 (drop i buf))

abbrev pub port_at : List ℕ → ℕ → PortIdentity
port_at buf i = record { clock_identity = take 8 (drop i buf); port_number = word_at buf (i + 8) }

-- The cursor on octet `i` of the buffer, with `left` octets of the TLV.
abbrev pub parse_cursor : List ℕ → ℕ → ℕ → Cursor
parse_cursor buf i left = record {
  build = false;
  passed = [];
  rest = drop i buf;
  left = left;
  moved = 0;
}

-- MANAGEMENT and MANAGEMENT_ERROR_STATUS
abbrev pub tlv_management : ℕ
tlv_management = 1

abbrev pub tlv_error_status : ℕ
tlv_error_status = 2

shown : Message → Outcome PtpText → Parsed
shown m (ok text c) =
    returned (some msg) (record m { error_display = text; mng_type = tlv_error_status })
shown m (fail e) = returned (some too_small) m
shown m fault = crashed

-- The display text of an error status, when there is room for more than its length.
display : Message → List ℕ → ℕ → Parsed
unfolding shown
display m buf left =
    if ltb 1 left
    then shown m (proc_ptp_text m.error_display (parse_cursor buf 60 left))
    else returned (some msg) (record m { mng_type = tlv_error_status })

-- The error status after its id is known; `size` counts the octets behind it.
error_status : Message → List ℕ → ℕ → ℕ → Parsed
unfolding display
error_status m0 buf left size =
    if not (check_reply_action m0.tlv_id m0.reply_action)
    then returned (some action) m0
    else let m = record m0 { error_id = word_at buf 52 } in
      if ltb left 8 || left % 2 == 1
      then returned (some too_small) m
      else if ltb size (left - 8)
      then returned (some too_small) m
      else display m buf (left - 8)

stored : Message → Outcome (Option MngTlv) → Parsed
stored m (ok none c) = crashed
stored m (ok (some d) c) = returned none (record m { data_get = some d; mng_type = tlv_management })
stored m (fail e) = returned (some e) m
stored m fault = crashed

-- The management TLV after its id is known; `size` counts the octets of the data field.
pub management_tlv : Message → List ℕ → ℕ → ℕ → Parsed
unfolding stored
management_tlv m buf left size =
    if not (check_reply_action m.tlv_id m.reply_action)
    then returned (some action) m
    else if ltb left 2 || left % 2 == 1
    then returned (some too_small) m
    else if left == 2
    then returned none m
    else if ltb size (left - 2)
    then returned (some too_small) m
    else stored m (call_tlv_data m.tlv_id none (parse_cursor buf 54 (left - 2)))

-- The rest of a TLV once `findTlvId` returned.
with_id : Option MngId → Message → (Message → Parsed) → Parsed
with_id none m next = returned (some invalid_id) m
with_id (some id) m next = next (record m { tlv_id = id })

-- The TLV of a management message, whose type is at octet 48 and length at octet 50.
pub tlv_part : Message → List ℕ → Parsed
unfolding error_status management_tlv with_id
tlv_part m buf =
    let left = word_at buf 50 in
    let size = length buf - 52 in
    let find : ℕ → Option MngId = λ i. find_tlv_id (word_at buf i) m.prms.implement_specific in
    reading buf 52 (
      if word_at buf 48 == tlv_error_status
      then if ltb size 8
        then returned (some too_small) m
        else reading buf 56 (with_id (find 54) m (λ k. error_status k buf left (size - 8)))
      else if not (word_at buf 48 == tlv_management)
      then returned (some invalid_tlv) m
      else if ltb size 2
      then returned (some too_small) m
      else reading buf 54 (with_id (find 52) m (λ k. management_tlv k buf left (size - 2))))

-- The management part of the header, from the action on.
pub management_part : Message → List ℕ → Parsed
unfolding tlv_part
management_part m buf =
    let code = octet_at buf 46 % 16 in
    reading buf 47 (
      if not (code == 2) && not (code == 4)
      then returned (some action) m
      else tlv_part (record m { reply_action = code }) buf)

-- The fields that a management and a signaling message have in common.
pub common_fields : Message → List ℕ → Message
common_fields m buf = record m {
  sdo_id = octet_at buf 5 + octet_at buf 0 / 16 * 256;
  domain_number = octet_at buf 4;
  is_unicast = octet_at buf 6 / 4 % 2 == 1;
  sequence = word_at buf 30;
  peer = port_at buf 20;
  target = port_at buf 34;
}

pub header_part : Message → List ℕ → Parsed
unfolding management_part common_fields
header_part m0 buf =
    let m = record m0 {
      version_ptp = octet_at buf 1 % 16;
      minor_version_ptp = octet_at buf 1 / 16;
    } in
    reading buf 34 (
      if not (m.version_ptp == 2) || not (octet_at buf 33 == 0x7f)
      then returned (some header) m
      else reading buf 44 (
          if m.type == 0xc
          then signaling (common_fields m buf) (drop 44 buf)
          else management_part (common_fields m buf) buf))

-- MNG_PARSE_ERROR_e Message::parse(void *buf, ssize_t msgSize), for a buffer of msgSize octets
unfoldable pub parse : Message → List ℕ → Parsed
unfolding header_part
parse m0 buf =
    if ltb (length buf) 44
    then returned (some too_small) m0
    else let m = record m0 { type = octet_at buf 0 % 16 } in
      reading buf 1 (
        if m.type == 0xc
        then if not m.prms.rcv_signaling
          then returned (some header) m
          else reading buf 33
              (if not (octet_at buf 32 == 5) then returned (some header) m else header_part m buf)
        else if m.type == 0xd
        then if ltb (length buf) 52
          then returned (some too_small) m
          else reading buf 33
              (if not (octet_at buf 32 == 4) then returned (some header) m else header_part m buf)
        else returned (some header) m)
