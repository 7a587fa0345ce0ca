-- ===== src/Message/Parse/Steps.antt =====
-- The steps of `Message::parse` of msg.cpp on a management message without an error.
use libpmc.Base.{
  ℕ, ◌-◌, ◌%◌, ◌≤◌, ◌<◌, ◌≡◌, true, false, none, some, List, length, ◌==◌, le→not_ltb, inl, inr,
  arith,
}
use libpmc.Wire.{Cursor, ok}
use libpmc.Ids.{MngId, find_tlv_id, check_reply_action}
use libpmc.Ids.Actions.{check_reply_action-cases}
use libpmc.Mng.{MngTlv, call_tlv_data}
use libpmc.Message.{Message}
use libpmc.Message.Parse.{
  returned, octet_at, word_at, parse_cursor, parse, header_part, tlv_part, management_part,
  management_tlv, stored, with_id, common_fields, tlv_management,
}

pub parse-management :
    (r : Message) (buf : List ℕ)
    → octet_at buf 0 % 16 ≡ 0xd
    → 52 ≤ length buf
    → octet_at buf 32 ≡ 4
    → parse r buf ≡ header_part (record r { type = 0xd }) buf
unfolding parse
parse-management r buf t long control = rw (
  le→not_ltb (length buf) 44 (omega arith),
  le→not_ltb (length buf) 1 (omega arith),
  t,
  le→not_ltb (length buf) 52 long,
  le→not_ltb (length buf) 33 (omega arith),
  control,
)

pub header_part-common :
    (r : Message) (buf : List ℕ)
    → r.type ≡ 0xd
    → 52 ≤ length buf
    → octet_at buf 1 ≡ 2
    → octet_at buf 33 ≡ 0x7f
    → header_part r buf
      ≡ management_part
          (common_fields (record r { version_ptp = 2; minor_version_ptp = 0 }) buf)
          buf
unfolding header_part
header_part-common r buf t long version interval = rw (
  le→not_ltb (length buf) 34 (omega arith),
  version,
  interval,
  le→not_ltb (length buf) 44 (omega arith),
  t,
)

pub management_part-reply :
    (r : Message) (buf : List ℕ) (id : MngId) (a : ℕ)
    → 52 ≤ length buf
    → octet_at buf 46 ≡ a
    → check_reply_action id a ≡ true
    → management_part r buf ≡ tlv_part (record r { reply_action = a }) buf
unfolding management_part
management_part-reply r buf id a long e check = elim (check_reply_action-cases id a check) [
  | inl two ↦ rw (le→not_ltb (length buf) 47 (omega arith), e, two)
  | inr four ↦ rw (le→not_ltb (length buf) 47 (omega arith), e, four)
]

pub tlv_part-management :
    (r : Message) (buf : List ℕ) (id : MngId)
    → word_at buf 48 ≡ tlv_management
    → 54 ≤ length buf
    → find_tlv_id (word_at buf 52) r.prms.implement_specific ≡ some id
    → tlv_part r buf
      ≡ management_tlv (record r { tlv_id = id }) buf (word_at buf 50) (length buf - 52 - 2)
unfolding tlv_part with_id
tlv_part-management r buf id t long found = rw (
  le→not_ltb (length buf) 52 (omega arith),
  t,
  le→not_ltb (length buf - 52) 2 (omega arith),
  le→not_ltb (length buf) 54 long,
  found,
)

not_two : (n : ℕ) → 2 < n → (n == 2) ≡ false
not_two n h = ground arith

pub management_tlv-data :
    (r : Message) (buf : List ℕ) (left size : ℕ) (d : MngTlv) (c : Cursor)
    → check_reply_action r.tlv_id r.reply_action ≡ true
    → left % 2 ≡ 0
    → 2 < left
    → left - 2 ≤ size
    → call_tlv_data r.tlv_id none (parse_cursor buf 54 (left - 2)) ≡ ok (some d) c
    → management_tlv r buf left size
      ≡ returned none (record r { data_get = some d; mng_type = tlv_management })
unfolding management_tlv stored
management_tlv-data r buf left size d c check even some_data fits read = rw (
  check,
  le→not_ltb left 2 (omega arith),
  even,
  not_two left some_data,
  le→not_ltb size (left - 2) fits,
  read,
)
