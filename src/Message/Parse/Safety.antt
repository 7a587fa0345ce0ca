-- ===== src/Message/Parse/Safety.antt =====
-- When `Message::parse` of msg.cpp can leave its buffer or use the pointer it did not set.
use libpmc.Base.{
  ℕ, ◌+◌, ◌-◌, ◌%◌, ◌≤◌, ◌<◌, ◌≡◌, refl, ap, Bool, true, false, not, ◌&&◌, ◌||◌, Option, none, some,
  List, length, ltb, ◌==◌, if◌then◌else◌, inl, inr, Bool-cases, ◌⊎◌, not_ltb→le, ltb→lt,
  length-drop, arith,
}
use libpmc.Wire.{Cursor, Outcome, ok, fail, fault}
use libpmc.Wire.Safety.{After, Safe}
use libpmc.Types.{PtpText, proc_ptp_text}
use libpmc.Types.Safety.{type_safety}
use libpmc.Ids.{MngId, find_tlv_id, check_reply_action, is_empty}
use libpmc.Mng.{MngTlv}
use libpmc.Mng.Dispatch.{call_tlv_data-After, call_tlv_data-unset, is_unset}
use libpmc.Message.{Message}
use libpmc.Message.Parse.{
  Parsed, crashed, reading, octet_at, word_at, parse_cursor, parse, header_part, tlv_part,
  management_part, error_status, management_tlv, stored, shown, display, with_id, common_fields,
  tlv_management, tlv_error_status,
}

abbrev is_crash : Parsed → Bool
is_crash crashed = true
is_crash _ = false

-- What a buffer has, up to the id at least, when its management TLV holds data for an id with no data
-- field.
pub record DatalessReply (m : Message) (buf : List ℕ) : Type 0 where
  pub id : MngId
  pub holds_id : 54 ≤ length buf
  pub found : find_tlv_id (word_at buf 52) m.prms.implement_specific ≡ some id
  pub dataless : is_empty id ≡ true
  pub is_management : word_at buf 48 ≡ tlv_management
  pub has_data : 2 < word_at buf 50

-- A crash is in the branch that does not return.
past :
    (b : Bool) (p q : Parsed)
    → is_crash p ≡ false
    → is_crash (if b then p else q) ≡ true
    → (b ≡ false) × (is_crash q ≡ true)
past true p q hp h = absurd (ground arith)
past false p q hp h = (refl, h)

-- A crash is in the branch that is taken.
branches :
    (b : Bool) (p q : Parsed)
    → is_crash (if b then p else q) ≡ true
    → ((b ≡ true) × (is_crash p ≡ true)) ⊎ ((b ≡ false) × (is_crash q ≡ true))
branches true p q h = inl (refl, h)
branches false p q h = inr (refl, h)

-- A crash behind a read within the buffer is not that of the read.
behind :
    (buf : List ℕ) (n : ℕ) (p : Parsed)
    → n ≤ length buf
    → is_crash (reading buf n p) ≡ true
    → is_crash p ≡ true
behind buf n p room h = elim (branches (ltb (length buf) n) crashed p h) [
  | inl beyond ↦ absurd (omega (arith, room, ltb→lt _ _ beyond.0))
  | inr within ↦ within.1
]

contrary : (b : Bool) → b ≡ true → b ≡ false → ⊥
contrary b h k = cc

same_type : (a b : ℕ) → not (a == b) ≡ false → a ≡ b
same_type a b h = ground arith

shown-safe :
    (m : Message) (c : Cursor) (o : Outcome PtpText) → After c o → is_crash (shown m o) ≡ false
unfolding shown
shown-safe m c (ok t d) a = refl
shown-safe m c (fail e) a = refl
shown-safe m c fault a = absurd a

parse_room :
    (buf : List ℕ) (i left size : ℕ)
    → size + i ≤ length buf
    → ltb size left ≡ false
    → (parse_cursor buf i left).left ≤ length (parse_cursor buf i left).rest
parse_room buf i left size h fits = omega (arith, length-drop i buf, not_ltb→le _ _ fits)

Safe-text : (t : PtpText) → Safe (proc_ptp_text t)
Safe-text t = search type_safety

stored-crash :
    (m : Message) (c : Cursor) (o : Outcome (Option MngTlv))
    → After c o
    → is_crash (stored m o) ≡ true
    → is_unset o ≡ true
unfolding stored
stored-crash m c (ok none d) a h = refl
stored-crash m c (ok (some x) d) a h = absurd (ground arith)
stored-crash m c (fail e) a h = absurd (ground arith)
stored-crash m c fault a h = absurd a

display-safe :
    (m : Message) (buf : List ℕ) (left size : ℕ)
    → size + 60 ≤ length buf
    → ltb size left ≡ false
    → is_crash (display m buf left) ≡ false
unfolding display
display-safe m buf left size h fits = elim (Bool-cases (ltb 1 left)) [
  | inl long ↦ rw long (
      shown-safe m (parse_cursor buf 60 left) _
        ((Safe-text m.error_display).at _ refl (parse_room buf 60 left size h fits)))
  | inr short ↦ rw short
]

error_status-safe :
    (m : Message) (buf : List ℕ) (left size : ℕ)
    → size + 60 ≤ length buf
    → is_crash (error_status m buf left size) ≡ true
    → ⊥
unfolding error_status
error_status-safe m buf left size h crash =
    let p = past (not (check_reply_action m.tlv_id m.reply_action)) _ _ refl crash in
    let q = past (ltb left 8 || left % 2 == 1) _ _ refl p.1 in
    let r = past (ltb size (left - 8)) _ _ refl q.1 in
    contrary _ r.1 (display-safe _ buf _ size h r.0)

management_tlv-crash :
    (m : Message) (buf : List ℕ) (left size : ℕ)
    → size + 54 ≤ length buf
    → is_crash (management_tlv m buf left size) ≡ true
    → (is_empty m.tlv_id ≡ true) × (2 < left)
unfolding management_tlv
management_tlv-crash m buf left size h crash =
    let p = past (not (check_reply_action m.tlv_id m.reply_action)) _ _ refl crash in
    let q = past (ltb left 2 || left % 2 == 1) _ _ refl p.1 in
    let r = past (left == 2) _ _ refl q.1 in
    let s = past (ltb size (left - 2)) _ _ refl r.1 in
    let c : Cursor = parse_cursor buf 54 (left - 2) in
    (
      call_tlv_data-unset m.tlv_id c refl (
          stored-crash m c _ (call_tlv_data-After m.tlv_id c refl (parse_room buf 54 _ size h s.0))
            s.1),
      ground (arith, q.0, r.0),
    )

with_id-crash :
    (o : Option MngId) (m : Message) (next : Message → Parsed)
    → is_crash (with_id o m next) ≡ true
    → (id : MngId) × (o ≡ some id) × (is_crash (next (record m { tlv_id = id })) ≡ true)
unfolding with_id
with_id-crash none m next h = absurd (ground arith)
with_id-crash (some id) m next h = (id, refl, h)

tlv_part-crash :
    (m : Message) (buf : List ℕ)
    → 52 ≤ length buf
    → is_crash (tlv_part m buf) ≡ true
    → DatalessReply m buf
unfolding tlv_part
tlv_part-crash m buf long crash =
    elim (branches (word_at buf 48 == tlv_error_status) _ _ (behind buf 52 _ long crash)) [
      | inl is_error ↦
          let p = past (ltb (length buf - 52) 8) _ _ refl is_error.1 in
          let size = not_ltb→le _ _ p.0 in
          let w =
            with_id-crash (find_tlv_id (word_at buf 54) m.prms.implement_specific) m _
              (behind buf 56 _ (omega (arith, size)) p.1) in
          absurd (
            error_status-safe _ buf (word_at buf 50) (length buf - 52 - 8) (omega (arith, size))
              w.2)
      | inr other ↦
          let p = past (not (word_at buf 48 == tlv_management)) _ _ refl other.1 in
          let q = past (ltb (length buf - 52) 2) _ _ refl p.1 in
          let size = not_ltb→le _ _ q.0 in
          let w =
            with_id-crash (find_tlv_id (word_at buf 52) m.prms.implement_specific) m _
              (behind buf 54 _ (omega (arith, size)) q.1) in
          let r =
            management_tlv-crash _ buf (word_at buf 50) (length buf - 52 - 2) (omega (arith, size))
              w.2 in
          record {
            id = w.0;
            holds_id = omega (arith, long, size);
            found = w.1;
            dataless = r.0;
            is_management = same_type _ _ p.0;
            has_data = r.1;
          }
    ]

management_part-crash :
    (m : Message) (buf : List ℕ)
    → 52 ≤ length buf
    → is_crash (management_part m buf) ≡ true
    → DatalessReply m buf
unfolding management_part
management_part-crash m buf long crash =
    let code = octet_at buf 46 % 16 in
    let p =
      past (not (code == 2) && not (code == 4)) _ _ refl
        (behind buf 47 _ (omega (arith, long)) crash) in
    let d = tlv_part-crash _ buf long p.1 in
    record {
      id = d.id;
      holds_id = d.holds_id;
      found = d.found;
      dataless = d.dataless;
      is_management = d.is_management;
      has_data = d.has_data;
    }

header_part-crash :
    (m : Message) (buf : List ℕ)
    → 52 ≤ length buf
    → is_crash (header_part m buf) ≡ true
    → DatalessReply m buf
unfolding header_part common_fields
header_part-crash m buf long crash =
    let p =
      past (not (octet_at buf 1 % 16 == 2) || not (octet_at buf 33 == 0x7f)) _ _ refl
        (behind buf 34 _ (omega (arith, long)) crash) in
    let q = past (m.type == 0xc) _ _ refl (behind buf 44 _ (omega (arith, long)) p.1) in
    let d = management_part-crash _ buf long q.1 in
    record {
      id = d.id;
      holds_id = d.holds_id;
      found = d.found;
      dataless = d.dataless;
      is_management = d.is_management;
      has_data = d.has_data;
    }

signaling-safe :
    (m : Message) (buf : List ℕ)
    → 44 ≤ length buf
    → (m.type == 0xc) ≡ true
    → is_crash (header_part m buf) ≡ true
    → ⊥
unfolding header_part
signaling-safe m buf long is_sig crash =
    let p =
      past (not (octet_at buf 1 % 16 == 2) || not (octet_at buf 33 == 0x7f)) _ _ refl
        (behind buf 34 _ (omega (arith, long)) crash) in
    let q = past (m.type == 0xc) _ _ refl (behind buf 44 _ long p.1) in contrary _ is_sig q.0

-- Whatever the octets of the buffer are, a parse that uses an unset pointer or leaves the buffer was
-- given a management TLV with data for an id that has no data field; every other message is
-- returned from with a result, or handed to `parseSig`.
pub parse-DatalessReply : (m : Message) (buf : List ℕ) → parse m buf ≡ crashed → DatalessReply m buf
unfolding parse
parse-DatalessReply m buf h =
    let code = octet_at buf 0 % 16 in
    let p = past (ltb (length buf) 44) _ _ refl (ap is_crash h) in
    let long = not_ltb→le _ _ p.0 in
    elim (branches (code == 0xc) _ _ (behind buf 1 _ (omega (arith, long)) p.1)) [
      | inl is_sig ↦
          let q = past (not m.prms.rcv_signaling) _ _ refl is_sig.1 in
          let r =
            past (not (octet_at buf 32 == 5)) _ _ refl
              (behind buf 33 _ (omega (arith, long)) q.1) in
          absurd (signaling-safe (record m { type = code }) buf long is_sig.0 r.1)
      | inr other ↦ elim (branches (code == 0xd) _ _ other.1) [
        | inl is_mng ↦
            let q = past (ltb (length buf) 52) _ _ refl is_mng.1 in
            let r =
              past (not (octet_at buf 32 == 4)) _ _ refl
                (behind buf 33 _ (omega (arith, long)) q.1) in
            let d = header_part-crash (record m { type = code }) buf (not_ltb→le _ _ q.0) r.1 in
            record {
              id = d.id;
              holds_id = d.holds_id;
              found = d.found;
              dataless = d.dataless;
              is_management = d.is_management;
              has_data = d.has_data;
            }
        | inr third ↦ absurd (contrary _ third.1 refl)
      ]
    ]
