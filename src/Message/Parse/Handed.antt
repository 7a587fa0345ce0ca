-- ===== src/Message/Parse/Handed.antt =====
-- What `Message::parse` of msg.cpp hands to `parseSig`.
use libpmc.Base.{
  ℕ, ◌-◌, ◌%◌, ◌≡◌, refl, Bool, true, false, not, ◌&&◌, ◌||◌, Option, none, some, List, length, ltb,
  ◌==◌, if◌then◌else◌,
}
use libpmc.Wire.{invalid_tlv, too_small, Outcome, ok, fail, fault}
use libpmc.Types.{PtpText}
use libpmc.Ids.{MngId, find_tlv_id, check_reply_action}
use libpmc.Mng.{MngTlv}
use libpmc.Message.{Message, MsgParams}
use libpmc.Message.Parse.{
  Parsed, returned, signaling, crashed, reading, octet_at, word_at, parse, header_part, tlv_part,
  management_part, error_status, management_tlv, stored, shown, display, with_id, common_fields,
  tlv_management, tlv_error_status,
}

-- A message that goes on to `parseSig` has the parameters `prms`.
abbrev pub HasParams : MsgParams → Parsed → Type 0
HasParams prms (signaling m octets) = m.prms ≡ prms
HasParams prms (returned e m) = Unit
HasParams prms crashed = Unit

module _ (prms : MsgParams) where
  HasParams-if :
      (b : Bool) (p q : Parsed)
      → HasParams prms p
      → HasParams prms q
      → HasParams prms (if b then p else q)
  HasParams-if true p q h k = h
  HasParams-if false p q h k = k

  reading-HasParams :
      (buf : List ℕ) (n : ℕ) (p : Parsed) → HasParams prms p → HasParams prms (reading buf n p)
  reading-HasParams buf n p h = HasParams-if (ltb (length buf) n) crashed p tt h

  shown-HasParams : (m : Message) (o : Outcome PtpText) → HasParams prms (shown m o)
  unfolding shown
  shown-HasParams m (ok t c) = tt
  shown-HasParams m (fail e) = tt
  shown-HasParams m fault = tt

  stored-HasParams : (m : Message) (o : Outcome (Option MngTlv)) → HasParams prms (stored m o)
  unfolding stored
  stored-HasParams m (ok none c) = tt
  stored-HasParams m (ok (some d) c) = tt
  stored-HasParams m (fail e) = tt
  stored-HasParams m fault = tt

  display-HasParams : (m : Message) (buf : List ℕ) (left : ℕ) → HasParams prms (display m buf left)
  unfolding display
  display-HasParams m buf left = HasParams-if (ltb 1 left) _ _ (shown-HasParams m _) tt

  error_status-HasParams :
      (m : Message) (buf : List ℕ) (left size : ℕ) → HasParams prms (error_status m buf left size)
  unfolding error_status
  error_status-HasParams m buf left size =
      HasParams-if (not (check_reply_action m.tlv_id m.reply_action)) _ _ tt (
        HasParams-if (ltb left 8 || left % 2 == 1) _ _ tt
          (HasParams-if (ltb size (left - 8)) _ _ tt (display-HasParams _ buf (left - 8))))

  management_tlv-HasParams :
      (m : Message) (buf : List ℕ) (left size : ℕ) → HasParams prms (management_tlv m buf left size)
  unfolding management_tlv
  management_tlv-HasParams m buf left size =
      HasParams-if (not (check_reply_action m.tlv_id m.reply_action)) _ _ tt (
        HasParams-if (ltb left 2 || left % 2 == 1) _ _ tt (
          HasParams-if (left == 2) _ _ tt
            (HasParams-if (ltb size (left - 2)) _ _ tt (stored-HasParams m _))))

  with_id-HasParams :
      (o : Option MngId) (m : Message) (next : Message → Parsed)
      → ((k : Message) → HasParams prms (next k))
      → HasParams prms (with_id o m next)
  unfolding with_id
  with_id-HasParams none m next h = tt
  with_id-HasParams (some id) m next h = h (record m { tlv_id = id })

  tlv_part-HasParams : (m : Message) (buf : List ℕ) → HasParams prms (tlv_part m buf)
  unfolding tlv_part
  tlv_part-HasParams m buf = reading-HasParams buf 52 _ (
      HasParams-if (word_at buf 48 == tlv_error_status) _ _
        (HasParams-if (ltb (length buf - 52) 8) _ _ tt (
          reading-HasParams buf 56 _ (
            with_id-HasParams (find_tlv_id (word_at buf 54) m.prms.implement_specific) m _
              (λ k. error_status-HasParams k buf (word_at buf 50) (length buf - 52 - 8)))))
        (HasParams-if (not (word_at buf 48 == tlv_management)) (returned (some invalid_tlv) m) _ tt
          (HasParams-if (ltb (length buf - 52) 2) (returned (some too_small) m) _ tt (
            reading-HasParams buf 54 _ (
              with_id-HasParams (find_tlv_id (word_at buf 52) m.prms.implement_specific) m _
                (λ k. management_tlv-HasParams k buf (word_at buf 50) (length buf - 52 - 2)))))))

  management_part-HasParams : (m : Message) (buf : List ℕ) → HasParams prms (management_part m buf)
  unfolding management_part
  management_part-HasParams m buf = reading-HasParams buf 47 _ (
      HasParams-if (not (octet_at buf 46 % 16 == 2) && not (octet_at buf 46 % 16 == 4)) _ _ tt
        (tlv_part-HasParams _ buf))

header_part-HasParams : (m : Message) (buf : List ℕ) → HasParams m.prms (header_part m buf)
unfolding header_part common_fields
header_part-HasParams m buf = reading-HasParams m.prms buf 34 _ (
    HasParams-if m.prms (not (octet_at buf 1 % 16 == 2) || not (octet_at buf 33 == 0x7f)) _ _ tt (
      reading-HasParams m.prms buf 44 _
        (HasParams-if m.prms (m.type == 0xc) _ _ refl (management_part-HasParams m.prms _ buf))))

pub parse-HasParams : (m : Message) (buf : List ℕ) → HasParams m.prms (parse m buf)
unfolding parse
parse-HasParams m buf =
    let code = octet_at buf 0 % 16 in
    let go : HasParams m.prms (header_part (record m { type = code }) buf) =
      header_part-HasParams (record m { type = code }) buf in
    HasParams-if m.prms (ltb (length buf) 44) _ _ tt (
      reading-HasParams m.prms buf 1 _ (
        HasParams-if m.prms (code == 0xc) _ _
          (HasParams-if m.prms (not m.prms.rcv_signaling) _ _ tt (
            reading-HasParams m.prms buf 33 _
              (HasParams-if m.prms (not (octet_at buf 32 == 5)) _ _ tt go)))
          (HasParams-if m.prms (code == 0xd) _ _
            (HasParams-if m.prms (ltb (length buf) 52) _ _ tt (
              reading-HasParams m.prms buf 33 _
                (HasParams-if m.prms (not (octet_at buf 32 == 4)) _ _ tt go)))
            tt)))
