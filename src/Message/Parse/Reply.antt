-- ===== src/Message/Parse/Reply.antt =====
-- `Message::parse` of msg.cpp on a management message that `Message::build` wrote.
use libpmc.Base.{
  ℕ, ◌+◌, ◌-◌, ◌*◌, ◌/◌, ◌%◌, ◌<◌, ◌≡◌, refl, subst, ap, ◌∙◌, sym, Bool, true, false, none, some,
  List, [], ◌∷◌, ◌++◌, length, drop, ltb, ◌==◌, if◌then◌else◌, Bool-cases, ltb→lt, not_ltb→le, inl,
  inr, append_assoc, length-append, arith,
}
use libpmc.Wire.{ParseError, Cursor, ok, pass, net}
use libpmc.Wire.Codec.{Agrees}
use libpmc.Types.{PortIdentity}
use libpmc.Types.Codecs.{ValidPort}
use libpmc.Ids.{
  Action, is_get, mng_all_vals, find_tlv_id, blocked, check_reply_action, action_value,
}
use libpmc.Ids.Find.{find_tlv_id_iff}
use libpmc.Ids.Values.{value-lt}
use libpmc.Mng.{MngTlv, kind, call_tlv_data}
use libpmc.Mng.Codecs.{ValidTlv, tlv_octets, sent_tlv}
use libpmc.Mng.Dispatch.{call_tlv_data-read}
use libpmc.Message.{Message, mng_msg_base_size}
use libpmc.Message.Build.{built, refused, build, tlv_header_octets}
use libpmc.Message.Build.Layout.{
  field_octets, pad, length-field_octets, message_octets, build-message_octets, build-too_small,
}
use libpmc.Message.Parse.{
  returned, octet_at, word_at, parse_cursor, parse, tlv_part, management_part, management_tlv,
  common_fields, tlv_management,
}
use libpmc.Message.Parse.Fields.{
  sent_octets, answered, answer_to, answered-sent_octets, octet-type, octet-version, octet-domain,
  octet-minor, octet-flags, port-peer, word-sequence, octet-control, octet-interval, port-target,
  octet-action, word-type, word-length, word-value, drop-field, length-sent_octets,
}
use libpmc.Message.Parse.Steps.{
  parse-management, header_part-common, management_part-reply, tlv_part-management,
  management_tlv-data,
}

Agrees-prefix : (xs ys : List ℕ) → Agrees xs (xs ++ ys)
Agrees-prefix [] ys = tt
Agrees-prefix (x ∷ xs) ys = (refl, Agrees-prefix xs ys)

unicast_bit : (b : Bool) → ((if b then 4 else 0) / 4 % 2 == 1) ≡ b
unicast_bit true = refl
unicast_bit false = refl

low_octet : (t : ℕ) → t < 16 → (0xd + t * 16) % 256 ≡ 0xd + t * 16
low_octet t h = omega arith

high_octet : (t : ℕ) → (0xd + t * 16) / 16 ≡ t
high_octet t = omega arith

type_of : (t : ℕ) → (0xd + t * 16) % 16 ≡ 0xd
type_of t = omega arith

minus_2 : (n : ℕ) → 2 + n - 2 ≡ n
minus_2 n = omega arith

even_left : (n k : ℕ) → k ≡ n + n % 2 → (2 + k) % 2 ≡ 0
even_left n k h = omega arith

ap2 : {a b t u : ℕ} → a ≡ b → t ≡ u → a + t * 256 ≡ b + u * 256
ap2 e f = rw (e, f)

abbrev filled : Message → ℕ → ℕ → Bool → ℕ → PortIdentity → PortIdentity → Message
filled k sdo domain unicast n peer target = record k {
  sdo_id = sdo;
  domain_number = domain;
  is_unicast = unicast;
  sequence = n;
  peer = peer;
  target = target;
}

filled-same :
    (k : Message) {s t x y n o : ℕ} {b c : Bool} {p q u w : PortIdentity}
    → s ≡ t
    → x ≡ y
    → b ≡ c
    → n ≡ o
    → p ≡ q
    → u ≡ w
    → filled k s x b n p u ≡ filled k t y c o q w
filled-same k {s} {t} {x} {y} {n} {o} {b} {c} {p} {q} {u} {w} es ex eb en ep eu =
    rw (es, ex, eb, en) (ap (λ z. filled k t y c o z u) ep ∙ ap (λ z. filled k t y c o q z) eu)

-- The message `r` after the reply `d` of `m`.
abbrev pub after_reply : Message → Message → MngTlv → ℕ → Message
after_reply r m d sequence = record r {
  type = 0xd;
  version_ptp = 2;
  minor_version_ptp = 0;
  sdo_id = 0 + m.prms.transport_specific * 256;
  domain_number = m.prms.domain_number;
  is_unicast = m.prms.is_unicast;
  sequence = sequence;
  peer = m.prms.self_id;
  target = m.prms.target;
  reply_action = action_value m.send_action;
  tlv_id = kind d;
  data_get = some (sent_tlv d);
  mng_type = tlv_management;
}

module _ (m r : Message) (d : MngTlv) (total sequence : ℕ) (rest : List ℕ)
    (self : ValidPort m.prms.self_id) (target : ValidPort m.prms.target) (valid : ValidTlv d)
    (transport : m.prms.transport_specific < 16) (short : sequence < 65536)
    (small : 2 + length (field_octets d) < 65536) (some_data : 0 < length (tlv_octets d))
    (unblocked : blocked (kind d) r.prms.implement_specific ≡ false)
    (check : check_reply_action (kind d) (action_value m.send_action) ≡ true) where
  abbrev l : ℕ
  l = 2 + length (field_octets d)

  abbrev v : ℕ
  v = (mng_all_vals (kind d)).value

  abbrev f : List ℕ
  f = field_octets d ++ rest

  abbrev reply : List ℕ
  reply = sent_octets m total sequence l v f

  first_octet : octet_at reply 0 ≡ 0xd + m.prms.transport_specific * 16
  first_octet = octet-type m total sequence l v f ∙ low_octet m.prms.transport_specific transport

  -- The fields of the header.
  common_fields-reply :
      (k : Message)
      → common_fields k reply
        ≡ filled k
            (0 + m.prms.transport_specific * 256)
            m.prms.domain_number
            m.prms.is_unicast
            sequence
            m.prms.self_id
            m.prms.target
  unfolding common_fields
  common_fields-reply k =
      filled-same k
        (ap2 (octet-minor m total sequence l v f)
          (ap (λ o. o / 16) first_octet ∙ high_octet m.prms.transport_specific))
        (octet-domain m total sequence l v f)
        (ap (λ o. o / 4 % 2 == 1) (octet-flags m total sequence l v f)
          ∙ unicast_bit m.prms.is_unicast)
        (word-sequence m total sequence l v f self target short)
        (port-peer m total sequence l v f self target)
        (port-target m total sequence l v f self target)

  abbrev c : Cursor
  c = parse_cursor reply 54 (length (field_octets d))

  reply_rest : c.rest ≡ field_octets d ++ rest
  reply_rest = drop-field m total sequence l v f self target

  read-reply : call_tlv_data (kind d) none c ≡ ok (some (sent_tlv d)) (pass c (tlv_octets d))
  read-reply =
      call_tlv_data-read d c valid refl
        (omega (arith, ap length reply_rest, length-append (field_octets d) rest))
        (omega (arith, length-append (tlv_octets d) (pad (length (tlv_octets d)))))
        (omega (arith, length-field_octets (tlv_octets d)))
        (subst (Agrees (tlv_octets d))
          (sym (reply_rest ∙ append_assoc (tlv_octets d) (pad (length (tlv_octets d))) rest))
          (Agrees-prefix (tlv_octets d) _))

  found : find_tlv_id (word_at reply 52) r.prms.implement_specific ≡ some (kind d)
  found =
      (find_tlv_id_iff (word_at reply 52) r.prms.implement_specific (kind d)).1
        (sym (word-value m total sequence l v f self target (value-lt (kind d))), unblocked)

  long : length reply ≡ 54 + length f
  long = length-sent_octets m total sequence l v f self target

  abbrev read_header : Message
  read_header =
      record (filled (record r { type = 0xd; version_ptp = 2; minor_version_ptp = 0 })
        (0 + m.prms.transport_specific * 256) m.prms.domain_number m.prms.is_unicast sequence
        m.prms.self_id m.prms.target) { reply_action = action_value m.send_action }

  -- The steps of a parse, up to the TLV.
  parse-tlv_part : parse r reply ≡ tlv_part read_header reply
  parse-tlv_part =
      parse-management r reply (ap (λ o. o % 16) first_octet ∙ type_of m.prms.transport_specific)
        (omega (arith, long)) (octet-control m total sequence l v f self target)
      ∙ header_part-common (record r { type = 0xd }) reply refl (omega (arith, long))
          (octet-version m total sequence l v f) (octet-interval m total sequence l v f self target)
      ∙ ap (λ k. management_part k reply)
          (common_fields-reply (record r { type = 0xd; version_ptp = 2; minor_version_ptp = 0 }))
      ∙ management_part-reply _ reply (kind d) (action_value m.send_action) (omega (arith, long))
          (octet-action m total sequence l v f self target) check

  read_left :
      call_tlv_data (kind d) none (parse_cursor reply 54 (l - 2))
      ≡ ok (some (sent_tlv d)) (pass c (tlv_octets d))
  read_left =
      ap (λ n. call_tlv_data (kind d) none (parse_cursor reply 54 n))
        (minus_2 (length (field_octets d)))
      ∙ read-reply

  -- A message with the octets that a build writes for a RESPONSE or an ACKNOWLEDGE with valid data of
  -- an id that the receiver does not block, whatever stands behind the data field, parses without an
  -- error. The receiver then has the header fields of the sender, the id, and the data as it was sent.
  pub parse-sent_octets : parse r reply ≡ returned none (after_reply r m d sequence)
  parse-sent_octets =
      parse-tlv_part
      ∙ tlv_part-management read_header reply (kind d)
          (word-type m total sequence l v f self target) (omega (arith, long)) found
      ∙ ap
          (λ n.
            management_tlv (record read_header { tlv_id = kind d }) reply n (length reply - 52 - 2))
          (word-length m total sequence l v f self target small)
      ∙ management_tlv-data (record read_header { tlv_id = kind d }) reply l (length reply - 52 - 2)
          (sent_tlv d) (pass c (tlv_octets d)) check
          (even_left (length (tlv_octets d)) _ (length-field_octets (tlv_octets d)))
          (omega (arith, length-field_octets (tlv_octets d)))
          (omega (arith, long, length-append (field_octets d) rest)) read_left

built_inj : {o p : List ℕ} {j k : Message} → built o j ≡ built p k → o ≡ p
built_inj h = cc

never_both : {o : List ℕ} {e : ParseError} {k : Message} → refused e ≡ built o k → ⊥
never_both h = cc

-- What `Message::build` makes of a message with valid data of its id, a SET or a COMMAND: when a clock
-- answers with those octets, from and to any ports, as a RESPONSE or an ACKNOWLEDGE that the table allows
-- for the id, `Message::parse` of a receiver that does not block the id reads the answer without an
-- error, with the header fields of the message, the ports and the action of the answer, the id and the
-- data as it was sent. The data field is not empty and its length fits 16 bits, and the port identities,
-- the transport (4 bits) and the sequence (16 bits) are in their ranges.
pub parse-build :
    (m r : Message) (d : MngTlv) (from to : PortIdentity) (reply : Action) (buf out : List ℕ)
    (sequence : ℕ) (k : Message)
    → is_get m.send_action ≡ false
    → m.tlv_id ≡ kind d
    → m.data_send ≡ some d
    → ValidTlv d
    → ValidPort m.prms.self_id
    → ValidPort m.prms.target
    → ValidPort from
    → ValidPort to
    → m.prms.transport_specific < 16
    → sequence < 65536
    → 0 < length (tlv_octets d)
    → 2 + length (field_octets d) < 65536
    → blocked (kind d) r.prms.implement_specific ≡ false
    → check_reply_action (kind d) (action_value reply) ≡ true
    → build m (some buf) sequence ≡ built out k
    → parse r (answered from to (action_value reply) out)
      ≡ returned none (after_reply r (answer_to m from to reply) d sequence)
parse-build m r d from to reply buf out sequence k not_get is_id is_send valid self target vf vt
      transport short some_data small unblocked check b =
    let n = length (field_octets d) in
    elim (Bool-cases (ltb (length buf) (mng_msg_base_size + n))) [
      | inl little ↦ absurd (
          never_both (
            sym (build-too_small m d buf sequence not_get is_id is_send valid (ltb→lt _ _ little))
            ∙ b))
      | inr room ↦
          let e : message_octets m d buf sequence ≡ out = built_inj (
            sym (
              build-message_octets m d buf sequence not_get is_id is_send valid
                (not_ltb→le _ _ room))
            ∙ b) in
          let rest = drop n (drop mng_msg_base_size buf) in
          subst
            (λ o.
              parse r (answered from to (action_value reply) o)
              ≡ returned none (after_reply r (answer_to m from to reply) d sequence))
            e
            (unfold tlv_header_octets net in
              ap (parse r) (
                answered-sent_octets m from to reply (mng_msg_base_size + n) sequence (2 + n)
                  (mng_all_vals (kind d)).value (field_octets d ++ rest) self target vf vt)
              ∙ parse-sent_octets (answer_to m from to reply) r d (mng_msg_base_size + n) sequence
                  rest vf vt valid transport short small some_data unblocked check)
    ]
