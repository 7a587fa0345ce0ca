-- ===== src/Message/Build/Layout.antt =====
-- What `Message::build` of msg.cpp writes when there is data to send.
use libpmc.Base.{
  ℕ, ◌+◌, ◌-◌, ◌%◌, ◌≤◌, ◌<◌, ◌≡◌, refl, ap, ◌∙◌, Bool, true, false, Option, some, List, [], ◌∷◌,
  ◌++◌, length, drop, ltb, leb, ◌==◌, if◌then◌else◌, Bool-cases, inl, inr, length-append,
  length-drop, append-nil, le→not_ltb, not_leb→lt, le→leb, lt→not_leb, not_ltb→le, arith,
}
use libpmc.Wire.{Cursor, ok, fail, too_small, ◌>>=◌, ◌>>◌, pure, continue, pass, net, proc_u8}
use libpmc.Wire.Codec.{Runs, Runs-map, within, within-pass, pass-room}
use libpmc.Wire.Values.{u8-write}
use libpmc.Ids.{is_get}
use libpmc.Mng.{MngTlv, kind}
use libpmc.Mng.Codecs.{ValidTlv, tlv_octets, sent_tlv}
use libpmc.Mng.Dispatch.{call_tlv_data-write}
use libpmc.Message.{Message, mng_msg_base_size}
use libpmc.Message.Build.{
  built, refused, header_octets, tlv_header_octets, padded, send_field, data_field, field_cursor,
  finish, build, is_data,
}

-- The pad octet that makes the count of `n` octets even.
abbrev pub pad : ℕ → List ℕ
pad n = if n % 2 == 1 then 0 ∷ [] else []

-- The data field of `d` on the wire.
abbrev pub field_octets : MngTlv → List ℕ
field_octets d = tlv_octets d ++ pad (length (tlv_octets d))

pub length-field_octets : (xs : List ℕ) → length (xs ++ pad (length xs)) ≡ length xs + length xs % 2
length-field_octets xs = elim (Bool-cases (length xs % 2 == 1)) [
  | inl odd ↦ rw odd (ground (arith, length-append xs (0 ∷ [])))
  | inr even ↦ rw (even, append-nil xs) (ground arith)
]

pad-write : (d : Option MngTlv) → Runs true (proc_u8 0 >>= λ _. pure d) (0 ∷ []) d
unfolding net
pad-write d = Runs-map (λ _. d) u8-write

starts_at_0 : (k n : ℕ) → k ≡ 0 → k + n ≡ n
starts_at_0 k n h = omega arith

-- The parity of the octets written decides.
padded_by :
    (b : Bool) (d : Option MngTlv) (c : Cursor)
    → (c.moved % 2 == 1) ≡ b
    → padded d c ≡ (if b then (do proc_u8 0; pure d) else pure d) c
unfolding padded
padded_by b d c e = ap (λ x. (if x then (do proc_u8 0; pure d) else pure d) c) e

parity_after :
    (xs : List ℕ) (c : Cursor) → c.moved ≡ 0 → ((pass c xs).moved % 2 == 1) ≡ (length xs % 2 == 1)
unfolding pass
parity_after xs c start = ap (λ k. k % 2 == 1) (starts_at_0 c.moved (length xs) start)

-- After the data the pad is written, or the data field is refused as too small.
padded-within :
    (xs : List ℕ) (d : Option MngTlv) (c : Cursor)
    → c.build ≡ true
    → c.moved ≡ 0
    → c.left ≤ length c.rest
    → leb (length xs) c.left ≡ true
    → padded d (pass c xs) ≡ within c (xs ++ pad (length xs)) d
unfolding pure
padded-within xs d c dir start room fits = elim (Bool-cases (length xs % 2 == 1)) [
  | inl odd ↦ rw odd (
      padded_by true d (pass c xs) (parity_after xs c start ∙ odd)
      ∙ (pad-write d).at (pass c xs) (unfold pass in dir) (pass-room c xs room) (λ e. absurd cc)
      ∙ within-pass c xs (0 ∷ []) d fits)
  | inr even ↦
      rw (even, append-nil xs, fits)
        (padded_by false d (pass c xs) (parity_after xs c start ∙ even))
]

continue-padded :
    (xs : List ℕ) (d : Option MngTlv) (c : Cursor)
    → c.build ≡ true
    → c.moved ≡ 0
    → c.left ≤ length c.rest
    → continue (within c xs d) padded ≡ within c (xs ++ pad (length xs)) d
continue-padded xs d c dir start room = elim (Bool-cases (leb (length xs) c.left)) [
  | inl fits ↦
      ap (λ b. continue (if b then ok d (pass c xs) else fail too_small) padded) fits
      ∙ padded-within xs d c dir start room fits
  | inr short ↦ rw (
    short,
    lt→not_leb (length (xs ++ pad (length xs))) c.left
        (ground (arith, length-append xs (pad (length xs)), not_leb→lt _ _ short)),
  )
]

-- The data field on a buffer: the octets of the data with the pad, or the refusal.
send_field-within :
    (m : Message) (d : MngTlv) (c : Cursor)
    → m.tlv_id ≡ kind d
    → m.data_send ≡ some d
    → ValidTlv d
    → c.build ≡ true
    → c.moved ≡ 0
    → c.left ≤ length c.rest
    → send_field m c ≡ within c (field_octets d) (some (sent_tlv d))
unfolding send_field ◌>>=◌
send_field-within m d c is_id is_send v dir start room =
    rw (is_id, is_send, call_tlv_data-write d c v dir room)
      (continue-padded (tlv_octets d) (some (sent_tlv d)) c dir start room)

-- A send of data takes the first of the three cases.
data_field-send :
    (m : Message) (d : MngTlv) (c : Cursor)
    → is_get m.send_action ≡ false
    → m.data_send ≡ some d
    → data_field m c ≡ send_field m c
unfolding data_field is_data
data_field-send m d c not_get is_send = rw (not_get, is_send)

even_total : (n : ℕ) → ((mng_msg_base_size + (n + n % 2)) % 2 == 1) ≡ false
even_total n = ground arith

-- The message of `d` in a buffer whose first octets it takes.
abbrev pub message_octets : Message → MngTlv → List ℕ → ℕ → List ℕ
message_octets m d buf sequence =
    let n = length (field_octets d) in
    header_octets m (mng_msg_base_size + n) sequence
    ++ (tlv_header_octets (kind d) n ++ (field_octets d ++ drop n (drop mng_msg_base_size buf)))

finish-within :
    (m : Message) (d : MngTlv) (buf : List ℕ) (sequence : ℕ)
    → m.tlv_id ≡ kind d
    → leb (length (field_octets d)) (length buf - mng_msg_base_size) ≡ true
    → finish m sequence (within (field_cursor buf) (field_octets d) (some (sent_tlv d)))
      ≡ built (message_octets m d buf sequence) (record m {
        msg_len = mng_msg_base_size + length (field_octets d);
        data_send = some (sent_tlv d);
      })
unfolding finish pass
finish-within m d buf sequence is_id fits =
    let n = length (tlv_octets d) in
    rw (
      fits,
      length-field_octets (tlv_octets d),
      starts_at_0 0 (n + n % 2) refl,
      even_total (length (tlv_octets d)),
      is_id,
    )

module _ (m : Message) (d : MngTlv) (buf : List ℕ) (sequence : ℕ)
    (not_get : is_get m.send_action ≡ false) (is_id : m.tlv_id ≡ kind d)
    (is_send : m.data_send ≡ some d) (valid : ValidTlv d) where
  build-field :
      mng_msg_base_size ≤ length buf
      → build m (some buf) sequence
        ≡ finish m sequence (within (field_cursor buf) (field_octets d) (some (sent_tlv d)))
  unfolding build
  build-field room =
      rw
        (
          le→not_ltb (length buf) mng_msg_base_size room,
          data_field-send m d (field_cursor buf) not_get is_send,
        )
        (ap (finish m sequence) (
          send_field-within m d (field_cursor buf) is_id is_send valid refl refl
            (omega (arith, length-drop mng_msg_base_size buf))))

  -- A SET or COMMAND with valid data of the id is built when the buffer has room for 54 octets and the
  -- even data field: the header, the TLV header with the length and the id, the octets of the data and
  -- the pad stand in the buffer's first octets, the rest of the buffer is as it was, and the message
  -- length and the sent data are kept.
  pub build-message_octets :
      mng_msg_base_size + length (field_octets d) ≤ length buf
      → build m (some buf) sequence
        ≡ built (message_octets m d buf sequence) (record m {
          msg_len = mng_msg_base_size + length (field_octets d);
          data_send = some (sent_tlv d);
        })
  build-message_octets room =
      build-field (omega arith) ∙ finish-within m d buf sequence is_id (le→leb _ _ (omega arith))

  -- A SET or COMMAND with valid data of the id is refused as too small in every buffer that is shorter
  -- than 54 octets and the even data field.
  pub build-too_small :
      length buf < mng_msg_base_size + length (field_octets d)
      → build m (some buf) sequence ≡ refused too_small
  unfolding finish
  build-too_small short = elim (Bool-cases (ltb (length buf) mng_msg_base_size)) [
    | inl tiny ↦ unfold build in rw tiny
    | inr room ↦
        build-field (not_ltb→le _ _ room)
        ∙ ap
            (λ b. finish m sequence (
              if b
              then ok (some (sent_tlv d)) (pass (field_cursor buf) (field_octets d))
              else fail too_small))
            (lt→not_leb _ _ (omega (arith, not_ltb→le _ _ room)))
  ]
