-- ===== src/Message/Build/Get.antt =====
-- `Message::build` of msg.cpp for a GET.
use libpmc.Base.{
  ℕ, zero, suc, ◌+◌, ◌-◌, ◌%◌, ◌≤◌, ◌≡◌, refl, ap, ◌∙◌, sym, true, false, Option, none, some, List,
  ◌++◌, length, drop, replicate, ◌==◌, if◌then◌else◌, Bool-cases, inl, inr, length-drop, le→not_ltb,
  some_inj, none≢some, Option-cases, arith,
}
use libpmc.Wire.{Cursor, ok, pure}
use libpmc.Ids.{mng_all_vals, is_get}
use libpmc.Mng.{MngTlv}
use libpmc.Mng.Sizes.{data_field_size}
use libpmc.Message.{Message, mng_msg_base_size, get_msg_planed_len, planned, sized}
use libpmc.Message.Build.{
  built, header_octets, tlv_header_octets, data_field, get_field, get_size, has_size, field_cursor,
  finish, build,
}

ap2 :
    (f : ℕ → ℕ → List ℕ) (g : ℕ → Message) {a b c d : ℕ}
    → a ≡ b
    → c ≡ d
    → (sequence : ℕ) → built (f a sequence) (g c) ≡ built (f b sequence) (g d)
ap2 f g e h sequence = rw (e, h)

not_zero : (k : ℕ) → (suc k == 0) ≡ false
not_zero k = ground arith

even_half : (k : ℕ) → (k + k % 2) % 2 ≡ 0
even_half k = omega arith

-- The cursor after `n` zeros in the data field.
abbrev zeros : List ℕ → ℕ → Cursor
zeros buf n = record {
  build = true;
  passed = replicate n 0;
  rest = drop n (drop mng_msg_base_size buf);
  left = length buf - mng_msg_base_size;
  moved = n;
}

-- The message of a GET with `n` octets of data field.
abbrev pub get_octets : Message → List ℕ → ℕ → ℕ → List ℕ
get_octets m buf n sequence =
    header_octets m (mng_msg_base_size + n) sequence
    ++ (tlv_header_octets m.tlv_id n ++ (replicate n 0 ++ drop n (drop mng_msg_base_size buf)))

even_total : (n : ℕ) → n % 2 ≡ 0 → ((mng_msg_base_size + n) % 2 == 1) ≡ false
even_total n h = ground arith

finish-zeros :
    (m : Message) (buf : List ℕ) (n sequence : ℕ)
    → n % 2 ≡ 0
    → finish m sequence (ok m.data_send (zeros buf n))
      ≡ built (get_octets m buf n sequence) (record m { msg_len = mng_msg_base_size + n })
unfolding finish
finish-zeros m buf n sequence h = rw (even_total n h)

get_field-zeros :
    (d : Option MngTlv) (buf : List ℕ) (k : ℕ)
    → k + k % 2 + mng_msg_base_size ≤ length buf
    → get_field d (some k) (field_cursor buf) ≡ ok d (zeros buf (k + k % 2))
unfolding get_field
get_field-zeros d buf k room = rw (
  le→not_ltb (length buf - mng_msg_base_size) (k + k % 2) (omega arith),
  le→not_ltb (length (drop mng_msg_base_size buf)) (k + k % 2)
      (omega (arith, length-drop mng_msg_base_size buf)),
)

module _ (m : Message) (buf : List ℕ) (getting : is_get m.send_action ≡ true) where
  data_field-zero_get :
      m.prms.use_zero_get ≡ true → data_field m (field_cursor buf) ≡ ok m.data_send (zeros buf 0)
  unfolding data_field pure
  data_field-zero_get z = rw (getting, z)

  data_field-size :
      (k : ℕ)
      → m.prms.use_zero_get ≡ false
      → (mng_all_vals m.tlv_id).size ≡ some k
      → k + k % 2 + mng_msg_base_size ≤ length buf
      → data_field m (field_cursor buf) ≡ ok m.data_send (zeros buf (k + k % 2))
  unfolding data_field pure has_size get_size
  data_field-size zero z e room = rw (getting, z, e)
  data_field-size (suc k) z e room =
      rw (getting, z, e, not_zero k) (get_field-zeros m.data_send buf (suc k) room)

  data_field-variable :
      (k : ℕ)
      → m.prms.use_zero_get ≡ false
      → (mng_all_vals m.tlv_id).size ≡ none
      → data_field_size m.tlv_id none ≡ some k
      → k + k % 2 + mng_msg_base_size ≤ length buf
      → data_field m (field_cursor buf) ≡ ok m.data_send (zeros buf (k + k % 2))
  unfolding data_field has_size get_size
  data_field-variable k z e s room = rw (getting, z, e, s) (get_field-zeros m.data_send buf k room)

  planned-zero_get : m.prms.use_zero_get ≡ true → get_msg_planed_len m ≡ some mng_msg_base_size
  unfolding get_msg_planed_len
  planned-zero_get z = rw (getting, z)

  planned-size :
      (k : ℕ)
      → m.prms.use_zero_get ≡ false
      → (mng_all_vals m.tlv_id).size ≡ some k
      → get_msg_planed_len m ≡ some (k + k % 2 + mng_msg_base_size)
  unfolding get_msg_planed_len planned sized
  planned-size k z e = rw (getting, z, e)

  planned-variable :
      m.prms.use_zero_get ≡ false
      → (mng_all_vals m.tlv_id).size ≡ none
      → get_msg_planed_len m ≡ planned (data_field_size m.tlv_id none)
  unfolding get_msg_planed_len sized
  planned-variable z e =
      rw (getting, z, e)
        (ap (λ b. planned (if b then data_field_size m.tlv_id none else none)) getting)

  -- A data field of zeros whose length is even, for the planned length `n`.
  abbrev Zeros : ℕ → Type 0
  Zeros n =
      (k : ℕ) × (n ≡ k + mng_msg_base_size)
      × (k % 2 ≡ 0)
      × (data_field m (field_cursor buf) ≡ ok m.data_send (zeros buf k))

  Zeros-planned :
      (n k : ℕ) {p : Option ℕ}
      → n ≤ length buf
      → p ≡ some n
      → p ≡ some (k + k % 2 + mng_msg_base_size)
      → (k + k % 2 + mng_msg_base_size ≤ length buf
          → data_field m (field_cursor buf) ≡ ok m.data_send (zeros buf (k + k % 2)))
      → Zeros n
  Zeros-planned n k room p q field =
      let e : n ≡ k + k % 2 + mng_msg_base_size = some_inj (sym p ∙ q) in
      (k + k % 2, e, even_half k, field (omega (arith, e, room)))

  data_field-planned : (n : ℕ) → get_msg_planed_len m ≡ some n → n ≤ length buf → Zeros n
  unfolding planned
  data_field-planned n p room = elim (Bool-cases m.prms.use_zero_get) [
    | inl z ↦ (0, some_inj (sym p ∙ planned-zero_get z), refl, data_field-zero_get z)
    | inr z ↦ elim (Option-cases (mng_all_vals m.tlv_id).size) [
      | inl e ↦ elim (Option-cases (data_field_size m.tlv_id none)) [
        | inl s ↦ absurd (none≢some (sym (ap planned s) ∙ sym (planned-variable z e) ∙ p))
        | inr s ↦
            Zeros-planned n s.0 room p (planned-variable z e ∙ ap planned s.1)
              (data_field-variable s.0 z e s.1)
      ]
      | inr s ↦ Zeros-planned n s.0 room p (planned-size s.0 z s.1) (data_field-size s.0 z s.1)
    ]
  ]

  -- A GET is built in every buffer of the planned length: the header with that length, the TLV header
  -- and a data field of zeros stand in the buffer's first octets, the rest of the buffer is as it
  -- was, and the message has the planned length and is otherwise unchanged.
  pub build-get :
      (n sequence : ℕ)
      → get_msg_planed_len m ≡ some n
      → n ≤ length buf
      → build m (some buf) sequence
        ≡ built (get_octets m buf (n - mng_msg_base_size) sequence) (record m { msg_len = n })
  unfolding build
  build-get n sequence p room =
      let z : Zeros n = data_field-planned n p room in
      let k = z.0 in
      rw (le→not_ltb (length buf) mng_msg_base_size (omega (arith, z.1, room)), z.3)
        (finish-zeros m buf k sequence z.2
          ∙ ap2 (get_octets m buf) (λ t. record m { msg_len = t }) (omega (arith, z.1))
              (omega (arith, z.1)) sequence)
