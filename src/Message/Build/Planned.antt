-- ===== src/Message/Build/Planned.antt =====
-- `getMsgPlanedLen` of msg.cpp against what `Message::build` writes.
use libpmc.Base.{
  ℕ, ◌+◌, ◌≤◌, ◌<◌, ◌≡◌, subst, ap, ◌∙◌, sym, Bool, true, false, none, some, List, length, inl, inr,
  some_inj, Option-cases, arith,
}
use libpmc.Wire.{too_small}
use libpmc.Ids.{Action, ImplementSpecific, is_get, mng_all_vals, allowed_action}
use libpmc.Ids.Actions.{clock_description-get}
use libpmc.Mng.{MngTlv, kind}
use libpmc.Mng.Codecs.{ValidTlv, tlv_octets}
use libpmc.Mng.Sizes.{size_of}
use libpmc.Mng.Sizes.ByKind.{uncounted-cases, data_field_size-kind}
use libpmc.Mng.Sizes.Measure.{declared_size, counted_size, uncounted}
use libpmc.Message.{Message, mng_msg_base_size, get_msg_planed_len, planned, sized}
use libpmc.Message.Build.{built, refused, build}
use libpmc.Message.Build.Layout.{
  field_octets, length-field_octets, build-message_octets, build-too_small,
}

no_send : {b : Bool} → b ≡ true → b ≡ false → ⊥
no_send h k = cc

-- No clock description can be sent: its id allows only GET.
counted_if_allowed :
    (d : MngTlv) (spec : ImplementSpecific) (a : Action)
    → allowed_action spec (kind d) a ≡ true
    → is_get a ≡ false
    → uncounted d ≡ 0
counted_if_allowed d spec a h g = elim (uncounted-cases d) [
  | inl e ↦ e
  | inr k ↦
      absurd (
        no_send (clock_description-get spec a (subst (λ id. allowed_action spec id a ≡ true) k h))
          g)
]

-- The size that stands in the table, or that of the data, padded to an even length, is that of the
-- data field.
module _ (m : Message) (d : MngTlv) (not_get : is_get m.send_action ≡ false)
    (is_id : m.tlv_id ≡ kind d) (is_send : m.data_send ≡ some d) (valid : ValidTlv d) where
  planned_by_table :
      (n : ℕ)
      → (mng_all_vals (kind d)).size ≡ some n
      → get_msg_planed_len m ≡ some (mng_msg_base_size + length (field_octets d))
  unfolding get_msg_planed_len planned sized
  planned_by_table n e =
      rw (not_get, is_id, e)
        (ap some (omega (arith, length-field_octets (tlv_octets d), declared_size d valid n e)))

  planned_by_count :
      (n : ℕ)
      → (mng_all_vals (kind d)).size ≡ none
      → size_of d ≡ some n
      → length (tlv_octets d) ≡ n
      → get_msg_planed_len m ≡ some (mng_msg_base_size + length (field_octets d))
  unfolding get_msg_planed_len planned sized
  planned_by_count n e s l =
      rw (not_get, is_id, e, is_send, data_field_size-kind d, s)
        (ap some (omega (arith, length-field_octets (tlv_octets d), l)))

  -- For a SET or COMMAND that is allowed, with valid data of the id, the planned length is the length
  -- of the message that a build makes: 54 octets and the data field, padded to an even length.
  pub planned-field_octets :
      (spec : ImplementSpecific)
      → allowed_action spec (kind d) m.send_action ≡ true
      → get_msg_planed_len m ≡ some (mng_msg_base_size + length (field_octets d))
  planned-field_octets spec allowed = elim (Option-cases (mng_all_vals (kind d)).size) [
    | inl e ↦
        let c = counted_size d valid e in
        planned_by_count c.0 e c.1
          (omega (arith, c.2, counted_if_allowed d spec m.send_action allowed not_get))
    | inr h ↦ planned_by_table h.0 h.1
  ]

  -- For a SET or COMMAND that is allowed, with valid data of the id, a buffer of the planned length or
  -- more is enough for the build, and the built message has the planned length.
  pub build-planned :
      (spec : ImplementSpecific) (buf : List ℕ) (sequence n : ℕ)
      → allowed_action spec (kind d) m.send_action ≡ true
      → get_msg_planed_len m ≡ some n
      → n ≤ length buf
      → (out : List ℕ) × (k : Message) × (build m (some buf) sequence ≡ built out k)
        × (k.msg_len ≡ n)
  build-planned spec buf sequence n allowed planned_n room =
      let e : n ≡ mng_msg_base_size + length (field_octets d) =
        some_inj (sym planned_n ∙ planned-field_octets spec allowed) in
      (
        _,
        _,
        build-message_octets m d buf sequence not_get is_id is_send valid (omega (arith, e)),
        sym e,
      )

  -- For a SET or COMMAND that is allowed, with valid data of the id, a buffer below the planned length
  -- is refused by the build as too small.
  pub build-below_planned :
      (spec : ImplementSpecific) (buf : List ℕ) (sequence n : ℕ)
      → allowed_action spec (kind d) m.send_action ≡ true
      → get_msg_planed_len m ≡ some n
      → length buf < n
      → build m (some buf) sequence ≡ refused too_small
  build-below_planned spec buf sequence n allowed planned_n short =
      let e : n ≡ mng_msg_base_size + length (field_octets d) =
        some_inj (sym planned_n ∙ planned-field_octets spec allowed) in
      build-too_small m d buf sequence not_get is_id is_send valid (omega (arith, e))
