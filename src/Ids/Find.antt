-- ===== src/Ids/Find.antt =====
-- The lookup of `findTlvId` inverts the table of ids.
use libpmc.Base.{
  ℕ, ◌≡◌, refl, sym, ap, ◌∙◌, ◌↔◌, inl, inr, subst, Bool, Bool-cases, none≢some, some_inj,
  if◌then◌else◌, false, Option, none, some, List, [], ◌∷◌, ==_iff, arith,
}
use libpmc.Ids.{
  MngId, null_ptp_management, mng_all_vals, all_ids, ImplementSpecific, find_value, unblocked,
  blocked, find_tlv_id,
}

find_value-value : (id : MngId) → find_value (mng_all_vals id).value all_ids ≡ some id
unfolding find_value mng_all_vals all_ids
find_value-value null_ptp_management = refl
find_value-value _ = refl

find_value_sound :
    (v : ℕ) (l : List MngId) (id : MngId) → find_value v l ≡ some id → (mng_all_vals id).value ≡ v
unfolding find_value
find_value_sound v [] id h = cc
find_value_sound v (x ∷ rest) id h =
    ground (arith, ==_iff (mng_all_vals x).value v, find_value_sound v rest id)

kept :
    {A : Type 0} (b : A → Bool) (x y : A)
    → (if b x then none else some x) ≡ some y
    → (x ≡ y) × (b y ≡ false)
kept b x y h = elim (Bool-cases (b x)) [
  | inl t ↦ absurd (none≢some (rw t at h))
  | inr f ↦ let e : x ≡ y = some_inj (rw f at h) in (e, subst (λ z. b z ≡ false) e f)
]

unblocked_iff :
    (o : Option MngId) (spec : ImplementSpecific) (id : MngId)
    → (unblocked o spec ≡ some id) ↔ ((o ≡ some id) × (blocked id spec ≡ false))
unfolding unblocked
unblocked_iff none spec id = (λ h. absurd (none≢some h), λ h. absurd (none≢some h.0))
unblocked_iff (some x) spec id = (
  λ h. let p = kept (λ z. blocked z spec) x id h in (ap some p.0, p.1),
  λ h.
      let e : x ≡ id = some_inj h.0 in
      subst (λ z. (if blocked z spec then none else some z) ≡ some id) (sym e) (rw h.1),
)

-- A value on the wire is found as an id exactly when it is that id's value in the table and the id is
-- not blocked for the implementation in use.
pub find_tlv_id_iff :
    (v : ℕ) (spec : ImplementSpecific) (id : MngId)
    → (find_tlv_id v spec ≡ some id) ↔ (((mng_all_vals id).value ≡ v) × (blocked id spec ≡ false))
unfolding find_tlv_id
find_tlv_id_iff v spec id = (
  λ h.
      let p = (unblocked_iff (find_value v all_ids) spec id).0 h in
      (find_value_sound v all_ids id p.0, p.1),
  λ h.
      (unblocked_iff (find_value v all_ids) spec id).1
        (ap (λ k. find_value k all_ids) (sym h.0) ∙ find_value-value id, h.1),
)
