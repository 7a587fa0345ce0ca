-- ===== src/Ids/Actions.antt =====
-- What `allowedAction` of msg.cpp lets through.
use libpmc.Base.{
  ◌≡◌, refl, true, false, ◌||◌, ℕ, ◌==◌, ==_iff, if◌then◌else◌, Bool-cases, inl, inr, ◌⊎◌, arith,
}
use libpmc.Ids.{
  MngId, ImplementSpecific, Action, get, set, response, command, acknowledge, allowed_action,
  action_bit, is_get, is_null_id, is_empty, mng_all_vals, check_reply_action, Allowed,
}

-- The table's bit of the action is set whenever the action is allowed.
allowed_bit :
    (spec : ImplementSpecific) (id : MngId) (a : Action)
    → allowed_action spec id a ≡ true
    → action_bit a (mng_all_vals id).allowed ≡ true
unfolding allowed_action
allowed_bit spec id a h = ground arith

clock_description_bit :
    (a : Action)
    → action_bit a (mng_all_vals MngId.clock_description).allowed ≡ true
    → is_get a ≡ true
unfolding action_bit mng_all_vals is_get
clock_description_bit get h = refl
clock_description_bit set h = absurd (ground arith)
clock_description_bit response h = absurd (ground arith)
clock_description_bit command h = absurd (ground arith)
clock_description_bit acknowledge h = absurd (ground arith)

pub clock_description-get :
    (spec : ImplementSpecific) (a : Action)
    → allowed_action spec MngId.clock_description a ≡ true
    → is_get a ≡ true
clock_description-get spec a h =
    clock_description_bit a (allowed_bit spec MngId.clock_description a h)

a_response :
    (allowed : Allowed) (a : ℕ)
    → (a == 4) ≡ false
    → (if a == 4 then allowed.command else if a == 2 then allowed.set || allowed.get else false)
      ≡ true
    → a ≡ 2
a_response allowed a other h = ground arith

-- A reply is a RESPONSE or an ACKNOWLEDGE.
pub check_reply_action-cases :
    (id : MngId) (a : ℕ) → check_reply_action id a ≡ true → (a ≡ 2) ⊎ (a ≡ 4)
unfolding check_reply_action
check_reply_action-cases id a h = elim (Bool-cases (a == 4)) [
  | inl acknowledged ↦ inr ((==_iff a 4).0 acknowledged)
  | inr other ↦ inl (a_response (mng_all_vals id).allowed a other h)
]

-- NULL_PTP_MANAGEMENT has no data field.
pub null_id-empty : (id : MngId) → is_null_id id ≡ true → is_empty id ≡ true
unfolding is_null_id is_empty mng_all_vals
null_id-empty MngId.null_ptp_management h = refl
null_id-empty _ h = absurd (ground arith)
