-- ===== src/Message/Actions.antt =====
-- What `setAction` of msg.cpp leaves in a message.
use libpmc.Base.{
  ◌≡◌, refl, sym, Bool, true, false, not, ◌&&◌, Option, none, some, if◌then◌else◌, Bool-cases, inl,
  inr,
}
use libpmc.Ids.{MngId, Action, allowed_action, is_empty, is_get, is_null_id}
use libpmc.Ids.Actions.{null_id-empty}
use libpmc.Mng.{MngTlv}
use libpmc.Message.{Message, set_action, set_action_data, kept_data}

abbrev pub has_data : Option MngTlv → Bool
has_data none = false
has_data (some d) = true

-- The action is allowed for the id, and there is data to send exactly for a SET or COMMAND of an id
-- with a data field.
pub record IsReady (m : Message) : Type 0 where
  pub is_allowed : allowed_action m.prms.implement_specific m.tlv_id m.send_action ≡ true
  pub data_sent : has_data m.data_send ≡ not (is_get m.send_action) && not (is_empty m.tlv_id)

-- A message that is ready stays so under `setAction` without data, accepted or refused.
pub set_action-IsReady :
    (action : Action) (id : MngId) (m : Message) → IsReady m → IsReady (set_action action id m).1
unfolding set_action
set_action-IsReady action id m r =
    elim (Bool-cases (allowed_action m.prms.implement_specific id action)) [
      | inl allowed ↦ elim (Bool-cases (not (is_get action) && not (is_empty id))) [
        | inl wants ↦ rw (allowed, wants) r
        | inr free ↦ rw (allowed, free) (record { is_allowed = allowed; data_sent = sym free })
      ]
      | inr refused ↦ rw refused r
    ]

no_data : (b : Bool) → false ≡ b && false
no_data true = refl
no_data false = refl

data_if : (b : Bool) (d : MngTlv) → has_data (if b then some d else none) ≡ b
data_if true d = refl
data_if false d = refl

has_data-kept :
    (action : Action) (id : MngId) (d : MngTlv)
    → has_data (kept_data action id d) ≡ not (is_get action) && not (is_empty id)
unfolding kept_data
has_data-kept action id d = elim (Bool-cases (is_null_id id)) [
  | inl null ↦ rw (null, null_id-empty id null) (no_data (not (is_get action)))
  | inr other ↦ rw other (data_if (not (is_get action) && not (is_empty id)) d)
]

-- A message that is ready stays so under `setAction` with data, accepted or refused: the data is kept
-- exactly for a SET or COMMAND of an id with a data field.
pub set_action_data-IsReady :
    (action : Action) (id : MngId) (d : MngTlv) (m : Message)
    → IsReady m
    → IsReady (set_action_data action id d m).1
unfolding set_action_data
set_action_data-IsReady action id d m r =
    elim (Bool-cases (allowed_action m.prms.implement_specific id action)) [
      | inl allowed ↦
          rw allowed (record { is_allowed = allowed; data_sent = has_data-kept action id d })
      | inr refused ↦ rw refused r
    ]
