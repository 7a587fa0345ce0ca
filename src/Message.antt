-- ===== src/Message.antt =====
-- The class `Message` of msg.h: its parameters, its state, and the operations that choose what is
-- sent. The messages themselves are built and parsed in the modules below.
pub mod Build
pub mod Parse
pub mod Actions
pub mod Signaling
pub mod Names
pub mod Getters
pub mod Identity
use libpmc.Base.{
  ℕ, ◌+◌, ◌%◌, Bool, true, false, not, ◌&&◌, ◌||◌, Option, none, some, List, [], ◌∷◌, ltb, ◌==◌,
  if◌then◌else◌, replicate,
}
use libpmc.Types.{PortIdentity, PtpText, ClockIdentity}
use libpmc.Ids.{
  MngId, null_ptp_management, mng_all_vals, ImplementSpecific, linuxptp, Action, get, response,
  allowed_action, is_empty, is_get, is_null_id,
}
use libpmc.Mng.{MngTlv}
use libpmc.Sig.{SigTlv}
use libpmc.Mng.Sizes.{data_field_size}

-- MsgParams; the map allowSigTlvs is the list of its keys.
pub record MsgParams : Type 0 where
  pub transport_specific : ℕ
  pub domain_number : ℕ
  pub boundary_hops : ℕ
  pub is_unicast : Bool
  pub implement_specific : ImplementSpecific
  pub target : PortIdentity
  pub self_id : PortIdentity
  pub use_zero_get : Bool
  pub rcv_signaling : Bool
  pub filter_signaling : Bool
  pub allow_sig_tlvs : List ℕ

-- A record of m_sigTlvs, struct sigTlv: the type of the TLV and its structure, or none for a null pointer.
abbrev pub SigRecord : Type 0
SigRecord = ℕ × Option SigTlv

-- The copy and move constructors of sigTlv, which leave the structure out.
unfoldable pub copied : SigRecord → SigRecord
copied (t, tlv) = (t, none)

-- The state of a Message. sig_moves is up to the vector m_sigTlvs: whether an insert moves the records
-- that it holds, for their count.
pub record Message : Type 0 where
  pub send_action : Action
  pub msg_len : ℕ
  pub data_send : Option MngTlv
  pub sequence : ℕ
  pub is_unicast : Bool
  pub reply_action : ℕ
  pub sdo_id : ℕ
  pub type : ℕ
  pub mng_type : ℕ
  pub domain_number : ℕ
  pub version_ptp : ℕ
  pub minor_version_ptp : ℕ
  pub data_get : Option MngTlv
  pub sig_tlvs : List SigRecord
  pub sig_moves : ℕ → Bool
  pub tlv_id : MngId
  pub prms : MsgParams
  pub peer : PortIdentity
  pub target : PortIdentity
  pub error_id : ℕ
  pub error_display : PtpText

-- allPorts and allClocks
abbrev pub all_ports : ℕ
all_ports = 0xffff

abbrev pub all_clocks : ClockIdentity
all_clocks = replicate 8 0xff

pub set_all_clocks : Message → Message
set_all_clocks m = record m {
  prms = record m.prms { target = record { clock_identity = all_clocks; port_number = all_ports } };
}

same_octets : List ℕ → List ℕ → Bool
same_octets [] [] = true
same_octets [] (y ∷ ys) = false
same_octets (x ∷ xs) [] = false
same_octets (x ∷ xs) (y ∷ ys) = x == y && same_octets xs ys

pub is_all_clocks : Message → Bool
unfolding same_octets
is_all_clocks m =
    m.prms.target.port_number == all_ports && same_octets m.prms.target.clock_identity all_clocks

-- bool Message::updateParams(MsgParams prms)
pub update_params : MsgParams → Message → Bool × Message
update_params prms m =
    if ltb 0xf prms.transport_specific then (false, m) else (true, record m { prms = prms })

-- bool Message::setAction(actionField_e actionField, mng_vals_e tlv_id)
unfoldable pub set_action : Action → MngId → Message → Bool × Message
set_action action id m =
    if not (allowed_action m.prms.implement_specific id action)
    then (false, m)
    else if not (is_get action) && not (is_empty id)
    then (false, m)
    else (true, record m { send_action = action; tlv_id = id; data_send = none })

-- The data to send is kept for a SET or COMMAND of an id that has data.
kept_data : Action → MngId → MngTlv → Option MngTlv
kept_data action id d =
    if not (is_null_id id) && (not (is_get action) && not (is_empty id)) then some d else none

-- bool Message::setAction(actionField_e actionField, mng_vals_e tlv_id, BaseMngTlv &dataSend)
unfoldable pub set_action_data : Action → MngId → MngTlv → Message → Bool × Message
unfolding kept_data
set_action_data action id d m =
    if not (allowed_action m.prms.implement_specific id action)
    then (false, m)
    else (true, record m { send_action = action; tlv_id = id; data_send = kept_data action id d })

-- sizeof(managementMessage_p) + sizeof(managementTLV_t)
abbrev pub mng_msg_base_size : ℕ
mng_msg_base_size = 54

planned : Option ℕ → Option ℕ
planned none = none
planned (some n) = some (n + n % 2 + mng_msg_base_size)

-- The data field's size: the table's, or for a variable length that of the data.
sized : Option ℕ → Option MngTlv → MngId → Action → Option ℕ
sized (some n) d id action = some n
sized none none id action = if is_get action then data_field_size id none else none
sized none (some d) id action = data_field_size id (some d)

-- ssize_t Message::getMsgPlanedLen() const; `none` is -2, and -1 does not occur with an id in range.
unfoldable pub get_msg_planed_len : Message → Option ℕ
unfolding planned sized
get_msg_planed_len m =
    if is_get m.send_action && m.prms.use_zero_get
    then some mng_msg_base_size
    else planned (
        sized (mng_all_vals m.tlv_id).size (if is_get m.send_action then none else m.data_send)
          m.tlv_id m.send_action)
