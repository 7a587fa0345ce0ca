-- ===== src/Ids.antt =====
-- The table of management ids, ids.h: `mng_vals_e` and the rows of `mng_all_vals` in msg.cpp, and
-- the tests on it of msg.cpp.

pub mod Find
pub mod Actions
pub mod Values
use libpmc.Base.{
  ℕ, Bool, true, false, not, ◌&&◌, ◌||◌, Option, none, some, List, [], ◌∷◌, ◌==◌, if◌then◌else◌,
}

-- mng_vals_e, in the order of the table
pub data MngId : Type 0 where
  null_ptp_management clock_description user_description save_in_non_volatile_storage : MngId
  reset_non_volatile_storage initialize fault_log fault_log_reset default_data_set : MngId
  current_data_set parent_data_set time_properties_data_set port_data_set priority1 : MngId
  priority2 domain slave_only log_announce_interval announce_receipt_timeout : MngId
  log_sync_interval version_number enable_port disable_port time clock_accuracy : MngId
  utc_properties traceability_properties timescale_properties : MngId
  unicast_negotiation_enable path_trace_list path_trace_enable : MngId
  grandmaster_cluster_table unicast_master_table unicast_master_max_table_size : MngId
  acceptable_master_table acceptable_master_table_enabled : MngId
  acceptable_master_max_table_size alternate_master alternate_time_offset_enable : MngId
  alternate_time_offset_name alternate_time_offset_max_key : MngId
  alternate_time_offset_properties transparent_clock_port_data_set : MngId
  log_min_pdelay_req_interval transparent_clock_default_data_set primary_domain : MngId
  delay_mechanism external_port_configuration_enabled master_only : MngId
  holdover_upgrade_enable ext_port_config_port_data_set time_status_np : MngId
  grandmaster_settings_np port_data_set_np subscribe_events_np port_properties_np : MngId
  port_stats_np synchronization_uncertain_np : MngId

-- scope_e
pub data Scope : Type 0 where
  port clock : Scope

-- The bits of allowAction_e.
pub record Allowed : Type 0 where
  pub get : Bool
  pub set : Bool
  pub command : Bool
  pub use_linuxptp : Bool

-- ManagementId_t. A size of -2, for a variable length, is `none`; -1 does not occur.
pub record ManagementId : Type 0 where
  pub value : ℕ
  pub scope : Scope
  pub allowed : Allowed
  pub size : Option ℕ

abbrev use_gsc : Allowed
use_gsc = record { get = true; set = true; command = true; use_linuxptp = false }

abbrev a_get : Allowed
a_get = record { get = true; set = false; command = false; use_linuxptp = false }

abbrev use_gs : Allowed
use_gs = record { get = true; set = true; command = false; use_linuxptp = false }

abbrev a_command : Allowed
a_command = record { get = false; set = false; command = true; use_linuxptp = false }

abbrev use_gl : Allowed
use_gl = record { get = true; set = false; command = false; use_linuxptp = true }

abbrev use_gsl : Allowed
use_gsl = record { get = true; set = true; command = false; use_linuxptp = true }

row : ℕ → Scope → Allowed → Option ℕ → ManagementId
row v s a z = record { value = v; scope = s; allowed = a; size = z }

unfoldable pub mng_all_vals : MngId → ManagementId
unfolding row
mng_all_vals null_ptp_management = row 0x0000 port use_gsc (some 0)
mng_all_vals clock_description = row 0x0001 port a_get none
mng_all_vals user_description = row 0x0002 clock use_gs none
mng_all_vals save_in_non_volatile_storage = row 0x0003 clock a_command (some 0)
mng_all_vals reset_non_volatile_storage = row 0x0004 clock a_command (some 0)
mng_all_vals initialize = row 0x0005 clock a_command (some 2)
mng_all_vals fault_log = row 0x0006 clock a_get none
mng_all_vals fault_log_reset = row 0x0007 clock a_command (some 0)
mng_all_vals default_data_set = row 0x2000 clock a_get (some 20)
mng_all_vals current_data_set = row 0x2001 clock a_get (some 18)
mng_all_vals parent_data_set = row 0x2002 clock a_get (some 32)
mng_all_vals time_properties_data_set = row 0x2003 clock a_get (some 4)
mng_all_vals port_data_set = row 0x2004 port a_get (some 26)
mng_all_vals priority1 = row 0x2005 clock use_gs (some 2)
mng_all_vals priority2 = row 0x2006 clock use_gs (some 2)
mng_all_vals domain = row 0x2007 clock use_gs (some 2)
mng_all_vals slave_only = row 0x2008 clock use_gs (some 2)
mng_all_vals log_announce_interval = row 0x2009 port use_gs (some 2)
mng_all_vals announce_receipt_timeout = row 0x200a port use_gs (some 2)
mng_all_vals log_sync_interval = row 0x200b port use_gs (some 2)
mng_all_vals version_number = row 0x200c port use_gs (some 2)
mng_all_vals enable_port = row 0x200d port a_command (some 0)
mng_all_vals disable_port = row 0x200e port a_command (some 0)
mng_all_vals time = row 0x200f clock use_gs (some 10)
mng_all_vals clock_accuracy = row 0x2010 clock use_gs (some 2)
mng_all_vals utc_properties = row 0x2011 clock use_gs (some 4)
mng_all_vals traceability_properties = row 0x2012 clock use_gs (some 2)
mng_all_vals timescale_properties = row 0x2013 clock use_gs (some 2)
mng_all_vals unicast_negotiation_enable = row 0x2014 port use_gs (some 2)
mng_all_vals path_trace_list = row 0x2015 clock a_get none
mng_all_vals path_trace_enable = row 0x2016 clock use_gs (some 2)
mng_all_vals grandmaster_cluster_table = row 0x2017 clock use_gs none
mng_all_vals unicast_master_table = row 0x2018 port use_gs none
mng_all_vals unicast_master_max_table_size = row 0x2019 port a_get (some 2)
mng_all_vals acceptable_master_table = row 0x201a clock use_gs none
mng_all_vals acceptable_master_table_enabled = row 0x201b port use_gs (some 2)
mng_all_vals acceptable_master_max_table_size = row 0x201c clock a_get (some 2)
mng_all_vals alternate_master = row 0x201d port use_gs (some 4)
mng_all_vals alternate_time_offset_enable = row 0x201e clock use_gs (some 2)
mng_all_vals alternate_time_offset_name = row 0x201f clock use_gs none
mng_all_vals alternate_time_offset_max_key = row 0x2020 clock a_get (some 2)
mng_all_vals alternate_time_offset_properties = row 0x2021 clock use_gs (some 16)
mng_all_vals transparent_clock_port_data_set = row 0x4001 port a_get (some 20)
mng_all_vals log_min_pdelay_req_interval = row 0x6001 port use_gs (some 2)
mng_all_vals transparent_clock_default_data_set = row 0x4000 clock a_get (some 12)
mng_all_vals primary_domain = row 0x4002 clock use_gs (some 2)
mng_all_vals delay_mechanism = row 0x6000 port use_gs (some 2)
mng_all_vals external_port_configuration_enabled = row 0x3000 clock use_gs (some 2)
mng_all_vals master_only = row 0x3001 port use_gs (some 2)
mng_all_vals holdover_upgrade_enable = row 0x3002 clock use_gs (some 2)
mng_all_vals ext_port_config_port_data_set = row 0x3003 port use_gs (some 2)
mng_all_vals time_status_np = row 0xc000 clock use_gl (some 50)
mng_all_vals grandmaster_settings_np = row 0xc001 clock use_gsl (some 8)
mng_all_vals port_data_set_np = row 0xc002 port use_gsl (some 8)
mng_all_vals subscribe_events_np = row 0xc003 clock use_gsl (some 66)
mng_all_vals port_properties_np = row 0xc004 port use_gl none
mng_all_vals port_stats_np = row 0xc005 port use_gl (some 266)
mng_all_vals synchronization_uncertain_np = row 0xc006 clock use_gsl (some 2)

-- The cases of the switch of `findTlvId`.
unfoldable pub all_ids : List MngId
all_ids =
    null_ptp_management ∷ clock_description ∷ user_description ∷ save_in_non_volatile_storage
    ∷ reset_non_volatile_storage ∷ initialize ∷ fault_log ∷ fault_log_reset ∷ default_data_set
    ∷ current_data_set ∷ parent_data_set ∷ time_properties_data_set ∷ port_data_set ∷ priority1
    ∷ priority2 ∷ domain ∷ slave_only ∷ log_announce_interval ∷ announce_receipt_timeout
    ∷ log_sync_interval ∷ version_number ∷ enable_port ∷ disable_port ∷ time ∷ clock_accuracy
    ∷ utc_properties ∷ traceability_properties ∷ timescale_properties ∷ unicast_negotiation_enable
    ∷ path_trace_list ∷ path_trace_enable ∷ grandmaster_cluster_table ∷ unicast_master_table
    ∷ unicast_master_max_table_size ∷ acceptable_master_table ∷ acceptable_master_table_enabled
    ∷ acceptable_master_max_table_size ∷ alternate_master ∷ alternate_time_offset_enable
    ∷ alternate_time_offset_name ∷ alternate_time_offset_max_key ∷ alternate_time_offset_properties
    ∷ transparent_clock_port_data_set ∷ log_min_pdelay_req_interval
    ∷ transparent_clock_default_data_set ∷ primary_domain ∷ delay_mechanism
    ∷ external_port_configuration_enabled ∷ master_only ∷ holdover_upgrade_enable
    ∷ ext_port_config_port_data_set ∷ time_status_np ∷ grandmaster_settings_np ∷ port_data_set_np
    ∷ subscribe_events_np ∷ port_properties_np ∷ port_stats_np ∷ synchronization_uncertain_np ∷ []

-- implementSpecific_e
pub data ImplementSpecific : Type 0 where
  no_implement_specific linuxptp : ImplementSpecific

pub is_linuxptp : ImplementSpecific → Bool
is_linuxptp no_implement_specific = false
is_linuxptp linuxptp = true

find_value : ℕ → List MngId → Option MngId
find_value v [] = none
find_value v (id ∷ rest) =
    let other = find_value v rest in if (mng_all_vals id).value == v then some id else other

-- An id of linuxptp is blocked where linuxptp is not used.
unfoldable pub blocked : MngId → ImplementSpecific → Bool
unfolding is_linuxptp
blocked id spec = not (is_linuxptp spec) && (mng_all_vals id).allowed.use_linuxptp

unblocked : Option MngId → ImplementSpecific → Option MngId
unfolding blocked
unblocked none spec = none
unblocked (some id) spec = if blocked id spec then none else some id

-- bool Message::findTlvId(uint16_t val, mng_vals_e &rid, implementSpecific_e spec), for the value in
-- host order; `none` is false, with `rid` as it was.
unfoldable pub find_tlv_id : ℕ → ImplementSpecific → Option MngId
unfolding unblocked find_value all_ids
find_tlv_id v spec = unblocked (find_value v all_ids) spec

-- actionField_e
pub data Action : Type 0 where
  get set response command acknowledge : Action

abbrev pub action_value : Action → ℕ
action_value get = 0
action_value set = 1
action_value response = 2
action_value command = 3
action_value acknowledge = 4

-- `allowed & (1 << action)`, and false for the actions that are not sent.
action_bit : Action → Allowed → Bool
action_bit get a = a.get
action_bit set a = a.set
action_bit command a = a.command
action_bit response a = false
action_bit acknowledge a = false

-- bool Message::allowedAction(mng_vals_e id, actionField_e action); `id` is in range by its type.
unfoldable pub allowed_action : ImplementSpecific → MngId → Action → Bool
unfolding action_bit blocked
allowed_action spec id action = not (blocked id spec) && action_bit action (mng_all_vals id).allowed

-- bool Message::checkReplyAction(uint8_t actionField), for a reply's action and the last id.
unfoldable pub check_reply_action : MngId → ℕ → Bool
check_reply_action id action =
    let a = (mng_all_vals id).allowed in
    if action == 4 then a.command else if action == 2 then a.set || a.get else false

-- bool Message::isEmpty(mng_vals_e id)
unfoldable pub is_empty : MngId → Bool
is_empty id = elim (mng_all_vals id).size [ none ↦ false | some n ↦ n == 0 ]

unfoldable pub is_get : Action → Bool
is_get get = true
is_get _ = false

-- tlv_id > FIRST_MNG_ID is false
pub is_null_id : MngId → Bool
is_null_id null_ptp_management = true
is_null_id _ = false
