-- ===== src/Mng/Dispatch.antt =====
-- `call_tlv_data` of msg.cpp for every management id.
use libpmc.Base.{
  ◌+◌, ◌≤◌, ◌≡◌, refl, ap, ◌∙◌, sym, Bool, true, false, Option, none, some, length, ==_iff, arith,
}
use libpmc.Wire.{Cursor, Outcome, ok, fail, fault, ◌>>=◌, pure, pass, continue}
use libpmc.Wire.Codec.{Runs, Runs-map, Runs-of-eq, ReadsAll, ReadsAll-map, Agrees, within}
use libpmc.Wire.Safety.{After, Safe, Safe-bind, Safe-pure}
use libpmc.Ids.{MngId, mng_all_vals, is_empty}
use libpmc.Mng.{MngTlv, kind, fresh_tlv, proc_tlv, build_tlv, call_tlv, call_tlv_data}
use libpmc.Mng.Codecs.{ValidTlv, tlv_octets, sent_tlv}
use libpmc.Mng.Codecs.Write.{tlv-write}
use libpmc.Mng.Codecs.Read.{fresh_tlv-kind, tlv-read}
use libpmc.Mng.Safety.{Safe-tlv}

Safe-call : (t : Option MngTlv) (id : MngId) → Safe (call_tlv false t id none)
unfolding call_tlv
Safe-call none id = Safe-pure none
Safe-call (some new) id = Safe-bind _ _ (Safe-tlv new) (λ y. Safe-pure (some y))

call_direction :
    (b : Bool) (id : MngId) (tlv : Option MngTlv) (c : Cursor)
    → c.build ≡ b
    → call_tlv_data id tlv c ≡ call_tlv b (fresh_tlv id) id tlv c
unfolding call_tlv_data
call_direction b id tlv c dir = ap (λ d. call_tlv d (fresh_tlv id) id tlv c) dir

-- Whatever the octets and the id are, a parse reads and moves within the octets of the data field:
-- the count of octets moved and left stays, the cursor goes forward in the same buffer, and there is
-- no access beyond the buffer.
pub call_tlv_data-After :
    (id : MngId) (c : Cursor)
    → c.build ≡ false
    → c.left ≤ length c.rest
    → After c (call_tlv_data id none c)
call_tlv_data-After id c dir room =
    rw (call_direction false id none c dir) ((Safe-call (fresh_tlv id) id).at c dir room)

-- The pointer `tlv` was not set.
abbrev pub is_unset : Outcome (Option MngTlv) → Bool
is_unset (ok none c) = true
is_unset _ = false

set_by_continue : (o : Outcome MngTlv) → is_unset (continue o (λ x. pure (some x))) ≡ false
unfolding pure
set_by_continue (ok x c) = refl
set_by_continue (fail e) = refl
set_by_continue fault = refl

call-set :
    (t : Option MngTlv) (id : MngId) (c : Cursor)
    → is_unset (call_tlv false t id none c) ≡ true
    → t ≡ none
unfolding call_tlv ◌>>=◌
call-set none id c h = refl
call-set (some new) id c h = absurd (ground (arith, set_by_continue (proc_tlv new c)))

-- The ids with no structure are those with no data field in the table.
fresh_tlv-empty : (id : MngId) → fresh_tlv id ≡ none → is_empty id ≡ true
unfolding fresh_tlv is_empty mng_all_vals
fresh_tlv-empty MngId.null_ptp_management h = ground arith
fresh_tlv-empty MngId.clock_description h = ground arith
fresh_tlv-empty MngId.user_description h = ground arith
fresh_tlv-empty MngId.save_in_non_volatile_storage h = ground arith
fresh_tlv-empty MngId.reset_non_volatile_storage h = ground arith
fresh_tlv-empty MngId.initialize h = ground arith
fresh_tlv-empty MngId.fault_log h = ground arith
fresh_tlv-empty MngId.fault_log_reset h = ground arith
fresh_tlv-empty MngId.default_data_set h = ground arith
fresh_tlv-empty MngId.current_data_set h = ground arith
fresh_tlv-empty MngId.parent_data_set h = ground arith
fresh_tlv-empty MngId.time_properties_data_set h = ground arith
fresh_tlv-empty MngId.port_data_set h = ground arith
fresh_tlv-empty MngId.priority1 h = ground arith
fresh_tlv-empty MngId.priority2 h = ground arith
fresh_tlv-empty MngId.domain h = ground arith
fresh_tlv-empty MngId.slave_only h = ground arith
fresh_tlv-empty MngId.log_announce_interval h = ground arith
fresh_tlv-empty MngId.announce_receipt_timeout h = ground arith
fresh_tlv-empty MngId.log_sync_interval h = ground arith
fresh_tlv-empty MngId.version_number h = ground arith
fresh_tlv-empty MngId.enable_port h = ground arith
fresh_tlv-empty MngId.disable_port h = ground arith
fresh_tlv-empty MngId.time h = ground arith
fresh_tlv-empty MngId.clock_accuracy h = ground arith
fresh_tlv-empty MngId.utc_properties h = ground arith
fresh_tlv-empty MngId.traceability_properties h = ground arith
fresh_tlv-empty MngId.timescale_properties h = ground arith
fresh_tlv-empty MngId.unicast_negotiation_enable h = ground arith
fresh_tlv-empty MngId.path_trace_list h = ground arith
fresh_tlv-empty MngId.path_trace_enable h = ground arith
fresh_tlv-empty MngId.grandmaster_cluster_table h = ground arith
fresh_tlv-empty MngId.unicast_master_table h = ground arith
fresh_tlv-empty MngId.unicast_master_max_table_size h = ground arith
fresh_tlv-empty MngId.acceptable_master_table h = ground arith
fresh_tlv-empty MngId.acceptable_master_table_enabled h = ground arith
fresh_tlv-empty MngId.acceptable_master_max_table_size h = ground arith
fresh_tlv-empty MngId.alternate_master h = ground arith
fresh_tlv-empty MngId.alternate_time_offset_enable h = ground arith
fresh_tlv-empty MngId.alternate_time_offset_name h = ground arith
fresh_tlv-empty MngId.alternate_time_offset_max_key h = ground arith
fresh_tlv-empty MngId.alternate_time_offset_properties h = ground arith
fresh_tlv-empty MngId.transparent_clock_port_data_set h = ground arith
fresh_tlv-empty MngId.log_min_pdelay_req_interval h = ground arith
fresh_tlv-empty MngId.transparent_clock_default_data_set h = ground arith
fresh_tlv-empty MngId.primary_domain h = ground arith
fresh_tlv-empty MngId.delay_mechanism h = ground arith
fresh_tlv-empty MngId.external_port_configuration_enabled h = ground arith
fresh_tlv-empty MngId.master_only h = ground arith
fresh_tlv-empty MngId.holdover_upgrade_enable h = ground arith
fresh_tlv-empty MngId.ext_port_config_port_data_set h = ground arith
fresh_tlv-empty MngId.time_status_np h = ground arith
fresh_tlv-empty MngId.grandmaster_settings_np h = ground arith
fresh_tlv-empty MngId.port_data_set_np h = ground arith
fresh_tlv-empty MngId.subscribe_events_np h = ground arith
fresh_tlv-empty MngId.port_properties_np h = ground arith
fresh_tlv-empty MngId.port_stats_np h = ground arith
fresh_tlv-empty MngId.synchronization_uncertain_np h = ground arith

empty-fresh_tlv : (id : MngId) → is_empty id ≡ true → fresh_tlv id ≡ none
unfolding fresh_tlv is_empty mng_all_vals
empty-fresh_tlv MngId.null_ptp_management h = ground arith
empty-fresh_tlv MngId.clock_description h = ground arith
empty-fresh_tlv MngId.user_description h = ground arith
empty-fresh_tlv MngId.save_in_non_volatile_storage h = ground arith
empty-fresh_tlv MngId.reset_non_volatile_storage h = ground arith
empty-fresh_tlv MngId.initialize h = ground arith
empty-fresh_tlv MngId.fault_log h = ground arith
empty-fresh_tlv MngId.fault_log_reset h = ground arith
empty-fresh_tlv MngId.default_data_set h = ground arith
empty-fresh_tlv MngId.current_data_set h = ground arith
empty-fresh_tlv MngId.parent_data_set h = ground arith
empty-fresh_tlv MngId.time_properties_data_set h = ground arith
empty-fresh_tlv MngId.port_data_set h = ground arith
empty-fresh_tlv MngId.priority1 h = ground arith
empty-fresh_tlv MngId.priority2 h = ground arith
empty-fresh_tlv MngId.domain h = ground arith
empty-fresh_tlv MngId.slave_only h = ground arith
empty-fresh_tlv MngId.log_announce_interval h = ground arith
empty-fresh_tlv MngId.announce_receipt_timeout h = ground arith
empty-fresh_tlv MngId.log_sync_interval h = ground arith
empty-fresh_tlv MngId.version_number h = ground arith
empty-fresh_tlv MngId.enable_port h = ground arith
empty-fresh_tlv MngId.disable_port h = ground arith
empty-fresh_tlv MngId.time h = ground arith
empty-fresh_tlv MngId.clock_accuracy h = ground arith
empty-fresh_tlv MngId.utc_properties h = ground arith
empty-fresh_tlv MngId.traceability_properties h = ground arith
empty-fresh_tlv MngId.timescale_properties h = ground arith
empty-fresh_tlv MngId.unicast_negotiation_enable h = ground arith
empty-fresh_tlv MngId.path_trace_list h = ground arith
empty-fresh_tlv MngId.path_trace_enable h = ground arith
empty-fresh_tlv MngId.grandmaster_cluster_table h = ground arith
empty-fresh_tlv MngId.unicast_master_table h = ground arith
empty-fresh_tlv MngId.unicast_master_max_table_size h = ground arith
empty-fresh_tlv MngId.acceptable_master_table h = ground arith
empty-fresh_tlv MngId.acceptable_master_table_enabled h = ground arith
empty-fresh_tlv MngId.acceptable_master_max_table_size h = ground arith
empty-fresh_tlv MngId.alternate_master h = ground arith
empty-fresh_tlv MngId.alternate_time_offset_enable h = ground arith
empty-fresh_tlv MngId.alternate_time_offset_name h = ground arith
empty-fresh_tlv MngId.alternate_time_offset_max_key h = ground arith
empty-fresh_tlv MngId.alternate_time_offset_properties h = ground arith
empty-fresh_tlv MngId.transparent_clock_port_data_set h = ground arith
empty-fresh_tlv MngId.log_min_pdelay_req_interval h = ground arith
empty-fresh_tlv MngId.transparent_clock_default_data_set h = ground arith
empty-fresh_tlv MngId.primary_domain h = ground arith
empty-fresh_tlv MngId.delay_mechanism h = ground arith
empty-fresh_tlv MngId.external_port_configuration_enabled h = ground arith
empty-fresh_tlv MngId.master_only h = ground arith
empty-fresh_tlv MngId.holdover_upgrade_enable h = ground arith
empty-fresh_tlv MngId.ext_port_config_port_data_set h = ground arith
empty-fresh_tlv MngId.time_status_np h = ground arith
empty-fresh_tlv MngId.grandmaster_settings_np h = ground arith
empty-fresh_tlv MngId.port_data_set_np h = ground arith
empty-fresh_tlv MngId.subscribe_events_np h = ground arith
empty-fresh_tlv MngId.port_properties_np h = ground arith
empty-fresh_tlv MngId.port_stats_np h = ground arith
empty-fresh_tlv MngId.synchronization_uncertain_np h = ground arith

-- For an id with no data field nothing is read or written and the data stays as it was.
pub call_tlv_data-dataless :
    (id : MngId) (tlv : Option MngTlv) (c : Cursor)
    → is_empty id ≡ true
    → call_tlv_data id tlv c ≡ ok tlv c
unfolding call_tlv pure
call_tlv_data-dataless id tlv c h =
    call_direction c.build id tlv c refl
    ∙ ap (λ t. call_tlv c.build t id tlv c) (empty-fresh_tlv id h)

-- A parse leaves the pointer unset only for an id with no data field.
pub call_tlv_data-unset :
    (id : MngId) (c : Cursor)
    → c.build ≡ false
    → is_unset (call_tlv_data id none c) ≡ true
    → is_empty id ≡ true
call_tlv_data-unset id c dir h =
    fresh_tlv-empty id
      (call-set (fresh_tlv id) id c (ap is_unset (sym (call_direction false id none c dir)) ∙ h))

write_rule :
    (d : MngTlv)
    → ValidTlv d
    → Runs true (call_tlv_data (kind d) (some d)) (tlv_octets d) (some (sent_tlv d))
unfolding call_tlv build_tlv
write_rule d v =
    Runs-of-eq
      (λ c dir. rw (
        call_direction true (kind d) (some d) c dir,
        fresh_tlv-kind d,
        (==_iff (mng_all_vals (kind d)).value _).1 refl,
      ))
      (Runs-map some (tlv-write d v))

-- A build with the structure of the id and valid data writes exactly the octets of the data, or refuses
-- a data field that is too small for them.
pub call_tlv_data-write :
    (d : MngTlv) (c : Cursor)
    → ValidTlv d
    → c.build ≡ true
    → c.left ≤ length c.rest
    → call_tlv_data (kind d) (some d) c ≡ within c (tlv_octets d) (some (sent_tlv d))
call_tlv_data-write d c v dir room = (write_rule d v).at c dir room (λ e. absurd cc)

read_rule :
    (d : MngTlv)
    → ValidTlv d
    → ReadsAll (call_tlv_data (kind d) none) (tlv_octets d) (some (sent_tlv d))
unfolding call_tlv
read_rule d v = record {
  at = λ c dir room fits pad agree.
      rw (call_direction false (kind d) none c dir, fresh_tlv-kind d)
        ((ReadsAll-map some (tlv-read d v)).at c dir room fits pad agree);
}

-- A parse of a data field that holds the octets of valid data, and at most one octet more, gives back
-- the data as it was sent, from any new structure of the id.
pub call_tlv_data-read :
    (d : MngTlv) (c : Cursor)
    → ValidTlv d
    → c.build ≡ false
    → c.left ≤ length c.rest
    → length (tlv_octets d) ≤ c.left
    → c.left ≤ length (tlv_octets d) + 1
    → Agrees (tlv_octets d) c.rest
    → call_tlv_data (kind d) none c ≡ ok (some (sent_tlv d)) (pass c (tlv_octets d))
call_tlv_data-read d c v dir room fits pad agree = (read_rule d v).at c dir room fits pad agree
