-- ===== src/Mng/Sizes/Measure.antt =====
-- The sizes of the table and of `dataFieldSize` are those of the octets on the wire.
use native.Mathlib.Numerals.{unary_clauses}
use libpmc.Base.{
  ℕ, List, length, arith, ◌≡◌, some, ◌+◌, ◌*◌, sym, refl, All, none, [], ◌∷◌, ◌%◌, none≢some,
  some_inj, length-append,
}
use libpmc.Ids.{mng_all_vals}
use libpmc.Mng.{
  MngTlv, kind, clock_description, user_description, initialize, fault_log, default_data_set,
  current_data_set, parent_data_set, time_properties_data_set, port_data_set, priority1, priority2,
  domain, slave_only, log_announce_interval, announce_receipt_timeout, log_sync_interval,
  version_number, time, clock_accuracy, utc_properties, traceability_properties,
  timescale_properties, unicast_negotiation_enable, path_trace_list, path_trace_enable,
  grandmaster_cluster_table, unicast_master_table, unicast_master_max_table_size,
  acceptable_master_table, acceptable_master_table_enabled, acceptable_master_max_table_size,
  alternate_master, alternate_time_offset_enable, alternate_time_offset_name,
  alternate_time_offset_max_key, alternate_time_offset_properties, transparent_clock_port_data_set,
  log_min_pdelay_req_interval, transparent_clock_default_data_set, primary_domain, delay_mechanism,
  external_port_configuration_enabled, master_only, holdover_upgrade_enable,
  ext_port_config_port_data_set, time_status_np, grandmaster_settings_np, port_data_set_np,
  subscribe_events_np, port_properties_np, port_stats_np, synchronization_uncertain_np,
}
use libpmc.Mng.Codecs.{ValidTlv, tlv_octets}
use libpmc.Wire.Codec.{concat}
use libpmc.Wire.Values.{le64, length-le64}
use libpmc.Types.{PortAddress, FaultRecord, AcceptableMaster}
use libpmc.Types.Codecs.{address_octets, IsIdentity}
use libpmc.Types.Records.{fault_octets, master_octets, ValidMaster}
use libpmc.Mng.Sizes.{vector_l, address_size, fault_size, text_size, clock_description_s, size_of}
use libpmc.Wire.Octets.{length-net}

ruleset octet_counts = (length-append, length-net)

-- Records of one size, and records that state their size.
length-concat_fixed :
    {A : Type 0} (octets : A → List ℕ) (Valid : A → Type 0) (size : ℕ)
    → ((x : A) → Valid x → length (octets x) ≡ size)
    → (xs : List A) → All Valid xs
    → length (concat octets xs) ≡ size * length xs
length-concat_fixed octets Valid size e [] v = simp unary_clauses
length-concat_fixed octets Valid size e (x ∷ xs) v = grind (
  arith,
  e x v.0,
  length-append (octets x) (concat octets xs),
  length-concat_fixed octets Valid size e xs v.1,
)

vector_l-concat :
    {A : Type 0} (octets : A → List ℕ) (size : A → ℕ)
    → ((x : A) → length (octets x) ≡ size x)
    → (n : ℕ) (xs : List A) → vector_l n size xs ≡ n + length (concat octets xs)
unfolding vector_l
vector_l-concat octets size e n [] = omega arith
vector_l-concat octets size e n (x ∷ xs) = omega (
  arith,
  e x,
  length-append (octets x) (concat octets xs),
  vector_l-concat octets size e (n + size x) xs,
)

length-statistics : (vs : List ℕ) → length (concat le64 vs) ≡ 8 * length vs
length-statistics [] = refl
length-statistics (v ∷ vs) =
    omega (arith, length-le64 v, length-append (le64 v) (concat le64 vs), length-statistics vs)

address_counted : (x : PortAddress) → length (address_octets x) ≡ address_size x
unfolding address_size
address_counted x = simp octet_counts (omega arith)

fault_counted : (x : FaultRecord) → length (fault_octets x) ≡ fault_size x
unfolding fault_size text_size
fault_counted x = simp octet_counts (omega arith)

master_counted : (x : AcceptableMaster) → ValidMaster x → length (master_octets x) ≡ 11
master_counted x v = simp octet_counts (omega (arith, v.port.identity))

-- a size rounded up to an even one
abbrev pub even_up : ℕ → ℕ
even_up n = n + n % 2

-- For valid data of an id with a size in the table, the octets on the wire, with the pad to an even
-- length, are as many as the table says.
pub declared_size :
    (d : MngTlv)
    → ValidTlv d
    → (n : ℕ) → (mng_all_vals (kind d)).size ≡ some n
    → even_up (length (tlv_octets d)) ≡ n
unfolding mng_all_vals kind
declared_size (clock_description x) v n h = absurd (none≢some h)
declared_size (user_description x) v n h = absurd (none≢some h)
declared_size (initialize x) v n h = rw (← some_inj h) (simp octet_counts (omega arith))
declared_size (fault_log x) v n h = absurd (none≢some h)
declared_size (default_data_set x) v n h = rw (← some_inj h) (simp octet_counts (omega arith))
declared_size (current_data_set x) v n h = rw (← some_inj h) (simp octet_counts (omega arith))
declared_size (parent_data_set x) v n h = rw (← some_inj h) (simp octet_counts (omega arith))
declared_size (time_properties_data_set x) v n h =
    rw (← some_inj h) (simp octet_counts (omega arith))
declared_size (port_data_set x) v n h = rw (← some_inj h) (simp octet_counts (omega arith))
declared_size (priority1 x) v n h = rw (← some_inj h) (simp octet_counts (omega arith))
declared_size (priority2 x) v n h = rw (← some_inj h) (simp octet_counts (omega arith))
declared_size (domain x) v n h = rw (← some_inj h) (simp octet_counts (omega arith))
declared_size (slave_only x) v n h = rw (← some_inj h) (simp octet_counts (omega arith))
declared_size (log_announce_interval x) v n h = rw (← some_inj h) (simp octet_counts (omega arith))
declared_size (announce_receipt_timeout x) v n h =
    rw (← some_inj h) (simp octet_counts (omega arith))
declared_size (log_sync_interval x) v n h = rw (← some_inj h) (simp octet_counts (omega arith))
declared_size (version_number x) v n h = rw (← some_inj h) (simp octet_counts (omega arith))
declared_size (time x) v n h = rw (← some_inj h) (simp octet_counts (omega arith))
declared_size (clock_accuracy x) v n h = rw (← some_inj h) (simp octet_counts (omega arith))
declared_size (utc_properties x) v n h = rw (← some_inj h) (simp octet_counts (omega arith))
declared_size (traceability_properties x) v n h =
    rw (← some_inj h) (simp octet_counts (omega arith))
declared_size (timescale_properties x) v n h = rw (← some_inj h) (simp octet_counts (omega arith))
declared_size (unicast_negotiation_enable x) v n h =
    rw (← some_inj h) (simp octet_counts (omega arith))
declared_size (path_trace_list x) v n h = absurd (none≢some h)
declared_size (path_trace_enable x) v n h = rw (← some_inj h) (simp octet_counts (omega arith))
declared_size (grandmaster_cluster_table x) v n h = absurd (none≢some h)
declared_size (unicast_master_table x) v n h = absurd (none≢some h)
declared_size (unicast_master_max_table_size x) v n h =
    rw (← some_inj h) (simp octet_counts (omega arith))
declared_size (acceptable_master_table x) v n h = absurd (none≢some h)
declared_size (acceptable_master_table_enabled x) v n h =
    rw (← some_inj h) (simp octet_counts (omega arith))
declared_size (acceptable_master_max_table_size x) v n h =
    rw (← some_inj h) (simp octet_counts (omega arith))
declared_size (alternate_master x) v n h = rw (← some_inj h) (simp octet_counts (omega arith))
declared_size (alternate_time_offset_enable x) v n h =
    rw (← some_inj h) (simp octet_counts (omega arith))
declared_size (alternate_time_offset_name x) v n h = absurd (none≢some h)
declared_size (alternate_time_offset_max_key x) v n h =
    rw (← some_inj h) (simp octet_counts (omega arith))
declared_size (alternate_time_offset_properties x) v n h =
    rw (← some_inj h) (simp octet_counts (omega arith))
declared_size (transparent_clock_port_data_set x) v n h =
    rw (← some_inj h) (simp octet_counts (omega arith))
declared_size (log_min_pdelay_req_interval x) v n h =
    rw (← some_inj h) (simp octet_counts (omega arith))
declared_size (transparent_clock_default_data_set x) v n h =
    rw (← some_inj h) (simp octet_counts (omega arith))
declared_size (primary_domain x) v n h = rw (← some_inj h) (simp octet_counts (omega arith))
declared_size (delay_mechanism x) v n h = rw (← some_inj h) (simp octet_counts (omega arith))
declared_size (external_port_configuration_enabled x) v n h =
    rw (← some_inj h) (simp octet_counts (omega arith))
declared_size (master_only x) v n h = rw (← some_inj h) (simp octet_counts (omega arith))
declared_size (holdover_upgrade_enable x) v n h =
    rw (← some_inj h) (simp octet_counts (omega arith))
declared_size (ext_port_config_port_data_set x) v n h =
    rw (← some_inj h) (simp octet_counts (omega arith))
declared_size (time_status_np x) v n h = rw (← some_inj h) (simp octet_counts (omega arith))
declared_size (grandmaster_settings_np x) v n h =
    rw (← some_inj h) (simp octet_counts (omega arith))
declared_size (port_data_set_np x) v n h = rw (← some_inj h) (simp octet_counts (omega arith))
declared_size (subscribe_events_np x) v n h = rw (← some_inj h) (simp octet_counts (omega arith))
declared_size (port_properties_np x) v n h = absurd (none≢some h)
declared_size (port_stats_np x) v n h = rw (← some_inj h) (
    simp octet_counts (
      omega (
        arith,
        v.port.identity,
        v.rx_size,
        v.tx_size,
        length-statistics x.rx_msg_type,
        length-statistics x.tx_msg_type,
      )))
declared_size (synchronization_uncertain_np x) v n h =
    rw (← some_inj h) (simp octet_counts (omega arith))

-- The octets that the size function leaves out: the reserved octet of the clock description.
abbrev pub uncounted : MngTlv → ℕ
uncounted (clock_description x) = 1
uncounted _ = 0

-- For valid data of an id with no size in the table, the size function counts the octets on the wire,
-- but for the reserved octet of a clock description, which it leaves out.
pub counted_size :
    (d : MngTlv)
    → ValidTlv d
    → (mng_all_vals (kind d)).size ≡ none
    → (n : ℕ) × (size_of d ≡ some n) × (length (tlv_octets d) ≡ n + uncounted d)
unfolding mng_all_vals kind size_of text_size address_size clock_description_s
counted_size (clock_description x) v h = (_, refl, simp octet_counts (omega (arith, v)))
counted_size (user_description x) v h = (_, refl, simp octet_counts (omega (arith, v)))
counted_size (initialize x) v h = absurd (none≢some (sym h))
counted_size (fault_log x) v h = (
  _,
  refl,
  simp octet_counts
      (omega (arith, vector_l-concat fault_octets fault_size fault_counted 2 x.fault_records)),
)
counted_size (default_data_set x) v h = absurd (none≢some (sym h))
counted_size (current_data_set x) v h = absurd (none≢some (sym h))
counted_size (parent_data_set x) v h = absurd (none≢some (sym h))
counted_size (time_properties_data_set x) v h = absurd (none≢some (sym h))
counted_size (port_data_set x) v h = absurd (none≢some (sym h))
counted_size (priority1 x) v h = absurd (none≢some (sym h))
counted_size (priority2 x) v h = absurd (none≢some (sym h))
counted_size (domain x) v h = absurd (none≢some (sym h))
counted_size (slave_only x) v h = absurd (none≢some (sym h))
counted_size (log_announce_interval x) v h = absurd (none≢some (sym h))
counted_size (announce_receipt_timeout x) v h = absurd (none≢some (sym h))
counted_size (log_sync_interval x) v h = absurd (none≢some (sym h))
counted_size (version_number x) v h = absurd (none≢some (sym h))
counted_size (time x) v h = absurd (none≢some (sym h))
counted_size (clock_accuracy x) v h = absurd (none≢some (sym h))
counted_size (utc_properties x) v h = absurd (none≢some (sym h))
counted_size (traceability_properties x) v h = absurd (none≢some (sym h))
counted_size (timescale_properties x) v h = absurd (none≢some (sym h))
counted_size (unicast_negotiation_enable x) v h = absurd (none≢some (sym h))
counted_size (path_trace_list x) v h =
    (_, refl, omega (arith, length-concat_fixed (λ i. i) IsIdentity 8 (λ i e. e) x v))
counted_size (path_trace_enable x) v h = absurd (none≢some (sym h))
counted_size (grandmaster_cluster_table x) v h = (
  _,
  refl,
  simp octet_counts
      (omega (arith, vector_l-concat address_octets address_size address_counted 2 x.port_address)),
)
counted_size (unicast_master_table x) v h = (
  _,
  refl,
  simp octet_counts
      (omega (arith, vector_l-concat address_octets address_size address_counted 3 x.port_address)),
)
counted_size (unicast_master_max_table_size x) v h = absurd (none≢some (sym h))
counted_size (acceptable_master_table x) v h = (
  _,
  refl,
  simp octet_counts (
      omega (arith, length-concat_fixed master_octets ValidMaster 11 master_counted x.list v.rows)),
)
counted_size (acceptable_master_table_enabled x) v h = absurd (none≢some (sym h))
counted_size (acceptable_master_max_table_size x) v h = absurd (none≢some (sym h))
counted_size (alternate_master x) v h = absurd (none≢some (sym h))
counted_size (alternate_time_offset_enable x) v h = absurd (none≢some (sym h))
counted_size (alternate_time_offset_name x) v h = (_, refl, simp octet_counts (omega (arith, v)))
counted_size (alternate_time_offset_max_key x) v h = absurd (none≢some (sym h))
counted_size (alternate_time_offset_properties x) v h = absurd (none≢some (sym h))
counted_size (transparent_clock_port_data_set x) v h = absurd (none≢some (sym h))
counted_size (log_min_pdelay_req_interval x) v h = absurd (none≢some (sym h))
counted_size (transparent_clock_default_data_set x) v h = absurd (none≢some (sym h))
counted_size (primary_domain x) v h = absurd (none≢some (sym h))
counted_size (delay_mechanism x) v h = absurd (none≢some (sym h))
counted_size (external_port_configuration_enabled x) v h = absurd (none≢some (sym h))
counted_size (master_only x) v h = absurd (none≢some (sym h))
counted_size (holdover_upgrade_enable x) v h = absurd (none≢some (sym h))
counted_size (ext_port_config_port_data_set x) v h = absurd (none≢some (sym h))
counted_size (time_status_np x) v h = absurd (none≢some (sym h))
counted_size (grandmaster_settings_np x) v h = absurd (none≢some (sym h))
counted_size (port_data_set_np x) v h = absurd (none≢some (sym h))
counted_size (subscribe_events_np x) v h = absurd (none≢some (sym h))
counted_size (port_properties_np x) v h = (_, refl, simp octet_counts (omega (arith, v)))
counted_size (port_stats_np x) v h = absurd (none≢some (sym h))
counted_size (synchronization_uncertain_np x) v h = absurd (none≢some (sym h))
