-- ===== src/Mng/Sizes.antt =====
-- `dataFieldSize` and the size functions of proc.cpp.
pub mod Measure
pub mod ByKind
use libpmc.Base.{ℕ, ◌+◌, ◌*◌, List, [], ◌∷◌, length, Option, none, some}
use libpmc.Types.{PtpText, PortAddress, FaultRecord}
use libpmc.Ids.{MngId}
use libpmc.Mng.Tables.{ClockDescription}
use libpmc.Mng.{
  MngTlv, fresh_tlv, clock_description, user_description, fault_log, path_trace_list,
  grandmaster_cluster_table, unicast_master_table, acceptable_master_table,
  alternate_time_offset_name, port_properties_np,
}

-- size() of PTPText_t, PortAddress_t and FaultRecord_t in msg.h
text_size : PtpText → ℕ
text_size t = 1 + length t.text_field

address_size : PortAddress → ℕ
address_size a = 4 + length a.address_field

fault_size : FaultRecord → ℕ
fault_size r =
    3 + 10 + text_size r.fault_name + text_size r.fault_value + text_size r.fault_description

-- vector_l: the sizes of the records on top of those of the fixed fields
vector_l : {A : Type 0} → ℕ → (A → ℕ) → List A → ℕ
vector_l n size [] = n
vector_l n size (x ∷ xs) = vector_l (n + size x) size xs

clock_description_s : ClockDescription → ℕ
clock_description_s d =
    13
    + length d.physical_address
    + address_size d.protocol_address
    + text_size d.physical_layer_protocol
    + text_size d.product_description
    + text_size d.revision_data
    + text_size d.user_description

-- The size functions of proc.cpp, by the structure.
pub size_of : MngTlv → Option ℕ
unfolding text_size address_size fault_size vector_l clock_description_s
size_of (clock_description x) = some (clock_description_s x)
size_of (user_description x) = some (text_size x)
size_of (fault_log x) = some (vector_l 2 fault_size x.fault_records)
size_of (path_trace_list x) = some (8 * length x)
size_of (grandmaster_cluster_table x) = some (vector_l 2 address_size x.port_address)
size_of (unicast_master_table x) = some (vector_l 3 address_size x.port_address)
size_of (acceptable_master_table x) = some (2 + 11 * length x.list)
size_of (alternate_time_offset_name x) = some (1 + text_size x.display_name)
size_of (port_properties_np x) = some (2 + 10 + text_size x.interface)
size_of _ = none

size_or_empty : Option MngTlv → Option MngTlv → Option ℕ
size_or_empty none d = none
size_or_empty (some new) none = size_of new
size_or_empty (some new) (some d) = size_of d

-- ssize_t Message::dataFieldSize(const BaseMngTlv *data) const: an empty structure stands for a null
-- pointer. `none` is -2. The structure is that of the id, as the caller's cast takes it to be.
unfoldable pub data_field_size : MngId → Option MngTlv → Option ℕ
unfolding size_or_empty fresh_tlv size_of
data_field_size id d = size_or_empty (fresh_tlv id) d
