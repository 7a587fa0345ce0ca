-- ===== src/Mng/Tables.antt =====
-- The TLVs of variable length, and the statistics, of proc.h with their functions in proc.cpp.
pub mod Description
pub mod Codecs
pub mod Streams
use libpmc.Base.{ℕ, ◌%◌, ◌^◌, List, [], ◌∷◌, length, replicate, ltb, if◌then◌else◌}
use libpmc.Base.Int.{ℤ, pos, signed, unsigned}
use libpmc.Wire.{
  Proc, ◌>>=◌, ◌>>◌, pure, proc_u8, proc_u16, proc_i8, proc_i16, proc_octets, proc_binary,
  proc_le64,
}
use libpmc.Types.{
  ClockIdentity, PortIdentity, PortAddress, PtpText, FaultRecord, AcceptableMaster,
  proc_clock_identity, proc_port_identity, proc_port_address, proc_ptp_text, proc_fault_record,
  proc_acceptable_master, proc_reserved, each, vector_f, vector_o, fresh_port, fresh_address,
  fresh_text, fresh_fault, fresh_master,
}

pub record ClockDescription : Type 0 where
  pub clock_type : ℕ
  pub physical_layer_protocol : PtpText
  pub physical_address_length : ℕ
  pub physical_address : List ℕ
  pub protocol_address : PortAddress
  pub manufacturer_identity : List ℕ
  pub product_description : PtpText
  pub revision_data : PtpText
  pub user_description : PtpText
  pub profile_identity : List ℕ

abbrev pub fresh_clock_description : ClockDescription
fresh_clock_description = record {
  clock_type = 0;
  physical_layer_protocol = fresh_text;
  physical_address_length = 0;
  physical_address = [];
  protocol_address = fresh_address;
  manufacturer_identity = [];
  product_description = fresh_text;
  revision_data = fresh_text;
  user_description = fresh_text;
  profile_identity = [];
}

unfoldable pub clock_description_f : ClockDescription → Proc ClockDescription
clock_description_f d = do
  t ← proc_u16 d.clock_type
  l ← proc_ptp_text d.physical_layer_protocol
  n ← proc_u16 (length d.physical_address % 2 ^ 16)
  a ← proc_binary d.physical_address n
  p ← proc_port_address d.protocol_address
  m ← proc_octets 3 d.manufacturer_identity
  proc_reserved
  x ← proc_ptp_text d.product_description
  r ← proc_ptp_text d.revision_data
  u ← proc_ptp_text d.user_description
  i ← proc_octets 6 d.profile_identity
  pure (record {
    clock_type = t;
    physical_layer_protocol = l;
    physical_address_length = n;
    physical_address = a;
    protocol_address = p;
    manufacturer_identity = m;
    product_description = x;
    revision_data = r;
    user_description = u;
    profile_identity = i;
  })

pub record FaultLog : Type 0 where
  pub number_of_fault_records : ℕ
  pub fault_records : List FaultRecord

abbrev pub fresh_fault_log : FaultLog
fresh_fault_log = record { number_of_fault_records = 0; fault_records = [] }

-- The count that a build writes is the field's, whatever the list holds.
unfoldable pub fault_log_f : FaultLog → Proc FaultLog
fault_log_f d = do
  n ← proc_u16 d.number_of_fault_records
  l ← vector_f proc_fault_record fresh_fault n d.fault_records
  pure (record { number_of_fault_records = n; fault_records = l })

unfoldable pub path_trace_list_f : List ClockIdentity → Proc (List ClockIdentity)
path_trace_list_f d = vector_o proc_clock_identity [] 8 d

-- GRANDMASTER_CLUSTER_TABLE_t and UNICAST_MASTER_TABLE_t have the same members; the table size of
-- the first is an octet, of the second two.
pub record AddressTable : Type 0 where
  pub log_query_interval : ℤ
  pub actual_table_size : ℕ
  pub port_address : List PortAddress

abbrev pub fresh_address_table : AddressTable
fresh_address_table = record {
  log_query_interval = pos 0;
  actual_table_size = 0;
  port_address = [];
}

unfoldable pub grandmaster_cluster_table_f : AddressTable → Proc AddressTable
grandmaster_cluster_table_f d = do
  q ← proc_i8 d.log_query_interval
  n ← proc_u8 (length d.port_address % 2 ^ 8)
  l ← vector_f proc_port_address fresh_address n d.port_address
  pure (record { log_query_interval = q; actual_table_size = n; port_address = l })

unfoldable pub unicast_master_table_f : AddressTable → Proc AddressTable
unicast_master_table_f d = do
  q ← proc_i8 d.log_query_interval
  n ← proc_u16 (length d.port_address % 2 ^ 16)
  l ← vector_f proc_port_address fresh_address n d.port_address
  pure (record { log_query_interval = q; actual_table_size = n; port_address = l })

pub record AcceptableMasterTable : Type 0 where
  pub actual_table_size : ℤ
  pub list : List AcceptableMaster

abbrev pub fresh_acceptable_master_table : AcceptableMasterTable
fresh_acceptable_master_table = record { actual_table_size = pos 0; list = [] }

-- The table size is a signed field; the loop takes it as uint32_t.
unfoldable pub acceptable_master_table_f : AcceptableMasterTable → Proc AcceptableMasterTable
acceptable_master_table_f d = do
  n ← proc_i16 (signed (2 ^ 16) (length d.list % 2 ^ 16))
  l ← vector_f proc_acceptable_master fresh_master (unsigned (2 ^ 32) n) d.list
  pure (record { actual_table_size = n; list = l })

pub record PortStatsNp : Type 0 where
  pub port_identity : PortIdentity
  pub rx_msg_type : List ℕ
  pub tx_msg_type : List ℕ

-- MAX_MESSAGE_TYPES
abbrev pub max_message_types : ℕ
max_message_types = 16

abbrev pub fresh_port_stats_np : PortStatsNp
fresh_port_stats_np = record {
  port_identity = fresh_port;
  rx_msg_type = replicate max_message_types 0;
  tx_msg_type = replicate max_message_types 0;
}

unfoldable pub port_stats_np_f : PortStatsNp → Proc PortStatsNp
port_stats_np_f d = do
  i ← proc_port_identity d.port_identity
  rx ← each proc_le64 d.rx_msg_type
  tx ← each proc_le64 d.tx_msg_type
  pure (record { port_identity = i; rx_msg_type = rx; tx_msg_type = tx })
