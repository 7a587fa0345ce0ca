-- ===== src/Mng/Tables/Codecs.antt =====
-- The octets of the TLVs of variable length, and that the functions write and read exactly those.
use libpmc.Base.{ℕ, ◌%◌, ◌^◌, ◌<◌, ◌≡◌, true, false, List, ◌++◌, length, map, All, arith}
use libpmc.Base.Int.{pos, InWord, signed, unsigned}
use libpmc.Wire.{net}
use libpmc.Wire.Codec.{Runs, Runs-bind, Runs-map, concat}
use libpmc.Wire.Values.{
  net_int, u8-write, u8-read, u16-write, u16-read, i8-write, i8-read, i16-write, i16-read,
}
use libpmc.Types.Codecs.{ValidAddress, sent_address, address_octets, address-write, address-read}
use libpmc.Types.Records.{
  ValidFault, sent_fault, fault_octets, fault-write, fault-read, ValidMaster, master_octets,
  master-write, master-read, vector_f-write, vector_f-read,
}
use libpmc.Mng.Tables.{
  FaultLog, fault_log_f, AddressTable, fresh_address_table, fresh_fault_log,
  fresh_acceptable_master_table, grandmaster_cluster_table_f, unicast_master_table_f,
  AcceptableMasterTable, acceptable_master_table_f,
}

-- The count of a log that is to be read back is that of its records.
pub record ValidFaultLog (d : FaultLog) : Type 0 where
  pub count : d.number_of_fault_records ≡ length d.fault_records
  pub few : length d.fault_records < 2 ^ 16
  pub records : All ValidFault d.fault_records

abbrev pub sent_fault_log : FaultLog → FaultLog
sent_fault_log d = record {
  number_of_fault_records = length d.fault_records;
  fault_records = map sent_fault d.fault_records;
}

abbrev pub fault_log_octets : FaultLog → List ℕ
fault_log_octets d = net 2 (length d.fault_records) ++ concat fault_octets d.fault_records

pub fault_log-write :
    (d : FaultLog)
    → ValidFaultLog d
    → Runs true (fault_log_f d) (fault_log_octets d) (sent_fault_log d)
unfolding fault_log_f
fault_log-write d v = rw v.count (
    Runs-bind _ u16-write (
      Runs-map _ (
        vector_f-write _ fault_octets sent_fault ValidFault fault-write _ _ d.fault_records
          v.records)))

pub fault_log-read :
    (d : FaultLog)
    → ValidFaultLog d
    → Runs false (fault_log_f fresh_fault_log) (fault_log_octets d) (sent_fault_log d)
unfolding fault_log_f
fault_log-read d v = Runs-bind _ (u16-read _ v.few) (
    Runs-map _ (
      vector_f-read _ fault_octets sent_fault ValidFault _ (fault-read _) d.fault_records
        v.records))

-- `most` is the number of rows that the size field can state.
pub record ValidAddressTable (most : ℕ) (d : AddressTable) : Type 0 where
  pub interval : InWord 256 d.log_query_interval
  pub few : length d.port_address < most
  pub rows : All ValidAddress d.port_address

abbrev pub sent_address_table : AddressTable → AddressTable
sent_address_table d = record d {
  actual_table_size = length d.port_address;
  port_address = map sent_address d.port_address;
}

-- `n` octets of size
abbrev pub address_table_octets : ℕ → AddressTable → List ℕ
address_table_octets n d =
    net_int 1 d.log_query_interval
    ++ (net n (length d.port_address) ++ concat address_octets d.port_address)

small_mod : (n m : ℕ) → n < m → n % m ≡ n
small_mod n m h = grind arith

pub grandmaster_cluster_table-write :
    (d : AddressTable)
    → ValidAddressTable 256 d
    → Runs true (grandmaster_cluster_table_f d) (address_table_octets 1 d) (sent_address_table d)
unfolding grandmaster_cluster_table_f
grandmaster_cluster_table-write d v = rw (small_mod (length d.port_address) 256 v.few) (
    Runs-bind _ i8-write (
      Runs-bind _ u8-write (
        Runs-map _ (
          vector_f-write _ address_octets sent_address ValidAddress (λ x h. address-write h) _ _
            d.port_address v.rows))))

pub grandmaster_cluster_table-read :
    (d : AddressTable)
    → ValidAddressTable 256 d
    → Runs false
        (grandmaster_cluster_table_f fresh_address_table)
        (address_table_octets 1 d)
        (sent_address_table d)
unfolding grandmaster_cluster_table_f
grandmaster_cluster_table-read d v = Runs-bind _ (i8-read _ v.interval) (
    Runs-bind _ (u8-read _ v.few) (
      Runs-map _ (
        vector_f-read _ address_octets sent_address ValidAddress _ (λ x h. address-read _ h)
          d.port_address v.rows)))

pub unicast_master_table-write :
    (d : AddressTable)
    → ValidAddressTable (2 ^ 16) d
    → Runs true (unicast_master_table_f d) (address_table_octets 2 d) (sent_address_table d)
unfolding unicast_master_table_f
unicast_master_table-write d v = rw (small_mod (length d.port_address) (2 ^ 16) v.few) (
    Runs-bind _ i8-write (
      Runs-bind _ u16-write (
        Runs-map _ (
          vector_f-write _ address_octets sent_address ValidAddress (λ x h. address-write h) _ _
            d.port_address v.rows))))

pub unicast_master_table-read :
    (d : AddressTable)
    → ValidAddressTable (2 ^ 16) d
    → Runs false
        (unicast_master_table_f fresh_address_table)
        (address_table_octets 2 d)
        (sent_address_table d)
unfolding unicast_master_table_f
unicast_master_table-read d v = Runs-bind _ (i8-read _ v.interval) (
    Runs-bind _ (u16-read _ v.few) (
      Runs-map _ (
        vector_f-read _ address_octets sent_address ValidAddress _ (λ x h. address-read _ h)
          d.port_address v.rows)))

-- The table size is signed, so half of its range counts rows.
pub record ValidMasterTable (d : AcceptableMasterTable) : Type 0 where
  pub few : length d.list < 2 ^ 15
  pub rows : All ValidMaster d.list

abbrev pub sent_master_table : AcceptableMasterTable → AcceptableMasterTable
sent_master_table d = record { actual_table_size = pos (length d.list); list = map (λ x. x) d.list }

abbrev pub master_table_octets : AcceptableMasterTable → List ℕ
master_table_octets d = net_int 2 (pos (length d.list)) ++ concat master_octets d.list

signed_length : (n : ℕ) → n < 2 ^ 15 → signed (2 ^ 16) (n % 2 ^ 16) ≡ pos n
unfolding signed
signed_length n h = ground arith

pub acceptable_master_table-write :
    (d : AcceptableMasterTable)
    → ValidMasterTable d
    → Runs true (acceptable_master_table_f d) (master_table_octets d) (sent_master_table d)
unfolding acceptable_master_table_f
acceptable_master_table-write d v = rw (signed_length (length d.list) v.few) (
    Runs-bind _ i16-write (
      Runs-map _
        (vector_f-write _ master_octets (λ x. x) ValidMaster master-write _ _ d.list v.rows)))

pub acceptable_master_table-read :
    (d : AcceptableMasterTable)
    → ValidMasterTable d
    → Runs false
        (acceptable_master_table_f fresh_acceptable_master_table)
        (master_table_octets d)
        (sent_master_table d)
unfolding acceptable_master_table_f unsigned
acceptable_master_table-read d v = Runs-bind _ (i16-read _ (omega (arith, v.few))) (
    Runs-map _ (vector_f-read _ master_octets (λ x. x) ValidMaster _ (master-read _) d.list v.rows))
