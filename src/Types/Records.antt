-- ===== src/Types/Records.antt =====
-- The octets of the records that stand in lists, and of the lists.
use libpmc.Base.{
  ℕ, suc, ◌^◌, ◌<◌, ◌≡◌, ap, Bool, true, false, List, [], ◌∷◌, ◌++◌, length, map, All,
  if◌then◌else◌, ==_iff, arith,
}
use libpmc.Wire.{Cursor, net, Proc, ◌>>=◌, pure}
use libpmc.Wire.Codec.{Runs, Runs-bind, Runs-map, Runs-end, Runs-pure, Runs-of-eq, concat}
use libpmc.Wire.Values.{u8-write, u8-read, u16-write, u16-read}
use libpmc.Types.{
  FaultRecord, fault_length, fault_checked, proc_fault_record, AcceptableMaster,
  proc_acceptable_master, each, counted, countless, vector_f, vector_o,
}
use libpmc.Types.Codecs.{
  ValidTimestamp, timestamp_octets, timestamp-write, timestamp-read, ValidPort, port_octets,
  port-write, port-read, ValidText, sent_text, text_octets, text-write, text-read,
}

pub record ValidMaster (d : AcceptableMaster) : Type 0 where
  pub port : ValidPort d.acceptable_port_identity
  pub priority : d.alternate_priority1 < 256

abbrev pub master_octets : AcceptableMaster → List ℕ
master_octets d = port_octets d.acceptable_port_identity ++ net 1 d.alternate_priority1

pub master-write :
    (d : AcceptableMaster)
    → ValidMaster d
    → Runs true (proc_acceptable_master d) (master_octets d) d
unfolding proc_acceptable_master
master-write d v = Runs-bind _ (port-write v.port) (Runs-map _ u8-write)

pub master-read :
    (w d : AcceptableMaster)
    → ValidMaster d
    → Runs false (proc_acceptable_master w) (master_octets d) d
unfolding proc_acceptable_master
master-read w d v = Runs-bind _ (port-read _ v.port) (Runs-map _ (u8-read _ v.priority))

-- A fault record whose length field is the one that the source checks for.
pub record ValidFault (d : FaultRecord) : Type 0 where
  pub time : ValidTimestamp d.fault_time
  pub severity : d.severity_code < 256
  pub name : ValidText d.fault_name
  pub value : ValidText d.fault_value
  pub description : ValidText d.fault_description
  pub states_length :
      d.fault_record_length
      ≡ fault_length
          (sent_text d.fault_name)
          (sent_text d.fault_value)
          (sent_text d.fault_description)

abbrev pub sent_fault : FaultRecord → FaultRecord
sent_fault d = record d {
  fault_name = sent_text d.fault_name;
  fault_value = sent_text d.fault_value;
  fault_description = sent_text d.fault_description;
}

abbrev pub fault_octets : FaultRecord → List ℕ
fault_octets d =
    net 2 d.fault_record_length
    ++ (timestamp_octets d.fault_time
        ++ (net 1 d.severity_code
            ++ (text_octets d.fault_name
                ++ (text_octets d.fault_value ++ text_octets d.fault_description))))

fault_checked-Runs :
    (b : Bool) (d : FaultRecord)
    → ValidFault d
    → Runs b (fault_checked (sent_fault d)) [] (sent_fault d)
unfolding fault_checked
fault_checked-Runs b d v =
    rw ((==_iff d.fault_record_length _).1 v.states_length) (Runs-pure (sent_fault d))

fault_length-lt : (d : FaultRecord) → ValidFault d → d.fault_record_length < 2 ^ 16
fault_length-lt d v =
    omega (arith, v.states_length, v.name.short, v.value.short, v.description.short)

pub fault-write :
    (d : FaultRecord)
    → ValidFault d
    → Runs true (proc_fault_record d) (fault_octets d) (sent_fault d)
unfolding proc_fault_record
fault-write d v = Runs-bind _ u16-write (
    Runs-bind _ (timestamp-write v.time) (
      Runs-bind _ u8-write (
        Runs-bind _ (text-write v.name) (
          Runs-bind _ (text-write v.value)
            (Runs-end _ (text-write v.description) (fault_checked-Runs true d v))))))

pub fault-read :
    (w d : FaultRecord)
    → ValidFault d
    → Runs false (proc_fault_record w) (fault_octets d) (sent_fault d)
unfolding proc_fault_record
fault-read w d v = Runs-bind _ (u16-read _ (fault_length-lt d v)) (
    Runs-bind _ (timestamp-read _ v.time) (
      Runs-bind _ (u8-read _ v.severity) (
        Runs-bind _ (text-read _ v.name) (
          Runs-bind _ (text-read _ v.value)
            (Runs-end _ (text-read _ v.description) (fault_checked-Runs false d v))))))

pub vector_direction :
    {A : Type 0} (p : A → Proc A) (d : Bool) (fresh : A) (cnt : ℕ) (vec : List A) (c : Cursor)
    → c.build ≡ d
    → vector_f p fresh cnt vec c
      ≡ (if d then each p vec else (do recs ← counted p fresh cnt; pure (vec ++ recs))) c
unfolding vector_f
vector_direction p d fresh cnt vec c e =
    ap (λ b. (if b then each p vec else (do recs ← counted p fresh cnt; pure (vec ++ recs))) c) e

open_direction :
    {A : Type 0} (p : A → Proc A) (fresh : A) (size : ℕ) (vec : List A) (c : Cursor)
    → c.build ≡ true
    → vector_o p fresh size vec c ≡ each p vec c
unfolding vector_o
open_direction p fresh size vec c e =
    ap
      (λ b.
        (if b
            then each p vec
            else (do recs ← countless p fresh size (suc c.left); pure (vec ++ recs)))
          c)
      e

-- Lists of records, from the codec of one record.
module _ {A : Type 0} (p : A → Proc A) (octets : A → List ℕ) (sent : A → A)
    (Valid : A → Type 0) where
  module _ (write : (x : A) → Valid x → Runs true (p x) (octets x) (sent x)) where
    pub each-write :
        (xs : List A) → All Valid xs → Runs true (each p xs) (concat octets xs) (map sent xs)
    unfolding each
    each-write [] v = Runs-pure []
    each-write (x ∷ xs) v = Runs-bind _ (write x v.0) (Runs-map _ (each-write xs v.1))

    pub vector_f-write :
        (fresh : A) (cnt : ℕ) (xs : List A)
        → All Valid xs
        → Runs true (vector_f p fresh cnt xs) (concat octets xs) (map sent xs)
    vector_f-write fresh cnt xs v =
        Runs-of-eq (λ c dir. vector_direction p true fresh cnt xs c dir) (each-write xs v)

    pub vector_o-write :
        (fresh : A) (size : ℕ) (xs : List A)
        → All Valid xs
        → Runs true (vector_o p fresh size xs) (concat octets xs) (map sent xs)
    vector_o-write fresh size xs v =
        Runs-of-eq (λ c dir. open_direction p fresh size xs c dir) (each-write xs v)

  module _ (fresh : A) (read : (x : A) → Valid x → Runs false (p fresh) (octets x) (sent x)) where
    counted-read :
        (xs : List A)
        → All Valid xs
        → Runs false (counted p fresh (length xs)) (concat octets xs) (map sent xs)
    unfolding counted
    counted-read [] v = Runs-pure []
    counted-read (x ∷ xs) v = Runs-bind _ (read x v.0) (Runs-map _ (counted-read xs v.1))

    pub vector_f-read :
        (xs : List A)
        → All Valid xs
        → Runs false (vector_f p fresh (length xs) []) (concat octets xs) (map sent xs)
    vector_f-read xs v =
        Runs-of-eq (λ c dir. vector_direction p false fresh (length xs) [] c dir)
          (Runs-map (λ recs. [] ++ recs) (counted-read xs v))
