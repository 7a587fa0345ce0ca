-- ===== src/Types.antt =====
-- The compound types of msg.h and their `proc` functions in msg.cpp, and the list loops
-- `vector_f` and `vector_o` of msg.h. An enumeration is its number, as the casts leave it.
pub mod Codecs
pub mod Records
pub mod Loops
pub mod Safety
pub mod Range
use libpmc.Base.{
  ℕ, zero, suc, ◌+◌, ◌*◌, ◌-◌, ◌/◌, ◌%◌, ◌^◌, Bool, true, false, List, [], ◌∷◌, ◌++◌, length, take,
  drop, ltb, leb, ◌==◌, if◌then◌else◌, bit_and, ◌&&◌,
}
use libpmc.Base.Int.{ℤ, pos, negsuc, signed, unsigned}
use libpmc.Wire.{
  Cursor, ok, fail, fault, val, size_miss, too_small, Proc, ◌>>=◌, ◌>>◌, pure, raise, proc_u8,
  proc_u16, proc_u32, proc_u64, proc_i64, proc_octets, proc_string, proc_binary,
}

-- bool Message::proc48(uint64_t &val)
pub u48_value : ℕ → ℕ → ℕ → Proc ℕ
u48_value v high low c = ok (if c.build then v else low + high * 2 ^ 32) c

pub proc_u48 : ℕ → Proc ℕ
unfolding u48_value
proc_u48 v c =
    if c.build && ltb (2 ^ 48 - 1) v
    then fail val
    else (do
      high ← proc_u16 (v / 2 ^ 32 % 2 ^ 16)
      low ← proc_u32 (v % 2 ^ 32)
      u48_value v high low)
        c

-- bool Message::proc48(int64_t &val): the sign bit of `high` goes to bit 63 of the result.
in_int48 : ℤ → Bool
in_int48 (pos n) = ltb n (2 ^ 47)
in_int48 (negsuc n) = ltb n (2 ^ 47)

sign_bit : ℤ → ℕ
sign_bit (pos n) = 0
sign_bit (negsuc n) = 2 ^ 15

i48_value : ℤ → ℕ → ℕ → Proc ℤ
i48_value z high low c =
    let top : ℕ = (if ltb high (2 ^ 15) then 0 else 2 ^ 63) in
    ok (if c.build then z else signed (2 ^ 64) (low + high % 2 ^ 15 * 2 ^ 32 + top)) c

pub proc_i48 : ℤ → Proc ℤ
unfolding in_int48 sign_bit i48_value
proc_i48 z c =
    let u = unsigned (2 ^ 64) z in
    if c.build && (if in_int48 z then false else true)
    then fail val
    else (do
      high ← proc_u16 (u / 2 ^ 32 % 2 ^ 15 + sign_bit z)
      low ← proc_u32 (u % 2 ^ 32)
      i48_value z high low)
        c

-- void move(size_t val), with nothing copied
pub move : ℕ → Cursor → Cursor
move n c = record c {
  passed = c.passed ++ take n c.rest;
  rest = drop n c.rest;
  left = c.left - n;
  moved = c.moved + n;
}

move_on : ℕ → Proc (Unit {0})
unfolding move
move_on n c = ok tt (move n c)

-- bool Message::proc(Float64_t &val), for a host whose floats are IEEE 754 in host byte order; a
-- double is its 64 bits. The value is moved over by the integer `proc`, and then `move(8)` again.
pub proc_float64 : ℕ → Proc ℕ
unfolding move_on
proc_float64 v c =
    if ltb c.left 8 then fail too_small else (do num ← proc_u64 v; move_on 8; pure num) c

abbrev pub TimeInterval : Type 0
TimeInterval = ℤ

pub proc_time_interval : TimeInterval → Proc TimeInterval
proc_time_interval = proc_i64

pub record Timestamp : Type 0 where
  pub seconds_field : ℕ
  pub nanoseconds_field : ℕ

pub proc_timestamp : Timestamp → Proc Timestamp
proc_timestamp d = do
  s ← proc_u48 d.seconds_field
  n ← proc_u32 d.nanoseconds_field
  pure (record { seconds_field = s; nanoseconds_field = n })

-- the octets of `v`
abbrev pub ClockIdentity : Type 0
ClockIdentity = List ℕ

pub proc_clock_identity : ClockIdentity → Proc ClockIdentity
proc_clock_identity = proc_octets 8

pub record PortIdentity : Type 0 where
  pub clock_identity : ClockIdentity
  pub port_number : ℕ

pub proc_port_identity : PortIdentity → Proc PortIdentity
proc_port_identity d = do
  i ← proc_clock_identity d.clock_identity
  n ← proc_u16 d.port_number
  pure (record { clock_identity = i; port_number = n })

pub record PortAddress : Type 0 where
  pub network_protocol : ℕ
  pub address_length : ℕ
  pub address_field : List ℕ

-- On build the length is that of the field, cut to its 16 bits.
pub proc_port_address : PortAddress → Proc PortAddress
proc_port_address d = do
  p ← proc_u16 d.network_protocol
  n ← proc_u16 (length d.address_field % 2 ^ 16)
  a ← proc_binary d.address_field n
  pure (record { network_protocol = p; address_length = n; address_field = a })

pub record ClockQuality : Type 0 where
  pub clock_class : ℕ
  pub clock_accuracy : ℕ
  pub offset_scaled_log_variance : ℕ

pub proc_clock_quality : ClockQuality → Proc ClockQuality
proc_clock_quality d = do
  k ← proc_u8 d.clock_class
  a ← proc_u8 d.clock_accuracy
  v ← proc_u16 d.offset_scaled_log_variance
  pure (record { clock_class = k; clock_accuracy = a; offset_scaled_log_variance = v })

pub record PtpText : Type 0 where
  pub length_field : ℕ
  pub text_field : List ℕ

pub proc_ptp_text : PtpText → Proc PtpText
proc_ptp_text d = do
  n ← proc_u8 (length d.text_field % 256)
  t ← proc_string d.text_field n
  pure (record { length_field = n; text_field = t })

pub record FaultRecord : Type 0 where
  pub fault_record_length : ℕ
  pub fault_time : Timestamp
  pub severity_code : ℕ
  pub fault_name : PtpText
  pub fault_value : PtpText
  pub fault_description : PtpText

-- The length that a fault record must state.
abbrev pub fault_length : PtpText → PtpText → PtpText → ℕ
fault_length n v d = 16 + n.length_field + v.length_field + d.length_field

fault_checked : FaultRecord → Proc FaultRecord
fault_checked r =
    if r.fault_record_length == fault_length r.fault_name r.fault_value r.fault_description
    then pure r
    else raise size_miss

pub proc_fault_record : FaultRecord → Proc FaultRecord
unfolding fault_checked
proc_fault_record d = do
  l ← proc_u16 d.fault_record_length
  t ← proc_timestamp d.fault_time
  s ← proc_u8 d.severity_code
  n ← proc_ptp_text d.fault_name
  v ← proc_ptp_text d.fault_value
  x ← proc_ptp_text d.fault_description
  fault_checked (record {
    fault_record_length = l;
    fault_time = t;
    severity_code = s;
    fault_name = n;
    fault_value = v;
    fault_description = x;
  })

pub record AcceptableMaster : Type 0 where
  pub acceptable_port_identity : PortIdentity
  pub alternate_priority1 : ℕ

pub proc_acceptable_master : AcceptableMaster → Proc AcceptableMaster
proc_acceptable_master d = do
  i ← proc_port_identity d.acceptable_port_identity
  p ← proc_u8 d.alternate_priority1
  pure (record { acceptable_port_identity = i; alternate_priority1 = p })

-- bool Message::procFlags(uint8_t &flags, const uint8_t flagsMask)
pub masked : ℕ → ℕ → ℕ
masked mask flags = if ltb 1 mask then bit_and flags mask else (if ltb 0 flags then 1 else flags)

pub proc_flags : ℕ → ℕ → Proc ℕ
unfolding masked
proc_flags mask flags c = proc_u8 (if c.build then masked mask flags else flags) c

-- A pad octet: `proc(reserved)`. The member is 0 on build, and what a parse puts there is not read.
pub proc_reserved : Proc (Unit {0})
proc_reserved = do proc_u8 0; pure tt

-- The loops of vector_b, vector_f and vector_o over a list of records of one type.
module _ {A : Type 0} (p : A → Proc A) where
  unfoldable pub each : List A → Proc (List A)
  each [] = pure []
  each (x ∷ xs) = do y ← p x; ys ← each xs; pure (y ∷ ys)

  unfoldable pub counted : A → ℕ → Proc (List A)
  counted fresh zero = pure []
  counted fresh (suc n) = do y ← p fresh; ys ← counted fresh n; pure (y ∷ ys)

  -- `while(m_left >= size)`; the fuel is more than m_left, and out of fuel is a fault.
  unfoldable pub countless : A → ℕ → ℕ → Proc (List A)
  countless fresh size zero c = fault
  countless fresh size (suc fuel) c =
      (if leb size c.left
          then (do y ← p fresh; ys ← countless fresh size fuel; pure (y ∷ ys))
          else pure [])
        c

  unfoldable pub vector_f : A → ℕ → List A → Proc (List A)
  unfolding each counted
  vector_f fresh cnt vec c =
      (if c.build then each vec else (do recs ← counted fresh cnt; pure (vec ++ recs))) c

  unfoldable pub vector_o : A → ℕ → List A → Proc (List A)
  unfolding each countless
  vector_o fresh size vec c =
      (if c.build
          then each vec
          else (do recs ← countless fresh size (suc c.left); pure (vec ++ recs)))
        c

-- What a new structure holds. The source leaves the numbers indeterminate; a parse overwrites them.
abbrev pub fresh_timestamp : Timestamp
fresh_timestamp = record { seconds_field = 0; nanoseconds_field = 0 }

abbrev pub fresh_port : PortIdentity
fresh_port = record { clock_identity = []; port_number = 0 }

abbrev pub fresh_address : PortAddress
fresh_address = record { network_protocol = 0; address_length = 0; address_field = [] }

abbrev pub fresh_quality : ClockQuality
fresh_quality = record { clock_class = 0; clock_accuracy = 0; offset_scaled_log_variance = 0 }

abbrev pub fresh_text : PtpText
fresh_text = record { length_field = 0; text_field = [] }

abbrev pub fresh_fault : FaultRecord
fresh_fault = record {
  fault_record_length = 0;
  fault_time = fresh_timestamp;
  severity_code = 0;
  fault_name = fresh_text;
  fault_value = fresh_text;
  fault_description = fresh_text;
}

abbrev pub fresh_master : AcceptableMaster
fresh_master = record { acceptable_port_identity = fresh_port; alternate_priority1 = 0 }
