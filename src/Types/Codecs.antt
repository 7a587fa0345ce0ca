-- ===== src/Types/Codecs.antt =====
-- The octets of the compound types, and that `proc` writes and reads exactly those.
-- `sent_x d` is what the source makes of `d` on build: the length fields follow the contents and
-- the flags are masked.
use libpmc.Base.{
  ℕ, ◌+◌, ◌-◌, ◌*◌, ◌/◌, ◌%◌, ◌^◌, ◌<◌, ◌≡◌, refl, ap, ◌∙◌, sym, Bool, true, false, List, [], ◌++◌,
  length, ltb, ◌&&◌, if◌then◌else◌, le→not_ltb, arith,
}
use libpmc.Base.Int.{InWord}
use libpmc.Base.Table.{bit_and-lt}
use libpmc.Wire.{Cursor, net, Proc, ◌>>=◌, ok, fail, val, proc_u8, proc_u16, proc_u32}
use libpmc.Wire.Codec.{Runs, Runs-bind, Runs-map, Runs-end, Runs-value, Runs-of-eq, within-nil}
use libpmc.Wire.Values.{
  IsShort, short_length, net_int, u8-write, u8-read, u16-write, u16-read, u32-write, u32-read,
  i64-write, i64-read, octets-write, octets-read, string-write, string-read, binary-write,
  binary-read,
}
use libpmc.Types.{
  u48_value, proc_u48, TimeInterval, proc_time_interval, Timestamp, proc_timestamp, ClockIdentity,
  proc_clock_identity, PortIdentity, proc_port_identity, PortAddress, proc_port_address,
  ClockQuality, proc_clock_quality, PtpText, proc_ptp_text, masked, proc_flags, proc_reserved,
}

-- 48 bits: the high 16 and the low 32
abbrev pub net48 : ℕ → List ℕ
net48 v = net 2 (v / 2 ^ 32 % 2 ^ 16) ++ net 4 (v % 2 ^ 32)

pub reserved-write : Runs true proc_reserved (net 1 0) tt
unfolding proc_reserved
reserved-write = Runs-map (λ _. tt) u8-write

pub reserved-read : Runs false proc_reserved (net 1 0) tt
unfolding proc_reserved
reserved-read = Runs-map (λ _. tt) (u8-read 0 (omega arith))

pub masked-lt : (mask flags : ℕ) → mask < 256 → flags < 256 → masked mask flags < 256
unfolding masked
masked-lt mask flags hm hf = ground (arith, bit_and-lt flags mask hf hm)

pub flags_direction :
    (d : Bool) (mask flags : ℕ) (c : Cursor)
    → c.build ≡ d
    → proc_flags mask flags c ≡ proc_u8 (if d then masked mask flags else flags) c
unfolding proc_flags
flags_direction d mask flags c e = ap (λ b. proc_u8 (if b then masked mask flags else flags) c) e

pub flags-write :
    (mask flags : ℕ)
    → Runs true (proc_flags mask flags) (net 1 (masked mask flags)) (masked mask flags)
flags-write mask flags = Runs-of-eq (flags_direction true mask flags) u8-write

pub flags-read : (mask w : ℕ) {v : ℕ} → v < 256 → Runs false (proc_flags mask w) (net 1 v) v
flags-read mask w h = Runs-of-eq (flags_direction false mask w) (u8-read w h)

-- Past the range check both directions make the same two moves.
unfoldable pub u48_moves : ℕ → Proc ℕ
u48_moves v = do
  high ← proc_u16 (v / 2 ^ 32 % 2 ^ 16)
  low ← proc_u32 (v % 2 ^ 32)
  u48_value v high low

pub u48_direction :
    (d : Bool) (v : ℕ) (c : Cursor)
    → c.build ≡ d
    → proc_u48 v c ≡ (if d && ltb (2 ^ 48 - 1) v then fail val else u48_moves v c)
unfolding proc_u48 u48_moves
u48_direction d v c e = ap (λ b. if b && ltb (2 ^ 48 - 1) v then fail val else u48_moves v c) e

u48_value-Runs :
    (d : Bool) (v high low : ℕ)
    → Runs d (u48_value v high low) [] (if d then v else low + high * 2 ^ 32)
unfolding u48_value
u48_value-Runs d v high low = record {
  at = λ c dir room agree.
      ap (λ b. ok (if b then v else low + high * 2 ^ 32) c) dir ∙ sym (within-nil c _);
}

pub u48-write : {v : ℕ} → v < 2 ^ 48 → Runs true (proc_u48 v) (net48 v) v
unfolding u48_moves
u48-write {v} h =
    Runs-of-eq
      (λ c dir.
        u48_direction true v c dir
        ∙ ap (λ b. if b then fail val else u48_moves v c) (le→not_ltb (2 ^ 48 - 1) v (omega arith)))
      (Runs-bind _ u16-write (Runs-end _ u32-write (u48_value-Runs true v _ _)))

u48_halves : (v : ℕ) → v < 2 ^ 48 → v % 2 ^ 32 + v / 2 ^ 32 % 2 ^ 16 * 2 ^ 32 ≡ v
u48_halves v h = omega arith

pub u48-read : (w : ℕ) {v : ℕ} → v < 2 ^ 48 → Runs false (proc_u48 w) (net48 v) v
unfolding u48_moves
u48-read w {v} h =
    Runs-of-eq (λ c dir. u48_direction false w c dir)
      (Runs-bind _ (u16-read _ (omega arith)) (
        Runs-end _ (u32-read _ (omega arith))
          (Runs-value (u48_halves v h) (u48_value-Runs false w _ _))))

pub record ValidTimestamp (d : Timestamp) : Type 0 where
  pub seconds : d.seconds_field < 2 ^ 48
  pub nanoseconds : d.nanoseconds_field < 2 ^ 32

abbrev pub timestamp_octets : Timestamp → List ℕ
timestamp_octets d = net48 d.seconds_field ++ net 4 d.nanoseconds_field

pub timestamp-write :
    {d : Timestamp} → ValidTimestamp d → Runs true (proc_timestamp d) (timestamp_octets d) d
unfolding proc_timestamp
timestamp-write v = Runs-bind _ (u48-write v.seconds) (Runs-map _ u32-write)

pub timestamp-read :
    (w : Timestamp) {d : Timestamp}
    → ValidTimestamp d
    → Runs false (proc_timestamp w) (timestamp_octets d) d
unfolding proc_timestamp
timestamp-read w v = Runs-bind _ (u48-read _ v.seconds) (Runs-map _ (u32-read _ v.nanoseconds))

abbrev pub IsIdentity : ClockIdentity → Type 0
IsIdentity v = length v ≡ 8

pub record ValidPort (d : PortIdentity) : Type 0 where
  pub identity : IsIdentity d.clock_identity
  pub number : d.port_number < 2 ^ 16

abbrev pub port_octets : PortIdentity → List ℕ
port_octets d = d.clock_identity ++ net 2 d.port_number

pub identity-write : {d : ClockIdentity} → IsIdentity d → Runs true (proc_clock_identity d) d d
unfolding proc_clock_identity
identity-write v = octets-write 8 _ v

pub identity-read :
    (w : ClockIdentity) {d : ClockIdentity} → IsIdentity d → Runs false (proc_clock_identity w) d d
unfolding proc_clock_identity
identity-read w v = octets-read 8 w _ v

pub port-write :
    {d : PortIdentity} → ValidPort d → Runs true (proc_port_identity d) (port_octets d) d
unfolding proc_port_identity
port-write v = Runs-bind _ (identity-write v.identity) (Runs-map _ u16-write)

pub port-read :
    (w : PortIdentity) {d : PortIdentity}
    → ValidPort d
    → Runs false (proc_port_identity w) (port_octets d) d
unfolding proc_port_identity
port-read w v = Runs-bind _ (identity-read _ v.identity) (Runs-map _ (u16-read _ v.number))

pub record ValidAddress (d : PortAddress) : Type 0 where
  pub protocol : d.network_protocol < 2 ^ 16
  pub short : IsShort d.address_field

abbrev pub sent_address : PortAddress → PortAddress
sent_address d = record d { address_length = length d.address_field }

abbrev pub address_octets : PortAddress → List ℕ
address_octets d = net 2 d.network_protocol ++ (net 2 (length d.address_field) ++ d.address_field)

pub address-write :
    {d : PortAddress}
    → ValidAddress d
    → Runs true (proc_port_address d) (address_octets d) (sent_address d)
unfolding proc_port_address
address-write {d} v =
    rw (short_length d.address_field v.short)
      (Runs-bind _ u16-write (Runs-bind _ u16-write (Runs-map _ (binary-write _ _ v.short))))

pub address-read :
    (w : PortAddress) {d : PortAddress}
    → ValidAddress d
    → Runs false (proc_port_address w) (address_octets d) (sent_address d)
unfolding proc_port_address
address-read w v =
    Runs-bind _ (u16-read _ v.protocol)
      (Runs-bind _ (u16-read _ v.short) (Runs-map _ (binary-read _ _ _ refl)))

pub record ValidQuality (d : ClockQuality) : Type 0 where
  pub class : d.clock_class < 256
  pub accuracy : d.clock_accuracy < 256
  pub variance : d.offset_scaled_log_variance < 2 ^ 16

abbrev pub quality_octets : ClockQuality → List ℕ
quality_octets d =
    net 1 d.clock_class ++ (net 1 d.clock_accuracy ++ net 2 d.offset_scaled_log_variance)

pub quality-write : {d : ClockQuality} → Runs true (proc_clock_quality d) (quality_octets d) d
unfolding proc_clock_quality
quality-write = Runs-bind _ u8-write (Runs-bind _ u8-write (Runs-map _ u16-write))

pub quality-read :
    (w : ClockQuality) {d : ClockQuality}
    → ValidQuality d
    → Runs false (proc_clock_quality w) (quality_octets d) d
unfolding proc_clock_quality
quality-read w v =
    Runs-bind _ (u8-read _ v.class)
      (Runs-bind _ (u8-read _ v.accuracy) (Runs-map _ (u16-read _ v.variance)))

-- A text whose length fits its length octet.
pub record ValidText (t : PtpText) : Type 0 where
  pub short : length t.text_field < 256

abbrev pub sent_text : PtpText → PtpText
sent_text t = record t { length_field = length t.text_field }

abbrev pub text_octets : PtpText → List ℕ
text_octets t = net 1 (length t.text_field) ++ t.text_field

octet_length : (bs : List ℕ) → length bs < 256 → length bs % 256 ≡ length bs
octet_length bs h = omega arith

text-IsShort : (t : PtpText) → ValidText t → IsShort t.text_field
text-IsShort t v = omega (arith, v.short)

pub text-write :
    {t : PtpText} → ValidText t → Runs true (proc_ptp_text t) (text_octets t) (sent_text t)
unfolding proc_ptp_text
text-write {t} v =
    rw (octet_length t.text_field v.short)
      (Runs-bind _ u8-write (Runs-map _ (string-write _ _ (text-IsShort t v))))

pub text-read :
    (w : PtpText) {t : PtpText}
    → ValidText t
    → Runs false (proc_ptp_text w) (text_octets t) (sent_text t)
unfolding proc_ptp_text
text-read w v = Runs-bind _ (u8-read _ v.short) (Runs-map _ (string-read _ _ _ refl))

pub interval-write : {d : TimeInterval} → Runs true (proc_time_interval d) (net_int 8 d) d
unfolding proc_time_interval
interval-write = i64-write

pub interval-read :
    (w : TimeInterval) {d : TimeInterval}
    → InWord (2 ^ 64) d
    → Runs false (proc_time_interval w) (net_int 8 d) d
unfolding proc_time_interval
interval-read w h = i64-read w h
