-- ===== src/Wire/Values.antt =====
-- What the `proc` functions of single values write and read.
use mathlib.Core.List.{reverse-reverse}
use libpmc.Base.{
  ℕ, ◌+◌, ◌%◌, ◌^◌, ◌≤◌, ◌<◌, ◌≡◌, refl, ap, ◌∙◌, Bool, true, false, List, ◌++◌, length, take, drop,
  reverse, take-length, drop-append, if◌then◌else◌, arith,
}
use libpmc.Base.Int.{ℤ, InWord, signed, unsigned, signed-unsigned, unsigned-lt}
use libpmc.Wire.{
  Cursor, net, cpu, word, proc_uint, proc_u8, proc_u16, proc_u32, proc_u64, proc_int, proc_i8,
  proc_i16, proc_i32, proc_i64, proc_le64, proc_octets, proc_string, copy_binary, proc_binary, pass,
  transfer,
}
use libpmc.Wire.Octets.{length-net, cpu-net}
use libpmc.Wire.Codec.{Runs, Runs-write, Runs-read, within, tests_in_order}

-- The octets of a signed value of `n` octets.
abbrev pub net_int : ℕ → ℤ → List ℕ
net_int n z = net n (unsigned (word n) z)

abbrev pub le64 : ℕ → List ℕ
le64 v = reverse (net 8 v)

uint-write : (n v : ℕ) → Runs true (proc_uint n v) (net n v) v
unfolding proc_uint
uint-write n v = Runs-write n (net n v) v cpu (length-net n v)

uint-read : (n w v : ℕ) → v < 256 ^ n → Runs false (proc_uint n w) (net n v) v
unfolding proc_uint
uint-read n w v h = Runs-read n (net n w) (net n v) w v cpu (length-net n v) (cpu-net n v h)

int-write : (n : ℕ) (z : ℤ) → Runs true (proc_int n z) (net_int n z) z
unfolding proc_int
int-write n z =
    Runs-write n _ z (λ bs. signed (word n) (cpu bs)) (length-net n (unsigned (word n) z))

-- `half` is half the word's range.
module _ (n half : ℕ) (even : word n ≡ half + half) where
  int-read : (w z : ℤ) → InWord (word n) z → Runs false (proc_int n w) (net_int n z) z
  unfolding proc_int
  int-read w z h =
      Runs-read n _ (net_int n z) w z (λ bs. signed (word n) (cpu bs))
        (length-net n (unsigned (word n) z))
        (ap (signed (word n)) (cpu-net n _ (unsigned-lt (word n) z h))
          ∙ signed-unsigned (word n) half z even h)

pub i8-read : (w : ℤ) {z : ℤ} → InWord 256 z → Runs false (proc_i8 w) (net_int 1 z) z
i8-read w h = int-read 1 128 refl w _ h

pub i16-read : (w : ℤ) {z : ℤ} → InWord 65536 z → Runs false (proc_i16 w) (net_int 2 z) z
i16-read w h = int-read 2 32768 refl w _ h

pub i32-read : (w : ℤ) {z : ℤ} → InWord (2 ^ 32) z → Runs false (proc_i32 w) (net_int 4 z) z
i32-read w h = int-read 4 (2 ^ 31) refl w _ h

pub i64-read : (w : ℤ) {z : ℤ} → InWord (2 ^ 64) z → Runs false (proc_i64 w) (net_int 8 z) z
i64-read w h = int-read 8 (2 ^ 63) refl w _ h

-- The same at the widths of the source.
pub u8-write : {v : ℕ} → Runs true (proc_u8 v) (net 1 v) v
u8-write = uint-write 1 _

pub u8-read : (w : ℕ) {v : ℕ} → v < 256 → Runs false (proc_u8 w) (net 1 v) v
u8-read w h = uint-read 1 w _ h

pub u16-write : {v : ℕ} → Runs true (proc_u16 v) (net 2 v) v
u16-write = uint-write 2 _

pub u16-read : (w : ℕ) {v : ℕ} → v < 2 ^ 16 → Runs false (proc_u16 w) (net 2 v) v
u16-read w h = uint-read 2 w _ h

pub u32-write : {v : ℕ} → Runs true (proc_u32 v) (net 4 v) v
u32-write = uint-write 4 _

pub u32-read : (w : ℕ) {v : ℕ} → v < 2 ^ 32 → Runs false (proc_u32 w) (net 4 v) v
u32-read w h = uint-read 4 w _ h

pub u64-write : {v : ℕ} → Runs true (proc_u64 v) (net 8 v) v
u64-write = uint-write 8 _

pub u64-read : (w : ℕ) {v : ℕ} → v < 2 ^ 64 → Runs false (proc_u64 w) (net 8 v) v
u64-read w h = uint-read 8 w _ h

pub i8-write : {z : ℤ} → Runs true (proc_i8 z) (net_int 1 z) z
i8-write = int-write 1 _

pub i16-write : {z : ℤ} → Runs true (proc_i16 z) (net_int 2 z) z
i16-write = int-write 2 _

pub i32-write : {z : ℤ} → Runs true (proc_i32 z) (net_int 4 z) z
i32-write = int-write 4 _

pub i64-write : {z : ℤ} → Runs true (proc_i64 z) (net_int 8 z) z
i64-write = int-write 8 _

pub length-le64 : (v : ℕ) → length (le64 v) ≡ 8
unfolding net
length-le64 v = refl

pub le64-write : (v : ℕ) → Runs true (proc_le64 v) (le64 v) v
unfolding proc_le64
le64-write v = Runs-write 8 (le64 v) v (λ bs. cpu (reverse bs)) (length-le64 v)

pub le64-read : (w v : ℕ) → v < 2 ^ 64 → Runs false (proc_le64 w) (le64 v) v
unfolding proc_le64
le64-read w v h =
    Runs-read 8 (le64 w) (le64 v) w v (λ bs. cpu (reverse bs)) (length-le64 v)
      (ap cpu (reverse-reverse (net 8 v)) ∙ cpu-net 8 v h)

pub octets-write : (n : ℕ) (bs : List ℕ) → length bs ≡ n → Runs true (proc_octets n bs) bs bs
unfolding proc_octets
octets-write n bs e = Runs-write n bs bs (λ got. got) e

pub octets-read : (n : ℕ) (out bs : List ℕ) → length bs ≡ n → Runs false (proc_octets n out) bs bs
unfolding proc_octets
octets-read n out bs e = Runs-read n out bs out bs (λ got. got) e refl

-- What a length of 16 bits can state.
abbrev pub IsShort : List ℕ → Type 0
IsShort bs = length bs < 2 ^ 16

pub short_length : (bs : List ℕ) → IsShort bs → length bs % 2 ^ 16 ≡ length bs
short_length bs h = omega arith

-- The length that `proc_string` uses follows the direction.
string_length :
    (d : Bool) (s : List ℕ) (len n : ℕ) (c : Cursor)
    → c.build ≡ d
    → (if d then length s % 2 ^ 16 else len) ≡ n
    → proc_string s len c ≡ transfer n (take n s) s (λ got. got) c
unfolding proc_string
string_length d s len n c e q =
    ap (λ k. transfer k (take k s) s (λ got. got) c)
      (ap (λ b. if b then length s % 2 ^ 16 else len) e ∙ q)

pub string-write : (len : ℕ) (bs : List ℕ) → IsShort bs → Runs true (proc_string bs len) bs bs
string-write len bs h = record {
  at = λ c dir room agree.
      string_length true bs len (length bs) c dir (short_length bs h)
      ∙ (Runs-write (length bs) (take (length bs) bs) bs (λ got. got)
            (ap length (take-length bs))).at
          c dir room (λ e. cc)
      ∙ ap (λ l. within c l bs) (take-length bs);
}

pub string-read :
    (len : ℕ) (out bs : List ℕ) → length bs ≡ len → Runs false (proc_string out len) bs bs
string-read len out bs e = record {
  at = λ c dir room agree.
      string_length false out len len c dir refl
      ∙ (Runs-read len (take len out) bs out bs (λ got. got) e refl).at c dir room agree;
}

pub binary_direction :
    (d : Bool) (bin : List ℕ) (len : ℕ) (c : Cursor)
    → c.build ≡ d
    → proc_binary bin len c ≡ (if d then copy_binary bin c else proc_octets len bin c)
unfolding proc_binary
binary_direction d bin len c e = ap (λ b. if b then copy_binary bin c else proc_octets len bin c) e

-- The copied octets are those that are passed.
copied_all :
    (c : Cursor) (bin : List ℕ)
    → pass (record c { rest = bin ++ drop (length bin) c.rest }) bin ≡ pass c bin
unfolding pass
copied_all c bin = rw (drop-append bin (drop (length bin) c.rest))

copy_binary-short :
    (c : Cursor) (bin : List ℕ)
    → IsShort bin
    → c.left ≤ length c.rest
    → copy_binary bin c ≡ within c bin bin
unfolding copy_binary
copy_binary-short c bin h room =
    rw (short_length bin h, take-length bin, copied_all c bin)
      (tests_in_order _ _ _ c.left (length c.rest) (length bin) room)

pub binary-write : (len : ℕ) (bs : List ℕ) → IsShort bs → Runs true (proc_binary bs len) bs bs
binary-write len bs h = record {
  at = λ c dir room agree. binary_direction true bs len c dir ∙ copy_binary-short c bs h room;
}

pub binary-read :
    (len : ℕ) (out bs : List ℕ) → length bs ≡ len → Runs false (proc_binary out len) bs bs
binary-read len out bs e = record {
  at = λ c dir room agree.
      binary_direction false out len c dir ∙ (octets-read len out bs e).at c dir room agree;
}
