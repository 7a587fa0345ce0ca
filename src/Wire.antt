-- ===== src/Wire.antt =====
-- The cursor of msg.h's `Message` over the data field (m_build, m_cur, m_left, m_size) and the
-- functions `proc` of msg.cpp for single values, with the byte orders of end.h.
-- `proc` returns true on error; here it is an outcome. `m_left` is signed in the source: it goes
-- below 0 only after a Float64, and is then only compared with 8 and with 0, which read 0 alike.
pub mod Octets
pub mod Codec
pub mod Values
pub mod Safety
use libpmc.Base.{
  ℕ, zero, suc, ◌+◌, ◌-◌, ◌*◌, ◌/◌, ◌%◌, ◌^◌, Bool, List, [], ◌∷◌, ◌++◌, length, take, drop,
  reverse, ltb, if◌then◌else◌,
}
use libpmc.Base.Int.{ℤ, signed, unsigned}

-- MNG_PARSE_ERROR_e without MNG_PARSE_ERROR_OK
pub data ParseError : Type 0 where
  msg sig invalid_id invalid_tlv size_miss too_small size val header action unsupport mem :
      ParseError

-- `passed` are the octets behind m_cur since the data field began, `rest` those from m_cur to the
-- end of the caller's buffer.
pub record Cursor : Type 0 where
  pub build : Bool
  pub passed : List ℕ
  pub rest : List ℕ
  pub left : ℕ
  pub moved : ℕ

-- `fail` is a `return true` with m_err; `fault` is an access beyond the caller's buffer.
pub data Outcome {ℓ} (A : Type ℓ) : Type ℓ where
  ok : A → Cursor → Outcome A
  fail : ParseError → Outcome A
  fault : Outcome A

abbrev pub Proc {ℓ} : Type ℓ → Type ℓ
Proc A = Cursor → Outcome A

module _ {ℓ κ} {A : Type ℓ} {B : Type κ} where
  abbrev pub continue : Outcome A → (A → Proc B) → Outcome B
  continue (ok a c) f = f a c
  continue (fail e) f = fail e
  continue fault f = fault

  infixl 5 ◌>>=◌ ◌>>◌
  unfoldable pub ◌>>=◌ : Proc A → (A → Proc B) → Proc B
  ◌>>=◌ m f c = continue (m c) f

  abbrev pub ◌>>◌ : Proc A → Proc B → Proc B
  m >> k = m >>= λ _. k

unfoldable pub pure {ℓ} : {A : Type ℓ} → A → Proc A
pure a c = ok a c

pub raise {ℓ} : {A : Type ℓ} → ParseError → Proc A
raise e c = fail e

-- void move(size_t val), after `octets` were written at m_cur or read from there
unfoldable pub pass : Cursor → List ℕ → Cursor
pass c octets = record c {
  passed = c.passed ++ octets;
  rest = drop (length octets) c.rest;
  left = c.left - length octets;
  moved = c.moved + length octets;
}

-- The shape that the source's `proc` functions share: the test of m_left, then the copy in the
-- direction of m_build, then `move`. `out` is what a build writes, `from` what a parse makes of
-- the octets at m_cur.
pub transfer {ℓ} : {A : Type ℓ} → ℕ → List ℕ → A → (List ℕ → A) → Proc A
unfolding pass
transfer n out v from c =
    if ltb c.left n
    then fail too_small
    else if ltb (length c.rest) n
    then fault
    else if c.build
    then ok v (pass c out)
    else ok (from (take n c.rest)) (pass c (take n c.rest))

-- cpu_to_net16, 32, 64 as the octets of the stored word, and net_to_cpu16, 32, 64 of those.
unfoldable pub net : ℕ → ℕ → List ℕ
net zero v = []
net (suc n) v = (v / 256 ^ n % 256) ∷ net n v

unfoldable pub cpu : List ℕ → ℕ
cpu [] = 0
cpu (b ∷ bs) = b * 256 ^ length bs + cpu bs

pub proc_uint : ℕ → ℕ → Proc ℕ
proc_uint n v = transfer n (net n v) v cpu

abbrev pub proc_u8 : ℕ → Proc ℕ
proc_u8 = proc_uint 1

abbrev pub proc_u16 : ℕ → Proc ℕ
proc_u16 = proc_uint 2

abbrev pub proc_u32 : ℕ → Proc ℕ
proc_u32 = proc_uint 4

abbrev pub proc_u64 : ℕ → Proc ℕ
proc_u64 = proc_uint 8

-- 2 to the number of bits of `n` octets
abbrev pub word : ℕ → ℕ
word n = 256 ^ n

pub proc_int : ℕ → ℤ → Proc ℤ
proc_int n z = transfer n (net n (unsigned (word n) z)) z (λ bs. signed (word n) (cpu bs))

abbrev pub proc_i8 : ℤ → Proc ℤ
proc_i8 = proc_int 1

abbrev pub proc_i16 : ℤ → Proc ℤ
proc_i16 = proc_int 2

abbrev pub proc_i32 : ℤ → Proc ℤ
proc_i32 = proc_int 4

abbrev pub proc_i64 : ℤ → Proc ℤ
proc_i64 = proc_int 8

-- bool Message::procLe(uint64_t &val)
pub proc_le64 : ℕ → Proc ℕ
proc_le64 v = transfer 8 (reverse (net 8 v)) v (λ bs. cpu (reverse bs))

-- bool Message::proc(uint8_t *val, size_t len)
pub proc_octets : ℕ → List ℕ → Proc (List ℕ)
proc_octets n bs = transfer n bs bs (λ got. got)

-- bool Message::proc(std::string &str, uint16_t len): on build the length variable is ignored, and
-- the 16 bits of the string's length count.
pub proc_string : List ℕ → ℕ → Proc (List ℕ)
proc_string s len c =
    let n = (if c.build then length s % 2 ^ 16 else len) in transfer n (take n s) s (λ got. got) c

-- On build the test and the move go by 16 bits of the length, and the copy by the whole length.
pub copy_binary : List ℕ → Proc (List ℕ)
copy_binary bin c =
    let n = length bin % 2 ^ 16 in
    if ltb c.left n
    then fail too_small
    else if ltb (length c.rest) (length bin)
    then fault
    else ok bin (pass (record c { rest = bin ++ drop (length bin) c.rest }) (take n bin))

-- bool Message::proc(Binary &bin, uint16_t len)
pub proc_binary : List ℕ → ℕ → Proc (List ℕ)
unfolding copy_binary pass
proc_binary bin len c = if c.build then copy_binary bin c else proc_octets len bin c
