-- ===== src/Base/Int.antt =====
-- Signed integers over the native numbers, and their two's complement of `w` bits.
use libpmc.Base.{ℕ, ◌+◌, ◌-◌, ◌<◌, ◌≡◌, arith, ltb, if◌then◌else◌}

-- `negsuc n` is -(n + 1).
pub data ℤ : Type 0 where
  pos : ℕ → ℤ
  negsuc : ℕ → ℤ

-- The cast of a signed integer to the unsigned integer below `m`, a power of two.
unfoldable pub unsigned : ℕ → ℤ → ℕ
unsigned m (pos n) = n
unsigned m (negsuc n) = m - 1 - n

-- The cast back.
unfoldable pub signed : ℕ → ℕ → ℤ
signed m v = if ltb (v + v) m then pos v else negsuc (m - 1 - v)

-- `z` is an integer of the type whose unsigned integers are below `m`.
abbrev pub InWord : ℕ → ℤ → Type 0
InWord m (pos n) = n + n < m
InWord m (negsuc n) = n + n < m

pub signed-unsigned : (m h : ℕ) (z : ℤ) → m ≡ h + h → InWord m z → signed m (unsigned m z) ≡ z
unfolding signed unsigned
signed-unsigned m h (pos n) e p = ground arith
signed-unsigned m h (negsuc n) e p = ground arith

pub unsigned-lt : (m : ℕ) (z : ℤ) → InWord m z → unsigned m z < m
unfolding unsigned
unsigned-lt m (pos n) p = omega arith
unsigned-lt m (negsuc n) p = omega arith
