-- ===== src/Buffer.antt =====
-- The memory block for messages, buf.h and buf.cpp: class Buf, with the address of the block or none
-- for the null pointer. `realloc` of the C library is an argument, the address it returns.
use libpmc.Base.{
  ℕ, ◌≤◌, ◌<◌, ◌≡◌, refl, Bool, true, false, ◌↔◌, Option, none, some, ltb, leb, ◌==◌, if◌then◌else◌,
  arith, ◌&&◌, ◌≢◌, ◌⊎◌, inl, inr, leb→le, not_leb→lt, if_rule,
}

pub record Buf : Type 0 where
  pub m_buf : Option ℕ
  pub m_size : ℕ

abbrev pub fresh_buf : Buf
fresh_buf = record { m_buf = none; m_size = 0 }

-- What alloc does with the result of realloc.
unfoldable pub taken : ℕ → Option ℕ → Buf → Buf × Bool
taken size none b = (b, false)
taken size (some nb) b = (record { m_buf = some nb; m_size = size }, true)

unfoldable pub alloc : (ℕ → Option ℕ) → ℕ → Buf → Buf × Bool
unfolding taken
alloc realloc size b =
    if size == 0
    then (b, false)
    else if leb size b.m_size
    then (b, true)
    else taken size (realloc size) b

is_block : Option ℕ → Bool
is_block none = false
is_block (some a) = true

unfoldable pub is_alloc : Buf → Bool
unfolding is_block
is_alloc b = ltb 0 b.m_size && is_block b.m_buf

-- The size is zero exactly while there is no block.
abbrev pub IsSound : Buf → Type 0
IsSound b = (b.m_size ≡ 0) ↔ (b.m_buf ≡ none)

-- What a call of alloc on a sound block ensures.
abbrev pub Ensures : ℕ → Buf → Buf × Bool → Type 0
Ensures size b r =
    IsSound r.0
    × (b.m_size ≤ r.0.m_size)
    × (((r.1 ≡ true) × (size ≤ r.0.m_size) × (is_alloc r.0 ≡ true)) ⊎ (r ≡ (b, false)))

some_block : (o : Option ℕ) → o ≢ none → is_block o ≡ true
unfolding is_block
some_block none h = absurd (h refl)
some_block (some a) h = refl

kept-Ensures :
    (size : ℕ) (b : Buf) → IsSound b → 0 < size → size ≤ b.m_size → Ensures size b (b, true)
unfolding is_alloc
kept-Ensures size b v h fits =
    let block : is_block b.m_buf ≡ true = some_block b.m_buf (λ e. absurd (omega (arith, v.1 e))) in
    (v, omega arith, inl (refl, fits, ground (arith, block)))

taken-Ensures :
    (size : ℕ) (o : Option ℕ) (b : Buf)
    → IsSound b
    → b.m_size < size
    → Ensures size b (taken size o b)
unfolding taken is_alloc is_block
taken-Ensures size none b v h = (v, omega arith, inr refl)
taken-Ensures size (some nb) b v h = (
  (λ e. absurd (omega arith), λ e. absurd (cc e)),
  omega arith,
  inl (refl, omega arith, ground arith),
)

-- On a block whose size is zero exactly when there is none, a call of alloc keeps it so and never
-- shrinks it, and either returns true with a block of at least the size asked for, or returns false and
-- changes nothing.
pub alloc-Ensures :
    (realloc : ℕ → Option ℕ) (size : ℕ) (b : Buf)
    → IsSound b
    → Ensures size b (alloc realloc size b)
unfolding alloc
alloc-Ensures realloc size b v =
    if_rule (Ensures size b) (size == 0) (λ e. (v, omega arith, inr refl))
      (λ e.
        if_rule (Ensures size b) (leb size b.m_size)
          (λ fits. kept-Ensures size b v (ground arith) (leb→le _ _ fits))
          (λ less. taken-Ensures size (realloc size) b v (not_leb→lt _ _ less)))
