-- ===== src/Base/Table.antt =====
-- A check of every number below a bound by evaluation; and so that a mask leaves an octet an octet,
-- where no law of `bit_and` covers variables.
use libpmc.Base.{
  ℕ, zero, suc, ◌<◌, ◌≡◌, refl, Bool, true, false, bit_and, ltb, ltb→lt, if◌then◌else◌, arith,
}

unfoldable pub checked_up_to : (ℕ → Bool) → ℕ → Bool
checked_up_to test zero = true
checked_up_to test (suc k) = if test k then checked_up_to test k else false

pub branch_true : (b c : Bool) → (if b then c else false) ≡ true → (b ≡ true) × (c ≡ true)
branch_true true c e = (refl, e)
branch_true false c e = absurd (ground arith)

pub checked_each : (test : ℕ → Bool) (k i : ℕ) → i < k → checked_up_to test k ≡ true → test i ≡ true
unfolding checked_up_to
checked_each test zero i less e = absurd (omega arith)
checked_each test (suc k) i less e =
    let both = branch_true (test k) (checked_up_to test k) e in
    ground (arith, both.0, checked_each test k i, both.1)

stays_octet : ℕ → ℕ → Bool
stays_octet mask octet = ltb (bit_and octet mask) 256

masks_checked : checked_up_to (λ mask. checked_up_to (stays_octet mask) 256) 256 ≡ true
unfolding checked_up_to stays_octet
masks_checked = refl

pub bit_and-lt : (x m : ℕ) → x < 256 → m < 256 → bit_and x m < 256
unfolding stays_octet
bit_and-lt x m hx hm =
    let row = checked_each (λ mask. checked_up_to (stays_octet mask) 256) 256 m hm masks_checked in
    ltb→lt _ 256 (checked_each (stays_octet m) 256 x hx row)
