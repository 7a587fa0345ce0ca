-- ===== src/Config/Letters.antt =====
-- That set_val of cfg.cpp does not look at where strtol stops: a value that is no number is taken for
-- zero.
use libpmc.Base.{ℕ, ◌≤◌, ◌<◌, ◌≡◌, refl, ◌≢◌, false, ◌||◌, List, [], ◌∷◌, some, ◌==◌, arith}
use libpmc.Base.Int.{pos}
use libpmc.Text.{isspace, skip_spaces, skip_sign, skip_prefix, starts_digit, digit, strtol}
use libpmc.Config.{Range, number, read_value, in_range}

letter_prefix : (c : ℕ) (s : List ℕ) → c ≢ b'0' → skip_prefix 0 (c ∷ s) ≡ (10, c ∷ s)
unfolding skip_prefix
letter_prefix c [] h = ground arith
letter_prefix c (d ∷ s) h = ground arith

zero_in_range : (r : Range) → r.min ≡ 0 → in_range r (pos 0) ≡ some (number 0)
unfolding in_range
zero_in_range r h = ground arith

module _ (c : ℕ) (s : List ℕ) (no_space : isspace c ≡ false) (no_digit : 10 ≤ digit c) where
  not_zero : c ≢ b'0'
  unfolding digit
  not_zero h = ground arith

  strtol-letters : c ≢ b'-' → c ≢ b'+' → strtol 0 (c ∷ s) ≡ (pos 0, c ∷ s)
  unfolding strtol
  strtol-letters minus plus =
      let spaces : skip_spaces (c ∷ s) ≡ c ∷ s = unfold skip_spaces in rw no_space refl in
      let sign : skip_sign (c ∷ s) ≡ (false, c ∷ s) = unfold skip_sign in ground arith in
      let start : starts_digit 10 (c ∷ s) ≡ false = unfold starts_digit in ground arith in
      rw (spaces, sign, letter_prefix c s not_zero, start) refl

  -- For a row of numbers whose range starts at zero, a value whose first character is no space, sign or
  -- digit is read as the number zero.
  pub read_value-letters :
      (idx : ℕ) (r : Range)
      → idx < 5
      → r.min ≡ 0
      → c ≢ b'-'
      → c ≢ b'+'
      → read_value idx r (c ∷ s) ≡ some (number 0)
  unfolding read_value
  read_value-letters idx r small zero_min minus plus =
      let not_text : (idx == 6) ≡ false = ground arith in
      let not_mac : (idx == 7 || idx == 8) ≡ false = ground arith in
      let not_transport : (idx == 5) ≡ false = ground arith in
      rw (not_text, not_mac, not_transport, strtol-letters minus plus) (zero_in_range r zero_min)
