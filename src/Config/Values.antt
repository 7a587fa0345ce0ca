-- ===== src/Config/Values.antt =====
-- What a line of the configuration file can assign, cfg.cpp's set_val: the kind of value that its index
-- stores, in the range of the index.
use libpmc.Base.{
  ℕ, ◌+◌, ◌≤◌, ◌<◌, ◌≡◌, refl, Bool, true, ◌&&◌, ◌||◌, List, [], ◌∷◌, Option, none, some, leb, ◌==◌,
  length, if◌then◌else◌, if_rule, arith,
}
use libpmc.Base.Int.{ℤ, pos, negsuc}
use libpmc.Text.{same, strtol, skip_spaces, codes}
use libpmc.Binary.{from_mac}
use libpmc.Config.{
  Range, ranges, Value, number, text, octets, Setting, overrun, unknown, wrong, assign, in_range,
  transport_value, read_value, find_range, assign_or_wrong, value_setting, key_setting,
  line_setting, setting, split_key, starts_with, strip_end_spaces,
}

-- The documented range of each number.
abbrev pub allowed : ℕ → ℕ → Bool
allowed idx n =
    if idx == 0
    then leb n 15
    else if idx == 1
    then leb n 239
    else if idx == 2
    then leb n 15
    else if idx == 3
    then leb 1 n && leb n 255
    else if idx == 4
    then leb n 15
    else n == b'4' || n == b'6' || n == b'2'

-- A value of the kind that is stored under the index, numbers in their range.
abbrev pub WellTyped : ℕ → Value → Type 0
WellTyped idx (number n) = (idx < 6) × (allowed idx n ≡ true)
WellTyped idx (text t) = idx ≡ 6
WellTyped idx (octets b) = (6 < idx) × (idx < 9)

-- What an optional value ensures when there is one.
abbrev When : (Value → Type 0) → Option Value → Type 0
When P none = Unit {0}
When P (some v) = P v

in_range-When :
    (P : Value → Type 0) (r : Range) (z : ℤ)
    → ((n : ℕ) → r.min ≤ n → n ≤ r.max → P (number n))
    → When P (in_range r z)
unfolding in_range
in_range-When P r (negsuc n) ok = tt
in_range-When P r (pos n) ok =
    if_rule (When P) (leb r.min n && leb n r.max) (λ e. ok n (ground arith) (ground arith))
      (λ e. tt)

transport_value-When : (val : List ℕ) → When (WellTyped 5) (transport_value val)
unfolding transport_value
transport_value-When val =
    if_rule (When (WellTyped 5)) (same val (codes "UDPv4")) (λ e. (omega arith, refl))
      (λ e.
        if_rule (When (WellTyped 5)) (same val (codes "UDPv6")) (λ e. (omega arith, refl))
          (λ e.
            if_rule (When (WellTyped 5)) (same val (codes "L2")) (λ e. (omega arith, refl))
              (λ e. tt)))

-- Whatever the text, the value that a row reads is of its index's kind.
abbrev RowReads : ℕ → Range → Type 0
RowReads idx r = (val : List ℕ) → When (WellTyped idx) (read_value idx r val)

abbrev RowsRead : ℕ → List Range → Type 0
RowsRead i [] = Unit {0}
RowsRead i (r ∷ rs) = RowReads i r × RowsRead (i + 1) rs

text_row : (r : Range) → RowReads 6 r
unfolding read_value
text_row r val =
    if_rule (When (WellTyped 6)) (starts_with b'/' val && leb 2 (length val)) (λ e. refl) (λ e. tt)

ptp_row : (r : Range) → RowReads 7 r
unfolding read_value
ptp_row r val =
    if_rule (When (WellTyped 7)) (from_mac val []).1 (λ e. (omega arith, omega arith)) (λ e. tt)

p2p_row : (r : Range) → RowReads 8 r
unfolding read_value
p2p_row r val =
    if_rule (When (WellTyped 8)) (from_mac val []).1 (λ e. (omega arith, omega arith)) (λ e. tt)

number_row :
    (idx : ℕ) (r : Range)
    → idx < 5
    → ((n : ℕ) → r.min ≤ n → n ≤ r.max → allowed idx n ≡ true)
    → RowReads idx r
unfolding read_value
number_row idx r small ok val =
    if_rule (When (WellTyped idx)) (idx == 6) (λ e. absurd (ground arith))
      (λ e.
        if_rule (When (WellTyped idx)) (idx == 7 || idx == 8) (λ f. absurd (ground arith))
          (λ f.
            if_rule (When (WellTyped idx)) (idx == 5) (λ g. absurd (ground arith))
              (λ g.
                in_range-When (WellTyped idx) r (strtol 0 val).0
                  (λ n lo hi. (omega arith, ok n lo hi)))))

rows_read : RowsRead 0 ranges
unfolding ranges
rows_read = (
  number_row 0 _ (omega arith) (λ n lo hi. ground arith),
  (
    number_row 1 _ (omega arith) (λ n lo hi. ground arith),
    (
      number_row 2 _ (omega arith) (λ n lo hi. ground arith),
      (
        number_row 3 _ (omega arith) (λ n lo hi. ground arith),
        (
          number_row 4 _ (omega arith) (λ n lo hi. ground arith),
          (unfold read_value in transport_value-When, (text_row _, (ptp_row _, (p2p_row _, tt)))),
        ),
      ),
    ),
  ),
)

-- What a setting ensures when it assigns.
abbrev pub Assigns : (ℕ → Value → Type 0) → Setting → Type 0
Assigns P overrun = Unit {0}
Assigns P unknown = Unit {0}
Assigns P wrong = Unit {0}
Assigns P (assign idx v) = P idx v

assign_or_wrong-WellTyped :
    (idx : ℕ) (o : Option Value)
    → When (WellTyped idx) o
    → Assigns WellTyped (assign_or_wrong idx o)
unfolding assign_or_wrong
assign_or_wrong-WellTyped idx none ok = tt
assign_or_wrong-WellTyped idx (some v) ok = ok

value_setting-WellTyped :
    (idx : ℕ) (r : Range) (val : List ℕ)
    → RowReads idx r
    → Assigns WellTyped (value_setting idx r val)
unfolding value_setting
value_setting-WellTyped idx r val ok =
    if_rule (Assigns WellTyped) (length val == 0) (λ e. tt)
      (λ e. assign_or_wrong-WellTyped idx (read_value idx r val) (ok val))

found-WellTyped :
    (key val : List ℕ) (i : ℕ) (rs : List Range)
    → RowsRead i rs
    → Assigns WellTyped (key_setting (find_range key i rs) val)
unfolding find_range key_setting
found-WellTyped key val i [] ok = tt
found-WellTyped key val i (r ∷ rs) ok =
    if_rule (λ o. Assigns WellTyped (key_setting o val)) (same key r.name)
      (λ e. value_setting-WellTyped i r (strip_end_spaces (skip_spaces val)) ok.0)
      (λ e. found-WellTyped key val (i + 1) rs ok.1)

line_setting-WellTyped : (parts : Option (List ℕ × List ℕ)) → Assigns WellTyped (line_setting parts)
unfolding line_setting
line_setting-WellTyped none = tt
line_setting-WellTyped (some (key, val)) = found-WellTyped key val 0 ranges rows_read

-- Whatever the line, a value that it assigns is of the kind of its index, and in range when a number.
pub setting-WellTyped : (line : List ℕ) → Assigns WellTyped (setting line)
unfolding setting
setting-WellTyped line = line_setting-WellTyped (split_key line)
