-- ===== src/Config/Lines.antt =====
-- That the scans of cfg.cpp stay inside the line, for a file of lines that end and fit the buffer.
use libpmc.Base.{
  ℕ, ◌-◌, ◌≤◌, ◌≡◌, refl, sym, subst, Bool, true, false, ◌&&◌, ◌||◌, List, [], ◌∷◌, Option, none,
  some, ◌==◌, leb, length, if◌then◌else◌, if_rule, arith, All, Bool-cases, inl, inr, ◌≢◌,
}
use libpmc.Text.{c_string, isspace, skip_spaces, newline, keep_token, split_lines, fgets_lines}
use libpmc.Config.{
  ConfigSection, strip_end_spaces, read_value, Setting, overrun, unknown, wrong, assign, split_key,
  line_setting, key_setting, value_setting, assign_or_wrong, setting, set_val, apply_setting,
  Outcome, done, fault, and_then, global_section, Value, find_range, ranges, Range,
}
use libpmc.Config.File.{
  ConfigFile, Sections, Line, section_named, no_bracket, nothing, key, section_line, line_of,
  split_bracket, stored, read_line, read_lines, buffer_line, config_of, read_loop, buf_size,
}

-- A text that is empty or ends in a newline.
abbrev pub ends : List ℕ → Bool
ends [] = true
ends (c ∷ []) = c == newline
ends (c ∷ d ∷ s) = ends (d ∷ s)

-- No NUL, and every line ends in a newline within a buffer of `size` octets, of which `room` are left
-- for the first line.
unfoldable pub fits : ℕ → ℕ → List ℕ → Bool
fits size room [] = room == size
fits size room (c ∷ s) =
    if c == newline then fits size size s else leb 1 c && leb 2 room && fits size (room - 1) s

ends-tail : (c : ℕ) (s : List ℕ) → ends (c ∷ s) ≡ true → ends s ≡ true
ends-tail c [] e = refl
ends-tail c (d ∷ s) e = e

skip_spaces-ends : (s : List ℕ) → ends s ≡ true → ends (skip_spaces s) ≡ true
unfolding skip_spaces
skip_spaces-ends [] e = e
skip_spaces-ends (c ∷ s) e =
    if_rule (λ t. ends t ≡ true) (isspace c) (λ space. skip_spaces-ends s (ends-tail c s e))
      (λ other. e)

-- The scan for the end of the key finds a space.
split_key-found : (c : ℕ) (s : List ℕ) → ends (c ∷ s) ≡ true → split_key (c ∷ s) ≢ none
unfolding split_key
split_key-found c [] e h = ground arith
split_key-found c (d ∷ s) e h = ground (arith, split_key-found d s e)

runs_past : Setting → Bool
runs_past overrun = true
runs_past unknown = false
runs_past wrong = false
runs_past (assign idx v) = false

assign_or_wrong-stays : (idx : ℕ) (o : Option Value) → runs_past (assign_or_wrong idx o) ≡ false
unfolding assign_or_wrong runs_past
assign_or_wrong-stays idx none = refl
assign_or_wrong-stays idx (some v) = refl

key_setting-stays :
    (found : Option (ℕ × Range)) (val : List ℕ) → runs_past (key_setting found val) ≡ false
unfolding key_setting value_setting runs_past
key_setting-stays none val = refl
key_setting-stays (some (idx, r)) val =
    let v : List ℕ = strip_end_spaces (skip_spaces val) in
    if_rule (λ s. runs_past s ≡ false) (length v == 0) {x = wrong}
      {y = assign_or_wrong idx (read_value idx r v)} (λ e. refl)
      (λ e. assign_or_wrong-stays idx (read_value idx r v))

line_setting-stays :
    (parts : Option (List ℕ × List ℕ)) → parts ≢ none → runs_past (line_setting parts) ≡ false
unfolding line_setting
line_setting-stays none h = absurd (h refl)
line_setting-stays (some (name, val)) h = key_setting-stays (find_range name 0 ranges) val

is_fault {ℓ} : {A : Type ℓ} → Outcome A → Bool
is_fault fault = true
is_fault (done a b) = false

apply_setting-stays :
    (st : Setting) (cur : List ℕ) (secs : Sections) (s : ConfigSection)
    → runs_past st ≡ false
    → is_fault (stored cur secs (apply_setting st s)) ≡ false
unfolding apply_setting stored is_fault runs_past
apply_setting-stays overrun cur secs s e = cc
apply_setting-stays unknown cur secs s e = refl
apply_setting-stays wrong cur secs s e = refl
apply_setting-stays (assign idx v) cur secs s e = refl

-- What a look at one line asks of the line: a key line ends.
abbrev LineEnds : Line → Type 0
LineEnds (section_named name) = Unit {0}
LineEnds no_bracket = Unit {0}
LineEnds nothing = Unit {0}
LineEnds (key line) = split_key line ≢ none

section_line-LineEnds :
    (behind : List ℕ) (parts : Option (List ℕ × List ℕ)) → LineEnds (section_line behind parts)
unfolding section_line
section_line-LineEnds behind none = tt
section_line-LineEnds behind (some parts) = tt

line_of-LineEnds : (s : List ℕ) → ends s ≡ true → LineEnds (line_of s)
unfolding line_of
line_of-LineEnds [] e = tt
line_of-LineEnds (c ∷ s) e =
    if_rule LineEnds (c == b'[')
      (λ bracket. section_line-LineEnds s (split_bracket (skip_spaces s)))
      (λ other. if_rule LineEnds (c == b'#') (λ comment. tt) (λ k. split_key-found c s e))

read_line-stays :
    (cur : List ℕ) (secs : Sections) (l : Line)
    → LineEnds l
    → is_fault (read_line cur secs l) ≡ false
unfolding read_line is_fault
read_line-stays cur secs (section_named name) ok = refl
read_line-stays cur secs no_bracket ok = refl
read_line-stays cur secs nothing ok = refl
read_line-stays cur secs (key line) ok =
    unfold set_val setting in
    apply_setting-stays _ cur secs _ (line_setting-stays (split_key line) ok)

-- A buffer without NUL that is empty or ends in a newline.
abbrev Whole : List ℕ → Type 0
Whole b = (ends b ≡ true) × (c_string b ≡ b)

and_then-stays :
    {A B : Type 0} (o : Outcome A) (next : A → Outcome B) (last : A → B)
    → is_fault o ≡ false
    → ((a : A) → is_fault (next a) ≡ false)
    → is_fault (and_then o next last) ≡ false
unfolding and_then is_fault
and_then-stays fault next last e h = cc
and_then-stays (done a true) next last e h = h a
and_then-stays (done a false) next last e h = refl

read_lines-stays :
    (bufs : List (List ℕ))
    → All Whole bufs
    → (cur : List ℕ) (secs : Sections) → is_fault (read_lines cur secs bufs) ≡ false
unfolding read_lines
read_lines-stays [] ok cur secs = unfold is_fault in refl
read_lines-stays (b ∷ bufs) ok cur secs =
    and_then-stays (read_line cur secs (buffer_line b)) _ _
      (read_line-stays cur secs (buffer_line b) (
        unfold buffer_line in
        line_of-LineEnds (skip_spaces (c_string b))
          (skip_spaces-ends (c_string b) (subst (λ t. ends t ≡ true) (sym ok.0.1) ok.0.0))))
      (λ p. read_lines-stays bufs ok.1 p.0 p.1)

keep_token-Whole :
    (b : List ℕ) (bs : List (List ℕ)) → Whole b → All Whole bs → All Whole (keep_token b bs)
keep_token-Whole [] bs h hs = hs
keep_token-Whole (c ∷ b) bs h hs = (h, hs)

ends-cons : (c : ℕ) (l : List ℕ) → l ≢ [] → ends l ≡ true → ends (c ∷ l) ≡ true
ends-cons c [] h e = absurd (h refl)
ends-cons c (d ∷ l) h e = e

cons-Whole : (c : ℕ) (l : List ℕ) → 1 ≤ c → l ≢ [] → Whole l → Whole (c ∷ l)
unfolding c_string
cons-Whole c l pos some_left h = (ends-cons c l some_left h.0, ground (arith, h.1))

split_lines-Whole :
    (size room : ℕ) (s : List ℕ)
    → fits size room s ≡ true
    → room ≤ size
    → (room ≢ size → (split_lines size room s).0 ≢ [])
      × Whole (split_lines size room s).0
      × All Whole (split_lines size room s).1
unfolding split_lines fits c_string
split_lines-Whole size room [] f small = (λ other. absurd (other (ground arith)), (refl, refl), tt)
split_lines-Whole size room (c ∷ s) f small = elim (Bool-cases (c == newline)) [
  | inl e ↦
      let later = split_lines-Whole size size s (ground arith) (omega arith) in
      let stop : (c == newline || room == 1) ≡ true = ground arith in
      rw stop (
        λ other h. absurd (cc h),
        (e, ground arith),
        keep_token-Whole (split_lines size size s).0 (split_lines size size s).1 later.1 later.2,
      )
  | inr e ↦
      let go : (c == newline || room == 1) ≡ false = ground arith in
      let later = split_lines-Whole size (room - 1) s (ground arith) (omega arith) in
      let some_left : (split_lines size (room - 1) s).0 ≢ [] = later.0 (ground arith) in
      rw go (
        λ other h. absurd (cc h),
        cons-Whole c (split_lines size (room - 1) s).0 (ground arith) some_left later.1,
        later.2,
      )
]

fgets_lines-Whole :
    (size : ℕ) (file : List ℕ) → fits size size file ≡ true → All Whole (fgets_lines size file)
unfolding fgets_lines
fgets_lines-Whole size file f =
    let h = split_lines-Whole size size file f (omega arith) in
    keep_token-Whole (split_lines size size file).0 (split_lines size size file).1 h.1 h.2

completed :
    (o : Outcome Sections)
    → is_fault o ≡ false
    → (c : ConfigFile) × (ok : Bool) × (config_of o ≡ done c ok)
unfolding config_of is_fault
completed fault e = cc
completed (done secs ok) e = (record { cfg_sec = secs }, ok, refl)

-- From every configuration whose reference to the section "global" is good, the loop of read_cfg comes
-- to an end with a result on every file without NUL whose lines, the last one too, end in a newline and
-- fit the buffer of 512 octets: no scan of a line runs past the line's end.
pub read_loop-done :
    (file : List ℕ) (old : ConfigFile)
    → fits buf_size buf_size file ≡ true
    → (c : ConfigFile) × (ok : Bool) × (read_loop file old ≡ done c ok)
unfolding read_loop
read_loop-done file old f = completed _ (
    read_lines-stays (fgets_lines buf_size file) (fgets_lines-Whole buf_size file f) global_section
      old.cfg_sec)
