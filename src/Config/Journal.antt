-- ===== src/Config/Journal.antt =====
-- What a configuration file says, with no sections, arrays or flags: the list of its assignments, newest
-- first. A getter answers with the newest assignment for the section, else with the newest one for the
-- section "global", else with the default.
use libpmc.Base.{
  ℕ, true, false, ◌&&◌, List, [], ◌∷◌, Option, none, some, ◌==◌, if◌then◌else◌, length,
}
use libpmc.Text.{same, codes}
use libpmc.Config.{
  Value, number, text, octets, Setting, overrun, unknown, wrong, assign, setting, Outcome, done,
  fault, and_then, global_section,
}
use libpmc.Config.File.{Line, section_named, no_bracket, nothing, key}

abbrev pub Journal : Type 0
Journal = List (List ℕ × ℕ × Value)

abbrev pub newest : List ℕ → ℕ → Journal → Option Value
newest name idx [] = none
newest name idx ((n, i, v) ∷ j) = if same n name && i == idx then some v else newest name idx j

unfoldable pub noted : List ℕ → Journal → Setting → Outcome Journal
noted cur j overrun = fault
noted cur j unknown = done j true
noted cur j wrong = done j false
noted cur j (assign idx v) = done ((cur, idx, v) ∷ j) true

-- The assignments of the lines onto those of `j`, up to the first wrong line.
unfoldable pub entries : List ℕ → Journal → List Line → Outcome Journal
unfolding noted and_then
entries cur j [] = done j true
entries cur j (section_named name ∷ lines) = entries name j lines
entries cur j (no_bracket ∷ lines) = done j false
entries cur j (nothing ∷ lines) = entries cur j lines
entries cur j (key line ∷ lines) =
    and_then (noted cur j (setting line)) (λ j'. entries cur j' lines) (λ j'. j')

abbrev pub number_or : Option ℕ → Option Value → Option ℕ
number_or d none = d
number_or d (some (number n)) = some n
number_or d (some (text t)) = d
number_or d (some (octets b)) = d

abbrev pub text_or : List ℕ → Option Value → List ℕ
text_or d none = d
text_or d (some (number n)) = d
text_or d (some (text t)) = t
text_or d (some (octets b)) = d

abbrev pub octets_or : List ℕ → Option Value → List ℕ
octets_or d none = d
octets_or d (some (number n)) = d
octets_or d (some (text t)) = d
octets_or d (some (octets b)) = b

-- The newest assignment for a section; the empty name stands for no section.
abbrev pub own : List ℕ → ℕ → Journal → Option Value
own section idx j = if length section == 0 then none else newest section idx j

abbrev pub default_number : ℕ → ℕ
default_number idx = if idx == 2 then 14 else if idx == 3 then 1 else if idx == 5 then b'4' else 0

abbrev pub effective_number : ℕ → List ℕ → Journal → Option ℕ
effective_number idx section j =
    number_or (number_or (some (default_number idx)) (newest global_section idx j))
      (own section idx j)

abbrev pub effective_text : List ℕ → Journal → List ℕ
effective_text section j =
    text_or (text_or (codes "/var/run/ptp4l") (newest global_section 6 j)) (own section 6 j)

abbrev pub effective_octets : ℕ → List ℕ → List ℕ → Journal → List ℕ
effective_octets idx default section j =
    octets_or (octets_or default (newest global_section idx j)) (own section idx j)
