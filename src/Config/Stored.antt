-- ===== src/Config/Stored.antt =====
-- That the sections hold what the assignments say: the relation between the map of cfg.cpp and a list of
-- assignments, kept by every line.
use libpmc.Base.{
  ℕ, ◌-◌, ◌<◌, ◌≡◌, refl, subst, Bool, true, false, List, [], ◌∷◌, Option, none, some, ◌==◌,
  if◌then◌else◌, if_rule, arith, Bool-cases, inl, inr,
}
use libpmc.Text.{same}
use libpmc.Text.Same.{same_iff, same_refl}
use libpmc.Config.{
  ConfigSection, fresh_section, set_global, store, Value, number, text, octets, global_section,
}
use libpmc.Config.Values.{WellTyped}
use libpmc.Config.File.{Sections, find_section, put_section, section_of, default_sections}
use libpmc.Config.Map.{find_section-put_section}
use libpmc.Config.Journal.{Journal, newest, number_or, text_or, octets_or}

abbrev pub has : Option Value → Bool
has none = false
has (some v) = true

-- A section before any assignment.
abbrev pub initial : List ℕ → ConfigSection
initial name = if same global_section name then set_global fresh_section else fresh_section

-- A section `s`, whose fields before any assignment are those of `first`, after assignments of which
-- `said` gives the newest for each index.
pub record Holds (first s : ConfigSection) (said : ℕ → Option Value) : Type 0 where
  pub flags : (idx : ℕ) → s.m_set idx ≡ has (said idx)
  pub numbers : (idx : ℕ) → idx < 6 → s.m_vals idx ≡ number_or (first.m_vals idx) (said idx)
  pub texts : s.m_str_vals 0 ≡ text_or (first.m_str_vals 0) (said 6)
  pub macs :
      (idx : ℕ)
      → 6 < idx
      → idx < 9
      → s.m_bin_vals (idx - 7) ≡ octets_or (first.m_bin_vals (idx - 7)) (said idx)

abbrev pub said_next : ℕ → Value → (ℕ → Option Value) → ℕ → Option Value
said_next idx v said k = if idx == k then some v else said k

store-Holds :
    (first s : ConfigSection) (said : ℕ → Option Value) (idx : ℕ) (v : Value)
    → WellTyped idx v
    → Holds first s said
    → Holds first (store idx v s) (said_next idx v said)
unfolding store
store-Holds first s said idx (number n) ok h = record {
  flags = λ k. ground (arith, h.flags k);
  numbers = λ k small. ground (arith, h.numbers k small);
  texts = ground (arith, h.texts);
  macs = λ k lo hi. ground (arith, h.macs k lo hi);
}
store-Holds first s said idx (text t) ok h = record {
  flags = λ k. ground (arith, h.flags k);
  numbers = λ k small. ground (arith, h.numbers k small);
  texts = ground (arith, h.texts);
  macs = λ k lo hi. ground (arith, h.macs k lo hi);
}
store-Holds first s said idx (octets b) ok h = record {
  flags = λ k. ground (arith, h.flags k);
  numbers = λ k small. ground (arith, h.numbers k small);
  texts = ground (arith, h.texts);
  macs = λ k lo hi. ground (arith, h.macs k lo hi);
}

abbrev pub Stored : Sections → Journal → Type 0
Stored secs j =
    (name : List ℕ) → Holds (initial name) (section_of name secs) (λ idx. newest name idx j)

section_of-put_section :
    (name other : List ℕ) (s : ConfigSection) (secs : Sections)
    → section_of other (put_section name s secs)
      ≡ (if same name other then s else section_of other secs)
section_of-put_section name other s secs =
    ground (arith, find_section-put_section name other s secs)

newest-same :
    (cur : List ℕ) (idx : ℕ) (v : Value) (j : Journal) (k : ℕ)
    → newest cur k ((cur, idx, v) ∷ j) ≡ said_next idx v (λ i. newest cur i j) k
newest-same cur idx v j k = ground (arith, same_refl cur)

-- An assignment in a section.
pub assign-Stored :
    (cur : List ℕ) (secs : Sections) (j : Journal) (idx : ℕ) (v : Value)
    → WellTyped idx v
    → Stored secs j
    → Stored (put_section cur (store idx v (section_of cur secs)) secs) ((cur, idx, v) ∷ j)
assign-Stored cur secs j idx v ok h name = elim (Bool-cases (same cur name)) [
  | inl e ↦
      let here : cur ≡ name = (same_iff cur name).0 e in
      subst
        (λ n.
          Holds (initial n)
            (section_of n (put_section cur (store idx v (section_of cur secs)) secs))
            (λ k. newest n k ((cur, idx, v) ∷ j)))
        here
        (rw (section_of-put_section cur cur (store idx v (section_of cur secs)) secs, same_refl cur)
          (store-Holds (initial cur) (section_of cur secs) (λ k. newest cur k j) idx v ok (h cur)))
  | inr e ↦
      rw (section_of-put_section cur name (store idx v (section_of cur secs)) secs, e) (h name)
]

-- A line that assigns nothing may make an empty section.
pub touch-Stored :
    (cur : List ℕ) (secs : Sections) (j : Journal)
    → Stored secs j
    → Stored (put_section cur (section_of cur secs) secs) j
touch-Stored cur secs j h name = rw (section_of-put_section cur name (section_of cur secs) secs) (
    if_rule (λ s. Holds (initial name) s (λ k. newest name k j)) (same cur name)
      (λ e.
        subst (λ n. Holds (initial n) (section_of cur secs) (λ k. newest n k j))
          ((same_iff cur name).0 e) (h cur))
      (λ e. h name))

fresh-Holds :
    (first : ConfigSection) → ((idx : ℕ) → first.m_set idx ≡ false) → Holds first first (λ k. none)
fresh-Holds first clear = record {
  flags = clear;
  numbers = λ idx small. refl;
  texts = refl;
  macs = λ idx lo hi. refl;
}

default-Holds :
    (t : Bool)
    → let s : ConfigSection = if t then set_global fresh_section else fresh_section in
      Holds s s (λ k. none)
unfolding set_global fresh_section
default-Holds true = fresh-Holds (set_global fresh_section) (λ idx. refl)
default-Holds false = fresh-Holds fresh_section (λ idx. refl)

pub default_sections-Stored : Stored default_sections []
unfolding default_sections find_section
default_sections-Stored name =
    rw (section_of-put_section global_section name (set_global fresh_section) [])
      (default-Holds (same global_section name))
