-- ===== src/Config/Getters.antt =====
-- What the getters of cfg.cpp return after a file is read: the newest assignment for the section, else
-- the newest for "global", else the default, and numbers in their ranges.
use libpmc.Base.{
  ℕ, zero, suc, ◌-◌, ◌<◌, ◌≡◌, refl, ap, ◌∙◌, subst, Bool, ◌&&◌, ◌||◌, not, List, [], ◌∷◌, map,
  Option, none, some, ◌==◌, length, if◌then◌else◌, arith, Bool-cases, inl, inr,
}
use libpmc.Text.{same, codes, fgets_lines, strtol, c_string, tokens}
use libpmc.Text.Same.{same_refl}
use libpmc.Binary.{from_mac}
use libpmc.Config.{
  fresh_section, set_global, Value, number, text, octets, Outcome, done, fault, global_section,
  transport_specific_val, domain_number_val, udp6_scope_val, udp_ttl_val, socket_priority_val,
  network_transport_val, ptp_dst_mac_val, p2p_dst_mac_val,
}
use libpmc.Config.Values.{WellTyped}
use libpmc.Config.File.{
  ConfigFile, cfg_global, Sections, section_of, is_global, buffer_line, read_loop, new_config,
  config_of, buf_size, get, get_str, get_bin, transport_specific, domain_number, udp6_scope,
  udp_ttl, socket_priority, network_transport, uds_address, ptp_dst_mac, p2p_dst_mac,
  default_sections,
}
use libpmc.Config.Journal.{
  Journal, entries, newest, own, number_or, text_or, octets_or, default_number, effective_number,
  effective_text, effective_octets,
}
use libpmc.Config.Stored.{Holds, has, initial, default_sections-Stored}
use libpmc.Config.Refines.{Typed, Kept, Agree, read_lines-Agree}

abbrev pub ptp_default : List ℕ
ptp_default = 0x01 ∷ 0x1b ∷ 0x19 ∷ 0 ∷ 0 ∷ 0 ∷ []

abbrev pub p2p_default : List ℕ
p2p_default = 0x01 ∷ 0x80 ∷ 0xc2 ∷ 0 ∷ 0 ∷ 0x0e ∷ []

-- What newest finds is of the kind of its index.
pub newest-WellTyped :
    (name : List ℕ) (idx : ℕ) (j : Journal) (v : Value)
    → Typed j
    → newest name idx j ≡ some v
    → WellTyped idx v
newest-WellTyped name idx [] v ok e = cc
newest-WellTyped name idx ((n, i, w) ∷ j) v ok e = elim (Bool-cases (same n name && i == idx)) [
  | inr skip ↦ newest-WellTyped name idx j v ok.1 (ground arith)
  | inl hit ↦
      let there : i ≡ idx = ground arith in
      let found : w ≡ v = ground arith in
      subst (λ x. WellTyped idx x) found (subst (λ k. WellTyped k w) there ok.0)
]

is_global_lem :
    (idx : ℕ) (section : List ℕ) (c : ConfigFile)
    → is_global idx section c
      ≡ (length section == 0 || not ((section_of section c.cfg_sec).m_set idx))
unfolding is_global fresh_section
is_global_lem idx section c = ground arith

global-initial : initial global_section ≡ set_global fresh_section
global-initial = rw (same_refl global_section) refl

default_lem :
    (idx : ℕ) → idx < 6 → (set_global fresh_section).m_vals idx ≡ some (default_number idx)
unfolding set_global
default_lem zero h = refl
default_lem (suc zero) h = refl
default_lem (suc (suc zero)) h = refl
default_lem (suc (suc (suc zero))) h = refl
default_lem (suc (suc (suc (suc zero)))) h = refl
default_lem (suc (suc (suc (suc (suc zero))))) h = refl
default_lem (suc (suc (suc (suc (suc (suc n)))))) h = absurd (omega arith)

-- A getter's choice, on the newest assignment for the section.
chosen_number :
    (empty : Bool) (d : Option ℕ) (g : Option ℕ) (s : Option ℕ) (o : Option Value) (idx : ℕ)
    → idx < 6
    → ((v : Value) → o ≡ some v → WellTyped idx v)
    → s ≡ number_or d o
    → (if empty || not (has o) then g else s) ≡ number_or g (if empty then none else o)
chosen_number empty d g s none idx small ok e = ground arith
chosen_number empty d g s (some (number n)) idx small ok e = ground arith
chosen_number empty d g s (some (text t)) idx small ok e = absurd (omega (arith, ok (text t) refl))
chosen_number empty d g s (some (octets b)) idx small ok e =
    absurd (omega (arith, ok (octets b) refl))

chosen_text :
    (empty : Bool) (d g s : List ℕ) (o : Option Value)
    → ((v : Value) → o ≡ some v → WellTyped 6 v)
    → s ≡ text_or d o
    → (if empty || not (has o) then g else s) ≡ text_or g (if empty then none else o)
chosen_text empty d g s none ok e = ground arith
chosen_text empty d g s (some (text t)) ok e = ground arith
chosen_text empty d g s (some (number n)) ok e = absurd (omega (arith, ok (number n) refl))
chosen_text empty d g s (some (octets b)) ok e = absurd (omega (arith, ok (octets b) refl))

chosen_octets :
    (empty : Bool) (d g s : List ℕ) (o : Option Value) (idx : ℕ)
    → 6 < idx
    → ((v : Value) → o ≡ some v → WellTyped idx v)
    → s ≡ octets_or d o
    → (if empty || not (has o) then g else s) ≡ octets_or g (if empty then none else o)
chosen_octets empty d g s none idx big ok e = ground arith
chosen_octets empty d g s (some (octets b)) idx big ok e = ground arith
chosen_octets empty d g s (some (number n)) idx big ok e =
    absurd (omega (arith, ok (number n) refl))
chosen_octets empty d g s (some (text t)) idx big ok e = absurd (omega (arith, ok (text t) refl))

default_text : (set_global fresh_section).m_str_vals 0 ≡ codes "/var/run/ptp4l"
unfolding set_global
default_text = refl

default_octets :
    ((set_global fresh_section).m_bin_vals 0 ≡ ptp_default)
    × ((set_global fresh_section).m_bin_vals 1 ≡ p2p_default)
unfolding set_global from_mac fresh_section strtol c_string tokens
default_octets = (refl, refl)

-- Every getter returns what the assignments say.
abbrev pub Shows : ConfigFile → Journal → Type 0
Shows c j =
    (section : List ℕ)
    → (transport_specific section c ≡ effective_number transport_specific_val section j)
      × (domain_number section c ≡ effective_number domain_number_val section j)
      × (udp6_scope section c ≡ effective_number udp6_scope_val section j)
      × (udp_ttl section c ≡ effective_number udp_ttl_val section j)
      × (socket_priority section c ≡ effective_number socket_priority_val section j)
      × (network_transport section c ≡ effective_number network_transport_val section j)
      × (uds_address section c ≡ effective_text section j)
      × (ptp_dst_mac section c ≡ effective_octets ptp_dst_mac_val ptp_default section j)
      × (p2p_dst_mac section c ≡ effective_octets p2p_dst_mac_val p2p_default section j)

module _ (c : ConfigFile) (j : Journal) (h : Kept c.cfg_sec j) where
  abbrev global_holds :
      Holds (set_global fresh_section) (cfg_global c) (λ k. newest global_section k j)
  global_holds =
      subst (λ first. Holds first (cfg_global c) (λ k. newest global_section k j)) global-initial
        (h.0 global_section)

  newest_kind :
      (section : List ℕ) (idx : ℕ) (v : Value) → newest section idx j ≡ some v → WellTyped idx v
  newest_kind section idx v e = newest-WellTyped section idx j v h.1 e

  pub get-effective :
      (idx : ℕ) (section : List ℕ) → idx < 6 → get idx section c ≡ effective_number idx section j
  unfolding get
  get-effective idx section small =
      let default = default_lem idx small in
      rw (is_global_lem idx section c, (h.0 section).flags idx)
        (chosen_number (length section == 0) _ _ _ (newest section idx j) idx small
            (newest_kind section idx) ((h.0 section).numbers idx small)
          ∙ ap (λ g. number_or g (own section idx j))
              (global_holds.numbers idx small
                ∙ ap (λ d. number_or d (newest global_section idx j)) default))

  uds_address-effective : (section : List ℕ) → uds_address section c ≡ effective_text section j
  unfolding uds_address get_str
  uds_address-effective section =
      rw (is_global_lem 6 section c, (h.0 section).flags 6)
        (chosen_text (length section == 0) _ _ _ (newest section 6 j) (newest_kind section 6)
            (h.0 section).texts
          ∙ ap (λ g. text_or g (own section 6 j))
              (global_holds.texts ∙ ap (λ d. text_or d (newest global_section 6 j)) default_text))

  get_bin-effective :
      (idx : ℕ) (default : List ℕ) (section : List ℕ)
      → 6 < idx
      → idx < 9
      → (set_global fresh_section).m_bin_vals (idx - 7) ≡ default
      → get_bin idx section c ≡ effective_octets idx default section j
  unfolding get_bin
  get_bin-effective idx default section lo hi e =
      rw (is_global_lem idx section c, (h.0 section).flags idx)
        (chosen_octets (length section == 0) _ _ _ (newest section idx j) idx lo
            (newest_kind section idx) ((h.0 section).macs idx lo hi)
          ∙ ap (λ g. octets_or g (own section idx j))
              (global_holds.macs idx lo hi ∙ ap (λ d. octets_or d (newest global_section idx j)) e))

  kept-Shows : Shows c j
  unfolding transport_specific domain_number udp6_scope udp_ttl socket_priority network_transport
      ptp_dst_mac p2p_dst_mac
  kept-Shows section = (
    get-effective 0 section (omega arith),
    get-effective 1 section (omega arith),
    get-effective 2 section (omega arith),
    get-effective 3 section (omega arith),
    get-effective 4 section (omega arith),
    get-effective 5 section (omega arith),
    uds_address-effective section,
    get_bin-effective 7 ptp_default section (omega arith) (omega arith) default_octets.0,
    get_bin-effective 8 p2p_default section (omega arith) (omega arith) default_octets.1,
  )

-- The two ways of reading a file agree: both leave the defined behaviour, or both give the same result
-- and the getters of the one return what the assignments of the other say.
abbrev pub Implements : Outcome ConfigFile → Outcome Journal → Type 0
Implements fault fault = Unit {0}
Implements fault (done j b) = ⊥
Implements (done c a) fault = ⊥
Implements (done c a) (done j b) = (a ≡ b) × Shows c j

config_of-Implements :
    (o : Outcome Sections) (p : Outcome Journal) → Agree o p → Implements (config_of o) p
unfolding config_of
config_of-Implements fault fault h = tt
config_of-Implements fault (done j b) h = h
config_of-Implements (done secs a) fault h = h
config_of-Implements (done secs a) (done j b) h =
    (h.0, kept-Shows (record { cfg_sec = secs }) j h.1)

-- The loop of read_cfg over a file, whatever its octets, run on the configuration that the constructor
-- makes, implements the assignments of the file's lines: it fails on the same line or runs past a line
-- on the same line, and after it each of the nine getters returns, for every section name, the newest
-- assignment for that section, else the newest for "global", else the default, those before a wrong
-- line included.
pub read_loop-Implements :
    (file : List ℕ)
    → Implements
        (read_loop file new_config)
        (entries global_section [] (map buffer_line (fgets_lines buf_size file)))
unfolding read_loop new_config
read_loop-Implements file = config_of-Implements _ _ (
    read_lines-Agree (fgets_lines buf_size file) global_section default_sections []
      (default_sections-Stored, tt))
