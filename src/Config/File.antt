-- ===== src/Config/File.antt =====
-- Reading the file and the getters, cfg.cpp: class ConfigFile. The map `cfgSec` is an association list
-- and the reference `cfgGlobal` its entry of the section "global".
--
-- read_cfg opens the file, clears the map, which destroys the section that the reference names, and then
-- assigns through the reference: from there on the language says nothing of what it does. Its loop over
-- the lines is modelled on its own, from any configuration whose reference is good, such as that of the
-- constructor.
use libpmc.Base.{
  ℕ, ◌-◌, Bool, true, false, ◌&&◌, not, List, [], ◌∷◌, Option, none, some, ◌==◌, if◌then◌else◌,
  length,
}
use libpmc.Text.{same, c_string, skip_spaces, fgets_lines}
use libpmc.Config.{
  ConfigSection, fresh_section, set_global, set_val, Outcome, done, fault, and_then,
  strip_end_spaces, starts_with, global_section, str_base_val, bin_base_val, transport_specific_val,
  domain_number_val, udp6_scope_val, udp_ttl_val, socket_priority_val, network_transport_val,
  uds_address_val, ptp_dst_mac_val, p2p_dst_mac_val,
}

abbrev pub Sections : Type 0
Sections = List (List ℕ × ConfigSection)

-- cfgSec.count(name), and the section if there is one.
unfoldable pub find_section : List ℕ → Sections → Option ConfigSection
find_section name [] = none
find_section name ((n, s) ∷ rest) = if same n name then some s else find_section name rest

abbrev pub section_or_fresh : Option ConfigSection → ConfigSection
section_or_fresh none = fresh_section
section_or_fresh (some s) = s

-- cfgSec[name]
abbrev pub section_of : List ℕ → Sections → ConfigSection
section_of name secs = section_or_fresh (find_section name secs)

-- cfgSec[name] = s
unfoldable pub put_section : List ℕ → ConfigSection → Sections → Sections
put_section name s [] = (name, s) ∷ []
put_section name s ((n, t) ∷ rest) =
    if same n name then (n, s) ∷ rest else (n, t) ∷ put_section name s rest

pub record ConfigFile : Type 0 where
  pub cfg_sec : Sections

abbrev pub cfg_global : ConfigFile → ConfigSection
cfg_global c = section_of global_section c.cfg_sec

-- The map with the section of the defaults.
unfoldable pub default_sections : Sections
default_sections = put_section global_section (set_global fresh_section) []

-- ConfigFile::ConfigFile
unfoldable pub new_config : ConfigFile
unfolding default_sections
new_config = record { cfg_sec = default_sections }

-- The text before the first ']' and the text from there on.
unfoldable pub split_bracket : List ℕ → Option (List ℕ × List ℕ)
split_bracket [] = none
split_bracket (c ∷ s) =
    let later = split_bracket s in
    if c == b']'
    then some ([], c ∷ s)
    else elim later [ none ↦ none | some (name, rest) ↦ some (c ∷ name, rest) ]

-- The name in a section line, `behind` the '['. Where only spaces stand before the ']', the source's
-- strip_end_spaces cuts the line in front of them, and `cur`, behind them, keeps the ']' and what
-- follows.
unfoldable pub bracket_name : List ℕ → List ℕ × List ℕ → List ℕ
unfolding strip_end_spaces
bracket_name behind (name, rest) =
    if length name == 0 && not (starts_with b']' behind) then rest else strip_end_spaces name

pub data Line : Type 0 where
  section_named : List ℕ → Line
  no_bracket : Line
  nothing : Line
  key : List ℕ → Line

unfoldable pub section_line : List ℕ → Option (List ℕ × List ℕ) → Line
unfolding bracket_name
section_line behind none = no_bracket
section_line behind (some parts) = section_named (bracket_name behind parts)

unfoldable pub line_of : List ℕ → Line
unfolding section_line split_bracket
line_of [] = nothing
line_of (c ∷ s) =
    if c == b'['
    then section_line s (split_bracket (skip_spaces s))
    else if c == b'#'
    then nothing
    else key (c ∷ s)

unfoldable pub stored : List ℕ → Sections → Outcome ConfigSection → Outcome (List ℕ × Sections)
stored cur_section secs fault = fault
stored cur_section secs (done s ok) = done (cur_section, put_section cur_section s secs) ok

-- One round of read_cfg's loop: the current section and the sections after it.
unfoldable pub read_line : List ℕ → Sections → Line → Outcome (List ℕ × Sections)
unfolding stored
read_line cur_section secs (section_named name) = done (name, secs) true
read_line cur_section secs no_bracket = done (cur_section, secs) false
read_line cur_section secs nothing = done (cur_section, secs) true
read_line cur_section secs (key line) =
    stored cur_section secs (set_val line (section_of cur_section secs))

-- The buffer that fgets has filled, as read_cfg looks at it.
unfoldable pub buffer_line : List ℕ → Line
unfolding line_of
buffer_line buf = line_of (skip_spaces (c_string buf))

-- The loop of read_cfg over the buffers that fgets fills.
unfoldable pub read_lines : List ℕ → Sections → List (List ℕ) → Outcome Sections
unfolding read_line buffer_line and_then
read_lines cur_section secs [] = done secs true
read_lines cur_section secs (buf ∷ rest) =
    and_then (read_line cur_section secs (buffer_line buf)) (λ p. read_lines p.0 p.1 rest)
      (λ p. p.1)

-- char buf[512], less the NUL
abbrev pub buf_size : ℕ
buf_size = 511

unfoldable pub config_of : Outcome Sections → Outcome ConfigFile
config_of fault = fault
config_of (done secs ok) = done (record { cfg_sec = secs }) ok

-- The loop of read_cfg over the octets of a file.
unfoldable pub read_loop : List ℕ → ConfigFile → Outcome ConfigFile
unfolding config_of read_lines
read_loop file c = config_of (read_lines global_section c.cfg_sec (fgets_lines buf_size file))

-- ConfigFile::is_global
unfoldable pub is_global : ℕ → List ℕ → ConfigFile → Bool
is_global idx section c =
    if length section == 0
    then true
    else elim (find_section section c.cfg_sec) [ none ↦ true | some s ↦ not (s.m_set idx) ]

-- ConfigFile::get; none is a read of an entry that was never written
unfoldable pub get : ℕ → List ℕ → ConfigFile → Option ℕ
unfolding is_global
get idx section c =
    if is_global idx section c
    then (cfg_global c).m_vals idx
    else (section_of section c.cfg_sec).m_vals idx

unfoldable pub get_str : ℕ → List ℕ → ConfigFile → List ℕ
unfolding is_global
get_str idx section c =
    if is_global idx section c
    then (cfg_global c).m_str_vals (idx - str_base_val)
    else (section_of section c.cfg_sec).m_str_vals (idx - str_base_val)

unfoldable pub get_bin : ℕ → List ℕ → ConfigFile → List ℕ
unfolding is_global
get_bin idx section c =
    if is_global idx section c
    then (cfg_global c).m_bin_vals (idx - bin_base_val)
    else (section_of section c.cfg_sec).m_bin_vals (idx - bin_base_val)

unfoldable pub transport_specific : List ℕ → ConfigFile → Option ℕ
transport_specific = get transport_specific_val

unfoldable pub domain_number : List ℕ → ConfigFile → Option ℕ
domain_number = get domain_number_val

unfoldable pub udp6_scope : List ℕ → ConfigFile → Option ℕ
udp6_scope = get udp6_scope_val

unfoldable pub udp_ttl : List ℕ → ConfigFile → Option ℕ
udp_ttl = get udp_ttl_val

unfoldable pub socket_priority : List ℕ → ConfigFile → Option ℕ
socket_priority = get socket_priority_val

unfoldable pub network_transport : List ℕ → ConfigFile → Option ℕ
network_transport = get network_transport_val

unfoldable pub uds_address : List ℕ → ConfigFile → List ℕ
uds_address = get_str uds_address_val

unfoldable pub ptp_dst_mac : List ℕ → ConfigFile → List ℕ
ptp_dst_mac = get_bin ptp_dst_mac_val

unfoldable pub p2p_dst_mac : List ℕ → ConfigFile → List ℕ
p2p_dst_mac = get_bin p2p_dst_mac_val
