-- ===== src/Config.antt =====
-- The configuration file of ptp4l, cfg.h and cfg.cpp: class ConfigSection and class ConfigFile. Texts
-- are octets. An array of a section is a function of the index; an entry of `m_vals` that no call has
-- written yet is none.
pub mod File
pub mod Values
pub mod Map
pub mod Journal
pub mod Stored
pub mod Refines
pub mod Getters
pub mod Limits
pub mod Lines
pub mod Letters
use libpmc.Base.{
  ℕ, zero, suc, ◌+◌, ◌-◌, ◌≡◌, refl, Bool, true, false, ◌&&◌, ◌||◌, not, List, [], ◌∷◌, ◌++◌,
  Option, none, some, ltb, leb, ◌==◌, if◌then◌else◌, length, get_elem?,
}
use libpmc.Base.Int.{ℤ, pos, negsuc}
use libpmc.Text.{codes, same, c_string, isspace, skip_spaces, strtol, fgets_lines}
use libpmc.Binary.{from_mac}

-- The indexes of the values, the source's enum.
abbrev pub transport_specific_val : ℕ
transport_specific_val = 0

abbrev pub domain_number_val : ℕ
domain_number_val = 1

abbrev pub udp6_scope_val : ℕ
udp6_scope_val = 2

abbrev pub udp_ttl_val : ℕ
udp_ttl_val = 3

abbrev pub socket_priority_val : ℕ
socket_priority_val = 4

abbrev pub network_transport_val : ℕ
network_transport_val = 5

abbrev pub uds_address_val : ℕ
uds_address_val = 6

abbrev pub ptp_dst_mac_val : ℕ
ptp_dst_mac_val = 7

abbrev pub p2p_dst_mac_val : ℕ
p2p_dst_mac_val = 8

pub record Range : Type 0 where
  pub name : List ℕ
  pub def : ℕ
  pub min : ℕ
  pub max : ℕ

abbrev row : List ℕ → ℕ → ℕ → ℕ → Range
row name def min max = record { name = name; def = def; min = min; max = max }

-- Same order as the indexes.
unfoldable pub ranges : List Range
ranges =
    row (codes "transportSpecific") 0 0 0xf
    ∷ row (codes "domainNumber") 0 0 239
    ∷ row (codes "udp6_scope") 0xe 0 0xf
    ∷ row (codes "udp_ttl") 1 1 255
    ∷ row (codes "socket_priority") 0 0 15
    ∷ row (codes "network_transport") b'4' b'2' b'6'
    ∷ row (codes "uds_address") 0 0 0
    ∷ row (codes "ptp_dst_mac") 0 0 0
    ∷ row (codes "p2p_dst_mac") 0 0 0
    ∷ []

unfoldable pub ptp_dst_mac_def : List ℕ
ptp_dst_mac_def = codes "1:1b:19:0:0:0"

unfoldable pub p2p_dst_mac_def : List ℕ
p2p_dst_mac_def = codes "1:80:c2:0:0:e"

unfoldable pub uds_address_def : List ℕ
uds_address_def = codes "/var/run/ptp4l"

unfoldable pub global_section : List ℕ
global_section = codes "global"

-- ConfigSection; `m_str_vals` and `m_bin_vals` go by the index less their base, as in the source.
pub record ConfigSection : Type 0 where
  pub m_str_vals : ℕ → List ℕ
  pub m_bin_vals : ℕ → List ℕ
  pub m_vals : ℕ → Option ℕ
  pub m_set : ℕ → Bool

unfoldable pub fresh_section : ConfigSection
fresh_section = record {
  m_str_vals = λ _. [];
  m_bin_vals = λ _. [];
  m_vals = λ _. none;
  m_set = λ _. false;
}

abbrev pub update {ℓ} : {A : Type ℓ} → (ℕ → A) → ℕ → A → ℕ → A
update f i v j = if j == i then v else f j

abbrev pub str_base_val : ℕ
str_base_val = uds_address_val

abbrev pub bin_base_val : ℕ
bin_base_val = uds_address_val + 1

abbrev pub val_limit : ℕ
val_limit = uds_address_val

unfoldable pub range_def : Option Range → Option ℕ → Option ℕ
range_def none v = v
range_def (some r) v = some r.def

-- m_vals[i] = ranges[i].def for every i below val_limit
unfoldable pub default_vals : (ℕ → Option ℕ) → ℕ → Option ℕ
unfolding range_def ranges
default_vals m_vals i =
    if ltb i val_limit then range_def (get_elem? ranges i) (m_vals i) else m_vals i

unfoldable pub set_global : ConfigSection → ConfigSection
unfolding default_vals uds_address_def ptp_dst_mac_def p2p_dst_mac_def
set_global s =
    let ptp = (from_mac ptp_dst_mac_def (s.m_bin_vals (ptp_dst_mac_val - bin_base_val))).0 in
    let p2p = (from_mac p2p_dst_mac_def (s.m_bin_vals (p2p_dst_mac_val - bin_base_val))).0 in
    record s {
      m_str_vals = update s.m_str_vals (uds_address_val - str_base_val) uds_address_def;
      m_bin_vals =
          update (update s.m_bin_vals (ptp_dst_mac_val - bin_base_val) ptp)
            (p2p_dst_mac_val - bin_base_val) p2p;
      m_vals = default_vals s.m_vals;
    }

-- strip_end_spaces on a text that starts with no space
unfoldable pub strip_end_spaces : List ℕ → List ℕ
strip_end_spaces [] = []
strip_end_spaces (c ∷ s) =
    let rest = strip_end_spaces s in if isspace c && length rest == 0 then [] else c ∷ rest

-- The text before the first space and the text behind that space; none when there is no space, where
-- the source's scan for it runs on past the end of the text.
unfoldable pub split_key : List ℕ → Option (List ℕ × List ℕ)
split_key [] = none
split_key (c ∷ s) =
    let later = split_key s in
    if isspace c
    then some ([], s)
    else elim later [ none ↦ none | some (key, val) ↦ some (c ∷ key, val) ]

-- The first row of that name, counted from `i`.
unfoldable pub find_range : List ℕ → ℕ → List Range → Option (ℕ × Range)
find_range key i [] = none
find_range key i (r ∷ rs) = if same key r.name then some (i, r) else find_range key (i + 1) rs

-- What set_val stores under an index.
pub data Value : Type 0 where
  number : ℕ → Value
  text : List ℕ → Value
  octets : List ℕ → Value

abbrev pub starts_with : ℕ → List ℕ → Bool
starts_with x [] = false
starts_with x (c ∷ s) = c == x

-- ret >= min && ret <= max
unfoldable pub in_range : Range → ℤ → Option Value
in_range r (negsuc n) = none
in_range r (pos n) = if leb r.min n && leb n r.max then some (number n) else none

unfoldable pub transport_value : List ℕ → Option Value
transport_value val =
    if same val (codes "UDPv4")
    then some (number b'4')
    else if same val (codes "UDPv6")
    then some (number b'6')
    else if same val (codes "L2")
    then some (number b'2')
    else none

-- The switch of set_val.
unfoldable pub read_value : ℕ → Range → List ℕ → Option Value
unfolding in_range transport_value
read_value idx r val =
    if idx == uds_address_val
    then (if starts_with b'/' val && leb 2 (length val) then some (text val) else none)
    else if idx == ptp_dst_mac_val || idx == p2p_dst_mac_val
    then (let id = from_mac val [] in if id.1 then some (octets id.0) else none)
    else if idx == network_transport_val
    then transport_value val
    else in_range r (strtol 0 val).0

-- What a line of set_val asks for.
pub data Setting : Type 0 where
  overrun : Setting
  unknown : Setting
  wrong : Setting
  assign : ℕ → Value → Setting

unfoldable pub assign_or_wrong : ℕ → Option Value → Setting
assign_or_wrong idx none = wrong
assign_or_wrong idx (some v) = assign idx v

unfoldable pub value_setting : ℕ → Range → List ℕ → Setting
unfolding read_value assign_or_wrong
value_setting idx r val =
    if length val == 0 then wrong else assign_or_wrong idx (read_value idx r val)

unfoldable pub key_setting : Option (ℕ × Range) → List ℕ → Setting
unfolding value_setting
key_setting none val = unknown
key_setting (some (idx, r)) val = value_setting idx r (strip_end_spaces (skip_spaces val))

unfoldable pub line_setting : Option (List ℕ × List ℕ) → Setting
unfolding find_range ranges key_setting
line_setting none = overrun
line_setting (some (key, val)) = key_setting (find_range key 0 ranges) val

unfoldable pub setting : List ℕ → Setting
unfolding split_key line_setting
setting line = line_setting (split_key line)

-- The assignment and m_set[idx] = true.
unfoldable pub store : ℕ → Value → ConfigSection → ConfigSection
store idx (number n) s = record s {
  m_vals = update s.m_vals idx (some n);
  m_set = update s.m_set idx true;
}
store idx (text t) s = record s {
  m_str_vals = update s.m_str_vals (idx - str_base_val) t;
  m_set = update s.m_set idx true;
}
store idx (octets b) s = record s {
  m_bin_vals = update s.m_bin_vals (idx - bin_base_val) b;
  m_set = update s.m_set idx true;
}

-- The state after a call and its result, or a call that leaves the defined behaviour of the language.
pub data Outcome {ℓ} (A : Type ℓ) : Type ℓ where
  done : A → Bool → Outcome A
  fault : Outcome A

-- A result of true goes on with `next`; one of false ends, with what `last` takes of the state.
unfoldable pub and_then {ℓ κ} :
    {A : Type ℓ} {B : Type κ} → Outcome A → (A → Outcome B) → (A → B) → Outcome B
and_then fault next last = fault
and_then (done a true) next last = next a
and_then (done a false) next last = done (last a) false

unfoldable pub apply_setting : Setting → ConfigSection → Outcome ConfigSection
unfolding store
apply_setting overrun s = fault
apply_setting unknown s = done s true
apply_setting wrong s = done s false
apply_setting (assign idx v) s = done (store idx v s) true

unfoldable pub set_val : List ℕ → ConfigSection → Outcome ConfigSection
unfolding setting apply_setting
set_val line s = apply_setting (setting line) s
