-- ===== src/Binary.antt =====
-- Octets of variable length, bin.h and bin.cpp: class Binary, whose only state `m_str` is the list of
-- octets here. An operation that may refuse returns the value after the call and its result.
pub mod Octets
pub mod Parsed
pub mod RoundTrip
use libpmc.Base.{
  ℕ, zero, suc, ◌+◌, ◌-◌, ◌/◌, ◌%◌, ◌^◌, ◌≡◌, refl, Bool, true, false, ◌&&◌, ◌||◌, List, [], ◌∷◌,
  ◌++◌, Option, none, some, ltb, leb, ◌==◌, if◌then◌else◌, length, get_elem?, take, drop, replicate,
}
use libpmc.Base.Int.{ℤ, pos, negsuc}
use libpmc.Text.{c_string, strtol, tokens, hex_digit}

abbrev pub eui48 : ℕ
eui48 = 6

abbrev pub eui64 : ℕ
eui64 = 8

-- m_str = the new value, when there is one.
abbrev pub assigned : List ℕ → Option (List ℕ) → List ℕ × Bool
assigned m_str none = (m_str, false)
assigned m_str (some v) = (v, true)

-- m_str.resize(length): cut, or filled with NUL octets.
unfoldable pub resize : ℕ → List ℕ → List ℕ
resize len m_str = take len m_str ++ replicate (len - length m_str) 0

-- m_str[position] = value, in range
unfoldable pub put : ℕ → ℕ → List ℕ → List ℕ
put position value [] = []
put zero value (x ∷ xs) = value ∷ xs
put (suc position) value (x ∷ xs) = x ∷ put position value xs

unfoldable pub set_bin : ℕ → ℕ → List ℕ → List ℕ
unfolding resize put
set_bin position value m_str =
    put position value (if leb (length m_str) position then resize (position + 1) m_str else m_str)

unfoldable pub octet_or_zero : Option ℕ → ℕ
octet_or_zero none = 0
octet_or_zero (some x) = x

unfoldable pub get_bin : ℕ → List ℕ → ℕ
unfolding octet_or_zero
get_bin position m_str =
    if leb (length m_str) position then 0 else octet_or_zero (get_elem? m_str position)

unfoldable pub append_octet : List ℕ → ℕ → List ℕ
append_octet m_str octet = m_str ++ octet ∷ []

unfoldable pub append : List ℕ → List ℕ → List ℕ
append m_str rhs = m_str ++ rhs

-- inet_ntop and inet_pton of the C library, for the two families: AF_INET with 4 octets, AF_INET6
-- with 16. `inet_pton` returns the octets when it returns 1.
pub data Domain : Type 0 where
  ipv4 : Domain
  ipv6 : Domain
  other_domain : Domain

abbrev pub domain_size : Domain → Option ℕ
domain_size ipv4 = some 4
domain_size ipv6 = some 16
domain_size other_domain = none

pub record Inet : Type 0 where
  pub inet_ntop : Domain → List ℕ → Option (List ℕ)
  pub inet_pton : Domain → List ℕ → Option (List ℕ)

text_or_empty : Option (List ℕ) → List ℕ
text_or_empty none = []
text_or_empty (some s) = s

unfoldable pub to_ip : Inet → List ℕ → List ℕ
unfolding text_or_empty
to_ip inet m_str =
    if length m_str == 4
    then text_or_empty (inet.inet_ntop ipv4 m_str)
    else if length m_str == 16
    then text_or_empty (inet.inet_ntop ipv6 m_str)
    else []

-- The buffer has the size of the family: `len` octets of it are taken.
unfoldable pub ip_octets : Inet → Domain → List ℕ → Option (List ℕ)
ip_octets inet domain string = if ltb (length string) 2 then none else elim (domain_size domain) [
  | none ↦ none
  | some len ↦ elim (inet.inet_pton domain (c_string string)) [
    | none ↦ none
    | some a ↦ some (take len a)
  ]
]

unfoldable pub from_ip_domain : Inet → List ℕ → Domain → List ℕ → List ℕ × Bool
unfolding ip_octets
from_ip_domain inet string domain m_str = assigned m_str (ip_octets inet domain string)

unfoldable pub has_octet : ℕ → List ℕ → Bool
has_octet x [] = false
has_octet x (c ∷ s) = c == x || has_octet x s

unfoldable pub domain_of : List ℕ → Domain
unfolding has_octet
domain_of string =
    if has_octet b'.' string then ipv4 else if has_octet b':' string then ipv6 else other_domain

unfoldable pub from_ip : Inet → List ℕ → List ℕ → List ℕ × Bool
unfolding from_ip_domain domain_of
from_ip inet string m_str =
    if ltb (length string) 2
    then (m_str, false)
    else from_ip_domain inet string (domain_of string) m_str

-- The octet of a number that fits one.
unfoldable pub octet_value : ℤ → Option ℕ
octet_value (negsuc n) = none
octet_value (pos n) = if leb n 0xff then some n else none

unfoldable pub prepend : Option ℕ → Option (List ℕ) → Option (List ℕ)
prepend (some a) (some rest) = some (a ∷ rest)
prepend (some a) none = none
prepend none rest = none

-- One round of fromId: `end == cur` when nothing is read, `*end != 0` when something is left.
unfoldable pub id_octet : List ℕ → Option ℕ
unfolding octet_value
id_octet cur =
    let read = strtol 16 cur in
    if length read.1 == length cur || ltb 0 (length read.1) then none else octet_value read.0

-- The rounds of fromId over the tokens; the first token that is no octet ends it.
unfoldable pub id_octets : List (List ℕ) → Option (List ℕ)
unfolding prepend id_octet
id_octets [] = some []
id_octets (cur ∷ rest) = prepend (id_octet cur) (id_octets rest)

unfoldable pub parse_id : List ℕ → Option (List ℕ)
unfolding id_octets
parse_id string = if ltb (length string) 2 then none else id_octets (tokens (c_string string))

unfoldable pub from_id : List ℕ → List ℕ → List ℕ × Bool
unfolding parse_id
from_id string m_str = assigned m_str (parse_id string)

unfoldable pub is_mac_len : List ℕ → Bool
is_mac_len m_str = length m_str == eui48 || length m_str == eui64

unfoldable pub from_mac : List ℕ → List ℕ → List ℕ × Bool
unfolding from_id is_mac_len
from_mac string m_str = let done = from_id string m_str in (done.0, done.1 && is_mac_len done.0)

unfoldable pub eui48_to_eui64 : List ℕ → List ℕ × Bool
eui48_to_eui64 m_str =
    if length m_str == eui64
    then (m_str, true)
    else if length m_str == eui48
    then (take 3 m_str ++ 0xff ∷ 0xfe ∷ drop 3 m_str, true)
    else (m_str, false)

-- The octet of the two characters in `nibbles`.
unfoldable pub nibbles_octet : List ℕ → Option ℕ
unfolding octet_value
nibbles_octet nibbles =
    let read = strtol 16 nibbles in if ltb 0 (length read.1) then none else octet_value read.0

-- fromHex within a token, two characters at a time.
unfoldable pub hex_token : List ℕ → Option (List ℕ)
unfolding nibbles_octet prepend
hex_token [] = some []
hex_token (a ∷ []) = prepend (nibbles_octet (a ∷ [])) (some [])
hex_token (a ∷ b ∷ cur) = prepend (nibbles_octet (a ∷ b ∷ [])) (hex_token cur)

unfoldable pub joined : Option (List ℕ) → Option (List ℕ) → Option (List ℕ)
joined (some a) (some rest) = some (a ++ rest)
joined (some a) none = none
joined none rest = none

unfoldable pub hex_octets : List (List ℕ) → Option (List ℕ)
unfolding hex_token joined
hex_octets [] = some []
hex_octets (cur ∷ rest) = joined (hex_token cur) (hex_octets rest)

unfoldable pub parse_hex : List ℕ → Option (List ℕ)
unfolding hex_octets
parse_hex hex = if length hex == 0 then none else hex_octets (tokens (c_string hex))

unfoldable pub from_hex : List ℕ → List ℕ → List ℕ × Bool
unfolding parse_hex
from_hex hex m_str = assigned m_str (parse_hex hex)

-- snprintf("%02x") of an octet
unfoldable pub hex_octet : ℕ → List ℕ
hex_octet x = hex_digit (x / 16) ∷ hex_digit (x % 16) ∷ []

unfoldable pub buf_to_hex : List ℕ → List ℕ
unfolding hex_octet
buf_to_hex [] = []
buf_to_hex (x ∷ bin) = hex_octet x ++ buf_to_hex bin

-- ":%02x" for each octet behind the first.
unfoldable pub id_tail : List ℕ → List ℕ
unfolding hex_octet
id_tail [] = []
id_tail (x ∷ id) = b':' ∷ hex_octet x ++ id_tail id

unfoldable pub buf_to_id : List ℕ → List ℕ
unfolding id_tail
buf_to_id [] = []
buf_to_id (x ∷ id) = hex_octet x ++ id_tail id
