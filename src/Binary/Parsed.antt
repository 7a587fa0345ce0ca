-- ===== src/Binary/Parsed.antt =====
-- What the text conversions of bin.cpp, fromId, fromMac and fromHex, can store: octets only, and
-- nothing when they refuse; fromMac alone keeps a value that it refuses.
use libpmc.Base.{
  ℕ, ◌<◌, ◌≡◌, refl, sym, ap, subst, ◌⊎◌, ◌↔◌, inl, inr, Bool, true, false, ◌&&◌, ◌||◌, List, [],
  ◌∷◌, ◌++◌, Option, none, some, ◌==◌, ltb, length, if◌then◌else◌, arith, Bool-cases,
}
use libpmc.Base.Int.{ℤ, pos, negsuc}
use libpmc.Text.{tokens, c_string, strtol}
use libpmc.Binary.{
  octet_value, id_octet, nibbles_octet, prepend, joined, id_octets, hex_token, hex_octets, parse_id,
  parse_hex, from_id, from_hex, from_mac, is_mac_len, assigned,
}
use libpmc.Binary.RoundTrip.{AreOctets}

octet_value-lt : (v : ℤ) {x : ℕ} → octet_value v ≡ some x → x < 256
unfolding octet_value
octet_value-lt (negsuc n) e = cc
octet_value-lt (pos n) e = ground arith

unless-lt :
    (refused : Bool) (v : ℤ) (x : ℕ) → (if refused then none else octet_value v) ≡ some x → x < 256
unless-lt true v x e = cc
unless-lt false v x e = octet_value-lt v e

id_octet-lt : (cur : List ℕ) (x : ℕ) → id_octet cur ≡ some x → x < 256
unfolding id_octet
id_octet-lt cur x e =
    let read : ℤ × List ℕ = strtol 16 cur in
    unless-lt (length read.1 == length cur || ltb 0 (length read.1)) read.0 x e

nibbles_octet-lt : (nibbles : List ℕ) (x : ℕ) → nibbles_octet nibbles ≡ some x → x < 256
unfolding nibbles_octet
nibbles_octet-lt nibbles x e =
    let read : ℤ × List ℕ = strtol 16 nibbles in unless-lt (ltb 0 (length read.1)) read.0 x e

-- `o` holds only octets, when it holds anything.
abbrev SomeOctets : Option (List ℕ) → Type 0
SomeOctets none = Unit {0}
SomeOctets (some xs) = AreOctets xs

prepend-SomeOctets :
    (o : Option ℕ) (rest : Option (List ℕ))
    → ((x : ℕ) → o ≡ some x → x < 256)
    → SomeOctets rest
    → SomeOctets (prepend o rest)
unfolding prepend
prepend-SomeOctets none rest small ok = tt
prepend-SomeOctets (some x) none small ok = tt
prepend-SomeOctets (some x) (some xs) small ok = (small x refl, ok)

append-AreOctets : (xs ys : List ℕ) → AreOctets xs → AreOctets ys → AreOctets (xs ++ ys)
append-AreOctets [] ys p q = q
append-AreOctets (x ∷ xs) ys p q = (p.0, append-AreOctets xs ys p.1 q)

joined-SomeOctets :
    (o rest : Option (List ℕ)) → SomeOctets o → SomeOctets rest → SomeOctets (joined o rest)
unfolding joined
joined-SomeOctets none rest p q = tt
joined-SomeOctets (some xs) none p q = tt
joined-SomeOctets (some xs) (some ys) p q = append-AreOctets xs ys p q

id_octets-SomeOctets : (l : List (List ℕ)) → SomeOctets (id_octets l)
unfolding id_octets
id_octets-SomeOctets [] = tt
id_octets-SomeOctets (cur ∷ l) =
    prepend-SomeOctets (id_octet cur) (id_octets l) (id_octet-lt cur) (id_octets-SomeOctets l)

hex_token-SomeOctets : (cur : List ℕ) → SomeOctets (hex_token cur)
unfolding hex_token
hex_token-SomeOctets [] = tt
hex_token-SomeOctets (a ∷ []) =
    prepend-SomeOctets (nibbles_octet (a ∷ [])) (some []) (nibbles_octet-lt (a ∷ [])) tt
hex_token-SomeOctets (a ∷ b ∷ cur) =
    prepend-SomeOctets (nibbles_octet (a ∷ b ∷ [])) (hex_token cur) (nibbles_octet-lt (a ∷ b ∷ []))
      (hex_token-SomeOctets cur)

hex_octets-SomeOctets : (l : List (List ℕ)) → SomeOctets (hex_octets l)
unfolding hex_octets
hex_octets-SomeOctets [] = tt
hex_octets-SomeOctets (cur ∷ l) =
    joined-SomeOctets (hex_token cur) (hex_octets l) (hex_token-SomeOctets cur)
      (hex_octets-SomeOctets l)

parse_id-SomeOctets : (string : List ℕ) → SomeOctets (parse_id string)
unfolding parse_id
parse_id-SomeOctets string = elim (Bool-cases (ltb (length string) 2)) [
  | inl e ↦ rw e tt
  | inr e ↦ rw e (id_octets-SomeOctets (tokens (c_string string)))
]

parse_hex-SomeOctets : (hex : List ℕ) → SomeOctets (parse_hex hex)
unfolding parse_hex
parse_hex-SomeOctets hex = elim (Bool-cases (length hex == 0)) [
  | inl e ↦ rw e tt
  | inr e ↦ rw e (hex_octets-SomeOctets (tokens (c_string hex)))
]

-- What an operation on a value does: it returns true and stores octets, or false and nothing.
abbrev pub Stores : List ℕ → List ℕ × Bool → Type 0
Stores m_str r = (r.1 ≡ true × AreOctets r.0) ⊎ (r ≡ (m_str, false))

assigned-Stores :
    (m_str : List ℕ) (o : Option (List ℕ)) → SomeOctets o → Stores m_str (assigned m_str o)
assigned-Stores m_str none ok = inr refl
assigned-Stores m_str (some xs) ok = inl (refl, ok)

-- For every text fromId and fromHex either return true and the value is a list of octets, each below
-- 256, or they return false and the value is the old one.
pub from_text-Stores :
    (string m_str : List ℕ)
    → Stores m_str (from_id string m_str) × Stores m_str (from_hex string m_str)
unfolding from_id from_hex
from_text-Stores string m_str = (
  assigned-Stores m_str (parse_id string) (parse_id-SomeOctets string),
  assigned-Stores m_str (parse_hex string) (parse_hex-SomeOctets string),
)

is_mac_len_iff : (m : List ℕ) → (is_mac_len m ≡ true) ↔ ((length m ≡ 6) ⊎ (length m ≡ 8))
unfolding is_mac_len
is_mac_len_iff m = (
  λ e. elim (Bool-cases (length m == 6)) [
    | inl six ↦ inl (ground arith)
    | inr other ↦ inr (ground arith)
  ],
  λ h. elim h [ inl six ↦ ground arith | inr eight ↦ ground arith ],
)

pair_eq : {a b : List ℕ} {x y : Bool} → a ≡ b → x ≡ y → ◌≡◌ {A = List ℕ × Bool} (a, x) (b, y)
pair_eq p q = cc

mac_check :
    (m : List ℕ) (done : Bool) (mac : List ℕ)
    → (◌≡◌ {A = List ℕ × Bool} (m, done && is_mac_len m) (mac, true))
      ↔ ((◌≡◌ {A = List ℕ × Bool} (m, done) (mac, true)) × ((length mac ≡ 6) ⊎ (length mac ≡ 8)))
mac_check m false mac = (λ e. absurd (cc e), λ p. absurd (cc p.0))
mac_check m true mac = (
  λ e. (
    pair_eq (ap (λ p. p.0) e) refl,
    (is_mac_len_iff mac).0 (subst (λ k. is_mac_len k ≡ true) (ap (λ p. p.0) e) (ap (λ p. p.1) e)),
  ),
  λ p.
      pair_eq (ap (λ q. q.0) p.0)
        (subst (λ k. is_mac_len k ≡ true) (sym (ap (λ q. q.0) p.0)) ((is_mac_len_iff mac).1 p.1)),
)

-- fromMac returns true exactly when fromId does and the value has then six or eight octets; the value
-- is fromId's in either case, so a well-formed identity of another length replaces the old value
-- although fromMac returns false.
pub from_mac_lem :
    (string m_str mac : List ℕ)
    → ((from_mac string m_str ≡ (mac, true))
        ↔ ((from_id string m_str ≡ (mac, true)) × ((length mac ≡ 6) ⊎ (length mac ≡ 8))))
      × ((from_mac string m_str).0 ≡ (from_id string m_str).0)
unfolding from_mac
from_mac_lem string m_str mac =
    (mac_check (from_id string m_str).0 (from_id string m_str).1 mac, refl)
