-- ===== src/Binary/RoundTrip.antt =====
-- That the texts which toHex and toId print are read back by fromHex and fromId.
use libpmc.Base.{
  ℕ, ◌/◌, ◌%◌, ◌<◌, ◌≡◌, refl, ap, Bool, true, false, ◌&&◌, List, [], ◌∷◌, ◌++◌, append-nil, map,
  Option, none, some, ◌==◌, ==_iff, ltb, length, All, arith,
}
use libpmc.Base.Table.{checked_up_to, checked_each}
use libpmc.Text.{c_string, is_separator, hex_digit, split_tokens, tokens, strtol}
use libpmc.Binary.{
  hex_octet, id_octet, nibbles_octet, id_octets, hex_token, hex_octets, id_tail, buf_to_id,
  buf_to_hex, parse_id, parse_hex, from_id, from_hex,
}

abbrev pub AreOctets : List ℕ → Type 0
AreOctets = All (λ x. x < 256)

is_some : Option ℕ → ℕ → Bool
is_some none x = false
is_some (some y) x = y == x

is_some-eq : (o : Option ℕ) (x : ℕ) → is_some o x ≡ true → o ≡ some x
unfolding is_some
is_some-eq none x e = cc
is_some-eq (some y) x e = ap some ((==_iff y x).0 e)

reads_back : ℕ → Bool
reads_back x = is_some (id_octet (hex_octet x)) x && is_some (nibbles_octet (hex_octet x)) x

all_read_back : checked_up_to reads_back 256 ≡ true
unfolding checked_up_to reads_back is_some id_octet nibbles_octet hex_octet hex_digit strtol
all_read_back = refl

both_true : (a b : Bool) → (a && b) ≡ true → (a ≡ true) × (b ≡ true)
both_true true b e = (refl, e)
both_true false b e = cc

module _ (x : ℕ) (octet : x < 256) where
  pub id_octet-hex_octet : id_octet (hex_octet x) ≡ some x
  unfolding reads_back
  id_octet-hex_octet =
      is_some-eq _ x (both_true _ _ (checked_each reads_back 256 x octet all_read_back)).0

  pub nibbles_octet-hex_octet : nibbles_octet (hex_octet x) ≡ some x
  unfolding reads_back
  nibbles_octet-hex_octet =
      is_some-eq _ x (both_true _ _ (checked_each reads_back 256 x octet all_read_back)).1

module _ (d : ℕ) (small : d < 16) where
  plain_digit : (hex_digit d == 0) ≡ false
  unfolding hex_digit
  plain_digit = ground arith

  not_separator : is_separator (hex_digit d) ≡ false
  unfolding hex_digit is_separator
  not_separator = ground arith

module _ (x : ℕ) (octet : x < 256) (rest : List ℕ) where
  pub c_string-hex_octet : c_string (hex_octet x ++ rest) ≡ hex_octet x ++ c_string rest
  unfolding c_string hex_octet
  c_string-hex_octet =
      rw (plain_digit (x / 16) (omega arith), plain_digit (x % 16) (omega arith)) refl

  pub split_tokens-hex_octet :
      split_tokens (hex_octet x ++ rest)
      ≡ (hex_octet x ++ (split_tokens rest).0, (split_tokens rest).1)
  unfolding split_tokens hex_octet
  split_tokens-hex_octet =
      rw (not_separator (x / 16) (omega arith), not_separator (x % 16) (omega arith)) refl

c_string-id_tail : (id : List ℕ) → AreOctets id → c_string (id_tail id) ≡ id_tail id
unfolding id_tail c_string
c_string-id_tail [] ok = refl
c_string-id_tail (x ∷ id) ok =
    rw (c_string-hex_octet x ok.0 (id_tail id), c_string-id_tail id ok.1) refl

split_tokens-id_tail :
    (id : List ℕ) → AreOctets id → split_tokens (id_tail id) ≡ ([], map hex_octet id)
unfolding id_tail split_tokens is_separator hex_octet
split_tokens-id_tail [] ok = refl
split_tokens-id_tail (x ∷ id) ok =
    rw (split_tokens-hex_octet x ok.0 (id_tail id), split_tokens-id_tail id ok.1) refl

id_octets-map : (id : List ℕ) → AreOctets id → id_octets (map hex_octet id) ≡ some id
unfolding id_octets
id_octets-map [] ok = refl
id_octets-map (x ∷ id) ok = rw (id_octet-hex_octet x ok.0, id_octets-map id ok.1) refl

tokens-buf_to_id :
    (x : ℕ) (id : List ℕ)
    → AreOctets (x ∷ id)
    → tokens (c_string (buf_to_id (x ∷ id))) ≡ map hex_octet (x ∷ id)
unfolding tokens buf_to_id hex_octet
tokens-buf_to_id x id ok =
    rw
      (
        c_string-hex_octet x ok.0 (id_tail id),
        c_string-id_tail id ok.1,
        split_tokens-hex_octet x ok.0 (id_tail id),
        split_tokens-id_tail id ok.1,
      )
      refl

long_id : (x : ℕ) (id : List ℕ) → ltb (length (buf_to_id (x ∷ id))) 2 ≡ false
unfolding buf_to_id hex_octet
long_id x id = ground arith

-- What toId prints of an identity of at least one octet, fromId reads back as the same octets,
-- whatever the value held before.
pub from_id-buf_to_id :
    (x : ℕ) (id m_str : List ℕ)
    → AreOctets (x ∷ id)
    → from_id (buf_to_id (x ∷ id)) m_str ≡ (x ∷ id, true)
unfolding from_id parse_id
from_id-buf_to_id x id m_str ok =
    rw (long_id x id, tokens-buf_to_id x id ok, id_octets-map (x ∷ id) ok) refl

pub c_string-buf_to_hex :
    (bin : List ℕ) → AreOctets bin → c_string (buf_to_hex bin) ≡ buf_to_hex bin
unfolding buf_to_hex c_string
c_string-buf_to_hex [] ok = refl
c_string-buf_to_hex (x ∷ bin) ok =
    rw (c_string-hex_octet x ok.0 (buf_to_hex bin), c_string-buf_to_hex bin ok.1) refl

pub split_tokens-buf_to_hex :
    (bin : List ℕ) → AreOctets bin → split_tokens (buf_to_hex bin) ≡ (buf_to_hex bin, [])
unfolding buf_to_hex split_tokens hex_octet
split_tokens-buf_to_hex [] ok = refl
split_tokens-buf_to_hex (x ∷ bin) ok =
    rw (split_tokens-hex_octet x ok.0 (buf_to_hex bin), split_tokens-buf_to_hex bin ok.1) refl

pub hex_token-step :
    (x : ℕ) (rest : List ℕ) {bin : List ℕ}
    → x < 256
    → hex_token rest ≡ some bin
    → hex_token (hex_octet x ++ rest) ≡ some (x ∷ bin)
unfolding hex_token hex_octet
hex_token-step x rest ok e = rw (nibbles_octet-hex_octet x ok, e) refl

pub hex_token-buf_to_hex : (bin : List ℕ) → AreOctets bin → hex_token (buf_to_hex bin) ≡ some bin
unfolding buf_to_hex
hex_token-buf_to_hex [] ok = unfold hex_token in refl
hex_token-buf_to_hex (x ∷ bin) ok =
    hex_token-step x (buf_to_hex bin) ok.0 (hex_token-buf_to_hex bin ok.1)

one_token :
    (x : ℕ) (bin : List ℕ)
    → AreOctets (x ∷ bin)
    → tokens (c_string (buf_to_hex (x ∷ bin))) ≡ buf_to_hex (x ∷ bin) ∷ []
one_token x bin ok = rw (c_string-buf_to_hex (x ∷ bin) ok) (
    unfold tokens in
    rw (split_tokens-buf_to_hex (x ∷ bin) ok) (unfold buf_to_hex hex_octet in refl))

some_hex : (x : ℕ) (bin : List ℕ) → (length (buf_to_hex (x ∷ bin)) == 0) ≡ false
unfolding buf_to_hex hex_octet
some_hex x bin = ground arith

-- What toHex prints of at least one octet, fromHex reads back as the same octets, whatever the value
-- held before.
pub from_hex-buf_to_hex :
    (x : ℕ) (bin m_str : List ℕ)
    → AreOctets (x ∷ bin)
    → from_hex (buf_to_hex (x ∷ bin)) m_str ≡ (x ∷ bin, true)
unfolding from_hex parse_hex hex_octets
from_hex-buf_to_hex x bin m_str ok =
    rw (some_hex x bin, one_token x bin ok, hex_token-buf_to_hex (x ∷ bin) ok, append-nil (x ∷ bin))
      refl
