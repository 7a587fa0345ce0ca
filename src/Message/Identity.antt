-- ===== src/Message/Identity.antt =====
-- The texts of identities, msg.cpp: ClockIdentity_t::string, PortIdentity_t::string and
-- PortAddress_t::string, with what Binary of bin.cpp makes of them.
use libpmc.Base.{
  ℕ, zero, suc, ◌+◌, ◌/◌, ◌%◌, ◌≡◌, refl, ap, ◌∙◌, true, false, ◌||◌, List, [], ◌∷◌, ◌++◌, some,
  ◌==◌, ltb, length, if◌then◌else◌, arith,
}
use libpmc.Text.{c_string, is_separator, split_tokens, tokens, keep_token}
use libpmc.Binary.{Inet, to_ip, buf_to_id, hex_octet, buf_to_hex, from_hex, parse_hex, hex_octets}
use libpmc.Binary.RoundTrip.{
  AreOctets, c_string-buf_to_hex, split_tokens-buf_to_hex, c_string-hex_octet,
  split_tokens-hex_octet, hex_token-buf_to_hex,
}
use libpmc.Types.{ClockIdentity, PortIdentity, PortAddress}

-- The octet of an identity at an index; the source has an array of eight.
abbrev octet_of : ClockIdentity → ℕ → ℕ
octet_of [] i = 0
octet_of (x ∷ xs) zero = x
octet_of (x ∷ xs) (suc i) = octet_of xs i

-- "%02x%02x%02x.%02x%02x.%02x%02x%02x"
unfoldable pub identity_string : ClockIdentity → List ℕ
unfolding hex_octet
identity_string v =
    hex_octet (octet_of v 0)
    ++ hex_octet (octet_of v 1)
    ++ hex_octet (octet_of v 2)
    ++ b'.' ∷ hex_octet (octet_of v 3)
    ++ hex_octet (octet_of v 4)
    ++ b'.' ∷ hex_octet (octet_of v 5)
    ++ hex_octet (octet_of v 6)
    ++ hex_octet (octet_of v 7)

-- std::to_string: the last digit first found, with more rounds than digits.
digits : ℕ → ℕ → List ℕ → List ℕ
digits zero n out = out
digits (suc rounds) n out =
    let later = digits rounds (n / 10) ((b'0' + n % 10) ∷ out) in
    if ltb n 10 then (b'0' + n) ∷ out else later

unfoldable pub to_string : ℕ → List ℕ
unfolding digits
to_string n = digits (n + 1) n []

unfoldable pub port_string : PortIdentity → List ℕ
unfolding identity_string to_string
port_string p = identity_string p.clock_identity ++ b'-' ∷ to_string p.port_number

unfoldable pub address_string : Inet → PortAddress → List ℕ
address_string inet a =
    if a.network_protocol == 1 || a.network_protocol == 2
    then to_ip inet a.address_field
    else buf_to_id a.address_field

c_string-hex :
    (xs rest : List ℕ)
    → AreOctets xs
    → c_string (buf_to_hex xs ++ rest) ≡ buf_to_hex xs ++ c_string rest
unfolding buf_to_hex hex_octet
c_string-hex [] rest ok = refl
c_string-hex (x ∷ xs) rest ok =
    c_string-hex_octet x ok.0 (buf_to_hex xs ++ rest)
    ∙ ap (λ s. hex_octet x ++ s) (c_string-hex xs rest ok.1)

split_tokens-hex :
    (xs rest : List ℕ)
    → AreOctets xs
    → split_tokens (buf_to_hex xs ++ rest)
      ≡ (buf_to_hex xs ++ (split_tokens rest).0, (split_tokens rest).1)
unfolding buf_to_hex hex_octet
split_tokens-hex [] rest ok = refl
split_tokens-hex (x ∷ xs) rest ok =
    split_tokens-hex_octet x ok.0 (buf_to_hex xs ++ rest)
    ∙ ap (λ (p : List ℕ × List (List ℕ)). (hex_octet x ++ p.0, p.1)) (split_tokens-hex xs rest ok.1)

c_string-dot : (s : List ℕ) → c_string (b'.' ∷ s) ≡ b'.' ∷ c_string s
unfolding c_string
c_string-dot s = refl

split_tokens-dot :
    (s : List ℕ) → split_tokens (b'.' ∷ s) ≡ ([], keep_token (split_tokens s).0 (split_tokens s).1)
unfolding split_tokens is_separator
split_tokens-dot s = refl

-- Three groups with dots between them, each the text of some octets.
module _ (xs ys zs : List ℕ) (ox : AreOctets xs) (oy : AreOctets ys) (oz : AreOctets zs) where
  abbrev dotted : List ℕ
  dotted = buf_to_hex xs ++ b'.' ∷ (buf_to_hex ys ++ b'.' ∷ buf_to_hex zs)

  c_string-dotted : c_string dotted ≡ dotted
  c_string-dotted =
      rw
        (
          c_string-hex xs (b'.' ∷ (buf_to_hex ys ++ b'.' ∷ buf_to_hex zs)) ox,
          c_string-dot (buf_to_hex ys ++ b'.' ∷ buf_to_hex zs),
          c_string-hex ys (b'.' ∷ buf_to_hex zs) oy,
          c_string-dot (buf_to_hex zs),
          c_string-buf_to_hex zs oz,
        )
        refl

  split_tokens-dotted :
      split_tokens dotted
      ≡ (buf_to_hex xs ++ [], keep_token (buf_to_hex ys ++ []) (keep_token (buf_to_hex zs) []))
  split_tokens-dotted =
      rw
        (
          split_tokens-hex xs (b'.' ∷ (buf_to_hex ys ++ b'.' ∷ buf_to_hex zs)) ox,
          split_tokens-dot (buf_to_hex ys ++ b'.' ∷ buf_to_hex zs),
          split_tokens-hex ys (b'.' ∷ buf_to_hex zs) oy,
          split_tokens-dot (buf_to_hex zs),
          split_tokens-buf_to_hex zs oz,
        )
        refl

module _ (x0 x1 x2 x3 x4 x5 x6 x7 : ℕ)
    (ok : AreOctets (x0 ∷ x1 ∷ x2 ∷ x3 ∷ x4 ∷ x5 ∷ x6 ∷ x7 ∷ [])) where
  abbrev head : List ℕ
  head = x0 ∷ x1 ∷ x2 ∷ []

  abbrev middle : List ℕ
  middle = x3 ∷ x4 ∷ []

  abbrev last : List ℕ
  last = x5 ∷ x6 ∷ x7 ∷ []

  abbrev whole : ClockIdentity
  whole = x0 ∷ x1 ∷ x2 ∷ x3 ∷ x4 ∷ x5 ∷ x6 ∷ x7 ∷ []

  head_ok : AreOctets head
  head_ok = (omega (arith, ok), (omega (arith, ok), (omega (arith, ok), tt)))

  middle_ok : AreOctets middle
  middle_ok = (omega (arith, ok), (omega (arith, ok), tt))

  last_ok : AreOctets last
  last_ok = (omega (arith, ok), (omega (arith, ok), (omega (arith, ok), tt)))

  as_groups :
      identity_string whole
      ≡ buf_to_hex head ++ b'.' ∷ (buf_to_hex middle ++ b'.' ∷ buf_to_hex last)
  unfolding identity_string buf_to_hex hex_octet
  as_groups = refl

  tokens-identity :
      tokens (c_string (identity_string whole))
      ≡ buf_to_hex head ∷ buf_to_hex middle ∷ buf_to_hex last ∷ []
  tokens-identity =
      rw (as_groups, c_string-dotted head middle last head_ok middle_ok last_ok)
        (unfold tokens in
          rw (split_tokens-dotted head middle last head_ok middle_ok last_ok)
            (unfold buf_to_hex hex_octet in refl))

  octets-identity :
      hex_octets (buf_to_hex head ∷ buf_to_hex middle ∷ buf_to_hex last ∷ []) ≡ some whole
  unfolding hex_octets
  octets-identity =
      rw
        (
          hex_token-buf_to_hex head head_ok,
          hex_token-buf_to_hex middle middle_ok,
          hex_token-buf_to_hex last last_ok,
        )
        refl

  some_text : (length (identity_string whole) == 0) ≡ false
  unfolding identity_string hex_octet
  some_text = refl

  -- The text that ClockIdentity_t::string prints of an identity of eight octets, Binary's fromHex reads
  -- back as those octets.
  pub from_hex-identity_string :
      (m_str : List ℕ) → from_hex (identity_string whole) m_str ≡ (whole, true)
  unfolding from_hex parse_hex
  from_hex-identity_string m_str = rw (some_text, tokens-identity, octets-identity) refl
