-- ===== src/Binary/Octets.antt =====
-- The octets of a Binary: bin.h's setBin and getBin by position, the padding of eui48ToEui64, and what
-- the text conversions of bin.cpp can store.
use libpmc.Base.{
  take_all, ℕ, zero, suc, ◌+◌, ◌-◌, ◌<◌, ◌≤◌, ◌≡◌, refl, sym, ap, ◌∙◌, subst, true, false, ◌⊎◌, inl,
  inr, List, [], ◌∷◌, ◌++◌, ◌==◌, leb, not_leb→lt, length, length-append, length-replicate,
  get_elem?, take, drop, replicate, if◌then◌else◌, arith, Bool-cases,
}
use libpmc.Binary.{octet_or_zero, put, resize, get_bin, set_bin, eui48_to_eui64}

-- The octet at a position, zero past the end.
abbrev octet_at : List ℕ → ℕ → ℕ
octet_at m i = octet_or_zero (get_elem? m i)

get_bin-octet_at : (i : ℕ) (m : List ℕ) → get_bin i m ≡ octet_at m i
unfolding get_bin octet_or_zero
get_bin-octet_at i [] = ground arith
get_bin-octet_at zero (x ∷ m) = ground arith
get_bin-octet_at (suc i) (x ∷ m) = ground (arith, get_bin-octet_at i m)

octet_at-put :
    (p v i : ℕ) (m : List ℕ)
    → p < length m
    → octet_at (put p v m) i ≡ (if i == p then v else octet_at m i)
unfolding put octet_or_zero
octet_at-put p v i [] inside = absurd (omega arith)
octet_at-put zero v zero (x ∷ m) inside = refl
octet_at-put zero v (suc i) (x ∷ m) inside = ground arith
octet_at-put (suc p) v zero (x ∷ m) inside = ground arith
octet_at-put (suc p) v (suc i) (x ∷ m) inside = ground (arith, octet_at-put p v i m)

octet_at-replicate : (n i : ℕ) → octet_at (replicate n 0) i ≡ 0
unfolding octet_or_zero
octet_at-replicate zero i = refl
octet_at-replicate (suc n) zero = refl
octet_at-replicate (suc n) (suc i) = octet_at-replicate n i

octet_at-filled : (n i : ℕ) (m : List ℕ) → octet_at (m ++ replicate n 0) i ≡ octet_at m i
unfolding octet_or_zero
octet_at-filled n i [] = octet_at-replicate n i
octet_at-filled n zero (x ∷ m) = refl
octet_at-filled n (suc i) (x ∷ m) = octet_at-filled n i m

grown : (n : ℕ) (m : List ℕ) → length m ≤ n → resize n m ≡ m ++ replicate (n - length m) 0
unfolding resize
grown n m h = ap (λ l. l ++ replicate (n - length m) 0) (take_all n m h)

length-grown : (n : ℕ) (m : List ℕ) → length m ≤ n → length (resize n m) ≡ n
length-grown n m h = rw (grown n m h) (
    omega (
      arith,
      length-append m (replicate (n - length m) 0),
      length-replicate {A = ℕ} (n - length m) 0,
    ))

octet_at-set_bin :
    (p v i : ℕ) (m : List ℕ) → octet_at (set_bin p v m) i ≡ (if i == p then v else octet_at m i)
unfolding set_bin
octet_at-set_bin p v i m = elim (Bool-cases (leb (length m) p)) [
  | inr inside ↦ rw inside (octet_at-put p v i m (not_leb→lt _ _ inside))
  | inl past ↦
      let fits : length m ≤ p + 1 = ground arith in
      rw past (
        octet_at-put p v i (resize (p + 1) m) (omega (arith, length-grown (p + 1) m fits))
        ∙ rw (grown (p + 1) m fits, octet_at-filled (p + 1 - length m) i m) refl)
]

-- After setBin at any position, in range or past the end, getBin returns the new value at that
-- position and the old one at every other, where zero is returned past the end.
pub get_bin-set_bin :
    (position value i : ℕ) (m_str : List ℕ)
    → get_bin i (set_bin position value m_str) ≡ (if i == position then value else get_bin i m_str)
get_bin-set_bin position value i m_str =
    rw (get_bin-octet_at i (set_bin position value m_str), get_bin-octet_at i m_str)
      (octet_at-set_bin position value i m_str)

padded_twice :
    (a b c : ℕ) (m : List ℕ)
    → length m ≡ 3
    → eui48_to_eui64 (a ∷ b ∷ c ∷ 0xff ∷ 0xfe ∷ m) ≡ (a ∷ b ∷ c ∷ 0xff ∷ 0xfe ∷ m, true)
unfolding eui48_to_eui64
padded_twice a b c m three = ground arith

short_refused : (m : List ℕ) → length m < 3 → (eui48_to_eui64 m).1 ≡ false
unfolding eui48_to_eui64
short_refused m short = ground arith

padded_or_whole :
    (a b c : ℕ) (m eui : List ℕ)
    → eui48_to_eui64 (a ∷ b ∷ c ∷ m) ≡ (eui, true)
    → ((length m ≡ 3) × (eui ≡ a ∷ b ∷ c ∷ 0xff ∷ 0xfe ∷ m))
      ⊎ ((length m ≡ 5) × (eui ≡ a ∷ b ∷ c ∷ m))
unfolding eui48_to_eui64
padded_or_whole a b c m eui e = elim (Bool-cases (length m == 3)) [
  | inl three ↦ inl (ground arith, ground arith)
  | inr other ↦ inr (ground arith, ground arith)
]

abbrev IsPadded : List ℕ → List ℕ → Type 0
IsPadded m eui =
    (length eui ≡ 8)
    × (take 3 eui ≡ take 3 m)
    × (drop 5 eui ≡ drop (length m - 3) m)
    × (eui48_to_eui64 eui ≡ (eui, true))

three_more-IsPadded :
    (a b c : ℕ) (m : List ℕ) → length m ≡ 3 → IsPadded (a ∷ b ∷ c ∷ m) (a ∷ b ∷ c ∷ 0xff ∷ 0xfe ∷ m)
three_more-IsPadded a b c m three =
    let back : length (a ∷ b ∷ c ∷ m) - 3 ≡ 3 = omega arith in
    (omega arith, refl, rw back refl, padded_twice a b c m three)

whole-IsPadded : (a b c : ℕ) (m : List ℕ) → length m ≡ 5 → IsPadded (a ∷ b ∷ c ∷ m) (a ∷ b ∷ c ∷ m)
unfolding eui48_to_eui64
whole-IsPadded a b c m five =
    let back : length (a ∷ b ∷ c ∷ m) - 3 ≡ 5 = omega arith in
    (omega arith, refl, rw back refl, ground arith)

-- When eui48ToEui64 returns true, the value has eight octets of which the first three and the last
-- three are those of the old value, and a second call changes nothing and returns true.
pub eui48_to_eui64_lem :
    (m_str eui : List ℕ)
    → eui48_to_eui64 m_str ≡ (eui, true)
    → (length eui ≡ 8)
      × (take 3 eui ≡ take 3 m_str)
      × (drop 5 eui ≡ drop (length m_str - 3) m_str)
      × (eui48_to_eui64 eui ≡ (eui, true))
eui48_to_eui64_lem [] eui e = ground (arith, short_refused [])
eui48_to_eui64_lem (a ∷ []) eui e = ground (arith, short_refused (a ∷ []))
eui48_to_eui64_lem (a ∷ b ∷ []) eui e = ground (arith, short_refused (a ∷ b ∷ []))
eui48_to_eui64_lem (a ∷ b ∷ c ∷ m) eui e = elim (padded_or_whole a b c m eui e) [
  | inl (three, is) ↦ subst (IsPadded (a ∷ b ∷ c ∷ m)) (sym is) (three_more-IsPadded a b c m three)
  | inr (five, is) ↦ subst (IsPadded (a ∷ b ∷ c ∷ m)) (sym is) (whole-IsPadded a b c m five)
]
