-- ===== src/Text.antt =====
-- Texts as octets, and the functions of the C library that bin.cpp and cfg.cpp call on them: isspace,
-- strtol, strtok_r with the separators of an identity, fgets.
pub mod Same
use Prim.Native.Char.{code}
use Prim.Native.String.{String}
use libpmc.Base.{
  ℕ, zero, suc, ◌+◌, ◌-◌, ◌*◌, ◌^◌, ◌≡◌, refl, Bool, true, false, ◌&&◌, ◌||◌, List, [], ◌∷◌, map,
  Option, none, some, ltb, leb, ◌==◌, if◌then◌else◌, length,
}
use libpmc.Base.Int.{ℤ, pos, negsuc}

-- The octets of a literal.
abbrev pub codes : String → List ℕ
codes String.[] = []
codes (String.◌∷◌ c s) = code c ∷ codes s

-- strcmp(a, b) == 0
abbrev pub same : List ℕ → List ℕ → Bool
same [] [] = true
same [] (b ∷ t) = false
same (a ∷ s) [] = false
same (a ∷ s) (b ∷ t) = (a == b) && same s t

-- std::string::c_str read as a C string: up to the first NUL.
unfoldable pub c_string : List ℕ → List ℕ
c_string [] = []
c_string (c ∷ s) = if c == 0 then [] else c ∷ c_string s

-- isspace in the C locale
abbrev pub isspace : ℕ → Bool
isspace c = c == 32 || (leb 9 c && leb c 13)

unfoldable pub skip_spaces : List ℕ → List ℕ
skip_spaces [] = []
skip_spaces (c ∷ s) = if isspace c then skip_spaces s else c ∷ s

-- The value of a digit of a base up to 36; 36 for no digit.
unfoldable pub digit : ℕ → ℕ
digit c =
    if leb b'0' c && leb c b'9'
    then c - b'0'
    else if leb b'a' c && leb c b'z'
    then c - b'a' + 10
    else if leb b'A' c && leb c b'Z'
    then c - b'A' + 10
    else 36

unfoldable pub starts_digit : ℕ → List ℕ → Bool
unfolding digit
starts_digit base [] = false
starts_digit base (c ∷ s) = ltb (digit c) base

-- The value of the digits at the front, onto `acc`, and what follows them.
unfoldable pub scan_digits : ℕ → ℕ → List ℕ → ℕ × List ℕ
unfolding digit
scan_digits base acc [] = (acc, [])
scan_digits base acc (c ∷ s) =
    if ltb (digit c) base then scan_digits base (acc * base + digit c) s else (acc, c ∷ s)

unfoldable pub skip_sign : List ℕ → Bool × List ℕ
skip_sign [] = (false, [])
skip_sign (c ∷ s) =
    if c == b'-' then (true, s) else if c == b'+' then (false, s) else (false, c ∷ s)

is_x : ℕ → Bool
is_x c = c == b'x' || c == b'X'

-- The base that the prefix asks for, and what follows the prefix.
unfoldable pub skip_prefix : ℕ → List ℕ → ℕ × List ℕ
unfolding starts_digit is_x
skip_prefix base (z ∷ x ∷ s) =
    if z == b'0' && is_x x && (base == 16 || base == 0) && starts_digit 16 s
    then (16, s)
    else if base == 0
    then (if z == b'0' then 8 else 10, z ∷ x ∷ s)
    else (base, z ∷ x ∷ s)
skip_prefix base (z ∷ []) = (if base == 0 then if z == b'0' then 8 else 10 else base, z ∷ [])
skip_prefix base [] = (base, [])

abbrev pub long_max : ℕ
long_max = 2 ^ 63 - 1

-- A value with its sign, or LONG_MIN or LONG_MAX when a 64-bit long cannot hold it.
unfoldable pub to_long : Bool → ℕ → ℤ
to_long false n = if leb n long_max then pos n else pos long_max
to_long true zero = pos 0
to_long true (suc n) = if leb n long_max then negsuc n else negsuc long_max

-- strtol(s, &end, base): the value and the text at `end`, all of `s` when there are no digits.
unfoldable pub strtol : ℕ → List ℕ → ℤ × List ℕ
unfolding skip_spaces skip_sign skip_prefix starts_digit scan_digits to_long
strtol base s =
    let signed = skip_sign (skip_spaces s) in
    let based = skip_prefix base signed.1 in
    let found = scan_digits based.0 0 based.1 in
    if starts_digit based.0 based.1 then (to_long signed.0 found.0, found.1) else (pos 0, s)

-- The separators of bin.cpp's idsep, ":.-".
unfoldable pub is_separator : ℕ → Bool
is_separator c = c == b':' || c == b'.' || c == b'-'

abbrev pub keep_token : List ℕ → List (List ℕ) → List (List ℕ)
keep_token [] rest = rest
keep_token (c ∷ t) rest = (c ∷ t) ∷ rest

-- The text up to the first separator, and the tokens behind it.
unfoldable pub split_tokens : List ℕ → List ℕ × List (List ℕ)
unfolding is_separator
split_tokens [] = ([], [])
split_tokens (c ∷ s) =
    let later = split_tokens s in
    if is_separator c then ([], keep_token later.0 later.1) else (c ∷ later.0, later.1)

-- The tokens that strtok_r(s, idsep, &save) and strtok_r(nullptr, idsep, &save) return in turn.
unfoldable pub tokens : List ℕ → List (List ℕ)
unfolding split_tokens
tokens s = keep_token (split_tokens s).0 (split_tokens s).1

abbrev pub newline : ℕ
newline = 10

-- The rest of a line of at most `room` more octets, and the lines behind it, in a buffer for `size`.
unfoldable pub split_lines : ℕ → ℕ → List ℕ → List ℕ × List (List ℕ)
split_lines size room [] = ([], [])
split_lines size room (c ∷ s) =
    let ends = c == newline || room == 1 in
    let later = split_lines size (if ends then size else room - 1) s in
    if ends then (c ∷ [], keep_token later.0 later.1) else (c ∷ later.0, later.1)

-- What fgets(buf, size + 1, f) stores, call by call, until the end of the file.
unfoldable pub fgets_lines : ℕ → List ℕ → List (List ℕ)
unfolding split_lines
fgets_lines size text = let parts = split_lines size size text in keep_token parts.0 parts.1

-- snprintf("%02x")
unfoldable pub hex_digit : ℕ → ℕ
hex_digit d = if ltb d 10 then b'0' + d else b'a' + d - 10
