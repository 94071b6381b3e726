-- ===== src/Text.antt =====
-- The Go strings of the program and what the sources call of package `strings`, `strconv` and
-- `unicode/utf8`. A string is the list of its code points; the program's texts come from JSON
-- bodies, headers and database columns, and are taken to be valid UTF-8.
pub mod Laws
pub mod Trim
pub mod Lengths
use Prim.Native.Char.{code}
use Prim.Native.String
use Prim.Native.String.{String}
use be_pawfund.Prelude.{
  ℕ, zero, suc, ◌+◌, ◌-◌, ◌*◌, ◌^◌, ◌≡◌, Bool, true, false, ◌&&◌, ◌||◌, Option, none, some, List,
  [], ◌∷◌, ◌++◌, map, ltb, leb, nat_eq, if◌then◌else◌, length,
}
use be_pawfund.Prelude.Int.{ℤ, pos, negsuc}

abbrev pub Text : Type 0
Text = List ℕ

-- A literal of the source.
abbrev pub codes : String → Text
codes String.[] = []
codes (String.◌∷◌ c s) = code c ∷ codes s

unfoldable pub text_eq : Text → Text → Bool
text_eq [] [] = true
text_eq (a ∷ s) (b ∷ t) = nat_eq a b && text_eq s t
text_eq _ _ = false

abbrev pub is_empty : Text → Bool
is_empty [] = true
is_empty (c ∷ s) = false

-- unicode.IsSpace
unfoldable pub is_space : ℕ → Bool
is_space c =
    (leb 0x09 c && leb c 0x0d)
    || nat_eq c 0x20
    || nat_eq c 0x85
    || nat_eq c 0xa0
    || nat_eq c 0x1680
    || (leb 0x2000 c && leb c 0x200a)
    || nat_eq c 0x2028
    || nat_eq c 0x2029
    || nat_eq c 0x202f
    || nat_eq c 0x205f
    || nat_eq c 0x3000

unfoldable pub trim_left : Text → Text
trim_left [] = []
trim_left (c ∷ s) = let rest = trim_left s in if is_space c then rest else c ∷ s

-- A character that stands before what is kept is kept; a last one is kept if it is no space.
abbrev pub keep_before : ℕ → Text → Text
keep_before c [] = if is_space c then [] else c ∷ []
keep_before c (d ∷ kept) = c ∷ d ∷ kept

unfoldable pub trim_right : Text → Text
trim_right [] = []
trim_right (c ∷ s) = keep_before c (trim_right s)

-- strings.TrimSpace
unfoldable pub trim_space : Text → Text
trim_space s = trim_right (trim_left s)

-- strings.HasPrefix(s, prefix)
unfoldable pub has_prefix : Text → Text → Bool
has_prefix s [] = true
has_prefix [] (p ∷ prefix) = false
has_prefix (c ∷ s) (p ∷ prefix) = nat_eq c p && has_prefix s prefix

-- strings.TrimPrefix(s, prefix)
unfoldable pub drop_prefix : Text → Text → Text
drop_prefix s [] = s
drop_prefix [] (p ∷ prefix) = []
drop_prefix (c ∷ s) (p ∷ prefix) = drop_prefix s prefix

unfoldable pub trim_prefix : Text → Text → Text
unfolding drop_prefix
trim_prefix s prefix = if has_prefix s prefix then drop_prefix s prefix else s

-- strings.HasSuffix(s, suffix)
unfoldable pub has_suffix : Text → Text → Bool
has_suffix [] suffix = text_eq [] suffix
has_suffix (c ∷ s) suffix = text_eq (c ∷ s) suffix || has_suffix s suffix

-- strings.TrimSuffix(s, suffix); a text that does not end in the suffix comes back whole.
unfoldable pub trim_suffix : Text → Text → Text
trim_suffix [] suffix = []
trim_suffix (c ∷ s) suffix =
    let rest = trim_suffix s suffix in if text_eq (c ∷ s) suffix then [] else c ∷ rest

-- strings.Contains(s, sub)
unfoldable pub contains : Text → Text → Bool
contains [] sub = has_prefix [] sub
contains (c ∷ s) sub = has_prefix (c ∷ s) sub || contains s sub

-- strings.ToLower. The mapping of the code points past ASCII is Unicode's table, a parameter.
unfoldable pub to_lower : (ℕ → ℕ) → Text → Text
to_lower unicode_lower s =
    map
      (λ c.
        if ltb c 0x80 then (if leb b'A' c && leb c b'Z' then c + 32 else c) else unicode_lower c)
      s

-- len(s): the bytes of the UTF-8 encoding.
abbrev pub rune_length : ℕ → ℕ
rune_length c = if ltb c 0x80 then 1 else if ltb c 0x800 then 2 else if ltb c 0x10000 then 3 else 4

unfoldable pub byte_length : Text → ℕ
byte_length [] = 0
byte_length (c ∷ s) = rune_length c + byte_length s

-- utf8.RuneCountInString(s)
abbrev pub rune_count : Text → ℕ
rune_count s = length s

-- The digits of a number in base ten, most significant first.
unfoldable pub parse_digits : ℕ → Text → Option ℕ
parse_digits n [] = some n
parse_digits n (c ∷ s) =
    let rest = parse_digits (n * 10 + (c - b'0')) s in
    if leb b'0' c && leb c b'9' then rest else none

abbrev pub in_int64_range : Bool → Option ℕ → Option ℤ
in_int64_range negative none = none
in_int64_range false (some n) = if ltb n (2 ^ 63) then some (pos n) else none
in_int64_range true (some zero) = some (pos 0)
in_int64_range true (some (suc n)) = if ltb n (2 ^ 63) then some (negsuc n) else none

unfoldable pub parse_magnitude : Bool → Text → Option ℤ
unfolding parse_digits
parse_magnitude negative [] = none
parse_magnitude negative (c ∷ s) = in_int64_range negative (parse_digits 0 (c ∷ s))

-- strconv.ParseInt(s, 10, 64)
unfoldable pub parse_int64 : Text → Option ℤ
unfolding parse_magnitude
parse_int64 [] = none
parse_int64 (c ∷ s) =
    if nat_eq c b'-'
    then parse_magnitude true s
    else if nat_eq c b'+'
    then parse_magnitude false s
    else parse_magnitude false (c ∷ s)
