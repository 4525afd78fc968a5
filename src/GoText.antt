-- ===== src/GoText.antt =====
-- Go's strings as lists of code points, with what the source uses of packages strings, strconv
-- and net.
pub mod Decimal
pub mod Equality
use Prim.Native.Char.{code}
use Prim.Native.String.{String}
use terraform_provider_tunne.Base.{
  ℕ, zero, suc, ◌+◌, ◌-◌, ◌*◌, ◌/◌, ◌%◌, ◌^◌, Bool, true, false, ◌&&◌, ◌||◌, Option, none, some,
  List, [], ◌∷◌, ◌++◌, map, reverse, ltb, leb, ◌==◌, if◌then◌else◌, ℤ, pos, negsuc,
}

abbrev pub Text : Type 0
Text = List ℕ

abbrev pub lit : String → Text
lit String.[] = []
lit (String.◌∷◌ c s) = code c ∷ lit s

-- `s == ""`
abbrev pub is_empty : Text → Bool
is_empty [] = true
is_empty (c ∷ s) = false

-- `if s == "" { s = fallback }`
abbrev pub or_default : Text → Text → Text
or_default [] fallback = fallback
or_default (c ∷ s) fallback = c ∷ s

-- `s == t`
unfoldable pub text_eq : Text → Text → Bool
text_eq [] [] = true
text_eq [] (d ∷ t) = false
text_eq (c ∷ s) [] = false
text_eq (c ∷ s) (d ∷ t) = c == d && text_eq s t

-- `unicode.IsSpace`
pub is_space : ℕ → Bool
is_space c =
    (leb 9 c && leb c 13)
    || c == 32
    || c == 0x85
    || c == 0xa0
    || c == 0x1680
    || (leb 0x2000 c && leb c 0x200a)
    || c == 0x2028
    || c == 0x2029
    || c == 0x202f
    || c == 0x205f
    || c == 0x3000

pub trim_left : Text → Text
unfolding is_space
trim_left [] = []
trim_left (c ∷ s) = if is_space c then trim_left s else c ∷ s

-- `strings.TrimSpace`
unfoldable pub trim_space : Text → Text
unfolding trim_left
trim_space s = reverse (trim_left (reverse (trim_left s)))

-- `strings.ReplaceAll(s, old, new)` at two strings of one character.
pub replace_all : ℕ → ℕ → Text → Text
replace_all old new = map (λ c. if c == old then new else c)

pub contains_char : ℕ → Text → Bool
contains_char c [] = false
contains_char c (d ∷ s) = c == d || contains_char c s

pub starts_with : Text → Text → Bool
starts_with [] s = true
starts_with (c ∷ p) [] = false
starts_with (c ∷ p) (d ∷ s) = c == d && starts_with p s

-- `strings.Contains(s, p)`
unfoldable pub contains : Text → Text → Bool
unfolding starts_with
contains [] p = starts_with p []
contains (c ∷ s) p = starts_with p (c ∷ s) || contains s p

-- `strings.Join(parts, sep)`
pub join : Text → List Text → Text
join sep [] = []
join sep (s ∷ []) = s
join sep (s ∷ t ∷ rest) = s ++ sep ++ join sep (t ∷ rest)

-- The decimal digits of `n` in front of `out`; a number below the fuel is written whole.
pub digits : ℕ → ℕ → Text → Text
digits zero n out = out
digits (suc fuel) n out =
    let first = (b'0' + n) ∷ out in
    let rest = digits fuel (n / 10) ((b'0' + n % 10) ∷ out) in if ltb n 10 then first else rest

-- `strconv.Itoa`
unfoldable pub itoa : ℤ → Text
unfolding digits
itoa (pos n) = digits (suc n) n []
itoa (negsuc n) = b'-' ∷ digits (suc (suc n)) (suc n) []

pub is_digit : ℕ → Bool
is_digit c = leb b'0' c && leb c b'9'

pub read_digits : ℕ → Text → Option ℕ
unfolding is_digit
read_digits acc [] = some acc
read_digits acc (c ∷ s) =
    let rest = read_digits (acc * 10 + (c - b'0')) s in if is_digit c then rest else none

-- At least one digit.
pub read_number : Text → Option ℕ
unfolding read_digits
read_number [] = none
read_number (c ∷ s) = read_digits 0 (c ∷ s)

in_range_pos : Option ℕ → Option ℤ
in_range_pos none = none
in_range_pos (some n) = if ltb n (2 ^ 63) then some (pos n) else none

-- `-0` is 0.
in_range_neg : Option ℕ → Option ℤ
in_range_neg none = none
in_range_neg (some zero) = some (pos 0)
in_range_neg (some (suc n)) = if ltb n (2 ^ 63) then some (negsuc n) else none

-- `strconv.Atoi` at 64 bits: an optional sign and digits, refused out of range.
unfoldable pub atoi : Text → Option ℤ
unfolding read_number in_range_pos in_range_neg
atoi [] = none
atoi (c ∷ s) =
    if c == b'-'
    then in_range_neg (read_number s)
    else in_range_pos (read_number (if c == b'+' then s else c ∷ s))

-- `net.JoinHostPort`: a host with a colon goes in brackets.
unfoldable pub join_host_port : Text → Text → Text
unfolding contains_char
join_host_port host port =
    if contains_char b':' host
    then lit "[" ++ (host ++ (lit "]:" ++ port))
    else host ++ (lit ":" ++ port)
