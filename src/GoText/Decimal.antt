-- ===== src/GoText/Decimal.antt =====
-- strconv.Itoa and strconv.Atoi: what is printed is read back.
use Prim.Native.Nat.{ℕ}
use terraform_provider_tunne.Base.{
  zero, suc, ◌+◌, ◌-◌, ◌*◌, ◌/◌, ◌%◌, ◌^◌, ◌<◌, ◌≡◌, refl, ◌∙◌, sym, ap, some, false, [], ◌∷◌,
  arith, ltb, Bool-cases, inl, inr, ℤ, pos, negsuc,
}
use terraform_provider_tunne.GoText.{
  Text, is_empty, digits, itoa, read_digits, read_number, in_range_pos, in_range_neg, atoi,
}

-- One digit in front of a text is read into the accumulator.
read-digit :
    (acc d : ℕ) (out : Text)
    → d < 10
    → read_digits acc ((b'0' + d) ∷ out) ≡ read_digits (acc * 10 + d) out
unfolding read_digits
read-digit acc d out h = let back : (b'0' + d) - b'0' ≡ d = omega arith in rw back (ground arith)

-- Reading the digits of `n` has the effect of reading `n`.
read-digits :
    (fuel n : ℕ) (out : Text) → n < fuel → read_digits 0 (digits fuel n out) ≡ read_digits n out
unfolding digits
read-digits zero n out h = elim h [ ]
read-digits (suc fuel) n out h = elim (Bool-cases (ltb n 10)) [
  | inl small ↦
      rw small (read-digit 0 n out (ground arith) ∙ ap (λ m. read_digits m out) (omega arith))
  | inr large ↦ rw large (
      read-digits fuel (n / 10) ((b'0' + n % 10) ∷ out) (ground arith)
      ∙ read-digit (n / 10) (n % 10) out (omega arith)
      ∙ ap (λ m. read_digits m out) (omega arith))
]

-- The text of a number begins with a digit.
digits_head :
    (fuel n : ℕ) (out : Text)
    → n < fuel
    → (d : ℕ) × (rest : Text) × (digits fuel n out ≡ (b'0' + d) ∷ rest) × (d < 10)
unfolding digits
digits_head zero n out h = elim h [ ]
digits_head (suc fuel) n out h = elim (Bool-cases (ltb n 10)) [
  | inl small ↦ (n, out, rw small, ground arith)
  | inr large ↦ rw large (digits_head fuel (n / 10) ((b'0' + n % 10) ∷ out) (ground arith))
]

read_number-cons : (c : ℕ) (s : Text) → read_number (c ∷ s) ≡ read_digits 0 (c ∷ s)
unfolding read_number
read_number-cons c s = refl

read_number-digits : (fuel n : ℕ) → n < fuel → read_number (digits fuel n []) ≡ some n
unfolding read_digits
read_number-digits fuel n h =
    let (d, rest, e, small) = digits_head fuel n [] h in
    rw e (read_number-cons (b'0' + d) rest ∙ ap (read_digits 0) (sym e) ∙ read-digits fuel n [] h)

-- A text whose first character is a digit is read without a sign.
atoi_unsigned :
    (d : ℕ) (rest : Text)
    → d < 10
    → atoi ((b'0' + d) ∷ rest) ≡ in_range_pos (read_number ((b'0' + d) ∷ rest))
unfolding atoi
atoi_unsigned d rest h = ground arith

atoi-digits : (n : ℕ) → atoi (digits (suc n) n []) ≡ in_range_pos (some n)
atoi-digits n =
    let (d, rest, e, small) = digits_head (suc n) n [] (omega arith) in
    rw e (
      atoi_unsigned d rest small
      ∙ ap (λ t. in_range_pos (read_number t)) (sym e)
      ∙ ap in_range_pos (read_number-digits (suc n) n (omega arith)))

in_range_pos-some : (n : ℕ) → n < 2 ^ 63 → in_range_pos (some n) ≡ some (pos n)
unfolding in_range_pos
in_range_pos-some n h = ground arith

atoi-minus : (s : Text) → atoi (b'-' ∷ s) ≡ in_range_neg (read_number s)
unfolding atoi
atoi-minus s = refl

in_range_neg-some : (n : ℕ) → n < 2 ^ 63 → in_range_neg (some (suc n)) ≡ some (negsuc n)
unfolding in_range_neg
in_range_neg-some n h = ground arith

-- The values of a 64-bit `int`.
abbrev pub IsInt64 : ℤ → Type 0
IsInt64 (pos n) = n < 2 ^ 63
IsInt64 (negsuc n) = n < 2 ^ 63

-- Atoi gives back every 64-bit integer that Itoa prints.
pub atoi-itoa : (z : ℤ) → IsInt64 z → atoi (itoa z) ≡ some z
unfolding itoa
atoi-itoa (pos n) h = atoi-digits n ∙ in_range_pos-some n h
atoi-itoa (negsuc n) h =
    atoi-minus (digits (suc (suc n)) (suc n) [])
    ∙ ap in_range_neg (read_number-digits (suc (suc n)) (suc n) (omega arith))
    ∙ in_range_neg-some n h

pub is_empty-itoa : (z : ℤ) → is_empty (itoa z) ≡ false
unfolding itoa
is_empty-itoa (pos n) = let (d, rest, e, small) = digits_head (suc n) n [] (omega arith) in rw e
is_empty-itoa (negsuc n) = refl
