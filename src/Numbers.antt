-- ===== src/Numbers.antt =====
-- What the code uses of the C++ library to print and read decimal numbers: `std::to_string`,
-- `std::stoi`, `std::stoul` and `std::stoull`, on an LP64 machine. `none` is a thrown exception.
pub mod RoundTrip
use swm_core.Prelude.{
  ℕ, zero, suc, ◌+◌, ◌-◌, ◌*◌, ◌/◌, ◌%◌, ◌^◌, Bool, true, false, ◌&&◌, ◌||◌, List, [], ◌∷◌, ◌++◌,
  Option, none, some, leb, ltb, ◌==◌, if◌then◌else◌, Bytes, codes, ℤ, pos, negsuc,
}

-- The digits of a number; the fuel `n` is enough for `n`.
print_digits : ℕ → ℕ → Bytes
print_digits zero n = (b'0' + n) ∷ []
print_digits (suc f) n =
    let more = print_digits f (n / 10) ++ (b'0' + n % 10) ∷ [] in
    if ltb n 10 then (b'0' + n) ∷ [] else more

pub print_nat : ℕ → Bytes
unfolding print_digits
print_nat n = print_digits n n

pub print_int : ℤ → Bytes
print_int (pos n) = print_nat n
print_int (negsuc n) = b'-' ∷ print_nat (suc n)

abbrev pub is_digit : ℕ → Bool
is_digit c = leb b'0' c && leb c b'9'

-- Tab, line feed, vertical tab, form feed, carriage return and space.
abbrev pub is_space : ℕ → Bool
is_space c = (leb 9 c && leb c 13) || c == b' '

-- The value of the digits at the front and what follows them.
pub read_digits : ℕ → Bytes → ℕ × Bytes
read_digits n [] = (n, [])
read_digits n (c ∷ s) =
    let rest = read_digits (n * 10 + (c - b'0')) s in if is_digit c then rest else (n, c ∷ s)

-- At least one digit.
unfoldable pub read_nat : Bytes → Option (ℕ × Bytes)
unfolding read_digits
read_nat [] = none
read_nat (c ∷ s) = if is_digit c then some (read_digits 0 (c ∷ s)) else none

-- An optional sign; the answer tells whether it was a minus.
unfoldable read_signed : Bytes → Option (Bool × ℕ × Bytes)
read_signed [] = none
read_signed (c ∷ s) =
    if c == b'-'
    then elim (read_nat s) [ none ↦ none | some (n, r) ↦ some (true, n, r) ]
    else if c == b'+'
    then elim (read_nat s) [ none ↦ none | some (n, r) ↦ some (false, n, r) ]
    else elim (read_nat (c ∷ s)) [ none ↦ none | some (n, r) ↦ some (false, n, r) ]

pub skip_space : Bytes → Bytes
skip_space [] = []
skip_space (c ∷ s) = let rest = skip_space s in if is_space c then rest else c ∷ s

-- `int` has 32 bits.
abbrev in_int : Bool → ℕ → Option ℤ
in_int true zero = some (pos 0)
in_int true (suc n) = if leb (suc n) (2 ^ 31) then some (negsuc n) else none
in_int false n = if ltb n (2 ^ 31) then some (pos n) else none

pub stoi : Bytes → Option ℤ
unfolding skip_space read_signed read_nat
stoi s = elim (read_signed (skip_space s)) [ none ↦ none | some (minus, n, rest) ↦ in_int minus n ]

-- `unsigned long` and `unsigned long long` have 64 bits; a minus negates the value in them. The
-- second part is the text behind the number, at the position that `pos` gives.
pub stoul : Bytes → Option (ℕ × Bytes)
unfolding skip_space read_signed read_nat
stoul s = elim (read_signed (skip_space s)) [
  | none ↦ none
  | some (minus, n, rest) ↦
      if ltb n (2 ^ 64) then some (if minus then ((2 ^ 64 - n) % 2 ^ 64) else n, rest) else none
]
