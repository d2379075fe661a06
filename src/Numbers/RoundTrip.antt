-- ===== src/Numbers/RoundTrip.antt =====
-- Reading a printed number.
use swm_core.Prelude.{
  ℕ, zero, suc, ◌+◌, ◌/◌, ◌%◌, ◌^◌, ◌≤◌, ◌<◌, true, false, [], ◌∷◌, ◌++◌, append_assoc, some, none,
  ltb, ◌≡◌, refl, sym, ◌∙◌, ap, arith, Bytes, ℤ, pos, negsuc, inl, inr, Bool-cases, All-append,
  Lacks, ◌≢◌,
}
use swm_core.Numbers.{
  print_digits, print_nat, print_int, is_digit, read_digits, read_nat, read_signed, skip_space,
  stoi, stoul,
}

-- The text goes on with no digit.
abbrev pub Stops : Bytes → Type 0
Stops [] = Unit {0}
Stops (c ∷ s) = is_digit c ≡ false

read_digits-stop : (n : ℕ) (rest : Bytes) → Stops rest → read_digits n rest ≡ (n, rest)
unfolding read_digits
read_digits-stop n [] h = refl
read_digits-stop n (c ∷ s) h = rw h

-- The digits of `m` behind the value 0 give `m`, whatever follows.
read-print_digits :
    (f m : ℕ) (rest : Bytes) → m ≤ f → read_digits 0 (print_digits f m ++ rest) ≡ read_digits m rest
unfolding read_digits print_digits
read-print_digits zero m rest h = ground arith
read-print_digits (suc f) m rest h = elim (Bool-cases (ltb m 10)) [
  | inl e ↦ rw e (ground arith)
  | inr e ↦ rw e (
      ap (read_digits 0) (append_assoc (print_digits f (m / 10)) _ rest)
      ∙ (read-print_digits f (m / 10) ((b'0' + m % 10) ∷ rest) (ground arith) ∙ ground arith))
]

-- The first byte of a printed number is a digit.
abbrev HeadDigit : Bytes → Type 0
HeadDigit [] = ⊥
HeadDigit (c ∷ s) = is_digit c ≡ true

HeadDigit-append : (s t : Bytes) → HeadDigit s → HeadDigit (s ++ t)
HeadDigit-append [] t h = absurd h
HeadDigit-append (c ∷ s) t h = h

print_digits-HeadDigit : (f m : ℕ) → m ≤ f → HeadDigit (print_digits f m)
unfolding print_digits
print_digits-HeadDigit zero m h = ground arith
print_digits-HeadDigit (suc f) m h = elim (Bool-cases (ltb m 10)) [
  | inl e ↦ rw e (ground arith)
  | inr e ↦ rw e (
      HeadDigit-append (print_digits f (m / 10)) _
        (print_digits-HeadDigit f (m / 10) (ground arith)))
]

read_nat-HeadDigit : (s : Bytes) → HeadDigit s → read_nat s ≡ some (read_digits 0 s)
unfolding read_nat
read_nat-HeadDigit [] h = absurd h
read_nat-HeadDigit (c ∷ s) h = rw h

pub read_nat-print_nat :
    (n : ℕ) (rest : Bytes) → Stops rest → read_nat (print_nat n ++ rest) ≡ some (n, rest)
unfolding print_nat
read_nat-print_nat n rest h =
    read_nat-HeadDigit (print_digits n n ++ rest)
      (HeadDigit-append (print_digits n n) rest (print_digits-HeadDigit n n (omega arith)))
    ∙ ap some (read-print_digits n n rest (omega arith) ∙ read_digits-stop n rest h)

print_nat-HeadDigit : (n : ℕ) (rest : Bytes) → HeadDigit (print_nat n ++ rest)
unfolding print_nat
print_nat-HeadDigit n rest =
    HeadDigit-append (print_digits n n) rest (print_digits-HeadDigit n n (omega arith))

skip_space-HeadDigit : (s : Bytes) → HeadDigit s → skip_space s ≡ s
unfolding skip_space
skip_space-HeadDigit [] h = refl
skip_space-HeadDigit (c ∷ s) h = ground arith

read_signed-HeadDigit :
    (s : Bytes) (n : ℕ) (rest : Bytes)
    → HeadDigit s
    → read_nat s ≡ some (n, rest)
    → read_signed s ≡ some (false, n, rest)
unfolding read_signed
read_signed-HeadDigit [] n rest h e = absurd h
read_signed-HeadDigit (c ∷ s) n rest h e = ground arith

read_signed-print_nat :
    (n : ℕ) (rest : Bytes)
    → Stops rest
    → read_signed (skip_space (print_nat n ++ rest)) ≡ some (false, n, rest)
read_signed-print_nat n rest st =
    rw (skip_space-HeadDigit (print_nat n ++ rest) (print_nat-HeadDigit n rest)) (
      read_signed-HeadDigit (print_nat n ++ rest) n rest (print_nat-HeadDigit n rest)
        (read_nat-print_nat n rest st))

-- `std::stoul` and `std::stoull` read back what `std::to_string` printed, and stop behind it.
pub stoul-print_nat :
    (n : ℕ) (rest : Bytes) → n < 2 ^ 64 → Stops rest → stoul (print_nat n ++ rest) ≡ some (n, rest)
unfolding stoul
stoul-print_nat n rest h st = rw (read_signed-print_nat n rest st, stoul) (ground arith)

pub stoul-[] : stoul [] ≡ none
unfolding stoul
stoul-[] = refl

-- The values of `int`.
abbrev pub InInt : ℤ → Type 0
InInt (pos n) = n < 2 ^ 31
InInt (negsuc n) = n < 2 ^ 31

-- `std::stoi` reads back what `std::to_string` printed.
pub stoi-print_int :
    (z : ℤ) (rest : Bytes) → InInt z → Stops rest → stoi (print_int z ++ rest) ≡ some z
unfolding stoi print_int
stoi-print_int (pos n) rest h st = rw (read_signed-print_nat n rest st, stoi) (ground arith)
stoi-print_int (negsuc n) rest h st = rw (read_nat-print_nat (suc n) rest st, stoi) (ground arith)

print_digits-Lacks : (b f m : ℕ) → is_digit b ≡ false → m ≤ f → Lacks b (print_digits f m)
unfolding print_digits
print_digits-Lacks b zero m d h = (ground arith, tt)
print_digits-Lacks b (suc f) m d h = elim (Bool-cases (ltb m 10)) [
  | inl e ↦ rw e (ground arith, tt)
  | inr e ↦ rw e (
      All-append (λ c. c ≢ b) (print_digits f (m / 10)) _
        (print_digits-Lacks b f (m / 10) d (ground arith)) (ground arith, tt))
]

pub print_nat-Lacks : (b n : ℕ) → is_digit b ≡ false → Lacks b (print_nat n)
unfolding print_nat
print_nat-Lacks b n d = print_digits-Lacks b n n d (omega arith)

pub print_int-Lacks : (b : ℕ) (z : ℤ) → is_digit b ≡ false → b ≢ b'-' → Lacks b (print_int z)
unfolding print_int
print_int-Lacks b (pos n) d h = print_nat-Lacks b n d
print_int-Lacks b (negsuc n) d h = (λ e. h (sym e), print_nat-Lacks b (suc n) d)
