-- ===== src/Prelude/Strings.antt =====
-- Byte strings: `std::string` and `char` buffers as lists of byte values.
use Prim.Native.Nat.{ℕ}
use Prim.Native.Char.{code}
use Prim.Native.String.{String}
use mathlib.Core.Path.{◌≡◌, refl}
use mathlib.Core.Logic.{◌≢◌, ◌↔◌}
use mathlib.Core.Bool.{Bool, true, false, ◌&&◌}
use mathlib.Core.Option.{Option, none, some}
use mathlib.Core.List.{List, [], ◌∷◌, ◌++◌}
use native.Mathlib.Omega.{arith}
use swm_core.Prelude.Tests.{◌==◌, if◌then◌else◌}
use swm_core.Prelude.Lists.{All, drop, length}

abbrev pub Bytes : Type 0
Bytes = List ℕ

-- The bytes of an ASCII literal.
abbrev pub codes : String → Bytes
codes String.[] = []
codes (String.◌∷◌ c s) = code c ∷ codes s

-- Equality of strings.
abbrev pub bytes_eq : Bytes → Bytes → Bool
bytes_eq [] [] = true
bytes_eq [] (b ∷ bs) = false
bytes_eq (a ∷ as') [] = false
bytes_eq (a ∷ as') (b ∷ bs) = a == b && bytes_eq as' bs

pub bytes_eq_iff : (s t : Bytes) → (bytes_eq s t ≡ true) ↔ (s ≡ t)
bytes_eq_iff [] [] = ground arith
bytes_eq_iff [] (b ∷ bs) = ground arith
bytes_eq_iff (a ∷ s) [] = ground arith
bytes_eq_iff (a ∷ s) (b ∷ t) = ground (arith, bytes_eq_iff s t)

-- `s.rfind(prefix, 0) == 0`.
abbrev pub starts_with : Bytes → Bytes → Bool
starts_with [] s = true
starts_with (p ∷ ps) [] = false
starts_with (p ∷ ps) (c ∷ s) = p == c && starts_with ps s

pub starts_with-append : (p s : Bytes) → starts_with p (p ++ s) ≡ true
starts_with-append [] s = refl
starts_with-append (c ∷ p) s = ground (arith, starts_with-append p s)

-- No byte of the string is `b`.
abbrev pub Lacks : ℕ → Bytes → Type 0
Lacks b = All (λ c. c ≢ b)

-- What follows the first occurrence of `key`, which is not empty: `find` and `substr` behind it.
abbrev pub find_after : Bytes → Bytes → Option Bytes
find_after key [] = none
find_after key (c ∷ s) =
    let rest = find_after key s in
    if starts_with key (c ∷ s) then some (drop (length key) (c ∷ s)) else rest

-- The text up to the first `b`, or all of it.
abbrev pub until : ℕ → Bytes → Bytes
until b [] = []
until b (c ∷ s) = let rest = c ∷ until b s in if c == b then [] else rest

pub until-append : (b : ℕ) (s t : Bytes) → Lacks b s → until b (s ++ b ∷ t) ≡ s
until-append b [] t h = ground arith
until-append b (c ∷ s) t (h, hs) = ground (arith, until-append b s t hs)

-- A text without the first byte of the key is passed over.
pub find_after_skip :
    (k : ℕ) (key s t : Bytes) → Lacks k s → find_after (k ∷ key) (s ++ t) ≡ find_after (k ∷ key) t
find_after_skip k key [] t h = refl
find_after_skip k key (c ∷ s) t (h, hs) = ground (arith, find_after_skip k key s t hs)

-- The texts, with the separator between them.
abbrev pub join : ℕ → List Bytes → Bytes
join sep [] = []
join sep (a ∷ []) = a
join sep (a ∷ b ∷ rest) = a ++ sep ∷ join sep (b ∷ rest)
