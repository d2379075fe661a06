-- ===== src/Porter/Text.antt =====
-- Texts with separators, as the porter joins and cuts them.
use swm_core.Prelude.{
  ℕ, [], ◌∷◌, ◌++◌, Option, none, some, ◌==◌, if◌then◌else◌, Bytes, starts_with, drop, length,
}

-- `rfind` of a byte: what stands before it, and the rest from it on.
abbrev pub rfind : ℕ → Bytes → Option (Bytes × Bytes)
rfind c [] = none
rfind c (d ∷ s) = elim (rfind c s) [
  | some (front, back) ↦ some (d ∷ front, back)
  | none ↦ if d == c then some ([], d ∷ s) else none
]

-- The first occurrence of `token`, which is not empty, replaced.
abbrev pub replace_first : Bytes → Bytes → Bytes → Bytes
replace_first token by [] = []
replace_first token by (c ∷ s) =
    let later = c ∷ replace_first token by s in
    if starts_with token (c ∷ s) then by ++ drop (length token) (c ∷ s) else later
