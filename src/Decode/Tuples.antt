-- ===== src/Decode/Tuples.antt =====
-- What it means that a buffer holds a pair, a list of pairs, or a map.
use swm_core.Prelude.{ℕ, List, [], length, Option, none, some, ◌≡◌, inl, inr, arith, Bytes}
use swm_core.Ei.{Ei}
use swm_core.Decode.{
  done, term_type, tuple_header, pair, to_buff, to_tuple_str_str, to_tuple_atom_str,
  to_tuple_atom_buff,
}
use swm_core.Decode.Vectors.{to_tuples_str_str, to_tuples_atom_str, to_tuples_atom_buff}
use swm_core.Decode.Terms.{
  IsAtom, IsText, IsTuple, IsListOf, to_atom-IsAtom, to_str-IsText, skip_lem, to_vector-IsListOf,
}
use swm_core.Decode.Maps.{to_map, AreEntries, to_map-AreEntries}

module _ (E : Ei) (b : E.Buf) where
  -- A tuple of two elements, the first of them at `k`.
  abbrev pub IsPairAt : ℕ → ℕ → Type 0
  IsPairAt i k = IsTuple E b i × (E.decode_tuple_header b i ≡ some (2, k))

  abbrev pub IsTextPair : Bytes × Bytes → ℕ → ℕ → Type 0
  IsTextPair (x, y) i j = (k : ℕ) × (l : ℕ) × IsPairAt i k × IsText E b x k l × IsText E b y l j

  abbrev pub IsNamedText : Bytes × Bytes → ℕ → ℕ → Type 0
  IsNamedText (x, y) i j = (k : ℕ) × (l : ℕ) × IsPairAt i k × IsAtom E b x k l × IsText E b y l j

  -- The bytes of the term from `i` to `j`, as a buffer of their own.
  abbrev pub IsCopy : Option E.Buf → ℕ → ℕ → Type 0
  IsCopy c i j =
      (d : E.Buf) × (c ≡ some d) × (E.copy_term b i ≡ some d) × (E.skip_term b i ≡ some j)

  abbrev pub IsNamedTerm : Bytes × Option E.Buf → ℕ → ℕ → Type 0
  IsNamedTerm (x, c) i j = (k : ℕ) × (l : ℕ) × IsPairAt i k × IsAtom E b x k l × IsCopy c l j

  tuple_header-IsPairAt : (i k : ℕ) → IsPairAt i k → tuple_header E b i ≡ done k 2
  unfolding tuple_header term_type
  tuple_header-IsPairAt i k (inl (size, t), h) = ground arith
  tuple_header-IsPairAt i k (inr (size, t), h) = ground arith

  to_buff-IsCopy : (c : Option E.Buf) (i j : ℕ) → IsCopy c i j → to_buff E b i none ≡ done j c
  unfolding to_buff
  to_buff-IsCopy c i j (d, e, copy, skipped) = rw (copy, to_buff) (rw (e, skip_lem E b i j skipped))

  to_tuple_str_str-IsTextPair :
      (p : Bytes × Bytes) (i j : ℕ) → IsTextPair p i j → to_tuple_str_str E b i ([], []) ≡ done j p
  unfolding to_tuple_str_str pair
  to_tuple_str_str-IsTextPair (x, y) i j (k, l, h, hx, hy) =
      rw (tuple_header-IsPairAt i k h) (rw (to_str-IsText E b x k l hx, to_str-IsText E b y l j hy))

  to_tuple_atom_str-IsNamedText :
      (p : Bytes × Bytes) (i j : ℕ)
      → IsNamedText p i j
      → to_tuple_atom_str E b i ([], []) ≡ done j p
  unfolding to_tuple_atom_str pair
  to_tuple_atom_str-IsNamedText (x, y) i j (k, l, h, hx, hy) =
      rw (tuple_header-IsPairAt i k h)
        (rw (to_atom-IsAtom E b x [] k l hx, to_str-IsText E b y l j hy))

  to_tuple_atom_buff-IsNamedTerm :
      (p : Bytes × Option E.Buf) (i j : ℕ)
      → IsNamedTerm p i j
      → to_tuple_atom_buff E b i ([], none) ≡ done j p
  unfolding to_tuple_atom_buff pair
  to_tuple_atom_buff-IsNamedTerm (x, c) i j (k, l, h, hx, hc) =
      rw (tuple_header-IsPairAt i k h)
        (rw (to_atom-IsAtom E b x [] k l hx, to_buff-IsCopy c l j hc))

  pub to_tuples_str_str-IsListOf :
      (ps : List (Bytes × Bytes)) (i j : ℕ)
      → IsListOf E b IsTextPair ps i j
      → to_tuples_str_str E b i [] ≡ done j ps
  unfolding to_tuples_str_str
  to_tuples_str_str-IsListOf =
      to_vector-IsListOf E b IsTextPair ([], []) (to_tuple_str_str E b) to_tuple_str_str-IsTextPair

  pub to_tuples_atom_str-IsListOf :
      (ps : List (Bytes × Bytes)) (i j : ℕ)
      → IsListOf E b IsNamedText ps i j
      → to_tuples_atom_str E b i [] ≡ done j ps
  unfolding to_tuples_atom_str
  to_tuples_atom_str-IsListOf =
      to_vector-IsListOf E b IsNamedText ([], []) (to_tuple_atom_str E b)
        to_tuple_atom_str-IsNamedText

  pub to_tuples_atom_buff-IsListOf :
      (ps : List (Bytes × Option E.Buf)) (i j : ℕ)
      → IsListOf E b IsNamedTerm ps i j
      → to_tuples_atom_buff E b i [] ≡ done j ps
  unfolding to_tuples_atom_buff
  to_tuples_atom_buff-IsListOf =
      to_vector-IsListOf E b IsNamedTerm ([], none) (to_tuple_atom_buff E b)
        to_tuple_atom_buff-IsNamedTerm

  module _ (zero_d : E.Double) (print_double : E.Double → Bytes) where
    -- A map with different keys from `i` to `j`.
    abbrev pub IsMap : List (Bytes × Bytes) → ℕ → ℕ → Type 0
    IsMap es i j =
        (k : ℕ) × (E.decode_map_header b i ≡ some (length es, k))
        × AreEntries E b zero_d print_double [] es k j

    pub to_map-IsMap :
        (es : List (Bytes × Bytes)) (i j : ℕ)
        → IsMap es i j
        → to_map E b zero_d print_double i [] ≡ done j es
    to_map-IsMap es i j (k, h, held) = to_map-AreEntries E b zero_d print_double es i k j h held
