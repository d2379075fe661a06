-- ===== src/Decode/Terms.antt =====
-- Erlang terms, and what it means that a buffer holds one, in the words of the library: the type that
-- it reports, and what its decoders give.
use swm_core.Prelude.{
  ℕ, zero, suc, true, false, List, [], ◌∷◌, ◌++◌, length, append_assoc, append-nil, some, ◌==◌, ◌≡◌,
  ◌⊎◌, inl, inr, refl, arith, Bytes, ℤ, All, ltb, map,
}
use swm_core.Ei.{Ei}
use swm_core.Ei.Tag.{
  small_integer_ext, integer_ext, float_ext, atom_ext, small_tuple_ext, large_tuple_ext, nil_ext,
  list_ext, string_ext, binary_ext, small_big_ext,
}
use swm_core.Decode.{
  Read, done, c_string, term_type, skip, to_atom, to_str, to_uint64, to_int64, to_double,
}
use swm_core.Decode.Vectors.{
  replicate, resize, fill, close, elements, to_vector, entities, to_entities, entity, to_strs,
  to_uint64s, sign_extend,
}

module _ (E : Ei) (b : E.Buf) where
  -- The type of the term at `i`.
  abbrev pub HasType : ℕ → ℕ → Type 0
  HasType i t = (size : ℕ) × (E.get_type b i ≡ some (t, size))

  -- An atom from `i` to `j`, its text without zero bytes.
  abbrev pub IsAtom : Bytes → ℕ → ℕ → Type 0
  IsAtom s i j = HasType i atom_ext × (E.decode_atom b i ≡ some (s, j)) × (c_string s ≡ s)

  -- A text: a binary, a string, or the empty list for the empty text.
  pub data IsText (s : Bytes) (i j : ℕ) : Type 0 where
    binary :
        HasType i binary_ext → E.decode_iodata b i ≡ some (s, j) → c_string s ≡ s → IsText s i j
    string :
        HasType i string_ext → E.decode_string b i ≡ some (s, j) → c_string s ≡ s → IsText s i j
    empty : HasType i nil_ext → E.skip_term b i ≡ some j → s ≡ [] → IsText s i j

  -- A type of integers of up to 64 bits.
  pub data IsIntegerType (i : ℕ) : Type 0 where
    small : HasType i small_integer_ext → IsIntegerType i
    plain : HasType i integer_ext → IsIntegerType i
    big : HasType i small_big_ext → IsIntegerType i

  abbrev pub IsUnsigned : ℕ → ℕ → ℕ → Type 0
  IsUnsigned n i j = IsIntegerType i × (E.decode_ulong b i ≡ some (n, j))

  abbrev pub IsSigned : ℤ → ℕ → ℕ → Type 0
  IsSigned z i j = IsIntegerType i × (E.decode_long b i ≡ some (z, j))

  abbrev pub IsFloat : E.Double → ℕ → ℕ → Type 0
  IsFloat d i j = HasType i float_ext × (E.decode_double b i ≡ some (d, j))

  -- Values that follow one another from `i` to `j`.
  pub data AreHeld {A : Type 0} (Held : A → ℕ → ℕ → Type 0) : List A → ℕ → ℕ → Type 0 where
    stop : (i : ℕ) → AreHeld Held [] i i
    next :
        {a : A} {as' : List A} {i j k : ℕ}
        → Held a i j
        → AreHeld Held as' j k
        → AreHeld Held (a ∷ as') i k

  -- A list from `i` to `j`: the empty one, or a header, the elements, and the empty list as the tail.
  pub data IsListOf {A : Type 0} (Held : A → ℕ → ℕ → Type 0) (as' : List A) (i j : ℕ) : Type 0 where
    nil :
        HasType i nil_ext
        → E.decode_list_header b i ≡ some (0, j)
        → as' ≡ []
        → IsListOf Held as' i j
    cons :
        (k m : ℕ)
        → HasType i list_ext
        → E.decode_list_header b i ≡ some (length as', k)
        → (length as' == 0) ≡ false
        → AreHeld Held as' k m
        → E.skip_term b m ≡ some j
        → IsListOf Held as' i j

  -- A tuple's type.
  abbrev pub IsTuple : ℕ → Type 0
  IsTuple i = HasType i small_tuple_ext ⊎ HasType i large_tuple_ext

  -- A record from `i` to `j`: a tuple with the record's name first, and the fields from `k` on.
  abbrev pub IsEntity : ℕ → ℕ → Type 0
  IsEntity i k =
      IsTuple i
      × (size : ℕ) × (m : ℕ) × (E.decode_tuple_header b i ≡ some (size, m))
      × (E.skip_term b m ≡ some k)

  pub to_atom-IsAtom : (s old : Bytes) (i j : ℕ) → IsAtom s i j → to_atom E b i old ≡ done j s
  unfolding to_atom
  to_atom-IsAtom s old i j ((size, t), d, c) = ground arith

  pub to_str-IsText : (s : Bytes) (i j : ℕ) → IsText s i j → to_str E b i [] ≡ done j s
  unfolding to_str
  to_str-IsText s i j (binary (size, t) d c) = ground arith
  to_str-IsText s i j (string (size, t) d c) = ground arith
  to_str-IsText s i j (empty (size, t) d c) = ground arith

  pub to_uint64-IsUnsigned : (n old i j : ℕ) → IsUnsigned n i j → to_uint64 E b i old ≡ done j n
  unfolding to_uint64
  to_uint64-IsUnsigned n old i j (small (size, t), d) = ground arith
  to_uint64-IsUnsigned n old i j (plain (size, t), d) = ground arith
  to_uint64-IsUnsigned n old i j (big (size, t), d) = ground arith

  pub to_int64-IsSigned : (z old : ℤ) (i j : ℕ) → IsSigned z i j → to_int64 E b i old ≡ done j z
  unfolding to_int64
  to_int64-IsSigned z old i j (small (size, t), d) = ground arith
  to_int64-IsSigned z old i j (plain (size, t), d) = ground arith
  to_int64-IsSigned z old i j (big (size, t), d) = ground arith

  pub to_double-IsFloat :
      (x old : E.Double) (i j : ℕ) → IsFloat x i j → to_double E b i old ≡ done j x
  unfolding to_double
  to_double-IsFloat x old i j ((size, t), d) = ground arith

  pub skip_lem : (i j : ℕ) → E.skip_term b i ≡ some j → skip E b i ≡ j
  unfolding skip
  skip_lem i j s = rw (skip, s)

  module _ {A : Type 0} (Held : A → ℕ → ℕ → Type 0) (d : A) (dec : ℕ → A → Read A)
      (dec_lem : (a : A) (i j : ℕ) → Held a i j → dec i d ≡ done j a) where
    fill-AreHeld :
        (as' : List A) (i j : ℕ)
        → AreHeld Held as' i j
        → fill dec (replicate (length as') d) i ≡ done j as'
    unfolding fill
    fill-AreHeld [] i j (stop _) = refl
    fill-AreHeld (a ∷ as') i j (next {j = m} h hs) = rw (dec_lem a i m h, fill-AreHeld as' m j hs)

    resize-[] : (n : ℕ) → resize n d [] ≡ replicate n d
    resize-[] zero = refl
    resize-[] (suc n) = ground arith

    elements-AreHeld :
        (as' : List A) (i k j : ℕ)
        → (length as' == 0) ≡ false
        → AreHeld Held as' i k
        → E.skip_term b k ≡ some j
        → elements E b d dec (length as') i [] ≡ done j as'
    unfolding elements close
    elements-AreHeld as' i k j some_left held tail =
        rw (some_left, resize-[] (length as'), fill-AreHeld as' i k held, skip_lem k j tail)

    -- Reading a list into an empty vector gives its elements in their order, and the index behind it.
    pub to_vector-IsListOf :
        (as' : List A) (i j : ℕ) → IsListOf Held as' i j → to_vector E b d dec i [] ≡ done j as'
    unfolding to_vector term_type
    to_vector-IsListOf as' i j (nil (size, t) header none_left) = ground arith
    to_vector-IsListOf as' i j (cons k m (size, t) header some_left held tail) =
        ground (arith, elements-AreHeld as' k m j some_left held tail)

  -- A list of texts.
  abbrev pub IsTexts : List Bytes → ℕ → ℕ → Type 0
  IsTexts = IsListOf IsText

  -- A list of numbers: a list of integers, or a string of numbers below 128.
  pub data IsNumbers (ns : List ℕ) (i j : ℕ) : Type 0 where
    plain :
        (t : ℕ)
        → HasType i t
        → (t == string_ext) ≡ false
        → IsListOf IsUnsigned ns i j
        → IsNumbers ns i j
    packed :
        HasType i string_ext
        → E.decode_string b i ≡ some (ns, j)
        → All (λ n. ltb n 128 ≡ true) ns
        → IsNumbers ns i j

  pub to_strs-IsTexts : (ss : List Bytes) (i j : ℕ) → IsTexts ss i j → to_strs E b i [] ≡ done j ss
  unfolding to_strs
  to_strs-IsTexts = to_vector-IsListOf IsText [] (to_str E b) to_str-IsText

  sign_extend-small : (ns : List ℕ) → All (λ n. ltb n 128 ≡ true) ns → map sign_extend ns ≡ ns
  unfolding sign_extend
  sign_extend-small [] h = refl
  sign_extend-small (n ∷ ns) (h, hs) = rw (h, sign_extend-small ns hs)

  pub to_uint64s-IsNumbers :
      (ns : List ℕ) (i j : ℕ) → IsNumbers ns i j → to_uint64s E b i [] ≡ done j ns
  unfolding to_uint64s term_type
  to_uint64s-IsNumbers ns i j (plain t (size, h) no_string list) = ground (
    arith,
    to_vector-IsListOf IsUnsigned 0 (to_uint64 E b) (λ n. to_uint64-IsUnsigned n 0) ns i j list,
  )
  to_uint64s-IsNumbers ns i j (packed (size, h) d below) =
      ground (arith, sign_extend-small ns below)

  -- The constructor's prologue: what is left are the fields.
  pub entity-IsEntity :
      {A : Type 0} (fields : ℕ → A → Read A) (blank o : A) (i j k : ℕ)
      → IsEntity i k
      → fields k blank ≡ done j o
      → entity E b fields blank i ≡ (j, o)
  unfolding entity
  entity-IsEntity fields blank o i j k (t, size, m, h, s) f = ground (arith, h, s, f)

  module _ {A : Type 0} (Held : A → ℕ → ℕ → Type 0) (make : ℕ → ℕ × A)
      (make_lem : (a : A) (i j : ℕ) → Held a i j → make i ≡ (j, a))
      (tuple_lem : (a : A) (i j : ℕ) → Held a i j → IsTuple i) where
    entities_next :
        (a : A) (as' old : List A) (i k j m : ℕ)
        → make i ≡ (m, a)
        → IsTuple i
        → entities E b make (length as') m (old ++ a ∷ []) ≡ done j ((old ++ a ∷ []) ++ as')
        → entities E b make (suc (length as')) i old ≡ done j (old ++ a ∷ as')
    unfolding entities term_type
    entities_next a as' old i k j m made (inl (size, t)) rest =
        ground (arith, t, made, rest, append_assoc old (a ∷ []) as')
    entities_next a as' old i k j m made (inr (size, t)) rest =
        ground (arith, t, made, rest, append_assoc old (a ∷ []) as')

    entities-AreHeld :
        (as' old : List A) (i k j : ℕ)
        → AreHeld Held as' i k
        → E.skip_term b k ≡ some j
        → entities E b make (length as') i old ≡ done j (old ++ as')
    unfolding entities term_type
    entities-AreHeld [] old i k j (stop _) tail = rw (skip_lem i j tail, append-nil old)
    entities-AreHeld (a ∷ as') old i k j (next {j = m} h hs) tail =
        entities_next a as' old i k j m (make_lem a i m h) (tuple_lem a i m h)
          (entities-AreHeld as' (old ++ a ∷ []) m k j hs tail)

    pub to_entities-IsListOf :
        (as' : List A) (i j : ℕ) → IsListOf Held as' i j → to_entities E b make i [] ≡ done j as'
    unfolding to_entities term_type
    to_entities-IsListOf as' i j (nil (size, t) header none_left) = ground arith
    to_entities-IsListOf as' i j (cons k m (size, t) header some_left held tail) =
        ground (arith, entities-AreHeld as' [] k m j held tail)
