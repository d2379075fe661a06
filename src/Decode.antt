-- ===== src/Decode.antt =====
-- Reading values out of an Erlang term: c_src/lib/wm_entity_utils.cpp. Each function has an index and a
-- value that it changes in place, and answers 0 or -1. Allocations succeed.
pub mod Vectors
pub mod Terms
pub mod Maps
pub mod Tuples
use swm_core.Prelude.{
  ℕ, zero, suc, Bool, true, false, ◌&&◌, ◌||◌, not, List, [], ◌∷◌, Option, none, some, ◌==◌,
  if◌then◌else◌, Bytes, until, ℤ, pos,
}
use swm_core.Ei.{Ei}
use swm_core.Ei.Tag.{
  small_integer_ext, integer_ext, float_ext, atom_ext, small_tuple_ext, large_tuple_ext, string_ext,
  binary_ext, small_big_ext,
}

-- The answer (true for 0), the index and the value.
pub record Read {ℓ} (A : Type ℓ) : Type ℓ where
  pub ok : Bool
  pub index : ℕ
  pub value : A

abbrev pub done {ℓ} : {A : Type ℓ} → ℕ → A → Read A
done i a = record { ok = true; index = i; value = a }

abbrev pub fails {ℓ} : {A : Type ℓ} → ℕ → A → Read A
fails i a = record { ok = false; index = i; value = a }

-- The next step, unless this one failed.
abbrev pub andthen {ℓ κ} : {A : Type ℓ} {B : Type κ} → Read A → (A → B) → (ℕ → A → Read B) → Read B
andthen r stop next = if r.ok then next r.index r.value else fails r.index (stop r.value)

-- `std::string(tmp)` ends at the first zero byte.
abbrev pub c_string : Bytes → Bytes
c_string = until 0

module _ (E : Ei) (b : E.Buf) where
  open E use {
    Buf, Double, get_type, print_term, skip_term, copy_term, decode_tuple_header, decode_atom,
    decode_string, decode_iodata, decode_ulong, decode_long, decode_double,
  }

  -- `get_term_type`; `none` is the answer -1.
  unfoldable term_type : ℕ → Option ℕ
  term_type i = elim (get_type b i) [ none ↦ none | some (type, size) ↦ some type ]

  abbrev pub is_type : Option ℕ → ℕ → Bool
  is_type none t = false
  is_type (some s) t = s == t

  -- `ei_skip_term` with its answer dropped.
  unfoldable skip : ℕ → ℕ
  skip i = elim (skip_term b i) [ none ↦ i | some j ↦ j ]

  -- A call of the library whose failure is the answer -1.
  abbrev pub or_fails {ℓ κ} : {A : Type ℓ} {B : Type κ} → Option (B × ℕ) → (B → A) → ℕ → A → Read A
  or_fails none f i old = fails i old
  or_fails (some (x, j)) f i old = done j (f x)

  pub to_atom : ℕ → Bytes → Read Bytes
  unfolding term_type
  to_atom i old =
      if is_type (term_type i) atom_ext
      then or_fails (decode_atom b i) c_string i old
      else fails i old

  str_of_type : ℕ → ℕ → Bytes → Read Bytes
  unfolding skip
  str_of_type type i old =
      if type == binary_ext
      then or_fails (decode_iodata b i) c_string i old
      else if type == string_ext
      then or_fails (decode_string b i) c_string i old
      else done (skip i) old

  -- A term that is no string is skipped, and leaves the value.
  pub to_str : ℕ → Bytes → Read Bytes
  unfolding str_of_type
  to_str i old = elim (get_type b i) [
    | none ↦ fails i old
    | some (type, size) ↦ str_of_type type i old
  ]

  abbrev pub is_integer : Option ℕ → Bool
  is_integer t = is_type t integer_ext || (is_type t small_integer_ext || is_type t small_big_ext)

  pub to_uint64 : ℕ → ℕ → Read ℕ
  unfolding term_type
  to_uint64 i old =
      if is_integer (term_type i) then or_fails (decode_ulong b i) (λ n. n) i old else fails i old

  pub to_int64 : ℕ → ℤ → Read ℤ
  unfolding term_type
  to_int64 i old =
      if is_integer (term_type i) then or_fails (decode_long b i) (λ n. n) i old else fails i old

  pub to_double : ℕ → Double → Read Double
  unfolding term_type
  to_double i old =
      if is_type (term_type i) float_ext
      then or_fails (decode_double b i) (λ n. n) i old
      else fails i old

  abbrev pub is_tuple : Option ℕ → Bool
  is_tuple t = is_type t small_tuple_ext || is_type t large_tuple_ext

  -- The header of a tuple, the arity as the value. A header that cannot be read is printed.
  unfoldable tuple_header : ℕ → Read ℕ
  unfolding term_type
  tuple_header i =
      if is_tuple (term_type i)
      then (elim (decode_tuple_header b i) [
        | none ↦ fails (print_term b i) 0
        | some (size, j) ↦ done j size
      ])
      else fails i 0

  -- Two elements, each in its place.
  unfoldable pair {ℓ κ} :
      {A : Type ℓ} {B : Type κ} → (ℕ → A → Read A) → (ℕ → B → Read B) → ℕ → A × B → Read (A × B)
  pair first second i (x, y) =
      andthen (first i x) (λ x'. (x', y))
        (λ j x'. let r = second j y in record { ok = r.ok; index = r.index; value = (x', r.value) })

  -- The size of the tuple is not looked at.
  unfoldable to_tuple_str_str : ℕ → Bytes × Bytes → Read (Bytes × Bytes)
  unfolding tuple_header pair to_str
  to_tuple_str_str i old =
      let h = tuple_header i in if h.ok then pair to_str to_str h.index old else fails h.index old

  unfoldable to_tuple_atom_str : ℕ → Bytes × Bytes → Read (Bytes × Bytes)
  unfolding tuple_header pair to_atom to_str
  to_tuple_atom_str i old =
      let h = tuple_header i in
      if h.ok
      then (if h.value == 2 then pair to_atom to_str h.index old else fails h.index old)
      else fails h.index old

  unfoldable to_tuple_atom_uint64 : ℕ → Bytes × ℕ → Read (Bytes × ℕ)
  unfolding tuple_header pair to_atom to_uint64
  to_tuple_atom_uint64 i old =
      let h = tuple_header i in
      if h.ok then pair to_atom to_uint64 h.index old else fails h.index old

  -- The second element as it stands in the buffer.
  unfoldable to_buff : ℕ → Option Buf → Read (Option Buf)
  unfolding skip
  to_buff i old = elim (copy_term b i) [ none ↦ fails i old | some c ↦ done (skip i) (some c) ]

  unfoldable to_tuple_atom_buff : ℕ → Bytes × Option Buf → Read (Bytes × Option Buf)
  unfolding tuple_header pair to_atom to_buff
  to_tuple_atom_buff i old =
      let h = tuple_header i in if h.ok then pair to_atom to_buff h.index old else fails h.index old
