-- ===== src/Decode/Vectors.antt =====
-- Lists of values: the overloads for `std::vector` of c_src/lib/wm_entity_utils.cpp, and the lists of
-- entities. The last element of an Erlang list is the empty list, which is skipped at the end.
use swm_core.Prelude.{
  ℕ, zero, suc, ◌+◌, ◌-◌, ◌^◌, Bool, ◌||◌, List, [], ◌∷◌, ◌++◌, map, take, length, Option, none,
  some, ltb, ◌==◌, if◌then◌else◌, Bytes, ℤ, pos,
}
use swm_core.Ei.{Ei}
use swm_core.Ei.Tag.{list_ext, nil_ext, string_ext}
use swm_core.Decode.{
  Read, done, fails, term_type, is_type, is_tuple, skip, to_atom, to_str, to_uint64, to_int64,
  to_double, to_tuple_str_str, to_tuple_atom_str, to_tuple_atom_buff,
}

module _ {ℓ} {A : Type ℓ} where
  abbrev pub replicate : ℕ → A → List A
  replicate zero a = []
  replicate (suc n) a = a ∷ replicate n a

  -- `array.resize(n)`, with `d` in the new places.
  abbrev pub resize : ℕ → A → List A → List A
  resize n d xs = take n xs ++ replicate (n - length xs) d

  -- The loop over the array, each element in its place.
  unfoldable pub fill : (ℕ → A → Read A) → List A → ℕ → Read (List A)
  fill dec [] i = done i []
  fill dec (a ∷ as') i =
      let r = dec i a in
      let rest = fill dec as' r.index in
      if r.ok
      then record { ok = rest.ok; index = rest.index; value = r.value ∷ rest.value }
      else fails r.index (r.value ∷ as')

-- A byte of a `char`, which is signed, as a `uint64_t`.
unfoldable pub sign_extend : ℕ → ℕ
sign_extend c = if ltb c 128 then c else 2 ^ 64 - 256 + c

module _ (E : Ei) (b : E.Buf) where
  open E use {Buf, Double, get_type, skip_term, decode_list_header, decode_string}

  abbrev pub is_list : Option ℕ → Bool
  is_list t = is_type E b t list_ext || is_type E b t nil_ext

  -- The tail is skipped if all went well.
  unfoldable pub close {ℓ} : {A : Type ℓ} → Read A → Read A
  close r = if r.ok then done (skip E b r.index) r.value else r

  -- The header has been read.
  unfoldable pub elements {ℓ} : {A : Type ℓ} → A → (ℕ → A → Read A) → ℕ → ℕ → List A → Read (List A)
  unfolding fill close
  elements d dec size i old =
      if size == 0 then done i old else close (fill dec (resize size d old) i)

  unfoldable pub to_vector {ℓ} : {A : Type ℓ} → A → (ℕ → A → Read A) → ℕ → List A → Read (List A)
  unfolding elements
  to_vector d dec i old =
      if is_list (term_type E b i)
      then (elim (decode_list_header b i) [
        | none ↦ fails i old
        | some (size, j) ↦ elements d dec size j old
      ])
      else fails i old

  unfoldable pub to_strs : ℕ → List Bytes → Read (List Bytes)
  unfolding to_vector
  to_strs = to_vector [] (to_str E b)

  unfoldable to_atoms : ℕ → List Bytes → Read (List Bytes)
  unfolding to_vector
  to_atoms = to_vector [] (to_atom E b)

  unfoldable to_int64s : ℕ → List ℤ → Read (List ℤ)
  unfolding to_vector
  to_int64s = to_vector (pos 0) (to_int64 E b)

  unfoldable to_doubles : Double → ℕ → List Double → Read (List Double)
  unfolding to_vector
  to_doubles zero_d = to_vector zero_d (to_double E b)

  unfoldable pub to_tuples_str_str : ℕ → List (Bytes × Bytes) → Read (List (Bytes × Bytes))
  unfolding to_vector
  to_tuples_str_str = to_vector ([], []) (to_tuple_str_str E b)

  unfoldable pub to_tuples_atom_str : ℕ → List (Bytes × Bytes) → Read (List (Bytes × Bytes))
  unfolding to_vector
  to_tuples_atom_str = to_vector ([], []) (to_tuple_atom_str E b)

  unfoldable pub to_tuples_atom_buff :
      ℕ → List (Bytes × Option Buf) → Read (List (Bytes × Option Buf))
  unfolding to_vector
  to_tuples_atom_buff = to_vector ([], none) (to_tuple_atom_buff E b)

  -- Erlang packs a list of small integers as a string.
  unfoldable pub to_uint64s : ℕ → List ℕ → Read (List ℕ)
  unfolding to_vector sign_extend
  to_uint64s i old = elim (get_type b i) [
    | none ↦ fails i old
    | some (type, size) ↦
        if type == string_ext
        then (elim (decode_string b i) [
          | none ↦ fails i (resize size 0 old)
          | some (s, j) ↦ done j (map sign_extend s)
        ])
        else to_vector 0 (to_uint64 E b) i old
  ]

  -- The loop over the elements of a list of entities, each made where its tuple stands. A term that
  -- is no tuple is reported, and not skipped.
  unfoldable pub entities {ℓ} : {A : Type ℓ} → (ℕ → ℕ × A) → ℕ → ℕ → List A → Read (List A)
  entities make zero i old = done (skip E b i) old
  entities make (suc n) i old =
      let (j, a) = make i in
      let tuple = is_tuple E b (term_type E b i) in
      let rest = entities make n (if tuple then j else i) (if tuple then old ++ a ∷ [] else old) in
      elim (get_type b i) [ none ↦ fails i old | some t ↦ rest ]

  unfoldable pub to_entities {ℓ} : {A : Type ℓ} → (ℕ → ℕ × A) → ℕ → List A → Read (List A)
  unfolding entities
  to_entities make i old =
      if is_list (term_type E b i)
      then (elim (decode_list_header b i) [
        | none ↦ fails i old
        | some (size, j) ↦ if size == 0 then done j old else entities make size j old
      ])
      else fails i old

  -- A field of an entity, and those behind it. A field that cannot be read is printed.
  abbrev pub field {ℓ κ} : {A : Type ℓ} {B : Type κ} → Read A → (A → B) → (ℕ → B → Read B) → Read B
  field r put next =
      if r.ok then next r.index (put r.value) else fails (E.print_term b r.index) (put r.value)

  -- An entity: the tuple's header, the name of the record, and the fields. A failure ends the
  -- constructor, with the fields as they are.
  unfoldable pub entity {ℓ} : {A : Type ℓ} → (ℕ → A → Read A) → A → ℕ → ℕ × A
  entity fields blank i = elim (E.decode_tuple_header b i) [
    | none ↦ (E.print_term b i, blank)
    | some (size, j) ↦ elim (skip_term b j) [
      | none ↦ (E.print_term b j, blank)
      | some k ↦ let r = fields k blank in (r.index, r.value)
    ]
  ]
