-- ===== src/Tests/Buffers.antt =====
-- A small decoder in place of the Erlang interface library: a buffer is a list of cells, one for each
-- header, atom, text and number, and an index counts cells.
use swm_core.Prelude.{ℕ, zero, suc, ◌+◌, List, [], ◌∷◌, Option, none, some, Bytes, ℤ, pos}
use swm_core.Ei.{Ei}
use swm_core.Ei.Tag.{
  small_integer_ext, map_ext, float_ext, atom_ext, small_tuple_ext, nil_ext, list_ext, string_ext,
  binary_ext,
}

pub data Cell : Type 0 where
  tuple_cell list_cell map_cell : ℕ → Cell
  atom_cell text_cell bin_cell : Bytes → Cell
  int_cell : ℤ → Cell
  float_cell : ℕ → Cell
  nil_cell : Cell

abbrev cell : List Cell → ℕ → Option Cell
cell [] i = none
cell (c ∷ cs) zero = some c
cell (c ∷ cs) (suc i) = cell cs i

abbrev tag : Cell → ℕ
tag (tuple_cell n) = small_tuple_ext
tag (list_cell n) = list_ext
tag (map_cell n) = map_ext
tag (atom_cell s) = atom_ext
tag (text_cell s) = string_ext
tag (bin_cell s) = binary_ext
tag (int_cell z) = small_integer_ext
tag (float_cell d) = float_ext
tag nil_cell = nil_ext

-- What a cell gives if it is of the kind.
abbrev of_cell : {A : Type 0} → (Cell → Option A) → List Cell → ℕ → Option (A × ℕ)
of_cell f b i = elim (cell b i) [
  | none ↦ none
  | some c ↦ elim (f c) [ none ↦ none | some a ↦ some (a, i + 1) ]
]

abbrev tuple_size : Cell → Option ℕ
tuple_size (tuple_cell n) = some n
tuple_size _ = none

abbrev list_size : Cell → Option ℕ
list_size (list_cell n) = some n
list_size nil_cell = some 0
list_size _ = none

abbrev map_size : Cell → Option ℕ
map_size (map_cell n) = some n
map_size _ = none

abbrev atom_text : Cell → Option Bytes
atom_text (atom_cell s) = some s
atom_text _ = none

abbrev string_text : Cell → Option Bytes
string_text (text_cell s) = some s
string_text _ = none

abbrev binary_text : Cell → Option Bytes
binary_text (bin_cell s) = some s
binary_text _ = none

abbrev number : Cell → Option ℤ
number (int_cell z) = some z
number _ = none

abbrev natural : Cell → Option ℕ
natural (int_cell (pos n)) = some n
natural _ = none

abbrev real : Cell → Option ℕ
real (float_cell d) = some d
real _ = none

-- The type of a cell, with the size 1.
abbrev type_of : List Cell → ℕ → Option (ℕ × ℕ)
type_of b i = elim (cell b i) [ none ↦ none | some c ↦ some (tag c, 1) ]

abbrev behind : List Cell → ℕ → Option ℕ
behind b i = elim (cell b i) [ none ↦ none | some c ↦ some (i + 1) ]

abbrev pub cells : Ei
cells = record {
  Buf = List Cell;
  Double = ℕ;
  of_bytes = λ s. bin_cell s ∷ [];
  get_type = type_of;
  print_term = λ b i. i + 1;
  skip_term = behind;
  copy_term = λ b i. some b;
  decode_version = λ b i. some (131, i);
  decode_tuple_header = of_cell tuple_size;
  decode_list_header = of_cell list_size;
  decode_map_header = of_cell map_size;
  decode_atom = of_cell atom_text;
  decode_string = of_cell string_text;
  decode_binary = of_cell binary_text;
  decode_iodata = of_cell binary_text;
  decode_ulong = of_cell natural;
  decode_long = of_cell number;
  decode_double = of_cell real;
}
