-- ===== src/Ei/Tag.antt =====
-- The tags of the external term format, as ei.h numbers them.
use swm_core.Prelude.{ℕ}

abbrev pub small_integer_ext : ℕ
small_integer_ext = 97

abbrev pub integer_ext : ℕ
integer_ext = 98

abbrev pub float_ext : ℕ
float_ext = 99

abbrev pub atom_ext : ℕ
atom_ext = 100

abbrev pub small_tuple_ext : ℕ
small_tuple_ext = 104

abbrev pub large_tuple_ext : ℕ
large_tuple_ext = 105

abbrev pub nil_ext : ℕ
nil_ext = 106

abbrev pub string_ext : ℕ
string_ext = 107

abbrev pub list_ext : ℕ
list_ext = 108

abbrev pub binary_ext : ℕ
binary_ext = 109

abbrev pub small_big_ext : ℕ
small_big_ext = 110

abbrev pub large_big_ext : ℕ
large_big_ext = 111

abbrev pub small_atom_ext : ℕ
small_atom_ext = 115

abbrev pub atom_utf8_ext : ℕ
atom_utf8_ext = 118

abbrev pub small_atom_utf8_ext : ℕ
small_atom_utf8_ext = 119

abbrev pub map_ext : ℕ
map_ext = 116
