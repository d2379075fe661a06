-- ===== src/Decode/Maps.antt =====
-- Maps from texts to texts: `ei_buffer_to_map` of c_src/lib/wm_entity_utils.cpp. A std::map is the list
-- of its entries in the order in which they came.
use swm_core.Prelude.{
  ℕ, zero, suc, false, ◌||◌, List, [], ◌∷◌, ◌++◌, append_assoc, append-nil, length, none, some,
  if◌then◌else◌, ◌≡◌, refl, ◌∙◌, ap, Bytes, bytes_eq, ℤ, pos, All,
}
use swm_core.Numbers.{print_int}
use swm_core.Ei.{Ei}
use swm_core.Ei.Tag.{
  small_integer_ext, float_ext, atom_ext, nil_ext, list_ext, string_ext, large_big_ext,
}
use swm_core.Decode.{
  Read, done, fails, term_type, is_type, is_integer, skip, to_atom, to_str, to_int64, to_double,
}
use swm_core.Decode.Terms.{
  HasType, IsAtom, IsText, IsSigned, IsFloat, to_atom-IsAtom, to_str-IsText, to_int64-IsSigned,
  to_double-IsFloat, skip_lem,
}

-- `data.emplace`: a key that is there keeps its value.
unfoldable emplace : Bytes → Bytes → List (Bytes × Bytes) → List (Bytes × Bytes)
emplace k v [] = (k, v) ∷ []
emplace k v ((j, w) ∷ m) =
    let later = (j, w) ∷ emplace k v m in if bytes_eq j k then (j, w) ∷ m else later

-- A key that is new.
abbrev IsFresh : Bytes → List (Bytes × Bytes) → Type 0
IsFresh k = All (λ e. bytes_eq e.0 k ≡ false)

emplace-IsFresh :
    (k v : Bytes) (m : List (Bytes × Bytes)) → IsFresh k m → emplace k v m ≡ m ++ (k, v) ∷ []
unfolding emplace
emplace-IsFresh k v [] h = refl
emplace-IsFresh k v ((j, w) ∷ m) (h, hs) = rw (h, emplace-IsFresh k v m hs)

-- A value that was read, as the text that stands for it.
abbrev printed : {A : Type 0} → (A → Bytes) → Read A → Read Bytes
printed f r = record { ok = r.ok; index = r.index; value = f r.value }

-- `print_double` is std::to_string, `zero_d` is 0.0.
module _ (E : Ei) (b : E.Buf) (zero_d : E.Double) (print_double : E.Double → Bytes) where
  -- The switch over the type of a value. A value of another type gives no text and is not skipped.
  unfoldable map_value : ℕ → Read Bytes
  map_value i =
      let t = term_type E b i in
      if is_type E b t atom_ext
      then to_atom E b i []
      else if is_type E b t float_ext
      then printed print_double (to_double E b i zero_d)
      else if is_integer E b t || is_type E b t large_big_ext
      then printed print_int (to_int64 E b i (pos 0))
      else if is_type E b t list_ext || is_type E b t string_ext
      then to_str E b i []
      else if is_type E b t nil_ext
      then done (skip E b i) []
      else done i []

  -- One entry: its key and its value.
  unfoldable entry : ℕ → List (Bytes × Bytes) → Read (List (Bytes × Bytes))
  unfolding map_value emplace
  entry i old =
      let k = to_str E b i [] in
      let v = map_value k.index in
      if k.ok
      then (if v.ok then done v.index (emplace k.value v.value old) else fails v.index old)
      else fails k.index old

  unfoldable entries : ℕ → ℕ → List (Bytes × Bytes) → Read (List (Bytes × Bytes))
  unfolding entry
  entries zero i old = done i old
  entries (suc n) i old =
      let r = entry i old in
      let rest = entries n r.index r.value in if r.ok then rest else fails r.index r.value

  pub to_map : ℕ → List (Bytes × Bytes) → Read (List (Bytes × Bytes))
  unfolding entries
  to_map i old = elim (E.decode_map_header b i) [
    | none ↦ fails i old
    | some (size, j) ↦ entries size j old
  ]

  -- A value and its text.
  pub data IsValue (s : Bytes) (i j : ℕ) : Type 0 where
    atom_value : IsAtom E b s i j → IsValue s i j
    float_value : (d : E.Double) → IsFloat E b d i j → s ≡ print_double d → IsValue s i j
    number_value :
        (z : ℤ)
        → HasType E b i small_integer_ext
        → IsSigned E b z i j
        → s ≡ print_int z
        → IsValue s i j
    text_value : HasType E b i string_ext → IsText E b s i j → IsValue s i j
    no_value : HasType E b i nil_ext → E.skip_term b i ≡ some j → s ≡ [] → IsValue s i j

  -- Entries from `i` to `j`, each with a key that no earlier one has.
  pub data AreEntries : List (Bytes × Bytes) → List (Bytes × Bytes) → ℕ → ℕ → Type 0 where
    stop : {old : List (Bytes × Bytes)} (i : ℕ) → AreEntries old [] i i
    next :
        {old rest : List (Bytes × Bytes)} {k v : Bytes} {i j : ℕ} (l m : ℕ)
        → IsText E b k i l
        → IsValue v l m
        → IsFresh k old
        → AreEntries (old ++ (k, v) ∷ []) rest m j
        → AreEntries old ((k, v) ∷ rest) i j

  term_type_lem : (i t : ℕ) → HasType E b i t → term_type E b i ≡ some t
  unfolding term_type
  term_type_lem i t (size, h) = rw (h, term_type)

  map_value-IsValue : (s : Bytes) (i j : ℕ) → IsValue s i j → map_value i ≡ done j s
  unfolding map_value
  map_value-IsValue s i j (atom_value a) =
      rw (term_type_lem i atom_ext a.0) (to_atom-IsAtom E b s [] i j a)
  map_value-IsValue s i j (float_value x f e) =
      rw (term_type_lem i float_ext f.0, to_double-IsFloat E b x zero_d i j f, e)
  map_value-IsValue s i j (number_value z t n e) =
      rw (term_type_lem i small_integer_ext t, to_int64-IsSigned E b z (pos 0) i j n, e)
  map_value-IsValue s i j (text_value t x) =
      rw (term_type_lem i string_ext t) (to_str-IsText E b s i j x)
  map_value-IsValue s i j (no_value t k e) = rw (term_type_lem i nil_ext t, skip_lem E b i j k, e)

  entry-IsValue :
      (k v : Bytes) (old : List (Bytes × Bytes)) (i l m : ℕ)
      → IsText E b k i l
      → IsValue v l m
      → IsFresh k old
      → entry i old ≡ done m (old ++ (k, v) ∷ [])
  unfolding entry
  entry-IsValue k v old i l m hk hv fresh =
      rw (to_str-IsText E b k i l hk, map_value-IsValue v l m hv, emplace-IsFresh k v old fresh)

  entries-AreEntries :
      (es old : List (Bytes × Bytes)) (i j : ℕ)
      → AreEntries old es i j
      → entries (length es) i old ≡ done j (old ++ es)
  unfolding entries
  entries-AreEntries [] old i j (stop _) = rw append-nil
  entries-AreEntries ((k, v) ∷ es) old i j (next l m hk hv fresh rest) =
      rw (entry-IsValue k v old i l m hk hv fresh) (
        entries-AreEntries es (old ++ (k, v) ∷ []) m j rest
        ∙ ap (done j) (append_assoc old ((k, v) ∷ []) es))

  -- Reading a map with different keys into an empty one gives its entries, atoms, floats and small
  -- integers as the texts that stand for them, and the index behind it; the values are atoms, floats,
  -- small integers, strings or empty lists.
  pub to_map-AreEntries :
      (es : List (Bytes × Bytes)) (i k j : ℕ)
      → E.decode_map_header b i ≡ some (length es, k)
      → AreEntries [] es k j
      → to_map i [] ≡ done j es
  unfolding to_map
  to_map-AreEntries es i k j h held = rw (h, to_map) (entries-AreEntries es [] k j held)
