-- ===== src/SafeFile/Exclusive.antt =====
-- What `safe_write_exclusive` promises.
use swm_core.Prelude.{ℕ, Bool, true, false, ◌||◌, not, List, [], ◌∷◌, ◌++◌, Bytes, ◌≡◌}
use swm_core.SafeFile.{
  OpenFlags, Owner, open_flags, slash, Effect, create, fill, fchmod, fchown, close, Os,
  owner_matters,
}

-- The calls on a file that stays.
abbrev pub kept_file : Bytes → Bytes → Owner → List Effect
kept_file path content o =
    create path open_flags o.mode ∷ fill content ∷ fchmod o.mode ∷ fchown o.uid o.gid ∷ close ∷ []

-- The path that a call of `safe_write_exclusive` names.
abbrev pub path_of : Bytes → Bytes → Bytes
path_of dir name = dir ++ slash ∷ name

-- A file that stays.
record Kept (os : Os) (path content : Bytes) (o : Owner) (p : Bytes) (es : List Effect)
    : Type 0 where
  same_path : p ≡ path
  calls : es ≡ fill content ∷ fchmod o.mode ∷ fchown o.uid o.gid ∷ close ∷ []
  mode : os.fchmod_ok ≡ true
  owner : (os.fchown_ok || not (owner_matters os.euid o.uid)) ≡ true
  closed : os.close_ok ≡ true

-- A file that was created and stays.
record Created (os : Os) (path content : Bytes) (o : Owner) (p : Bytes) (es : List Effect)
    : Type 0 where
  opened : os.open_ok path open_flags o.mode ≡ true
  rest : List Effect
  first : es ≡ create path open_flags o.mode ∷ rest
  kept : Kept os path content o p rest

-- What open(2) promises: with O_CREAT and O_EXCL it does not succeed on a path where something is, be it
-- a symbolic link.
abbrev pub OpenDocumented : Os → (Bytes → Bool) → Type 0
OpenDocumented os exists =
    (path : Bytes) (flags : OpenFlags) (mode : ℕ)
    → flags.o_creat ≡ true
    → flags.o_excl ≡ true
    → os.open_ok path flags mode ≡ true
    → exists path ≡ false
