-- ===== src/Privileges.antt =====
-- Dropping the privileges of root: c_src/porter/wm_porter_priv.cpp.
pub mod Dropped
use swm_core.Prelude.{
  ℕ, Bool, true, false, List, [], ◌∷◌, Option, none, some, ◌==◌, if◌then◌else◌, Bytes,
}

-- The identity of a process: real, effective and saved ids, and the supplementary groups.
pub record Credentials : Type 0 where
  pub ruid : ℕ
  pub euid : ℕ
  pub suid : ℕ
  pub rgid : ℕ
  pub egid : ℕ
  pub sgid : ℕ
  pub groups : List ℕ

-- The system calls: `none` is -1, and then nothing has changed.
pub record Calls : Type 0 where
  pub initgroups : Bytes → ℕ → Credentials → Option Credentials
  pub setregid : ℕ → ℕ → Credentials → Option Credentials
  pub setreuid : ℕ → ℕ → Credentials → Option Credentials

-- The group is set: the user.
set_user : Calls → ℕ → Credentials → Bool × Credentials
set_user k uid c = elim (k.setreuid uid uid c) [ none ↦ (false, c) | some d ↦ (true, d) ]

-- The groups are set: the group.
set_group : Calls → ℕ → ℕ → Credentials → Bool × Credentials
unfolding set_user
set_group k uid gid c = elim (k.setregid gid gid c) [
  | none ↦ (false, c)
  | some d ↦ set_user k uid d
]

set_groups : Calls → Bytes → ℕ → ℕ → Credentials → Bool × Credentials
unfolding set_group
set_groups k name uid gid c =
    if c.euid == 0
    then (elim (k.initgroups name gid c) [ none ↦ (false, c) | some d ↦ set_group k uid gid d ])
    else set_group k uid gid c

-- The answer, true for 0, and who the process is then. `none` is a null name.
unfoldable pub drop_privileges : Calls → Option Bytes → ℕ → ℕ → Credentials → Bool × Credentials
unfolding set_groups
drop_privileges k none uid gid c = (false, c)
drop_privileges k (some []) uid gid c = (false, c)
drop_privileges k (some (a ∷ name)) uid gid c = set_groups k (a ∷ name) uid gid c
