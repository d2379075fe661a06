-- ===== src/Tests/Porter.antt =====
-- The relay and the privileges of the porter.
use swm_core.Prelude.{ℕ, true, List, [], ◌∷◌, some, ◌≡◌, refl, arith, Bytes, codes, map}
use swm_core.Relay.{Requests, bytes, read_all}
use swm_core.Relay.Framing.{relay, read_all-chunks}
use swm_core.Privileges.{Credentials, Calls, drop_privileges}
use swm_core.Privileges.Dropped.{Documented, identity, set_id, saved_id, drop_privileges_done}

abbrev nothing_pending : Requests
nothing_pending = record { pending = []; made = 0 }

-- A line in three reads, behind a part of it that is there, and the start of a second line.
abbrev chunks : List Bytes
chunks = codes "AWN l" ∷ codes "s\nSP" ∷ codes "A" ∷ []

abbrev numbered : ℕ → Bytes
numbered n = n ∷ []

read_all-chunks_example :
    read_all numbered (λ n. true) (relay 7 nothing_pending (codes "SP")) (map bytes chunks)
    ≡ read_all numbered
        (λ n. true)
        (relay 7 nothing_pending (codes "SP"))
        (bytes (codes "AWN ls\nSPA") ∷ [])
read_all-chunks_example =
    read_all-chunks numbered (λ n. true) 7 nothing_pending (codes "SP") chunks (omega arith)

abbrev set_group : ℕ → ℕ → Credentials → Credentials
set_group r e c = record c {
  rgid = set_id r c.rgid;
  egid = set_id e c.egid;
  sgid = saved_id r e c.rgid c.egid c.sgid;
}

abbrev set_user : ℕ → ℕ → Credentials → Credentials
set_user r e c = record c {
  ruid = set_id r c.ruid;
  euid = set_id e c.euid;
  suid = saved_id r e c.ruid c.euid c.suid;
}

-- A kernel on which every call succeeds, and a user has two groups.
abbrev kernel : Calls
kernel = record {
  initgroups = λ name gid c. some (record c { groups = gid ∷ 50 ∷ [] });
  setregid = λ r e c. some (set_group r e c);
  setreuid = λ r e c. some (set_user r e c);
}

some_injective : {A : Type 0} (a b : A) → some a ≡ some b → b ≡ a
some_injective a b h = cc

kernel-Documented : Documented kernel (λ name gid. gid ∷ 50 ∷ [])
kernel-Documented = record {
  groups_set = λ name gid c d h. some_injective (record c { groups = gid ∷ 50 ∷ [] }) d h;
  group_set = λ r e c d h. some_injective (set_group r e c) d h;
  user_set = λ r e c d h. some_injective (set_user r e c) d h;
}

abbrev root : Credentials
root = record { ruid = 0; euid = 0; suid = 0; rgid = 0; egid = 0; sgid = 0; groups = 0 ∷ 1 ∷ [] }

abbrev user : Credentials
user = identity 1000 100 (100 ∷ 50 ∷ [])

root_drops : drop_privileges kernel (some (codes "u")) 1000 100 root ≡ (true, user)
unfolding drop_privileges
root_drops = refl

drop_privileges_done_example :
    (a : ℕ) × (rest : Bytes) × (some (codes "u") ≡ some (a ∷ rest))
    × (user ≡ identity 1000 100 (100 ∷ 50 ∷ []))
drop_privileges_done_example =
    drop_privileges_done kernel (λ name gid. gid ∷ 50 ∷ []) kernel-Documented (some (codes "u"))
      1000 100 root user (λ e. absurd (omega arith)) (λ e. absurd (omega arith)) root_drops
