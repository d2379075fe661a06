-- ===== src/Privileges/Dropped.antt =====
-- Who the process is when its privileges are dropped.
use swm_core.Prelude.{
  ◌^◌, ◌-◌, not, ◌||◌, ◌&&◌, ◌≢◌, ℕ, true, List, [], ◌∷◌, Option, none, some, ◌==◌, ◌≡◌, inl, inr,
  refl, sym, ◌∙◌, ap, arith, Bytes, Bool-cases, Option-cases, if◌then◌else◌,
}
use swm_core.Privileges.{Credentials, Calls, set_user, set_group, set_groups, drop_privileges}

-- (uid_t) -1 and (gid_t) -1, which leave an id as it is.
abbrev pub unchanged : ℕ
unchanged = 2 ^ 32 - 1

-- The id behind a call that is given `new`.
abbrev pub set_id : ℕ → ℕ → ℕ
set_id new old = if new == unchanged then old else new

-- The saved id behind setreuid(2) or setregid(2): the new effective one, if the real id is set or the
-- effective id is set to another value than the real id had.
abbrev pub saved_id : (r e real effective saved : ℕ) → ℕ
saved_id r e real effective saved =
    if not (r == unchanged) || (not (e == unchanged) && not (e == real))
    then set_id e effective
    else saved

-- What the manual pages promise of a call that succeeds, with the groups of a user.
pub record Documented (k : Calls) (groups_of : Bytes → ℕ → List ℕ) : Type 0 where
  pub groups_set :
      (name : Bytes) (gid : ℕ) (c d : Credentials)
      → k.initgroups name gid c ≡ some d
      → d ≡ record c { groups = groups_of name gid }
  pub group_set :
      (r e : ℕ) (c d : Credentials)
      → k.setregid r e c ≡ some d
      → d ≡ record c {
        rgid = set_id r c.rgid;
        egid = set_id e c.egid;
        sgid = saved_id r e c.rgid c.egid c.sgid;
      }
  pub user_set :
      (r e : ℕ) (c d : Credentials)
      → k.setreuid r e c ≡ some d
      → d ≡ record c {
        ruid = set_id r c.ruid;
        euid = set_id e c.euid;
        suid = saved_id r e c.ruid c.euid c.suid;
      }

-- The six ids are those of the user.
abbrev pub identity : ℕ → ℕ → List ℕ → Credentials
identity uid gid gs = record {
  ruid = uid;
  euid = uid;
  suid = uid;
  rgid = gid;
  egid = gid;
  sgid = gid;
  groups = gs;
}

abbrev as_user : ℕ → Credentials → Credentials
as_user uid c = record c { ruid = uid; euid = uid; suid = uid }

set_id-own : (n old : ℕ) → n ≢ unchanged → set_id n old ≡ n
set_id-own n old h = ground arith

saved_id-own : (n real effective saved : ℕ) → n ≢ unchanged → saved_id n n real effective saved ≡ n
saved_id-own n real effective saved h = ground arith

module _ (k : Calls) (groups_of : Bytes → ℕ → List ℕ) (doc : Documented k groups_of) where
  set_user_done :
      (uid : ℕ) (c d : Credentials)
      → uid ≢ unchanged
      → set_user k uid c ≡ (true, d)
      → d ≡ as_user uid c
  unfolding set_user
  set_user_done uid c d u h = elim (Option-cases (k.setreuid uid uid c)) [
    | inl e ↦ absurd (ground arith)
    | inr (x, e) ↦
        let same : x ≡ d = ground arith in
        let set = doc.user_set uid uid c x e in
        sym same
        ∙ (set
            ∙ rw (
              saved_id-own uid c.ruid c.euid c.suid u,
              set_id-own uid c.ruid u,
              set_id-own uid c.euid u,
            ))
  ]

  set_group_done :
      (uid gid : ℕ) (c d : Credentials)
      → uid ≢ unchanged
      → gid ≢ unchanged
      → set_group k uid gid c ≡ (true, d)
      → d ≡ identity uid gid c.groups
  unfolding set_group
  set_group_done uid gid c d u g h = elim (Option-cases (k.setregid gid gid c)) [
    | inl e ↦ absurd (ground arith)
    | inr (x, e) ↦
        let last : set_user k uid x ≡ (true, d) = ground arith in
        set_user_done uid x d u last
        ∙ (ap (as_user uid) (doc.group_set gid gid c x e)
            ∙ rw (
              saved_id-own gid c.rgid c.egid c.sgid g,
              set_id-own gid c.rgid g,
              set_id-own gid c.egid g,
            ))
  ]

  -- If dropping the privileges succeeds, and neither id is -1, which the calls take for no change, there
  -- was a name, and the process is the user and nothing else: its real, effective and saved ids are the
  -- user's, and its groups are those of the user if it was root before, else those that it had.
  pub drop_privileges_done :
      (name : Option Bytes) (uid gid : ℕ) (c d : Credentials)
      → uid ≢ unchanged
      → gid ≢ unchanged
      → drop_privileges k name uid gid c ≡ (true, d)
      → (a : ℕ) × (rest : Bytes) × (name ≡ some (a ∷ rest))
        × (d ≡ identity uid gid (if c.euid == 0 then groups_of (a ∷ rest) gid else c.groups))
  unfolding drop_privileges set_groups
  drop_privileges_done none uid gid c d u g h = absurd (ground arith)
  drop_privileges_done (some []) uid gid c d u g h = absurd (ground arith)
  drop_privileges_done (some (a ∷ rest)) uid gid c d u g h = (
    a,
    rest,
    refl,
    elim (Bool-cases (c.euid == 0)) [
      | inr other ↦ rw other (set_group_done uid gid c d u g (ground arith))
      | inl root ↦ elim (Option-cases (k.initgroups (a ∷ rest) gid c)) [
        | inl e ↦ absurd (ground arith)
        | inr (x, e) ↦ rw root (
            set_group_done uid gid x d u g (ground arith)
            ∙ ap (λ (y : Credentials). identity uid gid y.groups)
                (doc.groups_set (a ∷ rest) gid c x e))
      ]
    ],
  )
