-- ===== src/Pmix/Fence/Count.antt =====
-- How often a callback waits and was called.
use swm_core.Prelude.{
  ℕ, ◌+◌, ◌≤◌, ◌<◌, ◌&&◌, List, [], ◌∷◌, ◌++◌, Option, none, some, ◌==◌, if◌then◌else◌, ◌≡◌, refl,
  arith, Bytes, All, ℤ, Bool-cases, inl, inr,
}
use swm_core.Pmix.Fence.{PendingFence, Event, line, answer, assign, find, erase, call}

module _ (fn cbdata : ℕ) where
  -- One for the callback `fn` with `cbdata`, else none.
  abbrev pub hit : Option ℕ → ℕ → ℕ
  hit none d = 0
  hit (some g) d = if g == fn && d == cbdata then 1 else 0

  -- How often the callback was called with `cbdata`.
  abbrev pub answers : List Event → ℕ
  answers [] = 0
  answers (line l ∷ es) = answers es
  answers (answer g status blob d ∷ es) = hit (some g) d + answers es

  -- How often it waits.
  abbrev pub waiting : List (ℕ × PendingFence) → ℕ
  waiting [] = 0
  waiting ((id, p) ∷ m) = hit p.cbfunc p.cbdata + waiting m

  pub answers-append : (es fs : List Event) → answers (es ++ fs) ≡ answers es + answers fs
  answers-append [] fs = omega arith
  answers-append (line l ∷ es) fs = answers-append es fs
  answers-append (answer g status blob d ∷ es) fs = omega (arith, answers-append es fs)

  pub answers-call :
      (g : Option ℕ) (status : ℤ) (blob : Bytes) (d : ℕ) → answers (call g status blob d) ≡ hit g d
  unfolding call
  answers-call none status blob d = refl
  answers-call (some g) status blob d = omega arith

-- The keys lie below `n`.
abbrev pub KeysBelow : ℕ → List (ℕ × PendingFence) → Type 0
KeysBelow n = All (λ e. e.0 < n)

pub KeysBelow-mono : {m n : ℕ} (l : List (ℕ × PendingFence)) → m ≤ n → KeysBelow m l → KeysBelow n l
KeysBelow-mono [] h b = tt
KeysBelow-mono (e ∷ l) h (lt, b) = (omega arith, KeysBelow-mono l h b)

pub KeysBelow-erase :
    (k n : ℕ) (l : List (ℕ × PendingFence)) → KeysBelow n l → KeysBelow n (erase k l)
unfolding erase
KeysBelow-erase k n [] b = tt
KeysBelow-erase k n ((j, w) ∷ l) (lt, b) = ground (arith, KeysBelow-erase k n l b)

-- A new key goes to the end.
pub assign_fresh :
    (k : ℕ) (p : PendingFence) (l : List (ℕ × PendingFence))
    → KeysBelow k l
    → assign k p l ≡ l ++ (k, p) ∷ []
unfolding assign
assign_fresh k p [] b = refl
assign_fresh k p ((j, w) ∷ l) (lt, b) = ground (arith, assign_fresh k p l b)

module _ (fn cbdata : ℕ) where
  pub waiting-append :
      (l m : List (ℕ × PendingFence))
      → waiting fn cbdata (l ++ m) ≡ waiting fn cbdata l + waiting fn cbdata m
  waiting-append [] m = omega arith
  waiting-append ((id, p) ∷ l) m = omega (arith, waiting-append l m)

  pub waiting-erase :
      (k : ℕ) (p : PendingFence) (l : List (ℕ × PendingFence))
      → find k l ≡ some p
      → waiting fn cbdata l ≡ hit fn cbdata p.cbfunc p.cbdata + waiting fn cbdata (erase k l)
  unfolding find erase
  waiting-erase k p [] e = absurd (cc)
  waiting-erase k p ((j, w) ∷ l) e = elim (Bool-cases (j == k)) [
    | inl here ↦ let same : w ≡ p = ground arith in rw here (rw same)
    | inr there ↦ let rest = waiting-erase k p l (ground arith) in rw there (omega (arith, rest))
  ]
