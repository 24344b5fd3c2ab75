-- ===== src/Base/Counts.antt =====
-- Sums over a list, and over a list with one element taken out.
use Prim.Native.Nat.{ℕ, zero, suc, ◌+◌}
use mathlib.Core.Path.{◌≡◌, refl}
use mathlib.Core.Logic.{inl, inr}
use mathlib.Core.List.{List, [], ◌∷◌, ◌++◌}
use smoll.Base.Lists.{take_at}
use smoll.Base.Pairs.{Holds, Holds-some}
use smoll.Base.Tests.{Option-cases}
use native.Mathlib.Omega.{arith}

module _ {A : Type 0} (weight : A → ℕ) where
  abbrev pub sum_of : List A → ℕ
  sum_of [] = 0
  sum_of (x ∷ xs) = weight x + sum_of xs

  pub sum_of-append : (xs ys : List A) → sum_of (xs ++ ys) ≡ sum_of xs + sum_of ys
  sum_of-append [] ys = omega arith
  sum_of-append (x ∷ xs) ys = omega (arith, sum_of-append xs ys)

  abbrev pub IsSplit : List A → A × List A → Type 0
  IsSplit xs p = sum_of xs ≡ weight (p.0) + sum_of (p.1)

  pub take_at-IsSplit : (k : ℕ) (xs : List A) → Holds (IsSplit xs) (take_at k xs)
  take_at-IsSplit k [] = tt
  take_at-IsSplit zero (y ∷ xs) = refl
  take_at-IsSplit (suc k) (y ∷ xs) = elim (Option-cases (take_at k xs)) [
    | inl e ↦ rw e tt
    | inr (p, e) ↦
        let split = Holds-some (IsSplit xs) (take_at k xs) p e (take_at-IsSplit k xs) in
        rw e (omega arith)
  ]
