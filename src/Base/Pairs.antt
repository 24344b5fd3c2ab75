-- ===== src/Base/Pairs.antt =====
-- Two lists whose entries are related place by place.
use Prim.Native.Nat.{ℕ, zero, suc}
use mathlib.Core.Path.{◌≡◌, refl, ap, subst}
use mathlib.Core.Logic.{inl, inr}
use mathlib.Core.List.{List, [], ◌∷◌, ◌++◌}
use mathlib.Core.Option
use mathlib.Core.Option.{Option, none, some, some-injective, none-ne-some}
use smoll.Base.Lists.{get_elem?, set, take_at, length, All}
use smoll.Base.Tests.{Option-cases}
use native.Mathlib.Omega.{arith}

module _ {A B : Type 0} (R : A → B → Type 0) where
  abbrev pub AllPairs : List A → List B → Type 0
  AllPairs [] [] = Unit
  AllPairs [] (y ∷ ys) = ⊥
  AllPairs (x ∷ xs) [] = ⊥
  AllPairs (x ∷ xs) (y ∷ ys) = R x y × AllPairs xs ys

  pub AllPairs-length : (xs : List A) (ys : List B) → AllPairs xs ys → length xs ≡ length ys
  AllPairs-length [] [] h = refl
  AllPairs-length [] (y ∷ ys) h = absurd h
  AllPairs-length (x ∷ xs) [] h = absurd h
  AllPairs-length (x ∷ xs) (y ∷ ys) h = ap suc (AllPairs-length xs ys h.1)

  pub AllPairs-snoc :
      (xs : List A) (ys : List B) (x : A) (y : B)
      → R x y
      → AllPairs xs ys
      → AllPairs (xs ++ x ∷ []) (ys ++ y ∷ [])
  AllPairs-snoc [] [] x y r h = (r, tt)
  AllPairs-snoc [] (b ∷ ys) x y r h = absurd h
  AllPairs-snoc (a ∷ xs) [] x y r h = absurd h
  AllPairs-snoc (a ∷ xs) (b ∷ ys) x y r h = (h.0, AllPairs-snoc xs ys x y r h.1)

  pub AllPairs-get_elem? :
      (xs : List A) (ys : List B) (i : ℕ) (x : A) (y : B)
      → AllPairs xs ys
      → get_elem? xs i ≡ some x
      → get_elem? ys i ≡ some y
      → R x y
  AllPairs-get_elem? [] ys i x y h p q = absurd (none-ne-some x p)
  AllPairs-get_elem? (a ∷ xs) [] i x y h p q = absurd h
  AllPairs-get_elem? (a ∷ xs) (b ∷ ys) zero x y h p q = ground (arith, h.0)
  AllPairs-get_elem? (a ∷ xs) (b ∷ ys) (suc i) x y h p q = AllPairs-get_elem? xs ys i x y h.1 p q

  -- Where one list has an entry, so has the other.
  pub AllPairs-left :
      (xs : List A) (ys : List B) (i : ℕ) (y : B)
      → AllPairs xs ys
      → get_elem? ys i ≡ some y
      → (x : A) × (get_elem? xs i ≡ some x)
  AllPairs-left [] [] i y h q = absurd (none-ne-some y q)
  AllPairs-left [] (b ∷ ys) i y h q = absurd h
  AllPairs-left (a ∷ xs) [] i y h q = absurd h
  AllPairs-left (a ∷ xs) (b ∷ ys) zero y h q = (a, refl)
  AllPairs-left (a ∷ xs) (b ∷ ys) (suc i) y h q = AllPairs-left xs ys i y h.1 q

  pub AllPairs-set :
      (xs : List A) (ys : List B) (i : ℕ) (x : A) (y : B)
      → get_elem? xs i ≡ some x
      → R x y
      → AllPairs xs ys
      → AllPairs xs (set ys i y)
  AllPairs-set [] [] i x y p r h = tt
  AllPairs-set [] (b ∷ ys) i x y p r h = absurd h
  AllPairs-set (a ∷ xs) [] i x y p r h = absurd h
  AllPairs-set (a ∷ xs) (b ∷ ys) zero x y p r h = (rw (some-injective a x p) r, h.1)
  AllPairs-set (a ∷ xs) (b ∷ ys) (suc i) x y p r h = (h.0, AllPairs-set xs ys i x y p r h.1)

-- What an optional result satisfies, if it is there.
abbrev pub Holds : {A : Type 0} → (A → Type 0) → Option A → Type 0
Holds P none = Unit
Holds P (some a) = P a

pub Holds-some : {A : Type 0} (P : A → Type 0) (o : Option A) (a : A) → o ≡ some a → Holds P o → P a
Holds-some P none a e h = absurd (none-ne-some a e)
Holds-some P (some b) a e h = subst P (some-injective b a e) h

pub Holds-map :
    {A B : Type 0} (P : A → Type 0) (Q : B → Type 0) (f : A → B) (o : Option A)
    → ((a : A) → P a → Q (f a))
    → Holds P o
    → Holds Q (Option.map f o)
Holds-map P Q f none keep h = tt
Holds-map P Q f (some a) keep h = keep a h

module _ {A : Type 0} (P : A → Type 0) where
  pub take_at-All : (k : ℕ) (xs : List A) → All P xs → Holds (λ p. P p.0 × All P p.1) (take_at k xs)
  take_at-All k [] h = tt
  take_at-All zero (a ∷ xs) h = h
  take_at-All (suc k) (a ∷ xs) h = elim (Option-cases (take_at k xs)) [
    | inl e ↦ rw e tt
    | inr (p, e) ↦
        let later = Holds-some (λ q. P q.0 × All P q.1) (take_at k xs) p e (take_at-All k xs h.1) in
        rw e (later.0, (h.0, later.1))
  ]
