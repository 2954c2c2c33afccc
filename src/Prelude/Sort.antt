-- ===== src/Prelude/Sort.antt =====
-- `sort.SliceStable` and `slices.SortStableFunc`, as the stable insertion sort on a test `less`.
use mathlib.Core.Path.{◌≡◌, refl}
use mathlib.Core.Logic.{inl, inr}
use mathlib.Core.Bool.{Bool, true, false}
use mathlib.Core.List.{List, [], ◌∷◌, Perm}
use mathlib.Core.List.Perm
use native.Mathlib.Omega.{arith}
use claudeq.Prelude.Tests.{if◌then◌else◌, Bool-cases}
use claudeq.Prelude.Lists.{All, keep_if}

module _ {ℓ} {A : Type ℓ} (less : A → A → Bool) where
  -- `x` goes before the first element that is not less than it.
  unfoldable pub insert : A → List A → List A
  insert x [] = x ∷ []
  insert x (y ∷ ys) = let rest = insert x ys in if less y x then y ∷ rest else x ∷ y ∷ ys

  unfoldable pub sort : List A → List A
  unfolding insert
  sort [] = []
  sort (x ∷ xs) = insert x (sort xs)

  insert-perm : (x : A) (ys : List A) → Perm (insert x ys) (x ∷ ys)
  unfolding insert
  insert-perm x [] = Perm.refl (x ∷ [])
  insert-perm x (y ∷ ys) = elim (Bool-cases (less y x)) [
    | inl e ↦ rw e (Perm.trans (Perm.cons y (insert-perm x ys)) (Perm.swap x y ys))
    | inr e ↦ rw e (Perm.refl (x ∷ y ∷ ys))
  ]

  pub sort-perm : (xs : List A) → Perm (sort xs) xs
  unfolding sort
  sort-perm [] = Perm.refl []
  sort-perm (x ∷ xs) = Perm.trans (insert-perm x (sort xs)) (Perm.cons x (sort-perm xs))

-- No element stands behind one that it is less than.
abbrev pub IsSorted {ℓ} : {A : Type ℓ} → (A → A → Bool) → List A → Type 0
IsSorted less [] = Unit
IsSorted less (x ∷ xs) = All (λ y. less y x ≡ false) xs × IsSorted less xs

-- `less` orders by a key with ties: what the sort functions of Go ask for.
pub record IsStrictWeakOrder {ℓ} {A : Type ℓ} (less : A → A → Bool) : Type ℓ where
  pub asymmetric : (x y : A) → less x y ≡ true → less y x ≡ false
  pub through : (x y z : A) → less y x ≡ false → less z y ≡ false → less z x ≡ false

module _ {ℓ} {A : Type ℓ} (less : A → A → Bool) (order : IsStrictWeakOrder less) where
  insert-All : (P : A → Type 0) (x : A) (ys : List A) → P x → All P ys → All P (insert less x ys)
  unfolding insert
  insert-All P x [] p q = (p, tt)
  insert-All P x (y ∷ ys) p q = elim (Bool-cases (less y x)) [
    | inl e ↦ rw e (q.0, insert-All P x ys p q.1)
    | inr e ↦ rw e (p, q)
  ]

  lower_chain :
      (x y : A) (ys : List A)
      → less y x ≡ false
      → All (λ z. less z y ≡ false) ys
      → All (λ z. less z x ≡ false) ys
  lower_chain x y [] h q = tt
  lower_chain x y (z ∷ zs) h q = (order.through x y z h q.0, lower_chain x y zs h q.1)

  insert-IsSorted : (x : A) (ys : List A) → IsSorted less ys → IsSorted less (insert less x ys)
  unfolding insert
  insert-IsSorted x [] s = (tt, tt)
  insert-IsSorted x (y ∷ ys) s = elim (Bool-cases (less y x)) [
    | inl e ↦ rw e (insert-All _ x ys (order.asymmetric y x e) s.0, insert-IsSorted x ys s.1)
    | inr e ↦ rw e ((e, lower_chain x y ys e s.0), s)
  ]

  pub sort-IsSorted : (xs : List A) → IsSorted less (sort less xs)
  unfolding sort
  sort-IsSorted [] = tt
  sort-IsSorted (x ∷ xs) = insert-IsSorted x (sort less xs) (sort-IsSorted xs)

module _ {ℓ} {A : Type ℓ} (less : A → A → Bool) (p : A → Bool)
    (tied : (x y : A) → p x ≡ true → p y ≡ true → less x y ≡ false) where
  keep_if-insert : (x : A) (ys : List A) → keep_if p (insert less x ys) ≡ keep_if p (x ∷ ys)
  unfolding insert keep_if
  keep_if-insert x [] = refl
  keep_if-insert x (y ∷ ys) = ground (arith, keep_if-insert x ys, tied y x)

  -- The elements that are tied keep the order that they came in.
  pub sort_stable : (xs : List A) → keep_if p (sort less xs) ≡ keep_if p xs
  unfolding sort keep_if
  sort_stable [] = refl
  sort_stable (x ∷ xs) = ground (arith, keep_if-insert x (sort less xs), sort_stable xs)
