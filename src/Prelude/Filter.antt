-- ===== src/Prelude/Filter.antt =====
-- What a filter, a sort and a map leave true of a list.
use mathlib.Core.Path.{◌≡◌, refl}
use mathlib.Core.Logic.{◌⊎◌, inl, inr}
use mathlib.Core.Bool.{Bool, true, false}
use mathlib.Core.List.{List, [], ◌∷◌, ◌++◌}
use native.Mathlib.Omega.{arith}
use claudeq.Prelude.Tests.{Bool-cases}
use claudeq.Prelude.Lists.{All, Any, keep_if}
use claudeq.Prelude.Texts.{Text, ◌==◌, text_eq_iff}
use claudeq.Prelude.Sort.{sort, insert}

module _ {ℓ} {A : Type ℓ} where
  pub All-map {κ μ} :
      {P : A → Type κ} {Q : A → Type μ} (f : (x : A) → P x → Q x) (xs : List A)
      → All P xs
      → All Q xs
  All-map f [] h = tt
  All-map f (x ∷ xs) h = (f x h.0, All-map f xs h.1)

  pub All-map_both {κ μ ν} :
      {P : A → Type κ} {Q : A → Type μ} {R : A → Type ν} (f : (x : A) → P x → Q x → R x)
      (xs : List A)
      → All P xs
      → All Q xs
      → All R xs
  All-map_both f [] p q = tt
  All-map_both f (x ∷ xs) p q = (f x p.0 q.0, All-map_both f xs p.1 q.1)

  pub All-append {κ} : (P : A → Type κ) (xs ys : List A) → All P xs → All P ys → All P (xs ++ ys)
  All-append P [] ys p q = q
  All-append P (x ∷ xs) ys p q = (p.0, All-append P xs ys p.1 q)

  pub All-front {κ} : (P : A → Type κ) (xs ys : List A) → All P (xs ++ ys) → All P xs
  All-front P [] ys h = tt
  All-front P (x ∷ xs) ys h = (h.0, All-front P xs ys h.1)

  pub All-of_any {κ} :
      (P : A → Type κ) {B : A → Type 0} (xs : List A) → All P xs → Any B xs → (x : A) × P x × B x
  All-of_any P [] h a = absurd a
  All-of_any P (x ∷ xs) h (inl b) = (x, h.0, b)
  All-of_any P (x ∷ xs) h (inr a) = All-of_any P xs h.1 a

  module _ (p : A → Bool) where
    pub All-keep_if {κ} : (P : A → Type κ) (xs : List A) → All P xs → All P (keep_if p xs)
    unfolding keep_if
    All-keep_if P [] h = tt
    All-keep_if P (x ∷ xs) h = elim (Bool-cases (p x)) [
      | inl e ↦ rw e (h.0, All-keep_if P xs h.1)
      | inr e ↦ rw e (All-keep_if P xs h.1)
    ]

    pub Any-keep_if :
        {B : A → Type 0} (only : (x : A) → B x → p x ≡ true) (xs : List A)
        → Any B xs
        → Any B (keep_if p xs)
    unfolding keep_if
    Any-keep_if only [] a = a
    Any-keep_if only (x ∷ xs) (inl b) = rw (only x b) (inl b)
    Any-keep_if only (x ∷ xs) (inr a) = elim (Bool-cases (p x)) [
      | inl e ↦ rw e (inr (Any-keep_if only xs a))
      | inr e ↦ rw e (Any-keep_if only xs a)
    ]

  module _ (less : A → A → Bool) where
    All-insert {κ} :
        (P : A → Type κ) (x : A) (xs : List A) → P x → All P xs → All P (insert less x xs)
    unfolding insert
    All-insert P x [] p h = (p, tt)
    All-insert P x (y ∷ ys) p h = elim (Bool-cases (less y x)) [
      | inl e ↦ rw e (h.0, All-insert P x ys p h.1)
      | inr e ↦ rw e (p, h)
    ]

    pub All-sort {κ} : (P : A → Type κ) (xs : List A) → All P xs → All P (sort less xs)
    unfolding sort
    All-sort P [] h = tt
    All-sort P (x ∷ xs) h = All-insert P x (sort less xs) h.0 (All-sort P xs h.1)

    Any-insert : (B : A → Type 0) (x : A) (xs : List A) → B x ⊎ Any B xs → Any B (insert less x xs)
    unfolding insert
    Any-insert B x [] a = a
    Any-insert B x (y ∷ ys) a = elim (Bool-cases (less y x)) [
      | inl e ↦ rw e (elim a [
        | inl b ↦ inr (Any-insert B x ys (inl b))
        | inr rest ↦ elim rest [ inl b ↦ inl b | inr more ↦ inr (Any-insert B x ys (inr more)) ]
      ])
      | inr e ↦ rw e a
    ]

    pub Any-sort : (B : A → Type 0) (xs : List A) → Any B xs → Any B (sort less xs)
    unfolding sort
    Any-sort B [] a = a
    Any-sort B (x ∷ xs) (inl b) = Any-insert B x (sort less xs) (inl b)
    Any-sort B (x ∷ xs) (inr a) = Any-insert B x (sort less xs) (inr (Any-sort B xs a))

-- Every element is one of them.
pub All-self : {A : Type 0} (xs : List A) → All (λ (x : A). Any (λ y. y ≡ x) xs) xs
All-self [] = tt
All-self {A} (x ∷ xs) =
    (inl refl, All-map (λ (y : A) (h : Any (λ z. z ≡ y) xs). inr h) xs (All-self xs))

-- Elements told apart by a key.
module _ {ℓ} {A : Type ℓ} (key : A → Text) where
  abbrev pub Apart : Text → List A → Type 0
  Apart id xs = All (λ x. (key x == id) ≡ false) xs

  abbrev pub Distinct : List A → Type 0
  Distinct [] = Unit
  Distinct (x ∷ xs) = Apart (key x) xs × Distinct xs

  pub Distinct-keep_if : (p : A → Bool) (xs : List A) → Distinct xs → Distinct (keep_if p xs)
  unfolding keep_if
  Distinct-keep_if p [] h = tt
  Distinct-keep_if p (x ∷ xs) h = elim (Bool-cases (p x)) [
    | inl e ↦ rw e (All-keep_if p _ xs h.0, Distinct-keep_if p xs h.1)
    | inr e ↦ rw e (Distinct-keep_if p xs h.1)
  ]

  apart_sym : (x y : A) → (key x == key y) ≡ false → (key y == key x) ≡ false
  apart_sym x y h = ground (arith, text_eq_iff (key x) (key y), text_eq_iff (key y) (key x))

  Distinct-insert :
      (less : A → A → Bool) (x : A) (xs : List A)
      → Apart (key x) xs
      → Distinct xs
      → Distinct (insert less x xs)
  unfolding insert
  Distinct-insert less x [] a h = (tt, tt)
  Distinct-insert less x (y ∷ ys) a h = elim (Bool-cases (less y x)) [
    | inl e ↦
        rw e (All-insert less _ x ys (apart_sym y x a.0) h.0, Distinct-insert less x ys a.1 h.1)
    | inr e ↦ rw e (a, h)
  ]

  pub Distinct-sort : (less : A → A → Bool) (xs : List A) → Distinct xs → Distinct (sort less xs)
  unfolding sort
  Distinct-sort less [] h = tt
  Distinct-sort less (x ∷ xs) h =
      Distinct-insert less x (sort less xs) (All-sort less _ xs h.0) (Distinct-sort less xs h.1)
