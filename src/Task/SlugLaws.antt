-- ===== src/Task/SlugLaws.antt =====
-- `Slug` gives ids that `CheckID` accepts, and changes no id that it gave.
use claudeq.Prelude.{
  ℕ, suc, ◌≤◌, ◌≡◌, refl, ap, inl, inr, Bool, true, false, ◌&&◌, none, some, [], ◌∷◌, Text, arith,
  ltb, is_empty, length, Bool-cases, Option-cases,
}
use claudeq.Prelude.Strings.{
  take, trim_right, length-take, length-trim_right, trim_right-trim_right,
}
use claudeq.Task.Slug.{is_dash, slug_step, slug_loop, emit, slug, cut, or_task, max_slug}

-- Each rune is written as it is, from this state of the loop on.
abbrev pub IsClean : Bool → Text → Type 0
IsClean dash [] = Unit
IsClean dash (r ∷ rs) = ((slug_step dash r).0 ≡ some r) × IsClean (slug_step dash r).1 rs

slug_step_settled :
    (dash : Bool) (r : ℕ) {x : ℕ}
    → (slug_step dash r).0 ≡ some x
    → ((slug_step dash x).0 ≡ some x) × ((slug_step dash x).1 ≡ (slug_step dash r).1)
unfolding slug_step
slug_step_settled dash r h = ground arith

slug_step_silent : (dash : Bool) (r : ℕ) → (slug_step dash r).0 ≡ none → (slug_step dash r).1 ≡ dash
unfolding slug_step
slug_step_silent dash r h = ground arith

emit-IsClean :
    (dash : Bool) (r : ℕ) (s : Text)
    → IsClean (slug_step dash r).1 s
    → IsClean dash (emit (slug_step dash r).0 s)
emit-IsClean dash r s h = elim (Option-cases (slug_step dash r).0) [
  | inl e ↦ rw e (rw (slug_step_silent dash r e) at h)
  | inr (x, e) ↦ let (p, q) = slug_step_settled dash r e in rw e (p, rw q h)
]

slug_loop-IsClean : (dash : Bool) (rs : Text) → IsClean dash (slug_loop dash rs)
unfolding slug_loop
slug_loop-IsClean dash [] = tt
slug_loop-IsClean dash (r ∷ rs) =
    emit-IsClean dash r (slug_loop (slug_step dash r).1 rs)
      (slug_loop-IsClean (slug_step dash r).1 rs)

take-IsClean : (n : ℕ) (dash : Bool) (s : Text) → IsClean dash s → IsClean dash (take n s)
take-IsClean ℕ.zero dash s h = tt
take-IsClean (suc n) dash [] h = tt
take-IsClean (suc n) dash (r ∷ s) h = (h.0, take-IsClean n (slug_step dash r).1 s h.1)

trim_right-IsClean : (dash : Bool) (s : Text) → IsClean dash s → IsClean dash (trim_right is_dash s)
unfolding trim_right
trim_right-IsClean dash [] h = tt
trim_right-IsClean dash (r ∷ s) h =
    elim (Bool-cases (is_empty (trim_right is_dash s) && is_dash r)) [
      | inl e ↦ rw e tt
      | inr e ↦ rw e (h.0, trim_right-IsClean (slug_step dash r).1 s h.1)
    ]

slug_loop_of_clean : (dash : Bool) (s : Text) → IsClean dash s → slug_loop dash s ≡ s
unfolding slug_loop
slug_loop_of_clean dash [] h = refl
slug_loop_of_clean dash (r ∷ s) h =
    rw h.0 (ap (λ t. r ∷ t) (slug_loop_of_clean (slug_step dash r).1 s h.1))

-- What a slug is: it comes out of the loop as it went in, ends in no dash and is not too long.
pub record IsSlug (s : Text) : Type 0 where
  pub clean : IsClean true s
  pub trimmed : trim_right is_dash s ≡ s
  pub short : length s ≤ max_slug
  pub nonempty : is_empty s ≡ false

cut_short : (s : Text) → trim_right is_dash s ≡ s → length (cut s) ≤ max_slug
cut_short s h = ground (arith, length-trim_right is_dash (take 24 s), length-take 24 s)

cut_trimmed : (s : Text) → trim_right is_dash s ≡ s → trim_right is_dash (cut s) ≡ cut s
cut_trimmed s h = ground (arith, trim_right-trim_right is_dash (take 24 s))

cut-IsClean : (s : Text) → IsClean true s → IsClean true (cut s)
cut-IsClean s h = elim (Bool-cases (ltb max_slug (length s))) [
  | inl e ↦ rw e (trim_right-IsClean true (take max_slug s) (take-IsClean max_slug true s h))
  | inr e ↦ rw e h
]

or_task-IsSlug :
    (s : Text)
    → IsClean true s
    → trim_right is_dash s ≡ s
    → length s ≤ max_slug
    → IsSlug (or_task s)
unfolding slug_step trim_right
or_task-IsSlug [] c t l = record {
  clean = (refl, (refl, (refl, (refl, tt))));
  trimmed = refl;
  short = omega arith;
  nonempty = refl;
}
or_task-IsSlug (r ∷ s) c t l = record { clean = c; trimmed = t; short = l; nonempty = refl }

pub slug-IsSlug : (name : Text) → IsSlug (slug name)
unfolding slug
slug-IsSlug name =
    let s = trim_right is_dash (slug_loop true name) in
    let t = trim_right-trim_right is_dash (slug_loop true name) in
    or_task-IsSlug (cut s)
      (cut-IsClean s (trim_right-IsClean true (slug_loop true name) (slug_loop-IsClean true name)))
      (cut_trimmed s t) (cut_short s t)

cut_of_short : (s : Text) → length s ≤ max_slug → cut s ≡ s
cut_of_short s h = ground arith

or_task_of_nonempty : (s : Text) → is_empty s ≡ false → or_task s ≡ s
or_task_of_nonempty s h = rw h

pub slug_of_IsSlug : (s : Text) → IsSlug s → slug s ≡ s
unfolding slug
slug_of_IsSlug s h =
    rw (slug_loop_of_clean true s h.clean, h.trimmed, cut_of_short s h.short)
      (or_task_of_nonempty s h.nonempty)

-- Making a slug of a slug changes nothing.
slug-slug : (name : Text) → slug (slug name) ≡ slug name
slug-slug name = slug_of_IsSlug (slug name) (slug-IsSlug name)
