-- ===== src/Prelude/Ladder.antt =====
-- A Go function that returns its first error: a ladder of checks, where `none` is the nil error.
use mathlib.Core.Path.{◌≡◌, refl}
use mathlib.Core.Logic.{◌↔◌, ◌⊎◌, inl, inr, ◌≢◌}
use mathlib.Core.Bool.{Bool, true, false, not, ◌&&◌}
use mathlib.Core.Option.{Option, none, some}
use mathlib.Core.List.{List, [], ◌∷◌}
use native.Mathlib.Omega.{arith}
use claudeq.Prelude.Tests.{if◌then◌else◌}
use claudeq.Prelude.Texts.{is_empty}

-- `if bad { return problem }`, before the rest of the checks.
abbrev pub refuse {ℓ} : {E : Type ℓ} → Bool → E → Option E → Option E
refuse bad e rest = if bad then some e else rest

-- `if err := check; err != nil { return wrap(err) }`, before the rest of the checks.
abbrev pub attempt {ℓ κ} : {E : Type ℓ} {F : Type κ} → Option E → (E → F) → Option F → Option F
attempt none wrap rest = rest
attempt (some e) wrap rest = some (wrap e)

pub refuse-none {ℓ κ μ} :
    {E : Type ℓ} {P : Type κ} {Q : Type μ} (bad : Bool) (e : E) (rest : Option E)
    → (bad ≡ false) ↔ P
    → (rest ≡ none) ↔ Q
    → (refuse bad e rest ≡ none) ↔ (P × Q)
refuse-none true e rest p q = ((λ h. cc), λ h. let k : true ≡ false = p.1 h.0 in cc)
refuse-none false e rest p q = ((λ h. (p.0 refl, q.0 h)), λ h. q.1 h.1)

pub attempt-none {ℓ ℓ' κ μ} :
    {E : Type ℓ} {F : Type ℓ'} {P : Type κ} {Q : Type μ} (o : Option E) (wrap : E → F)
    (rest : Option F)
    → (o ≡ none) ↔ P
    → (rest ≡ none) ↔ Q
    → (attempt o wrap rest ≡ none) ↔ (P × Q)
attempt-none none wrap rest p q = ((λ h. (p.0 refl, q.0 h)), λ h. q.1 h.1)
attempt-none (some e) wrap rest p q = ((λ h. cc), λ h. let k : some e ≡ none = p.1 h.0 in cc)

pub iff_refl {ℓ} : {P : Type ℓ} → P ↔ P
iff_refl = ((λ h. h), λ h. h)

pub not-false : (b : Bool) → (not b ≡ false) ↔ (b ≡ true)
not-false b = ground arith

pub nonempty_iff {ℓ} : {A : Type ℓ} (xs : List A) → (is_empty xs ≡ false) ↔ (xs ≢ [])
nonempty_iff [] = ((λ h. cc), λ h. absurd (h refl))
nonempty_iff (x ∷ xs) = ((λ _ e. cc), λ _. refl)

pub empty_iff {ℓ} : {A : Type ℓ} (xs : List A) → (not (is_empty xs) ≡ false) ↔ (xs ≡ [])
empty_iff [] = ((λ _. refl), λ _. refl)
empty_iff (x ∷ xs) = ((λ h. cc), λ h. cc)

-- Not both are given.
pub either_empty_iff {ℓ} :
    {A : Type ℓ} (xs ys : List A)
    → (not (is_empty xs) && not (is_empty ys) ≡ false) ↔ ((xs ≡ []) ⊎ (ys ≡ []))
either_empty_iff [] ys = ((λ _. inl refl), λ _. refl)
either_empty_iff (x ∷ xs) [] = ((λ _. inr refl), λ _. refl)
either_empty_iff (x ∷ xs) (y ∷ ys) = ((λ h. cc), λ h. elim h [ inl e ↦ cc | inr e ↦ cc ])

-- The last rung.
pub refuse-none_last {ℓ κ} :
    {E : Type ℓ} {P : Type κ} (bad : Bool) (e : E)
    → (bad ≡ false) ↔ P
    → (refuse bad e none ≡ none) ↔ P
refuse-none_last true e p = ((λ h. cc), λ h. let k : true ≡ false = p.1 h in cc)
refuse-none_last false e p = ((λ _. p.0 refl), λ _. refl)

pub attempt-none_last {ℓ ℓ' κ} :
    {E : Type ℓ} {F : Type ℓ'} {P : Type κ} (o : Option E) (wrap : E → F)
    → (o ≡ none) ↔ P
    → (attempt o wrap none ≡ none) ↔ P
attempt-none_last none wrap p = ((λ _. p.0 refl), λ _. refl)
attempt-none_last (some e) wrap p = ((λ h. cc), λ h. let k : some e ≡ none = p.1 h in cc)
