-- ===== src/Prelude/Assoc.antt =====
-- Go maps with string keys, as association lists: a lookup sees the first entry of its key.
use mathlib.Core.Path.{◌≡◌, refl}
use mathlib.Core.Bool.{Bool}
use mathlib.Core.Option.{Option, none, some}
use mathlib.Core.List.{List, [], ◌∷◌}
use native.Mathlib.Omega.{arith}
use claudeq.Prelude.Tests.{if◌then◌else◌, is_some}
use claudeq.Prelude.Texts.{Text, text_eq_iff, ◌==◌}

abbrev pub Assoc {ℓ} : Type ℓ → Type ℓ
Assoc V = List (Text × V)

module _ {ℓ} {V : Type ℓ} where
  -- `v, ok := m[k]`
  unfoldable pub lookup : Text → Assoc V → Option V
  lookup key [] = none
  lookup key (entry ∷ rest) = if entry.0 == key then some entry.1 else lookup key rest

  abbrev pub has : Text → Assoc V → Bool
  has key m = is_some (lookup key m)

  -- `delete(m, k)`
  unfoldable pub delete : Text → Assoc V → Assoc V
  delete key [] = []
  delete key (entry ∷ rest) =
      let others = delete key rest in if entry.0 == key then others else entry ∷ others

  pub lookup-delete :
      (key other : Text) (m : Assoc V)
      → lookup other (delete key m) ≡ (if key == other then none else lookup other m)
  unfolding lookup delete
  lookup-delete key other [] = ground arith
  lookup-delete key other (entry ∷ rest) = ground (
    arith,
    text_eq_iff entry.0 key,
    text_eq_iff entry.0 other,
    text_eq_iff key other,
    lookup-delete key other rest,
  )

  -- `m[k] = v`
  unfoldable pub insert : Text → V → Assoc V → Assoc V
  insert key value [] = (key, value) ∷ []
  insert key value (entry ∷ rest) =
      let more = insert key value rest in
      if entry.0 == key then (key, value) ∷ rest else entry ∷ more

  pub lookup-insert :
      (key other : Text) (value : V) (m : Assoc V)
      → lookup other (insert key value m) ≡ (if key == other then some value else lookup other m)
  unfolding lookup insert
  lookup-insert key other value [] = refl
  lookup-insert key other value (entry ∷ rest) = ground (
    arith,
    text_eq_iff entry.0 key,
    text_eq_iff entry.0 other,
    text_eq_iff key other,
    lookup-insert key other value rest,
  )

pub ruleset map_laws = (lookup-insert, lookup-delete)
