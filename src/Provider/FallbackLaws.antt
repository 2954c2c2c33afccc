-- ===== src/Provider/FallbackLaws.antt =====
-- The fallback walk ends, and finds the first instance of the chain that takes the work.
use claudeq.Prelude.{
  ℕ, zero, suc, ◌≤◌, ◌<◌, ◌≡◌, inl, inr, refl, ap, Bool, true, false, ◌||◌, some, List, [], ◌∷◌,
  Text, arith, ◌==◌, if◌then◌else◌, is_empty, any, length, Bool-cases, Option-cases, text_eq_iff,
  first,
}
use claudeq.Provider.Model.{Instance}
use claudeq.Provider.Set.{find}
use claudeq.Provider.Fallback.{Walk, stopped, exhausted, found, is_seen, walk, fallback_walk}

pub find-some :
    (id : Text) (insts : List Instance) (inst : Instance) → find id insts ≡ some inst → inst.id ≡ id
unfolding find first
find-some id [] inst h = cc
find-some id (i ∷ insts) inst h = ground (arith, text_eq_iff i.id id, find-some id insts inst)

-- How many instances have an id that the walk has not seen.
unseen : List Text → List Instance → ℕ
unseen seen [] = 0
unseen seen (i ∷ insts) =
    let rest = unseen seen insts in if is_seen i.id seen then rest else suc rest

is_seen-cons :
    (id j : Text) (seen : List Text) → is_seen id (j ∷ seen) ≡ (j == id || is_seen id seen)
unfolding is_seen any
is_seen-cons id j seen = refl

unseen-le :
    (id : Text) (seen : List Text) (insts : List Instance)
    → unseen (id ∷ seen) insts ≤ unseen seen insts
unfolding unseen
unseen-le id seen [] = omega arith
unseen-le id seen (i ∷ insts) = ground (arith, is_seen-cons i.id id seen, unseen-le id seen insts)

-- Seeing an instance for the first time leaves fewer to see.
unseen-lt :
    (id : Text) (seen : List Text) (insts : List Instance) (inst : Instance)
    → find id insts ≡ some inst
    → is_seen id seen ≡ false
    → unseen (id ∷ seen) insts < unseen seen insts
unfolding unseen find first
unseen-lt id seen [] inst h s = cc
unseen-lt id seen (i ∷ insts) inst h s = elim (Bool-cases (i.id == id)) [
  | inl e ↦
      let same_id : i.id ≡ id = (text_eq_iff i.id id).0 e in
      ground (
        arith,
        is_seen-cons i.id id seen,
        text_eq_iff id i.id,
        text_eq_iff i.id id,
        unseen-le id seen insts,
        e,
        s,
        ap (λ x. is_seen x seen) same_id,
      )
  | inr e ↦
      let rest : find id insts ≡ some inst = rw e at h in
      let less = unseen-lt id seen insts inst rest s in
      ground (arith, is_seen-cons i.id id seen, less)
]

-- The instance that a hop from `cur` leads to.
abbrev pub Next : List Instance → Instance → Instance → Type 0
Next insts cur next =
    (is_empty cur.fallback_provider ≡ false) × (find cur.fallback_provider insts ≡ some next)

-- `cur` is reached from `origin` over instances that do not take the work.
pub data Passed (insts : List Instance) (fits : Instance → Bool) (origin : Instance)
    : Instance → Type 0 where
  start : Passed insts fits origin origin
  over :
      (cur next : Instance)
      → Passed insts fits origin cur
      → Next insts cur next
      → fits next ≡ false
      → Passed insts fits origin next

module _ (insts : List Instance) (fits : Instance → Bool) where
  -- What a walk came to.
  abbrev pub IsRight : Instance → Walk → Type 0
  IsRight origin exhausted = ⊥
  IsRight origin stopped = Unit
  IsRight origin (found from next) =
      Passed insts fits origin from × (Next insts from next × (fits next ≡ true))

  walk-IsRight :
      (origin : Instance) (fuel : ℕ) (seen : List Text) (cur : Instance)
      → unseen seen insts < fuel
      → Passed insts fits origin cur
      → IsRight origin (walk insts fits fuel seen cur)
  unfolding walk
  walk-IsRight origin zero seen cur h p = absurd (omega (arith, h))
  walk-IsRight origin (suc fuel) seen cur h p = elim (Bool-cases (is_empty cur.fallback_provider)) [
    | inl e ↦ simp e tt
    | inr e ↦ elim (Option-cases (find cur.fallback_provider insts)) [
      | inl n ↦ simp (e, n) tt
      | inr (next, n) ↦ elim (Bool-cases (is_seen cur.fallback_provider seen)) [
        | inl s ↦ simp (e, n, s) tt
        | inr s ↦ elim (Bool-cases (fits next)) [
          | inl f ↦ simp (e, n, s, f) (p, ((refl, refl), refl))
          | inr f ↦
              simp (e, n, s, f)
                (walk-IsRight origin fuel (cur.fallback_provider ∷ seen) next
                  (omega (arith, unseen-lt cur.fallback_provider seen insts next n s, h))
                  (over cur next p (e, n) f))
        ]
      ]
    ]
  ]

  unseen-length : (seen : List Text) (xs : List Instance) → unseen seen xs ≤ length xs
  unfolding unseen
  unseen-length seen [] = omega arith
  unseen-length seen (x ∷ xs) = ground (arith, unseen-length seen xs)

  -- The walk over the fallbacks ends, cycle or not: it either stops without a substitute, or it
  -- finds one that takes the work, over hops of which each is the fallback of the one before, and
  -- none that it passed takes the work.
  pub fallback_walk-IsRight : (origin : Instance) → IsRight origin (fallback_walk insts fits origin)
  unfolding fallback_walk
  fallback_walk-IsRight origin =
      walk-IsRight origin (suc (length insts)) (origin.id ∷ []) origin
        (omega (arith, unseen-length (origin.id ∷ []) insts)) start
