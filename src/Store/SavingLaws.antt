-- ===== src/Store/SavingLaws.antt =====
-- The check of the fallback chains ends, and what it accepts are chains that end.
use claudeq.Prelude.{
  ℕ, zero, suc, ◌+◌, ◌≤◌, ◌<◌, ◌≡◌, ◌⊎◌, inl, inr, refl, sym, ap, Bool, true, false, not, ◌||◌,
  Option, none, some, List, [], ◌∷◌, Text, ◌==◌, if◌then◌else◌, any, is_empty, is_some, length, All,
  arith, text_eq_iff, Bool-cases, Option-cases,
}
use mathlib.Core.Path.{subst}
use claudeq.Prelude.Assoc.{Assoc, lookup}
use claudeq.Prelude.Ladder.{refuse, attempt}
use claudeq.Store.Config.{Provider}
use claudeq.Store.Saving.{
  ConfigProblem, fallback_cycle, own_fallback, fallback_not_configured, fuel_ran_out, mentions,
  or_none, check_chain, check_fallback, check_each_fallback, check_fallbacks, next_of,
}

-- How many entries have a key that the walk has not seen.
unseen : List Text → Assoc Text → ℕ
unseen seen [] = 0
unseen seen (entry ∷ next) =
    let rest = unseen seen next in if mentions entry.0 seen then rest else suc rest

mentions-cons :
    (id j : Text) (seen : List Text) → mentions id (j ∷ seen) ≡ (j == id || mentions id seen)
unfolding any
mentions-cons id j seen = refl

unseen-le :
    (id : Text) (seen : List Text) (next : Assoc Text) → unseen (id ∷ seen) next ≤ unseen seen next
unfolding unseen
unseen-le id seen [] = omega arith
unseen-le id seen (entry ∷ next) =
    ground (arith, mentions-cons entry.0 id seen, unseen-le id seen next)

unseen-lt :
    (id : Text) (seen : List Text) (next : Assoc Text) (to : Text)
    → lookup id next ≡ some to
    → mentions id seen ≡ false
    → unseen (id ∷ seen) next < unseen seen next
unfolding unseen lookup
unseen-lt id seen [] to h s = cc
unseen-lt id seen (entry ∷ next) to h s = elim (Bool-cases (entry.0 == id)) [
  | inl e ↦
      let same_id : entry.0 ≡ id = (text_eq_iff entry.0 id).0 e in
      ground (
        arith,
        mentions-cons entry.0 id seen,
        text_eq_iff id entry.0,
        text_eq_iff entry.0 id,
        unseen-le id seen next,
        e,
        s,
        ap (λ x. mentions x seen) same_id,
      )
  | inr e ↦
      let rest : lookup id next ≡ some to = rw e at h in
      let less = unseen-lt id seen next to rest s in
      ground (arith, mentions-cons entry.0 id seen, less)
]

-- The chain of fallbacks from an id comes to an end.
pub data Ends (next : Assoc Text) : Text → Type 0 where
  stop : Ends next []
  follow : (id : Text) → Ends next (or_none (lookup id next)) → Ends next id

abbrev pub IsFinal : ConfigProblem → Type 0
IsFinal fuel_ran_out = ⊥
IsFinal _ = Unit

-- What the walk says of the chain: that it ends, or a problem that the source knows.
abbrev pub Verdict : Assoc Text → Text → Option ConfigProblem → Type 0
Verdict next id none = Ends next id
Verdict next id (some e) = IsFinal e

after_one :
    (next : Assoc Text) (id : Text) (o : Option ConfigProblem)
    → Verdict next (or_none (lookup id next)) o
    → Verdict next id o
after_one next id none h = follow id h
after_one next id (some e) h = h

nothing_more :
    (fuel : ℕ) (origin : Text) (next : Assoc Text) (seen : List Text)
    → 1 ≤ fuel
    → check_chain fuel origin next seen [] ≡ none
unfolding check_chain
nothing_more zero origin next seen h = absurd (omega (arith, h))
nothing_more (suc fuel) origin next seen h = refl

refused-Verdict :
    (b : Bool) (next : Assoc Text) (id origin : Text) (o : Option ConfigProblem)
    → Verdict next id o
    → Verdict next id (refuse b (fallback_cycle origin) o)
refused-Verdict true next id origin o h = tt
refused-Verdict false next id origin o h = h

check_chain-Verdict :
    (fuel : ℕ) (origin : Text) (next : Assoc Text) (seen : List Text) (id : Text)
    → unseen seen next + 2 ≤ fuel
    → Verdict next id (check_chain fuel origin next seen id)
unfolding check_chain
check_chain-Verdict zero origin next seen id h = absurd (omega (arith, h))
check_chain-Verdict (suc fuel) origin next seen [] h = stop
check_chain-Verdict (suc fuel) origin next seen (c ∷ cs) h =
    let id : Text = c ∷ cs in
    elim (Bool-cases (mentions id seen)) [
      | inl s ↦ rw s tt
      | inr s ↦ rw s (
          after_one next id _ (elim (Option-cases (lookup id next)) [
            | inl n ↦ rw n (
                subst (Verdict next [])
                  (sym (nothing_more fuel origin next (id ∷ seen) (omega (arith, h)))) stop)
            | inr (to, n) ↦ rw n (
                check_chain-Verdict fuel origin next (id ∷ seen) to
                  (omega (arith, h, unseen-lt id seen next to n s)))
          ]))
    ]

unseen-length : (seen : List Text) (next : Assoc Text) → unseen seen next ≤ length next
unfolding unseen
unseen-length seen [] = omega arith
unseen-length seen (entry ∷ next) = ground (arith, unseen-length seen next)

-- A provider without a fallback, or one from whose id the chain ends.
abbrev pub HasEnd : Assoc Text → Provider → Option ConfigProblem → Type 0
HasEnd next p none = (is_empty p.fallback_provider ≡ true) ⊎ Ends next (or_none (lookup p.id next))
HasEnd next p (some e) = IsFinal e

HasEnd-of_Verdict :
    (next : Assoc Text) (p : Provider) (o : Option ConfigProblem)
    → Verdict next (or_none (lookup p.id next)) o
    → HasEnd next p o
HasEnd-of_Verdict next p none h = inr h
HasEnd-of_Verdict next p (some e) h = h

refused-HasEnd :
    (b : Bool) (next : Assoc Text) (p : Provider) (e : ConfigProblem) (o : Option ConfigProblem)
    → IsFinal e
    → HasEnd next p o
    → HasEnd next p (refuse b e o)
refused-HasEnd true next p e o f h = f
refused-HasEnd false next p e o f h = h

unless_empty-HasEnd :
    (b : Bool) (next : Assoc Text) (p : Provider) (o : Option ConfigProblem)
    → is_empty p.fallback_provider ≡ b
    → HasEnd next p o
    → HasEnd next p (if b then none else o)
unless_empty-HasEnd true next p o e h = inl e
unless_empty-HasEnd false next p o e h = h

check_fallback-HasEnd : (next : Assoc Text) (p : Provider) → HasEnd next p (check_fallback next p)
unfolding check_fallback
check_fallback-HasEnd next p =
    let fuel = suc (suc (length next)) in
    let start = or_none (lookup p.id next) in
    let walked = check_chain fuel p.id next (p.id ∷ []) start in
    unless_empty-HasEnd (is_empty p.fallback_provider) next p _ refl (
      refused-HasEnd (p.fallback_provider == p.id) next p (own_fallback p.id) _ tt (
        refused-HasEnd (not (is_some (lookup p.fallback_provider next))) next p
          (fallback_not_configured p.fallback_provider p.id) walked tt
          (HasEnd-of_Verdict next p walked (
            check_chain-Verdict fuel p.id next (p.id ∷ []) start
              (omega (arith, unseen-length (p.id ∷ []) next))))))

-- What the check of all of them says.
abbrev pub HaveEnds : Assoc Text → List Provider → Option ConfigProblem → Type 0
HaveEnds next ps none = All (λ p. HasEnd next p none) ps
HaveEnds next ps (some e) = IsFinal e

attempt-HaveEnds :
    (next : Assoc Text) (p : Provider) (ps : List Provider) (o rest : Option ConfigProblem)
    → HasEnd next p o
    → HaveEnds next ps rest
    → HaveEnds next (p ∷ ps) (attempt o (λ e. e) rest)
attempt-HaveEnds next p ps none none h k = (h, k)
attempt-HaveEnds next p ps none (some e) h k = k
attempt-HaveEnds next p ps (some e) rest h k = h

check_each_fallback-HaveEnds :
    (next : Assoc Text) (ps : List Provider) → HaveEnds next ps (check_each_fallback next ps)
unfolding check_each_fallback
check_each_fallback-HaveEnds next [] = tt
check_each_fallback-HaveEnds next (p ∷ ps) =
    attempt-HaveEnds next p ps (check_fallback next p) (check_each_fallback next ps)
      (check_fallback-HasEnd next p) (check_each_fallback-HaveEnds next ps)

-- The check of the fallbacks always comes to a verdict of its own, and where it refuses nothing, the
-- chain of every provider with a fallback ends.
pub check_fallbacks-HaveEnds :
    (ps : List Provider) → HaveEnds (next_of ps []) ps (check_fallbacks ps)
unfolding check_fallbacks
check_fallbacks-HaveEnds ps = check_each_fallback-HaveEnds (next_of ps []) ps
