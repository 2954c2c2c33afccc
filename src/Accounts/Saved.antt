-- ===== src/Accounts/Saved.antt =====
-- What an accepted save says of the providers: every fallback names a configured one.
use claudeq.Prelude.{
  ◌≡◌, ◌⊎◌, inl, inr, refl, ap, sym, ◌∙◌, Bool, true, false, not, ◌||◌, Option, none, some, List,
  [], ◌∷◌, Text, ◌==◌, All, any, suc, length, is_empty, is_some, if◌then◌else◌, arith,
}
use claudeq.Prelude.Assoc.{Assoc, lookup, insert, lookup-insert}
use claudeq.Prelude.Floats.{Floats}
use claudeq.Prelude.Result.{ok, err, ◌>>=◌}
use claudeq.Prelude.Ladder.{refuse, attempt, not-false}
use claudeq.Store.Config.{Provider, Config}
use claudeq.Store.Saving.{
  ConfigProblem, next_of, check_fallback, check_each_fallback, check_fallbacks, check_provider_ids,
  check_providers, check_chain, save_config, or_none,
}
use claudeq.Accounts.Lists.{saved, Accounts}
use claudeq.Accounts.Edit.{Host, save}

abbrev pub is_configured : Text → List Provider → Bool
is_configured id ps = any (λ (p : Provider). p.id == id) ps

attempt_inv :
    (o rest : Option ConfigProblem)
    → attempt o (λ (e : ConfigProblem). e) rest ≡ none
    → (o ≡ none) × (rest ≡ none)
attempt_inv none rest h = (refl, h)
attempt_inv (some e) rest h = cc

refuse_inv :
    (b : Bool) (e : ConfigProblem) (rest : Option ConfigProblem)
    → refuse b e rest ≡ none
    → (b ≡ false) × (rest ≡ none)
refuse_inv true e rest h = cc
refuse_inv false e rest h = (refl, h)

-- The map of the fallbacks has the configured ids, and those that were in it.
next_of-configured :
    (id : Text) (ps : List Provider) (next : Assoc Text)
    → is_some (lookup id (next_of ps next)) ≡ true
    → (is_configured id ps ≡ true) ⊎ (is_some (lookup id next) ≡ true)
unfolding next_of any
next_of-configured id [] next h = inr h
next_of-configured id (p ∷ ps) next h =
    elim (next_of-configured id ps (insert p.id p.fallback_provider next) h) [
      | inl later ↦ inl (or_right (p.id == id) later)
      | inr here ↦ by_test (p.id == id) (
          sym (ap (λ (o : Option Text). is_some o) (lookup-insert p.id id p.fallback_provider next))
          ∙ here)
    ]
  where
    or_right : (a : Bool) {b : Bool} → b ≡ true → (a || b) ≡ true
    or_right a h = ground arith

    by_test :
        (b : Bool)
        → is_some (if b then some p.fallback_provider else lookup id next) ≡ true
        → ((b || any (λ (q : Provider). q.id == id) ps) ≡ true) ⊎ (is_some (lookup id next) ≡ true)
    by_test true k = inl refl
    by_test false k = inr k

abbrev pub HasFallback : List Provider → Provider → Type 0
HasFallback all p = (is_empty p.fallback_provider || is_configured p.fallback_provider all) ≡ true

fallback_known :
    (all : List Provider) (p : Provider)
    → check_fallback (next_of all []) p ≡ none
    → HasFallback all p
unfolding check_fallback lookup
fallback_known all p h = by_test (is_empty p.fallback_provider) refl h
  where
    by_test :
        (b : Bool)
        → is_empty p.fallback_provider ≡ b
        → (if b
            then none
            else refuse (p.fallback_provider == p.id) (ConfigProblem.own_fallback p.id) (
                refuse
                  (not (is_some (lookup p.fallback_provider (next_of all []))))
                  (ConfigProblem.fallback_not_configured p.fallback_provider p.id)
                  (check_chain
                    (suc (suc (length (next_of all []))))
                    p.id
                    (next_of all [])
                    (p.id ∷ [])
                    (or_none (lookup p.id (next_of all []))))))
          ≡ none
        → (is_empty p.fallback_provider || is_configured p.fallback_provider all) ≡ true
    by_test true e k = rw e refl
    by_test false e k =
        let (_, k') = refuse_inv (p.fallback_provider == p.id) _ _ k in
        let (found, _) =
          refuse_inv (not (is_some (lookup p.fallback_provider (next_of all [])))) _ _ k' in
        rw e (elim (next_of-configured p.fallback_provider all [] ((not-false _).0 found)) [
          | inl c ↦ c
          | inr none_ ↦ cc
        ])

pub fallbacks_known :
    (all ps : List Provider)
    → check_each_fallback (next_of all []) ps ≡ none
    → All (HasFallback all) ps
unfolding check_each_fallback
fallbacks_known all [] h = tt
fallbacks_known all (p ∷ ps) h =
    let (one, rest) =
      attempt_inv (check_fallback (next_of all []) p) (check_each_fallback (next_of all []) ps) h in
    (fallback_known all p one, fallbacks_known all ps rest)

checked_fallbacks :
    (c : Config) → check_providers c ≡ none → All (HasFallback c.providers) c.providers
unfolding check_providers check_fallbacks
checked_fallbacks c h =
    let (_, rest) = attempt_inv (check_provider_ids [] c.providers) _ h in
    let (_, chains) = refuse_inv _ _ (check_fallbacks c.providers) rest in
    fallbacks_known c.providers c.providers chains

module _ (fl : Floats) (host : Host fl) where
  -- A save changes nothing, and is made only if the fallbacks are known.
  pub save_inv :
      (a b : Accounts fl)
      → save fl host a ≡ ok b
      → (b ≡ a) × All (HasFallback a.config.providers) a.config.providers
  unfolding save_config
  save_inv a b h = by_problem _ h (λ k.
      let (_, k') = attempt_inv _ _ k in
      let (_, k'') = attempt_inv _ (check_providers a.config) k' in checked_fallbacks a.config k'')
    where
      by_problem :
          (o : Option ConfigProblem)
          → (saved (elim o [ none ↦ ok a.config | some e ↦ err e ]) >>= λ c.
              ok (record { config = c; pools = a.pools }))
            ≡ ok b
          → (o ≡ none → All (HasFallback a.config.providers) a.config.providers)
          → (b ≡ a) × All (HasFallback a.config.providers) a.config.providers
      by_problem none k f = (cc, f refl)
      by_problem (some e) k f = cc
