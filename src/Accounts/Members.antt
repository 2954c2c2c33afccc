-- ===== src/Accounts/Members.antt =====
-- A pool that `ValidatePool` of internal/provider/pool.go accepts has members that are configured.
use claudeq.Prelude.{
  ◌≡◌, refl, ap, sym, ◌∙◌, Bool, true, false, not, ◌&&◌, ◌||◌, Option, none, some, List, [], ◌∷◌,
  Text, ◌==◌, All, any, map, is_empty, is_some, if◌then◌else◌, arith, first,
}
use claudeq.Prelude.Floats.{Floats}
use claudeq.Prelude.Filter.{All-map}
use claudeq.Prelude.Result.{Result, ok, err, and_then-Passed}
use claudeq.Prelude.Ladder.{refuse, attempt}
use claudeq.Store.Config.{Provider}
use claudeq.Provider.Model.{Instance, Pool, PoolMember}
use claudeq.Provider.Set.{Set, find, lookup, new_set, with_pools, check_ids, SetProblem, set_of}
use claudeq.Engine.Pass.{instance_of, from_config, configured, no_provider_configured, TickProblem}
use claudeq.Accounts.Validate.{
  PoolProblem, check_found, check_members, validate_pool, kind_or, check_instance_id, bad_pool_id,
}
use claudeq.Accounts.Lists.{checked_pool, Accounts}
use claudeq.Accounts.Edit.{Host, check_pool, read_set}
use claudeq.Accounts.Saved.{is_configured}
use claudeq.Accounts.Links.{PoolLinked}

-- An instance of the set is a provider of the configuration.
find-configured :
    (id : Text) (ps : List Provider)
    → is_some (find id (map instance_of ps)) ≡ true
    → is_configured id ps ≡ true
unfolding find first any
find-configured id [] h = cc
find-configured id (p ∷ ps) h = by_test (p.id == id) h (find-configured id ps)
  where
    by_test :
        (b : Bool)
        → is_some (if b then some (instance_of p) else find id (map instance_of ps)) ≡ true
        → (is_some (find id (map instance_of ps)) ≡ true → is_configured id ps ≡ true)
        → (b || is_configured id ps) ≡ true
    by_test true k f = refl
    by_test false k f = f k

module _ (fl : Floats) where
  set-instances :
      (o : Option SetProblem) (d : Text) (insts : List Instance) (set : Set fl)
      → set_of fl o d insts ≡ ok set
      → set.instances ≡ insts
  set-instances (some e) d insts set h = cc
  set-instances none d insts set h = ground arith

  from_config-instances :
      (d : Text) (ps : List Provider) (pools : List (Pool fl)) (set : Set fl)
      → from_config fl d ps pools ≡ ok set
      → set.instances ≡ map instance_of ps
  unfolding from_config new_set with_pools
  from_config-instances d ps pools set h =
      by_test (is_empty ps) (set_of fl (check_ids [] (map instance_of ps)) d (map instance_of ps)) h
        (set-instances _ d (map instance_of ps))
    where
      by_test :
          (b : Bool) (r : Result SetProblem (Set fl))
          → (if b then err no_provider_configured else configured fl d pools ps r) ≡ ok set
          → ((s : Set fl) → r ≡ ok s → s.instances ≡ map instance_of ps)
          → set.instances ≡ map instance_of ps
      by_test true r k f = cc
      by_test false (err e) k f = cc
      by_test false (ok s) k f = kept k ∙ f s refl
        where
          kept :
              ◌≡◌ {A = Result TickProblem (Set fl)} (ok (with_pools fl s pools)) (ok set)
              → set.instances ≡ s.instances
          kept e = ground arith

  refuse_later :
      (b : Bool) (e : PoolProblem) (rest : Option PoolProblem)
      → refuse b e rest ≡ none
      → rest ≡ none
  refuse_later true e rest h = cc
  refuse_later false e rest h = h

  attempt_later :
      {E : Type 0} (o : Option E) (f : E → PoolProblem) (rest : Option PoolProblem)
      → attempt o f rest ≡ none
      → rest ≡ none
  attempt_later none f rest h = h
  attempt_later (some e) f rest h = cc

  found_member :
      (o : Option Instance) (m : PoolMember fl) (seen : List Text) (kind : Text) (heavy : Bool)
      (rest : Instance → Option PoolProblem)
      → check_found fl o m seen kind heavy rest ≡ none
      → (is_some o ≡ true) × (inst : Instance) × (rest inst ≡ none)
  found_member none m seen kind heavy rest h = cc
  found_member (some inst) m seen kind heavy rest h = (
    refl,
    inst,
    refuse_later heavy _ _ (
        refuse_later (not (is_empty kind) && not (inst.kind == kind)) _ _
          (refuse_later (any (λ id. id == m.provider_id) seen) _ _ h)),
  )

  members_found :
      (is_finite : fl.F → Bool) (set : Set fl) (seen : List Text) (kind : Text)
      (ms : List (PoolMember fl))
      → check_members fl is_finite set seen kind ms ≡ none
      → All (λ (m : PoolMember fl). is_some (lookup fl set m.provider_id) ≡ true) ms
  unfolding check_members
  members_found is_finite set seen kind [] h = tt
  members_found is_finite set seen kind (m ∷ ms) h =
      let (one, inst, rest) = found_member (lookup fl set m.provider_id) m seen kind _ _ h in
      (one, members_found is_finite set (m.provider_id ∷ seen) (kind_or fl kind inst.kind) ms rest)

  module _ (host : Host fl) (a : Accounts fl) where
    pub checked-PoolLinked :
        (p : Pool fl) (u : Unit {0})
        → check_pool fl host a p ≡ ok u
        → PoolLinked fl a.config.providers p
    unfolding check_pool validate_pool lookup
    checked-PoolLinked p u h =
        let (set, is_set, checked) =
          and_then-Passed
            (read_set fl host
              (from_config fl a.config.settings.default_provider a.config.providers a.pools))
            _ h in
        let good = passed (validate_pool fl host.is_finite set p) checked in
        let later = refuse_later (is_empty p.members) _ _ (
          refuse_later (is_some (lookup fl set p.id)) _ _
            (attempt_later (check_instance_id p.id) bad_pool_id _ good)) in
        let same = from_config-instances _ a.config.providers a.pools set (read _ is_set) in
        All-map
          (λ (m : PoolMember fl) k.
            find-configured m.provider_id a.config.providers
              (ap (λ (i : List Instance). is_some (find m.provider_id i)) (sym same) ∙ k))
          p.members (members_found host.is_finite set [] [] p.members later)
      where
        passed : (o : Option PoolProblem) → checked_pool o ≡ ok u → o ≡ none
        passed none k = refl
        passed (some e) k = cc

        read :
            {set : Set fl} (r : Result TickProblem (Set fl))
            → read_set fl host r ≡ ok set
            → r ≡ ok set
        read (ok s) k = cc
        read (err e) k = cc
        -- A save of other pools on the same providers.
