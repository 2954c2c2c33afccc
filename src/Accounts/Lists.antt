-- ===== src/Accounts/Lists.antt =====
-- The lists that the operations of internal/app/provider.go and internal/app/pool.go read and write,
-- and what they refuse.
use claudeq.Prelude.{
  Bool, not, ◌&&◌, Option, none, some, List, [], ◌∷◌, ◌++◌, Text, ◌==◌, map, is_empty, first,
  keep_if, if◌then◌else◌,
}
use claudeq.Prelude.Floats.{Floats}
use claudeq.Prelude.Result.{Result, ok, err, fail_if}
use claudeq.Task.Model.{Task}
use claudeq.Store.Config.{Provider, Config}
use claudeq.Store.Saving.{ConfigProblem}
use claudeq.Provider.Model.{Instance, Pool, PoolMember}
use claudeq.Engine.Pass.{TickProblem}
use claudeq.Accounts.Validate.{InstanceProblem, PoolProblem, expand_home}

-- `Stored` of an instance.
abbrev pub stored : Instance → Provider
stored i = record {
  id = i.id;
  kind = i.kind;
  name = i.name;
  binary_path = i.binary_path;
  config_dir = i.config_dir;
  default_model = i.default_model;
  fallback_provider = i.fallback_provider;
  fallback_model = i.fallback_model;
  enabled = i.enabled;
}

-- What still names a provider: `providerRefs`.
pub record References : Type 0 where
  pub is_default : Bool
  pub fallbacks : List Text
  pub pools : List Text
  pub tasks : List Text

pub data EditProblem : Type 0 where
  instance_refused : InstanceProblem → EditProblem
  pool_refused : PoolProblem → EditProblem
  save_refused : ConfigProblem → EditProblem
  config_unreadable : TickProblem → EditProblem
  provider_exists pool_exists unknown_provider unknown_pool id_fixed : Text → EditProblem
  only_provider default_switched_off is_switched_off : Text → EditProblem
  still_used : References → EditProblem
  pool_used : List Text → EditProblem
  change_refused : Text → EditProblem

unfoldable pub find_provider : Text → List Provider → Option Provider
unfolding first
find_provider id ps = first (λ p. p.id == id) ps

-- `cfg.Providers[providerIndex(…)] = p`
unfoldable pub replace_provider : Text → Provider → List Provider → List Provider
replace_provider id new [] = []
replace_provider id new (p ∷ ps) =
    let rest = replace_provider id new ps in if p.id == id then new ∷ ps else p ∷ rest

unfoldable pub drop_provider : Text → List Provider → List Provider
drop_provider id [] = []
drop_provider id (p ∷ ps) = let rest = drop_provider id ps in if p.id == id then ps else p ∷ rest

-- `normalizeFallback`
unfoldable pub normalize_fallback : Instance → Instance
normalize_fallback i = if is_empty i.fallback_provider then record i { fallback_model = [] } else i

unfoldable pub expand_paths : (Text → Text → Text) → Option Text → Instance → Instance
unfolding expand_home
expand_paths join home i = record i {
  binary_path = expand_home join home i.binary_path;
  config_dir = expand_home join home i.config_dir;
}

abbrev pub checked : Option InstanceProblem → Result EditProblem (Unit {0})
checked none = ok tt
checked (some e) = err (instance_refused e)

abbrev pub checked_pool : Option PoolProblem → Result EditProblem (Unit {0})
checked_pool none = ok tt
checked_pool (some e) = err (pool_refused e)

abbrev pub found {ℓ} : {A : Type ℓ} → EditProblem → Option A → Result EditProblem A
found e none = err e
found e (some a) = ok a

abbrev pub saved : Result ConfigProblem Config → Result EditProblem Config
saved (ok c) = ok c
saved (err e) = err (save_refused e)

-- `checkDefaultStaysUsable`
unfoldable pub check_default : Config → Text → Bool → Result EditProblem (Unit {0})
check_default c id enabled =
    fail_if (not enabled && c.settings.default_provider == id) (default_switched_off id)

module _ (fl : Floats) where
  -- The configuration with its pools.
  pub record Accounts : Type 0 where
    pub config : Config
    pub pools : List (Pool fl)

  unfoldable pub find_pool : Text → List (Pool fl) → Option (Pool fl)
  unfolding first
  find_pool id ps = first (λ p. p.id == id) ps

  unfoldable pub replace_pool : Text → Pool fl → List (Pool fl) → List (Pool fl)
  replace_pool id new [] = []
  replace_pool id new (p ∷ ps) =
      let rest = replace_pool id new ps in if p.id == id then new ∷ ps else p ∷ rest

  unfoldable pub drop_pool : Text → List (Pool fl) → List (Pool fl)
  drop_pool id [] = []
  drop_pool id (p ∷ ps) = let rest = drop_pool id ps in if p.id == id then ps else p ∷ rest

  -- The pool of each member that is this provider.
  abbrev pub member_pools : Text → Text → List (PoolMember fl) → List Text
  member_pools pool id [] = []
  member_pools pool id (m ∷ ms) =
      let rest = member_pools pool id ms in if m.provider_id == id then pool ∷ rest else rest

  unfoldable pub pools_with : Text → List (Pool fl) → List Text
  pools_with id [] = []
  pools_with id (p ∷ ps) = member_pools p.id id p.members ++ pools_with id ps

  -- `providerRefs`
  unfoldable pub provider_refs : Accounts → Text → References
  unfolding keep_if pools_with
  provider_refs a id = record {
    is_default = a.config.settings.default_provider == id;
    fallbacks =
        map (λ (p : Provider). p.id) (keep_if (λ p. p.fallback_provider == id) a.config.providers);
    pools = pools_with id a.pools;
    tasks = map (λ (t : Task). t.id) (keep_if (λ t. t.provider == id) a.config.tasks);
  }

  abbrev pub is_unused : References → Bool
  is_unused r = not r.is_default && is_empty r.fallbacks && is_empty r.pools && is_empty r.tasks

  abbrev pub with_providers : Accounts → List Provider → Accounts
  with_providers a ps = record a { config = record a.config { providers = ps } }
