-- ===== src/Accounts/Edit.antt =====
-- Adding, editing, switching and removing providers and pools. An operation gives the configuration
-- that `SaveConfig` has accepted.
use claudeq.Prelude.{
  Bool, not, Option, List, [], ◌∷◌, ◌++◌, Text, ◌==◌, map, is_empty, is_some, keep_if, length, eqb,
}
use claudeq.Prelude.Floats.{Floats}
use claudeq.Prelude.Strings.{Time}
use claudeq.Prelude.Result.{Result, ok, err, ◌>>=◌, fail_if}
use claudeq.Task.Model.{Task}
use claudeq.Store.Saving.{save_config}
use claudeq.Store.State.{State, forget_provider}
use claudeq.Provider.Model.{Instance, Pool}
use claudeq.Provider.Set.{Set}
use claudeq.Engine.Pass.{instance_of, from_config, TickProblem}
use claudeq.Accounts.Validate.{validate_instance, validate_pool}
use claudeq.Accounts.Lists.{
  EditProblem, provider_exists, pool_exists, unknown_provider, unknown_pool, id_fixed,
  only_provider, is_switched_off, still_used, pool_used, config_unreadable, stored, find_provider,
  replace_provider, drop_provider, normalize_fallback, expand_paths, checked, checked_pool, found,
  saved, check_default, Accounts, find_pool, replace_pool, drop_pool, provider_refs, is_unused,
  with_providers,
}

-- What the operations ask of the system: the crontab parser, the registered kinds, the home
-- directory, how paths are joined, and which weights are numbers.
pub record Host (fl : Floats) : Type 0 where
  pub parse_cron : Text → Option (Time → Time)
  pub is_registered : Text → Bool
  pub join : Text → Text → Text
  pub home : Option Text
  pub is_finite : fl.F → Bool

abbrev pub is_only {ℓ} : {A : Type ℓ} → List A → Bool
is_only xs = eqb (length xs) 1

module _ (fl : Floats) (host : Host fl) where
  -- What `UpdateConfig` saves.
  abbrev pub save : Accounts fl → Result EditProblem (Accounts fl)
  save a = saved (save_config host.parse_cron a.config) >>= λ c.
      ok (record { config = c; pools = a.pools })

  abbrev pub prepared : Instance → Instance
  prepared inst = normalize_fallback (expand_paths host.join host.home inst)

  -- `AddProvider`
  unfoldable pub add_provider : Instance → Accounts fl → Result EditProblem (Accounts fl)
  unfolding save_config find_provider find_pool validate_instance normalize_fallback expand_paths
  add_provider given a =
      let inst = prepared given in
      checked (validate_instance host.is_registered inst) >>= λ _.
      fail_if (is_some (find_provider inst.id a.config.providers)) (provider_exists inst.id)
      >>= λ _. fail_if (is_some (find_pool fl inst.id a.pools)) (pool_exists inst.id) >>= λ _.
          save (with_providers fl a (a.config.providers ++ stored inst ∷ []))

  abbrev pub write_edited_provider :
      Text → Accounts fl → Instance → Result EditProblem (Accounts fl)
  write_edited_provider id a edited = fail_if (not (edited.id == id)) (id_fixed id) >>= λ _.
      checked (validate_instance host.is_registered (prepared edited)) >>= λ _.
      check_default a.config id (prepared edited).enabled >>= λ _.
      save (with_providers fl a (replace_provider id (stored (prepared edited)) a.config.providers))

  -- `EditProvider`, with the change as an argument.
  unfoldable pub edit_provider :
      Text
      → (Instance → Result EditProblem Instance)
      → Accounts fl
      → Result EditProblem (Accounts fl)
  unfolding save_config find_provider replace_provider validate_instance normalize_fallback
      expand_paths check_default
  edit_provider id apply a =
      found (unknown_provider id) (find_provider id a.config.providers) >>= λ p.
      apply (instance_of p) >>= λ edited. write_edited_provider id a edited

  -- `SetProviderEnabled`
  unfoldable pub set_provider_enabled : Text → Bool → Accounts fl → Result EditProblem (Accounts fl)
  unfolding save_config find_provider replace_provider check_default
  set_provider_enabled id enabled a =
      found (unknown_provider id) (find_provider id a.config.providers) >>= λ p.
      check_default a.config id enabled >>= λ _. save (
        with_providers fl a
          (replace_provider id (record p { enabled = enabled }) a.config.providers))

  -- `RemoveProvider`, with the scheduling state.
  unfoldable pub remove_provider :
      Text → Accounts fl → State → Result EditProblem (Accounts fl × State)
  unfolding save_config find_provider drop_provider provider_refs forget_provider
  remove_provider id a s =
      found (unknown_provider id) (find_provider id a.config.providers) >>= λ _.
      fail_if (is_only a.config.providers) (only_provider id) >>= λ _.
      fail_if (not (is_unused fl (provider_refs fl a id))) (still_used (provider_refs fl a id))
      >>= λ _. save (with_providers fl a (drop_provider id a.config.providers)) >>= λ left.
          ok (left, forget_provider id s)

  -- `SetDefaultProvider`
  unfoldable pub set_default_provider : Text → Accounts fl → Result EditProblem (Accounts fl)
  unfolding save_config find_provider
  set_default_provider id a =
      found (unknown_provider id) (find_provider id a.config.providers) >>= λ p.
      fail_if (not p.enabled) (is_switched_off id) >>= λ _. save (record a {
        config = record a.config { settings = record a.config.settings { default_provider = id } };
      })

  abbrev pub read_set : Result TickProblem (Set fl) → Result EditProblem (Set fl)
  read_set (ok s) = ok s
  read_set (err e) = err (config_unreadable e)

  -- `validatePool` of internal/app/pool.go
  unfoldable pub check_pool : Accounts fl → Pool fl → Result EditProblem (Unit {0})
  unfolding from_config validate_pool
  check_pool a p =
      read_set (from_config fl a.config.settings.default_provider a.config.providers a.pools)
      >>= λ set. checked_pool (validate_pool fl host.is_finite set p)

  abbrev pub with_pool_list : Accounts fl → List (Pool fl) → Accounts fl
  with_pool_list a ps = record a { pools = ps }

  -- `AddPool`
  unfoldable pub add_pool : Pool fl → Accounts fl → Result EditProblem (Accounts fl)
  unfolding save_config find_pool check_pool
  add_pool p a = fail_if (is_some (find_pool fl p.id a.pools)) (pool_exists p.id) >>= λ _.
      check_pool a p >>= λ _. save (with_pool_list a (a.pools ++ p ∷ []))

  -- `EditPool`, with the change as an argument.
  unfoldable pub edit_pool :
      Text
      → (Pool fl → Result EditProblem (Pool fl))
      → Accounts fl
      → Result EditProblem (Accounts fl)
  unfolding save_config find_pool replace_pool check_pool
  edit_pool id apply a = found (unknown_pool id) (find_pool fl id a.pools) >>= λ p.
      apply p >>= λ edited. fail_if (not (edited.id == id)) (id_fixed id) >>= λ _.
      check_pool a edited >>= λ _. save (with_pool_list a (replace_pool fl id edited a.pools))

  abbrev pub pool_tasks : Text → Accounts fl → List Text
  pool_tasks id a = map (λ (t : Task). t.id) (keep_if (λ t. t.pool == id) a.config.tasks)

  -- `RemovePool`
  unfoldable pub remove_pool : Text → Accounts fl → Result EditProblem (Accounts fl)
  unfolding save_config find_pool drop_pool keep_if
  remove_pool id a = found (unknown_pool id) (find_pool fl id a.pools) >>= λ _.
      fail_if (not (is_empty (pool_tasks id a))) (pool_used (pool_tasks id a)) >>= λ _.
      save (with_pool_list a (drop_pool fl id a.pools))
