-- ===== src/Store/Saving.antt =====
-- What `SaveConfig` checks (internal/store/store.go) before the file holds a configuration.
use claudeq.Prelude.{
  ℕ, zero, suc, Bool, not, ◌&&◌, Option, none, some, List, [], ◌∷◌, Text, ◌==◌, any, is_empty,
  is_some, length, if◌then◌else◌,
}
use claudeq.Prelude.Strings.{Time}
use claudeq.Prelude.Assoc.{Assoc, lookup, insert}
use claudeq.Prelude.Ladder.{refuse, attempt}
use claudeq.Prelude.Result.{Result, ok, err}
use claudeq.Task.Model.{Task}
use claudeq.Task.Checks.{Problem, validate}
use claudeq.Store.Config.{Provider, Config}

pub data ConfigProblem : Type 0 where
  bad_task : Text → Problem → ConfigProblem
  duplicate_task : Text → ConfigProblem
  provider_without_id : ConfigProblem
  duplicate_provider : Text → ConfigProblem
  default_not_configured : Text → ConfigProblem
  own_fallback : Text → ConfigProblem
  fallback_not_configured : Text → Text → ConfigProblem
  fallback_cycle : Text → ConfigProblem
  fuel_ran_out : ConfigProblem

abbrev pub mentions : Text → List Text → Bool
mentions id ids = any (λ other. other == id) ids

unfoldable pub check_task_ids : List Text → List Task → Option ConfigProblem
unfolding any
check_task_ids seen [] = none
check_task_ids seen (t ∷ ts) =
    let rest = check_task_ids (t.id ∷ seen) ts in
    refuse (mentions t.id seen) (duplicate_task t.id) rest

-- `checkUniqueIDs`
unfoldable pub check_unique_ids : List Task → Option ConfigProblem
unfolding check_task_ids
check_unique_ids ts = check_task_ids [] ts

unfoldable pub check_provider_ids : List Text → List Provider → Option ConfigProblem
unfolding any
check_provider_ids seen [] = none
check_provider_ids seen (p ∷ ps) =
    let rest = check_provider_ids (p.id ∷ seen) ps in
    refuse (is_empty p.id) provider_without_id
      (refuse (mentions p.id seen) (duplicate_provider p.id) rest)

-- `next[p.ID] = p.FallbackProvider`
unfoldable pub next_of : List Provider → Assoc Text → Assoc Text
unfolding insert
next_of [] next = next
next_of (p ∷ ps) next = next_of ps (insert p.id p.fallback_provider next)

abbrev pub or_none : Option Text → Text
or_none none = []
or_none (some id) = id

-- `for id := next[p.ID]; id != ""; id = next[id]`, from an `id`.
unfoldable pub check_chain : ℕ → Text → Assoc Text → List Text → Text → Option ConfigProblem
unfolding any lookup
check_chain zero origin next seen id = some fuel_ran_out
check_chain (suc fuel) origin next seen id =
    let rest = check_chain fuel origin next (id ∷ seen) (or_none (lookup id next)) in
    if is_empty id then none else refuse (mentions id seen) (fallback_cycle origin) rest

unfoldable pub check_fallback : Assoc Text → Provider → Option ConfigProblem
unfolding check_chain lookup
check_fallback next p =
    if is_empty p.fallback_provider
    then none
    else refuse (p.fallback_provider == p.id) (own_fallback p.id) (
        refuse (not (is_some (lookup p.fallback_provider next)))
          (fallback_not_configured p.fallback_provider p.id)
          (check_chain (suc (suc (length next))) p.id next (p.id ∷ [])
            (or_none (lookup p.id next))))

unfoldable pub check_each_fallback : Assoc Text → List Provider → Option ConfigProblem
unfolding check_fallback
check_each_fallback next [] = none
check_each_fallback next (p ∷ ps) =
    attempt (check_fallback next p) (λ e. e) (check_each_fallback next ps)

unfoldable pub check_fallbacks : List Provider → Option ConfigProblem
unfolding check_each_fallback next_of
check_fallbacks ps = check_each_fallback (next_of ps []) ps

unfoldable pub check_providers : Config → Option ConfigProblem
unfolding check_provider_ids check_fallbacks any
check_providers c =
    attempt (check_provider_ids [] c.providers) (λ e. e)
      (refuse
        (not (is_empty c.settings.default_provider)
          && not (any (λ p. p.id == c.settings.default_provider) c.providers))
        (default_not_configured c.settings.default_provider) (check_fallbacks c.providers))

module _ (parse_cron : Text → Option (Time → Time)) where
  unfoldable pub check_tasks : List Task → Option ConfigProblem
  unfolding validate
  check_tasks [] = none
  check_tasks (t ∷ ts) = attempt (validate parse_cron t) (bad_task t.id) (check_tasks ts)

  -- The checks of `SaveConfig`; the file then holds this configuration.
  unfoldable pub save_config : Config → Result ConfigProblem Config
  unfolding check_tasks check_unique_ids check_providers
  save_config c =
      elim (attempt (check_tasks c.tasks) (λ e. e)
        (attempt (check_unique_ids c.tasks) (λ e. e) (check_providers c))) [
          | none ↦ ok c
          | some e ↦ err e
        ]
