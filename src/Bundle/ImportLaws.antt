-- ===== src/Bundle/ImportLaws.antt =====
-- What `ImportTask` of internal/app/bundle.go adds to the queue.
use claudeq.Prelude.{◌≡◌, ◌⊎◌, inl, inr, refl, Option, none, some, Text}
use mathlib.Core.Path.{subst}
use claudeq.Prelude.Strings.{Time}
use claudeq.Prelude.Result.{Result, ok, err, ok-injective}
use claudeq.Prelude.Ladder.{attempt}
use claudeq.Task.Model.{Task}
use claudeq.Task.Checks.{IdProblem, Problem, check_id, validate}
use claudeq.Store.Config.{Config}
use claudeq.Store.Saving.{
  ConfigProblem, save_config, check_tasks, check_unique_ids, check_providers,
}
use claudeq.Store.State.{State, forget_task}
use claudeq.Queue.Order.{index_of}
use claudeq.Bundle.Import.{
  ImportProblem, filled_in, checked_import, complete_import, import_task, with_task, if_saved,
  save_refused,
}
use claudeq.Bundle.FreshId.{unique_id-IsFree}

-- The task was saved at the end of the queue, and what the state had under its id is forgotten; or
-- the save of just that was refused.
abbrev pub IsStoredFresh :
    (Text → Option (Time → Time))
    → Task
    → Config
    → State
    → Result ImportProblem (Task × Config × State)
    → Type 0
IsStoredFresh parse_cron stored c s r =
    ((save_config parse_cron (with_task parse_cron c stored) ≡ ok (with_task parse_cron c stored))
      × (r ≡ ok (stored, with_task parse_cron c stored, forget_task stored.id s)))
    ⊎ ((e : ConfigProblem) × ((save_config parse_cron (with_task parse_cron c stored) ≡ err e)
          × (r ≡ err (save_refused e))))

-- This under an id that is free and that CheckID accepts.
abbrev pub IsSavedFresh :
    (Text → Option (Time → Time))
    → Task
    → Config
    → State
    → Result ImportProblem (Task × Config × State)
    → Type 0
IsSavedFresh parse_cron full c s r =
    (id : Text) × (index_of c.tasks id ≡ none)
    × (check_id id ≡ none)
    × IsStoredFresh parse_cron (record full { id = id }) c s r

module _ (parse_cron : Text → Option (Time → Time)) where
  completed-check_id :
      (t full : Task) → complete_import parse_cron t ≡ ok full → check_id full.id ≡ none
  unfolding complete_import
  completed-check_id t full h =
      by_checks (check_id (filled_in t).id) (validate parse_cron (filled_in t)) h refl
    where
      by_checks :
          (o : Option IdProblem) (p : Option Problem)
          → checked_import parse_cron (filled_in t) o p ≡ ok full
          → check_id (filled_in t).id ≡ o
          → check_id full.id ≡ none
      by_checks (some e) p k is_o = cc
      by_checks none (some e) k is_o = cc
      by_checks none none k is_o =
          subst (λ (x : Task). check_id x.id ≡ none) (ok-injective (filled_in t) full k) is_o

  if_saved-IsStoredFresh :
      (stored : Task) (c : Config) (s : State)
      → IsStoredFresh parse_cron stored c s
          (if_saved parse_cron stored s (save_config parse_cron (with_task parse_cron c stored)))
  unfolding save_config
  if_saved-IsStoredFresh stored c s = by_problem (
      attempt (check_tasks parse_cron all.tasks) (λ e. e)
        (attempt (check_unique_ids all.tasks) (λ e. e) (check_providers all)))
    where
      all : Config
      all = with_task parse_cron c stored

      checked : Option ConfigProblem → Result ConfigProblem Config
      checked o = elim o [ none ↦ ok all | some e ↦ err e ]

      by_problem :
          (o : Option ConfigProblem)
          → ((checked o ≡ ok all)
              × (if_saved parse_cron stored s (checked o)
                  ≡ ok (stored, all, forget_task stored.id s)))
            ⊎ ((e : ConfigProblem) × ((checked o ≡ err e)
                  × (if_saved parse_cron stored s (checked o) ≡ err (save_refused e))))
      by_problem none = inl (refl, refl)
      by_problem (some e) = inr (e, (refl, refl))

  -- When the task of a file, filled in, passes its checks, then the import ends with a save of the
  -- configuration to which the task is added at the end of the queue, as it is but for its id: this
  -- is one that no task of the queue has and that CheckID accepts. Where the save is accepted, that
  -- configuration is the result, and nothing that is known under the id from earlier stays; where it
  -- is refused, the import is, for the same reason.
  pub import_task-IsFresh :
      (t full : Task) (c : Config) (s : State)
      → complete_import parse_cron t ≡ ok full
      → IsSavedFresh parse_cron full c s (import_task parse_cron t c s)
  unfolding import_task
  import_task-IsFresh t full c s h =
      let (id, is_id, free, keeps) = unique_id-IsFree full.id c.tasks in
      (
        id,
        free,
        keeps (completed-check_id t full h),
        rw h (rw is_id (if_saved-IsStoredFresh (record full { id = id }) c s)),
      )
