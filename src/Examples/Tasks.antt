-- ===== src/Examples/Tasks.antt =====
-- Tasks: the checks and the ids.
use claudeq.Prelude.{text_eq, ◌≡◌, ◌↔◌, refl, none, codes}
use claudeq.Task.Slug.{slug}
use claudeq.Task.Checks.{validate, check_id, check_cron, check_group}
use claudeq.Task.WellFormed.{IsWellFormed, validate_iff}
use claudeq.Task.Ids.{gen_task_id}
use claudeq.Task.IdsLaws.{check_id-gen_task_id}
use claudeq.Examples.Data.{watcher, parse}

slug_runs :
    slug (codes "  Fix -- THE bug (now), please and more!") ≡ codes "fix-the-bug-now-please-a"
unfolding slug
slug_runs = refl

slug_empty : slug (codes "!!") ≡ codes "task"
unfolding slug
slug_empty = refl

check_id-gen_task_id_example : check_id (gen_task_id (codes "Fix IT") (codes "0a1f")) ≡ none
check_id-gen_task_id_example =
    check_id-gen_task_id (codes "Fix IT") (codes "0a1f") (refl, (refl, (refl, (refl, tt))))

watcher_passes : validate parse watcher ≡ none
unfolding validate check_cron check_group text_eq
watcher_passes = refl

validate_iff_example : (validate parse watcher ≡ none) ↔ IsWellFormed parse watcher
validate_iff_example = validate_iff parse watcher
