-- ===== src/Bundle/Import.antt =====
-- Exporting and importing a task (internal/app/bundle.go). Whether a directory exists is an argument.
use claudeq.Prelude.{
  ℕ, zero, suc, ◌+◌, ◌/◌, ◌%◌, Bool, not, ◌&&◌, ◌||◌, Option, none, some, List, [], ◌∷◌, ◌++◌, Text,
  codes, ◌==◌, is_empty, is_some, keep_if, length, if◌then◌else◌, ltb,
}
use claudeq.Prelude.Strings.{Time}
use claudeq.Prelude.Result.{Result, ok, err, ◌>>=◌}
use claudeq.Task.Model.{Task, Permissions, ask, unknown_permissions, is_script}
use claudeq.Task.Slug.{slug}
use claudeq.Task.Checks.{IdProblem, Problem, check_id, validate}
use claudeq.Store.Config.{Config}
use claudeq.Store.Saving.{ConfigProblem, save_config}
use claudeq.Store.State.{State, forget_task}
use claudeq.Queue.Order.{index_of}
use claudeq.Provider.Model.{Instance}
use claudeq.Bundle.Format.{ProviderHint}

-- `strconv.Itoa` of a number that is not negative, on fuel.
unfoldable pub digits : ℕ → ℕ → Text
digits zero n = []
digits (suc fuel) n =
    let front = digits fuel (n / 10) in
    if ltb n 10 then (b'0' + n) ∷ [] else front ++ (b'0' + n % 10) ∷ []

unfoldable pub itoa : ℕ → Text
unfolding digits
itoa n = digits (suc n) n

abbrev pub candidate : Text → ℕ → Text
candidate want n = want ++ b'-' ∷ itoa n

-- The loop of `uniqueID`, on fuel.
unfoldable pub free_id : ℕ → ℕ → Text → List Task → Option Text
unfolding index_of itoa
free_id zero n want ts = none
free_id (suc fuel) n want ts =
    let rest = free_id fuel (suc n) want ts in
    if is_some (index_of ts (candidate want n)) then rest else some (candidate want n)

-- `uniqueID`
unfoldable pub unique_id : List Task → Text → Option Text
unfolding index_of free_id
unique_id ts want =
    if is_some (index_of ts want) then free_id (suc (length ts)) 2 want ts else some want

pub data ImportProblem : Type 0 where
  bad_id : IdProblem → ImportProblem
  bad_task : Problem → ImportProblem
  no_free_id : ImportProblem
  save_refused : ConfigProblem → ImportProblem

abbrev pub with_id : Task → Task
with_id t = if is_empty t.id then record t { id = slug t.name } else t

abbrev pub with_name : Task → Task
with_name t = if is_empty t.name then record t { name = t.id } else t

abbrev pub permissions_or : Permissions → Permissions
permissions_or (unknown_permissions []) = ask
permissions_or p = p

abbrev pub with_permissions : Task → Task
with_permissions t = record t { permissions = permissions_or t.permissions }

abbrev pub filled_in : Task → Task
filled_in t = with_permissions (with_name (with_id t))

module _ (parse_cron : Text → Option (Time → Time)) where
  abbrev pub checked_import : Task → Option IdProblem → Option Problem → Result ImportProblem Task
  checked_import t (some e) p = err (bad_id e)
  checked_import t none (some e) = err (bad_task e)
  checked_import t none none = ok t

  -- `completeImport`
  unfoldable pub complete_import : Task → Result ImportProblem Task
  unfolding slug check_id validate
  complete_import t =
      let full = filled_in t in checked_import full (check_id full.id) (validate parse_cron full)

  abbrev pub with_task : Config → Task → Config
  with_task c t = record c { tasks = c.tasks ++ t ∷ [] }

  abbrev pub if_saved :
      Task → State → Result ConfigProblem Config → Result ImportProblem (Task × Config × State)
  if_saved t s (err e) = err (save_refused e)
  if_saved t s (ok c) = ok (t, c, forget_task t.id s)

  -- The change under `UpdateConfig`, and the save after it.
  abbrev pub store_as :
      Task → Config → State → Option Text → Result ImportProblem (Task × Config × State)
  store_as t c s none = err no_free_id
  store_as t c s (some id) =
      let stored = record t { id = id } in
      if_saved stored s (save_config parse_cron (with_task c stored))

  -- `ImportTask`, on the configuration that is loaded and the scheduling state.
  unfoldable pub import_task : Task → Config → State → Result ImportProblem (Task × Config × State)
  unfolding complete_import unique_id forget_task save_config
  import_task t c s = complete_import t >>= λ full. store_as full c s (unique_id c.tasks full.id)

-- `hintLabel`
unfoldable pub hint_label : ProviderHint → Text
hint_label h =
    if not (is_empty h.provider_name) && not (h.provider_name == h.kind)
    then h.provider_name ++ codes " (" ++ h.kind ++ codes ")"
    else h.kind

-- `ResolveHint`, where the hint names a kind: the provider, if one enabled instance is of the kind.
abbrev pub only_one : List Instance → Option Instance
only_one (inst ∷ []) = some inst
only_one insts = none

unfoldable pub resolve_hint : ProviderHint → Option (List Instance) → Option (Text × Text)
unfolding keep_if
resolve_hint h none = if is_empty h.kind then some ([], []) else none
resolve_hint h (some insts) =
    if is_empty h.kind
    then some ([], [])
    else elim (only_one (keep_if (λ i. i.enabled && i.kind == h.kind) insts)) [
      | none ↦ none
      | some inst ↦ some (inst.id, h.model)
    ]

pub record ImportDraft : Type 0 where
  pub task : Task
  pub missing_working_dir : Text
  pub unresolved_provider : Text

abbrev pub in_known_dir : Bool → Task → ImportDraft
in_known_dir exists t =
    if exists
    then record { task = t; missing_working_dir = []; unresolved_provider = [] }
    else record {
      task = record t { working_dir = [] };
      missing_working_dir = t.working_dir;
      unresolved_provider = [];
    }

abbrev pub on_match : ProviderHint → ImportDraft → Option (Text × Text) → ImportDraft
on_match h d (some (provider, model)) = record d {
  task = record d.task { provider = provider; model = model };
}
on_match h d none = record d {
  task = record d.task { model = [] };
  unresolved_provider = hint_label h;
}

-- `ReadImport`, with the configured instances, if they can be read, and which directories exist.
unfoldable pub read_import :
    (Text → Option (Time → Time))
    → (Text → Bool)
    → Option (List Instance)
    → Task
    → ProviderHint
    → Result ImportProblem ImportDraft
unfolding complete_import hint_label resolve_hint is_script
read_import parse_cron dir_exists insts t h = complete_import parse_cron t >>= λ full.
    let d = in_known_dir (dir_exists full.working_dir) full in
    ok (if is_empty h.kind || is_script full then d else on_match h d (resolve_hint h insts))
