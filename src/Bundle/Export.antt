-- ===== src/Bundle/Export.antt =====
-- `exportHint` and `ExportTask` of internal/app/bundle.go.
use claudeq.Prelude.{Option, none, some, List, Text, [], false, if◌then◌else◌, first, ◌==◌}
use claudeq.Prelude.Floats.{Floats, of_ℕ}
use claudeq.Prelude.Strings.{Time}
use claudeq.Prelude.Result.{Result, ok, err}
use claudeq.Task.Model.{Task, is_script}
use claudeq.Store.Config.{Provider}
use claudeq.Provider.Model.{Pool, label}
use claudeq.Provider.Set.{Set}
use claudeq.Provider.Selection.{Selection, Resolved, SelectProblem}
use claudeq.Provider.Resolve.{resolve}
use claudeq.Engine.Pass.{from_config, TickProblem}
use claudeq.Bundle.Format.{ProviderHint, Codec, write}

abbrev pub no_hint : ProviderHint
no_hint = record { kind = []; model = []; provider_name = [] }

module _ (fl : Floats) where
  abbrev pub hint_of : Result (SelectProblem fl) (Resolved fl) → ProviderHint
  hint_of (err e) = no_hint
  hint_of (ok res) = record {
    kind = res.inst.kind;
    model = res.model;
    provider_name = label res.inst;
  }

  -- What the task names, for work that is not backfill.
  abbrev pub named_by : Task → Selection fl
  named_by t = record {
    provider_id = t.provider;
    model = t.model;
    pool_id = t.pool;
    prefer = [];
    backfill = false;
    min_urgency = of_ℕ fl 0;
  }

  abbrev pub hint_from : Result TickProblem (Set fl) → Task → ProviderHint
  hint_from (err e) t = no_hint
  hint_from (ok set) t = hint_of (resolve fl set (named_by t))

  -- `exportHint`
  unfoldable pub export_hint : Text → List Provider → List (Pool fl) → Task → ProviderHint
  unfolding is_script from_config resolve label
  export_hint default_id ps pools t =
      if is_script t then no_hint else hint_from (from_config fl default_id ps pools) t

  -- `ExportTask`: the task and its bundle, if the queue has the id.
  unfoldable pub export_task :
      (c : Codec)
      → Text
      → List Provider
      → List (Pool fl)
      → List Task
      → Text
      → Time
      → Option (Task × c.Archive)
  unfolding first export_hint write
  export_task c default_id ps pools ts id now = elim (first (λ (t : Task). t.id == id) ts) [
    | none ↦ none
    | some t ↦ some (t, write c t (export_hint default_id ps pools t) now)
  ]
