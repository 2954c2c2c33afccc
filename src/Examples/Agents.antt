-- ===== src/Examples/Agents.antt =====
-- What the selection makes of a few providers.
use claudeq.Prelude.{◌≡◌, refl, true, none, some, [], Text, codes, ◌==◌, text_eq}
use mathlib.Core.List.{Perm}
use claudeq.Prelude.Result.{Result, ok, err}
use claudeq.Provider.Model.{RankInputs}
use claudeq.Provider.Rank.{scores_of, rank_pool}
use claudeq.Provider.RankLaws.{ByTier, rank_pool-ByTier}
use claudeq.Provider.Fallback.{fallback_walk, found}
use claudeq.Provider.FallbackLaws.{IsRight, fallback_walk-IsRight}
use claudeq.Provider.Selection.{Selection, Resolved, SelectProblem, Availability}
use claudeq.Provider.Resolve.{resolve_available}
use claudeq.Provider.ResolveLaws.{IsExplained, resolve_available-IsExplained}
use claudeq.Provider.BackfillLaws.{GoesSpare, resolve_available-GoesSpare}
use claudeq.Examples.Providers.{
  whole, claude, spent, other, three, is_on, both, configured, plain_selection, half_used,
}

walk_skips : fallback_walk three is_on claude ≡ found spent other
unfolding fallback_walk text_eq
walk_skips = refl

fallback_walk-IsRight_example : IsRight three is_on claude (fallback_walk three is_on claude)
fallback_walk-IsRight_example = fallback_walk-IsRight three is_on claude

abbrev claude_is_out : Availability whole
claude_is_out = record {
  out_of_allowance = some (λ id. id == codes "claude");
  can_take_work = none;
  limits = some (λ inst. (half_used, true));
  running = none;
  now = some 10;
}

abbrev chosen : Result (SelectProblem whole) (Resolved whole) → Text
chosen (ok r) = r.inst.id
chosen (err e) = []

runs_elsewhere :
    chosen (resolve_available whole configured plain_selection claude_is_out) ≡ codes "other"
unfolding resolve_available text_eq
runs_elsewhere = refl

resolve_available-IsExplained_example :
    IsExplained whole configured plain_selection claude_is_out
      (resolve_available whole configured plain_selection claude_is_out)
resolve_available-IsExplained_example =
    resolve_available-IsExplained whole configured plain_selection claude_is_out

abbrev spare_selection : Selection whole
spare_selection = record plain_selection {
  pool_id = codes "both";
  backfill = true;
  min_urgency = 0;
}

spare_runs :
    chosen (resolve_available whole configured spare_selection claude_is_out) ≡ codes "other"
unfolding resolve_available text_eq
spare_runs = refl

resolve_available-GoesSpare_example :
    GoesSpare whole configured spare_selection claude_is_out refl
      (resolve_available whole configured spare_selection claude_is_out)
resolve_available-GoesSpare_example =
    resolve_available-GoesSpare whole configured spare_selection claude_is_out refl

abbrev all_fresh : RankInputs whole
all_fresh = record {
  now = 10;
  limits = some (λ inst. (half_used, true));
  running = none;
  usable = none;
}

rank_pool-ByTier_example :
    Perm
      (rank_pool whole configured both all_fresh)
      (scores_of whole configured both.members all_fresh)
    × ByTier whole (rank_pool whole configured both all_fresh)
rank_pool-ByTier_example = rank_pool-ByTier whole configured both all_fresh
