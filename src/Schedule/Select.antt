-- ===== src/Schedule/Select.antt =====
-- `Select` and `Held` of internal/schedule/schedule.go: which due tasks start on this tick, and why
-- the others do not.
use claudeq.Prelude.{
  Bool, false, not, ◌||◌, List, [], ◌∷◌, ◌++◌, Text, ◌==◌, if◌then◌else◌, is_empty, any,
}
use claudeq.Prelude.Assoc.{Assoc, insert}
use claudeq.Task.Model.{Task}

pub record Running : Type 0 where
  pub non_parallel : Bool
  pub parallel : Bool

-- The loop over the due tasks, with the tasks that it starts so far.
unfoldable pub select_from : Bool → List Task → List Task → List Task
select_from parallel_runs start [] = start
select_from parallel_runs start (t ∷ ts) =
    let more = select_from parallel_runs (start ++ t ∷ []) ts in
    if t.parallel then more else if parallel_runs || not (is_empty start) then start else t ∷ []

unfoldable pub select : List Task → Running → List Task
unfolding select_from
select due r = if r.non_parallel then [] else select_from r.parallel [] due

pub data HoldReason : Type 0 where
  exclusive_runs behind_exclusive waits_to_run_alone : HoldReason

-- `started[t.ID]`
unfoldable pub is_named : Text → List Task → Bool
unfolding any
is_named id ts = any (λ t. t.id == id) ts

abbrev pub hold : Bool → Bool → HoldReason
hold non_parallel exclusive_ahead =
    if non_parallel
    then exclusive_runs
    else if exclusive_ahead
    then behind_exclusive
    else waits_to_run_alone

-- The loop of `Held`; `out` is the map built so far.
unfoldable pub held_from : List Task → Bool → Bool → Assoc HoldReason → List Task → Assoc HoldReason
held_from started non_parallel ahead out [] = out
held_from started non_parallel ahead out (t ∷ ts) =
    held_from started non_parallel (ahead || not t.parallel)
      (if is_named t.id started then out else insert t.id (hold non_parallel ahead) out) ts

unfoldable pub held : List Task → Running → Assoc HoldReason
unfolding select held_from is_named insert
held due r = held_from (select due r) r.non_parallel false [] due
