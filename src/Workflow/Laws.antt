-- ===== src/Workflow/Laws.antt =====
-- When a dependent job may go, and what a group of runs holds.
use claudeq.Prelude.{
  last_such, ◌≡◌, ◌↔◌, ◌⊎◌, inl, inr, refl, sym, ap, ◌∙◌, Bool, true, false, Option, none, some,
  List, [], ◌∷◌, ◌++◌, Text, ◌==◌, arith, if◌then◌else◌, is_empty, map, keep_if, All, Bool-cases,
  text_eq_iff,
}
use mathlib.Core.List.{append_assoc, append-nil}
use claudeq.Prelude.Assoc.{Assoc, lookup, insert, lookup-insert}
use claudeq.Prelude.Sort.{sort}
use claudeq.Task.Model.{Task}
use claudeq.Store.Run.{Run, RunStatus, rate_limited, terminal}
use claudeq.Workflow.Dependencies.{
  Dependency, index_tasks, index_runs, settled, resolve_one, resolve, ready, starts_before,
  runs_under, group_runs, runs_of, is_rate_limited,
}

ready-done :
    (d : Dependency) (deps : List Dependency)
    → d.done ≡ true
    → (ready (d ∷ deps)).0 ≡ (ready deps).0
unfolding ready keep_if
ready-done d deps e = simp e

ready-undone :
    (d : Dependency) (deps : List Dependency) → d.done ≡ false → (ready (d ∷ deps)).0 ≡ false
unfolding ready keep_if
ready-undone d deps e = simp e

-- `Ready` says yes just when every dependency is done.
pub ready_iff : (deps : List Dependency) → ((ready deps).0 ≡ true) ↔ All (λ d. d.done ≡ true) deps
ready_iff [] = ((λ _. tt), λ _. unfold ready keep_if in refl)
ready_iff (d ∷ deps) = elim (Bool-cases d.done) [
  | inl e ↦ rw (ready-done d deps e) ((λ h. (e, (ready_iff deps).0 h)), λ h. (ready_iff deps).1 h.1)
  | inr e ↦ rw (ready-undone d deps e) ((λ h. cc), λ h. cc (h.0))
]

abbrev pub is_run_of : Text → Run → Bool
is_run_of id r = r.task_id == id

lookup-index_runs :
    (id : Text) (rs : List Run) (m : Assoc Run)
    → lookup id (index_runs rs m) ≡ last_such (is_run_of id) rs (lookup id m)
unfolding index_runs last_such
lookup-index_runs id [] m = refl
lookup-index_runs id (r ∷ rs) m =
    lookup-index_runs id rs (insert r.task_id r m)
    ∙ ap (last_such (is_run_of id) rs) (lookup-insert r.task_id id r m)

abbrev pub has_task : Text → Task → Bool
has_task id t = t.id == id

lookup-index_tasks :
    (id : Text) (ts : List Task) (m : Assoc Task)
    → lookup id (index_tasks ts m) ≡ last_such (has_task id) ts (lookup id m)
unfolding index_tasks last_such
lookup-index_tasks id [] m = refl
lookup-index_tasks id (t ∷ ts) m =
    lookup-index_tasks id ts (insert t.id t m)
    ∙ ap (last_such (has_task id) ts) (lookup-insert t.id id t m)

-- What became of a job: its latest run in history, and whether the queue still holds it.
abbrev pub latest_run : Text → List Run → Option Run
latest_run id runs = last_such (is_run_of id) runs none

abbrev pub queued_task : Text → List Task → Option Task
queued_task id tasks = last_such (has_task id) tasks none

-- A dependency is finished: its latest run is over or paused on a rate limit, or it has neither
-- a run nor a place in the queue.
abbrev pub IsFinished : Option Run → Option Task → Type 0
IsFinished (some r) queued = (terminal r.status ≡ true) ⊎ (r.status ≡ rate_limited)
IsFinished none (some t) = ⊥
IsFinished none none = Unit

rate_limited_iff : (s : RunStatus) → (is_rate_limited s ≡ true) ↔ (s ≡ rate_limited)
rate_limited_iff s = ground arith

resolve_one-done :
    (id : Text) (r : Option Run) (q : Option Task)
    → ((resolve_one id r q).done ≡ true) ↔ IsFinished r q
unfolding resolve_one settled
resolve_one-done id (some r) q = ground (arith, rate_limited_iff r.status)
resolve_one-done id none (some t) = ((λ h. cc), λ h. absurd h)
resolve_one-done id none none = ((λ _. tt), λ _. refl)

index_runs-latest :
    (id : Text) (runs : List Run) → lookup id (index_runs runs []) ≡ latest_run id runs
index_runs-latest id runs = lookup-index_runs id runs [] ∙ (unfold lookup in refl)

index_tasks-queued :
    (id : Text) (tasks : List Task) → lookup id (index_tasks tasks []) ≡ queued_task id tasks
index_tasks-queued id tasks = lookup-index_tasks id tasks [] ∙ (unfold lookup in refl)

done_of_id :
    (id : Text) (tasks : List Task) (runs : List Run)
    → ((resolve_one id (lookup id (index_runs runs [])) (lookup id (index_tasks tasks []))).done
        ≡ true)
      ↔ IsFinished (latest_run id runs) (queued_task id tasks)
done_of_id id tasks runs =
    rw (index_runs-latest id runs, index_tasks-queued id tasks)
      (resolve_one-done id (latest_run id runs) (queued_task id tasks))

IsFinished-All :
    (deps : List Text) (tasks : List Task) (runs : List Run)
    → All
        (λ d. d.done ≡ true)
        (map
          (λ id. resolve_one id (lookup id (index_runs runs [])) (lookup id (index_tasks tasks [])))
          deps)
      ↔ All (λ id. IsFinished (latest_run id runs) (queued_task id tasks)) deps
IsFinished-All [] tasks runs = ((λ _. tt), λ _. tt)
IsFinished-All (id ∷ deps) tasks runs =
    let here = done_of_id id tasks runs in
    let rest = IsFinished-All deps tasks runs in
    ((λ h. (here.0 h.0, rest.0 h.1)), λ h. (here.1 h.0, rest.1 h.1))

-- A job may go just when every job it waits for is finished.
pub ready-resolve :
    (t : Task) (tasks : List Task) (runs : List Run)
    → ((ready (resolve t tasks runs)).0 ≡ true)
      ↔ All (λ id. IsFinished (latest_run id runs) (queued_task id tasks)) t.depends_on
unfolding resolve
ready-resolve t tasks runs =
    let gate = ready_iff (resolve t tasks runs) in
    let all = IsFinished-All t.depends_on tasks runs in
    ((λ h. all.0 (gate.0 h)), λ h. gate.1 (all.1 h))

-- The runs of one workflow, as they stand in history.
abbrev pub of_workflow : Text → Run → Bool
of_workflow id r = r.workflow_id == id

group_step :
    (id : Text) (r : Run) (out : Assoc (List Run))
    → is_empty id ≡ false
    → runs_under id (
        lookup id (
          if is_empty r.workflow_id
          then out
          else insert r.workflow_id
              (runs_under r.workflow_id (lookup r.workflow_id out) ++ r ∷ [])
              out))
      ≡ (if of_workflow id r
          then runs_under id (lookup id out) ++ r ∷ []
          else runs_under id (lookup id out))
group_step id r out h = ground (
  arith,
  lookup-insert r.workflow_id id (runs_under r.workflow_id (lookup r.workflow_id out) ++ r ∷ [])
      out,
  text_eq_iff r.workflow_id id,
)

group_runs-keep_if :
    (id : Text) (rs : List Run) (out : Assoc (List Run))
    → is_empty id ≡ false
    → runs_under id (lookup id (group_runs rs out))
      ≡ runs_under id (lookup id out) ++ keep_if (of_workflow id) rs
unfolding group_runs keep_if
group_runs-keep_if id [] out h = sym (append-nil (runs_under id (lookup id out)))
group_runs-keep_if id (r ∷ rs) out h =
    group_runs-keep_if id rs _ h
    ∙ ap (λ l. l ++ keep_if (of_workflow id) rs) (group_step id r out h)
    ∙ joined (of_workflow id r) (runs_under id (lookup id out))
  where
    joined :
        (b : Bool) (l : List Run)
        → (if b then l ++ r ∷ [] else l) ++ keep_if (of_workflow id) rs
          ≡ l ++ (if b then r ∷ keep_if (of_workflow id) rs else keep_if (of_workflow id) rs)
    joined true l = append_assoc l (r ∷ []) (keep_if (of_workflow id) rs)
    joined false l = refl

under-map :
    (id : Text) (m : Assoc (List Run))
    → runs_under id (lookup id (map (λ e. (e.0, sort starts_before e.1)) m))
      ≡ sort starts_before (runs_under id (lookup id m))
unfolding lookup
under-map id [] = unfold sort in refl
under-map id ((j, rs) ∷ m) = elim (Bool-cases (j == id)) [
  | inl e ↦ rw e
  | inr e ↦ rw e (under-map id m)
]

-- `RunsOf` gives each workflow its runs in the order of their start, and among runs that started
-- together the order of history; it loses none and mixes in none.
pub runs_of-keep_if :
    (id : Text) (runs : List Run)
    → is_empty id ≡ false
    → runs_under id (lookup id (runs_of runs)) ≡ sort starts_before (keep_if (of_workflow id) runs)
unfolding runs_of
runs_of-keep_if id runs h =
    under-map id (group_runs runs [])
    ∙ ap (sort starts_before) (group_runs-keep_if id runs [] h ∙ (unfold lookup in refl))
