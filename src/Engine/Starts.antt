-- ===== src/Engine/Starts.antt =====
-- Every start of a tick was due, unique and fit to run at that moment.
use claudeq.Prelude.{
  ◌≡◌, ◌⊎◌, refl, ap, sym, ◌∙◌, Bool, true, false, ◌||◌, Option, none, some, List, [], ◌∷◌, Text,
  ◌==◌, All, if◌then◌else◌, arith, any, text_eq_iff, not, is_empty,
}
use mathlib.Core.Path.{subst}
use claudeq.Prelude.Floats.{Floats}
use claudeq.Prelude.Strings.{Time}
use claudeq.Prelude.Assoc.{Assoc, lookup}
use claudeq.Prelude.Result.{Result, ok, and_then-Passed}
use claudeq.Prelude.Filter.{All-map, Distinct}
use claudeq.Task.Model.{Task, is_script}
use claudeq.Store.State.{State}
use claudeq.Store.Saving.{ConfigProblem, check_task_ids, check_unique_ids, mentions}
use claudeq.Workflow.Dependencies.{Dependency}
use claudeq.Schedule.Due.{DueProblem}
use claudeq.Schedule.Select.{select, is_named}
use claudeq.Provider.Health.{Health}
use claudeq.Provider.Selection.{Resolved}
use claudeq.Engine.State.{Engine, is_due, seed_cron_anchors, running_state}
use claudeq.Engine.Start.{start_due}
use claudeq.Engine.Assign.{Assignment}
use claudeq.Engine.Announce.{Announcement}
use claudeq.Engine.Active.{start_due-active}
use claudeq.Engine.Tick.{
  Hold, Cleared, Sifted, Launch, is_fit, sift_all, ready_from, placements, tasks_of, tick_locked,
  finish_tick, Ticked,
}
use claudeq.Engine.TickLaws.{passing, passing-All, passing-Distinct, sift_all-passing}
use claudeq.Engine.Ready.{started-All}

-- A queue that `SaveConfig` accepts has no id twice.
unique_from :
    (seen : List Text) (ts : List Task)
    → check_task_ids seen ts ≡ none
    → All (λ t. mentions t.id seen ≡ false) ts × Distinct (λ (t : Task). t.id) ts
unfolding check_task_ids any
unique_from seen [] h = (tt, tt)
unique_from seen (t ∷ ts) h =
    let (fresh, rest) = refused (mentions t.id seen) _ (check_task_ids (t.id ∷ seen) ts) h in
    let (others, distinct) = unique_from (t.id ∷ seen) ts rest in
    (
      (fresh, All-map (λ u k. (neither (t.id == u.id) (mentions u.id seen) k).1) ts others),
      (
        All-map (λ u k. turned t.id u.id (neither (t.id == u.id) (mentions u.id seen) k).0) ts
            others,
        distinct,
      ),
    )
  where
    refused :
        (bad : Bool) (e : ConfigProblem) (o : Option ConfigProblem)
        → (if bad then some e else o) ≡ none
        → (bad ≡ false) × (o ≡ none)
    refused true e o k = cc
    refused false e o k = (refl, k)

    neither : (a b : Bool) → (a || b) ≡ false → (a ≡ false) × (b ≡ false)
    neither a b k = ground arith

    turned : (a b : Text) → (a == b) ≡ false → (b == a) ≡ false
    turned a b k = ground (arith, text_eq_iff a b, text_eq_iff b a)

pub Distinct-unique :
    (ts : List Task) → check_unique_ids ts ≡ none → Distinct (λ (t : Task). t.id) ts
unfolding check_unique_ids
Distinct-unique ts h = (unique_from [] ts h).1

pub tasks_of-placed :
    (fl : Floats) (ready : Assoc (Option (Resolved fl))) (ts : List Task)
    → tasks_of fl (placements fl ready ts) ≡ ts
unfolding placements
tasks_of-placed fl ready [] = refl
tasks_of-placed fl ready (t ∷ ts) = ap (λ us. t ∷ us) (tasks_of-placed fl ready ts)

module _ (fl : Floats) (parse : Text → Option (Time → Time)) where
  pub ticked_injective :
      (x y : Ticked fl) → ◌≡◌ {A = Result DueProblem (Ticked fl)} (ok x) (ok y) → x ≡ y
  ticked_injective x y h = cc

  -- What holds of each assignment that passes the second look holds of each start.
  pub tick_locked-All :
      (P : Cleared fl → Type 0) (Q : Assignment fl → Type 0) (made : Launch fl)
      (deps : Assoc (List Dependency)) (health : Assoc Health) (now : Time) (snapshot : State)
      (todo : List (Assignment fl)) (holds : Assoc (Hold fl)) (e : Engine) (announced : Assoc Text)
      (sent : List Announcement) (r : Ticked fl)
      → Distinct (λ (a : Assignment fl). a.task.id) todo
      → All Q todo
      → ((a : Assignment fl)
          → Q a
          → is_due parse e a.task (seed_cron_anchors e.queue snapshot now).0 deps now ≡ ok true
          → (is_script a.task ≡ true) ⊎ (is_fit fl health a.resolved ≡ true)
          → P (record { task = a.task; resolved = a.resolved }))
      → tick_locked fl parse made deps health now snapshot (todo, holds) e announced sent ≡ ok r
      → All P r.starts
        × ((id : Text)
            → lookup id r.engine.active
              ≡ (if is_named id (tasks_of fl r.starts) then some true else lookup id e.active))
  unfolding tick_locked
  tick_locked-All P Q made deps health now snapshot todo holds e announced sent r distinct q each
        h =
      let s = (seed_cron_anchors e.queue snapshot now).0 in
      let (out, sifted, done) =
        and_then-Passed (sift_all fl parse e s deps health now todo ([], holds)) _ h in
      let same : finish_tick fl parse made (seed_cron_anchors e.queue snapshot now).1 now e
            announced sent out
          ≡ r =
        ticked_injective _ r done in
      let cs = passing fl parse e s deps health now todo in
      let all =
        started-All fl P cs (running_state e)
          (passing-Distinct fl parse e s deps health now todo distinct)
          (passing-All fl parse e s deps health now Q P each todo q) in
      let is_out = sift_all-passing fl parse e s deps health now todo ([], holds) out sifted in
      subst
        (λ (x : Ticked fl).
          All P x.starts
          × ((id : Text)
              → lookup id x.engine.active
                ≡ (if is_named id (tasks_of fl x.starts) then some true else lookup id e.active)))
        same
        (
          subst
              (λ (ys : List (Cleared fl)).
                All P
                  (placements fl (ready_from fl [] ys) (select (tasks_of fl ys) (running_state e))))
              (sym is_out) all,
          λ id. active_after (seed_cron_anchors e.queue snapshot now).1 out id,
        )
    where
      active_after :
          (seeded : Bool) (out : Sifted fl) (id : Text)
          → lookup id (finish_tick fl parse made seeded now e announced sent out).engine.active ≡ (
              if is_named id
                (tasks_of fl (finish_tick fl parse made seeded now e announced sent out).starts)
              then some true
              else lookup id e.active)
      active_after seeded out id =
          let runnable = tasks_of fl out.0 in
          let starts = select runnable (running_state e) in
          let ready = ready_from fl [] out.0 in
          by_test (seeded || not (is_empty starts))
          ∙ ap (λ (ts : List Task). if is_named id ts then some true else lookup id e.active)
              (sym (tasks_of-placed fl ready starts))
        where
          by_test :
              (b : Bool)
              → lookup id
                  (start_due (tasks_of fl out.0) (made (ready_from fl [] out.0)) now (
                    if b
                    then record e { state = (seed_cron_anchors e.queue e.state now).0 }
                    else e)).active
                ≡ (if is_named id (select (tasks_of fl out.0) (running_state e))
                    then some true
                    else lookup id e.active)
          by_test true =
              start_due-active (tasks_of fl out.0) (made (ready_from fl [] out.0)) now
                (record e { state = (seed_cron_anchors e.queue e.state now).0 }) id
          by_test false =
              start_due-active (tasks_of fl out.0) (made (ready_from fl [] out.0)) now e id
