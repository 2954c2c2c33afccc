-- ===== src/Engine/TickStarts.antt =====
-- What `Tick` of internal/engine/engine.go may start, from the queue to the launch.
use claudeq.Prelude.{
  ◌≡◌, ◌⊎◌, inl, inr, refl, sym, ◌∙◌, true, ◌||◌, Option, none, some, List, [], Text, All, Any,
  if◌then◌else◌, Bool-cases, keep_if,
}
use mathlib.Core.Path.{subst}
use claudeq.Prelude.Floats.{Floats}
use claudeq.Prelude.Strings.{Time}
use claudeq.Prelude.Assoc.{Assoc, lookup}
use claudeq.Prelude.Result.{Result, ok, err, and_then-Passed}
use claudeq.Prelude.Filter.{
  All-self, All-keep_if, All-sort, Distinct, Distinct-keep_if, Distinct-sort,
}
use claudeq.Task.Model.{Task, is_script}
use claudeq.Store.State.{State, last_start, is_completed_once, is_marked}
use claudeq.Store.Saving.{check_unique_ids}
use claudeq.Store.History.{runs}
use claudeq.Workflow.Dependencies.{Dependency}
use claudeq.Schedule.Due
use claudeq.Schedule.Due.{DueProblem}
use claudeq.Schedule.DueLaws.{IsDue, due_iff}
use claudeq.Schedule.Select.{is_named}
use claudeq.Provider.Set.{Set}
use claudeq.Provider.Health.{Health, may_start}
use claudeq.Provider.Selection.{Resolved}
use claudeq.Engine.State.{Engine, is_due, seed_cron_anchors, dependency_state, met, or_zero}
use claudeq.Engine.Assign.{Assignment, WaitReason, assign, gate_open, backfill_last}
use claudeq.Engine.AssignLaws.{OnOpen}
use claudeq.Engine.Announce.{Pass, refresh_provider_health}
use claudeq.Engine.Moment.{seed-SameSchedule, is_due-same, HasAnswered, IsHonest, refresh-IsHonest}
use claudeq.Engine.Tick.{Cleared, is_fit, verdict_fit, tasks_of, tick_locked, Ticked, due_tasks}
use claudeq.Engine.TickLaws.{says_yes}
use claudeq.Engine.Pass.{
  TickInputs, TickProblem, wrap_due, from_config, reasons, after_probe, with_due, tick,
}
use claudeq.Engine.PassLaws.{due_from-keep_if, assign_from-All, assign_from-Distinct}
use claudeq.Engine.Starts.{Distinct-unique, tick_locked-All}

module _ (fl : Floats) (parse : Text → Option (Time → Time)) (i : TickInputs fl) (e : Engine) where
  -- The state as the tick sees it: a new cron task is anchored at this moment.
  abbrev pub seen_state : State
  seen_state = (seed_cron_anchors e.queue e.state i.around.now).0

  abbrev pub dependencies : Assoc (List Dependency)
  dependencies = dependency_state e.queue e.queue (runs e.events)

  abbrev pub moment : Task → Due.Inputs
  moment t = record {
    now = i.around.now;
    running = is_marked t.id e.active;
    completed_once = is_completed_once seen_state t.id;
    cron_anchor = or_zero (last_start seen_state t.id);
    dependencies_met = met dependencies t.id;
  }

  -- It has an open gate, and an instance of its id was found ready in this tick.
  abbrev pub IsFitPlace : Resolved fl → Type 0
  IsFitPlace res =
      (gate_open i.around.now e.gates res.inst.id ≡ true)
      × ((h : Health) × HasAnswered fl i.fresh (some e.state) i.has_notifier e.state res.inst.id h
          × (may_start h ≡ true))

  pub record IsStartable (c : Cleared fl) : Type 0 where
    pub queued : Any (λ t. t ≡ c.task) e.queue
    pub is_due_now : IsDue parse c.task (moment c.task)
    pub place :
        (is_script c.task ≡ true) ⊎ ((res : Resolved fl) × (c.resolved ≡ some res) × IsFitPlace res)

  abbrev Assigned : Assignment fl → Type 0
  Assigned a = Any (λ t. t ≡ a.task) e.queue × OnOpen fl i.around e a.resolved

  fit_place :
      (p : Pass fl)
      → IsHonest fl i.fresh (some e.state) i.has_notifier e.state p
      → (o : Option (Resolved fl)) → OnOpen fl i.around e o
      → is_fit fl p.verdicts o ≡ true
      → (res : Resolved fl) × (o ≡ some res) × IsFitPlace res
  unfolding is_fit
  fit_place p honest none opened fit = cc
  fit_place p honest (some res) opened fit =
      let (h, found, good) = of_verdict (lookup res.inst.id p.verdicts) fit in
      (res, refl, (opened, (h, honest.answered res.inst.id h found, good)))
    where
      of_verdict :
          (o : Option Health)
          → verdict_fit fl o ≡ true
          → (h : Health) × (o ≡ some h) × (may_start h ≡ true)
      of_verdict none f = cc
      of_verdict (some h) f = (h, refl, f)

  -- Everything that starts passed both looks, and was assigned to an open provider.
  locked-IsStartable :
      (p : Pass fl) (todo : List (Assignment fl) × Assoc (WaitReason fl)) (r : Ticked fl)
      → IsHonest fl i.fresh (some e.state) i.has_notifier e.state p
      → Distinct (λ (a : Assignment fl). a.task.id) todo.0
      → All Assigned todo.0
      → tick_locked fl parse i.made dependencies p.verdicts i.around.now p.notices.state
          (todo.0, reasons fl todo.1)
          (record e { state = p.notices.state })
          p.notices.announced
          p.notices.sent
        ≡ ok r
      → All IsStartable r.starts
        × ((id : Text)
            → lookup id r.engine.active
              ≡ (if is_named id (tasks_of fl r.starts) then some true else lookup id e.active))
  unfolding is_due
  locked-IsStartable p todo r honest distinct q h =
      tick_locked-All fl parse IsStartable Assigned i.made dependencies p.verdicts i.around.now
        p.notices.state todo.0 (reasons fl todo.1) (record e { state = p.notices.state })
        p.notices.announced p.notices.sent r distinct q
        (λ a k d place. record {
          queued = k.0;
          is_due_now = (due_iff parse a.task (moment a.task)).0 (
              is_due-same parse e (record e { state = p.notices.state }) a.task seen_state
                (seed_cron_anchors e.queue p.notices.state i.around.now).0 dependencies i.around.now
                refl
                (seed-SameSchedule e.queue e.state p.notices.state i.around.now
                  (sym honest.same.0, sym honest.same.1))
              ∙ d);
          place = elim place [
            | inl script ↦ inl script
            | inr fit ↦ inr (fit_place p honest a.resolved k.1 fit)
          ];
        })
        h

  abbrev pub Keeps : Ticked fl → Type 0
  Keeps r =
      All IsStartable r.starts
      × ((id : Text)
          → lookup id r.engine.active
            ≡ (if is_named id (tasks_of fl r.starts) then some true else lookup id e.active))

  unwrap_due : {A : Type 0} (m : Result DueProblem A) (r : A) → wrap_due m ≡ ok r → m ≡ ok r
  unwrap_due (ok a) r h = cc
  unwrap_due (err p) r h = cc

  same_ticked : (x y : Ticked fl) → ◌≡◌ {A = Result TickProblem (Ticked fl)} (ok x) (ok y) → x ≡ y
  same_ticked x y h = cc

  probed-Keeps :
      (p : Pass fl) (todo : List (Assignment fl) × Assoc (WaitReason fl)) (r : Ticked fl)
      → IsHonest fl i.fresh (some e.state) i.has_notifier e.state p
      → Distinct (λ (a : Assignment fl). a.task.id) todo.0
      → All Assigned todo.0
      → after_probe fl parse i dependencies todo e p ≡ ok r
      → Keeps r
  unfolding is_named lookup
  probed-Keeps p todo r honest distinct q h = elim (Bool-cases (p.cut_short || i.stopping)) [
    | inl stops ↦ subst Keeps (same_ticked _ r (rw stops at h)) (tt, λ id. refl)
    | inr goes_on ↦ locked-IsStartable p todo r honest distinct q (unwrap_due _ r (rw goes_on at h))
  ]

  -- A due task is one of the queue, as often as it stands there.
  due_All :
      (P : Task → Type 0) (due : List Task)
      → due_tasks parse e dependencies i.around.now ≡ ok due
      → All P e.queue
      → All P (backfill_last due)
  unfolding due_tasks backfill_last
  due_All P due found h =
      let keeps = λ (t : Task). says_yes (is_due parse e t seen_state dependencies i.around.now) in
      subst (λ (d : List Task). All P (backfill_last d))
        (sym (due_from-keep_if parse e seen_state dependencies i.around.now e.queue due found))
        (All-sort _ P (keep_if keeps e.queue) (All-keep_if keeps P e.queue h))

  due_Distinct :
      (due : List Task)
      → due_tasks parse e dependencies i.around.now ≡ ok due
      → check_unique_ids e.queue ≡ none
      → Distinct (λ (t : Task). t.id) (backfill_last due)
  unfolding due_tasks backfill_last
  due_Distinct due found unique =
      let keeps = λ (t : Task). says_yes (is_due parse e t seen_state dependencies i.around.now) in
      subst (λ (d : List Task). Distinct (λ (t : Task). t.id) (backfill_last d))
        (sym (due_from-keep_if parse e seen_state dependencies i.around.now e.queue due found))
        (Distinct-sort (λ (t : Task). t.id) _ (keep_if keeps e.queue)
          (Distinct-keep_if (λ (t : Task). t.id) keeps e.queue (Distinct-unique e.queue unique)))

  with_due-Keeps :
      (set : Set fl) (announced : Assoc Text) (due : List Task) (r : Ticked fl)
      → due_tasks parse e dependencies i.around.now ≡ ok due
      → check_unique_ids e.queue ≡ none
      → with_due fl parse i set dependencies e announced due ≡ ok r
      → Keeps r
  unfolding assign
  with_due-Keeps set announced due r found unique h =
      let todo = assign fl i.around set e (some e.state) i.backfill_urgency (backfill_last due) in
      probed-Keeps
        (refresh_provider_health fl i.fresh (some e.state) i.has_notifier set todo.0
          (record { announced = announced; state = e.state; sent = [] }))
        todo r
        (refresh-IsHonest fl i.fresh (some e.state) i.has_notifier e.state set todo.0 announced)
        (assign_from-Distinct fl i.around set e (some e.state) i.backfill_urgency []
          (backfill_last due) (due_Distinct due found unique))
        (assign_from-All fl i.around set e (some e.state) i.backfill_urgency
          (λ u. Any (λ t. t ≡ u) e.queue) [] (backfill_last due)
          (due_All _ due found (All-self e.queue)))
        h

  -- Whatever a tick starts is a task of the queue that is due at this moment, and, unless it is a
  -- script, goes to a provider whose gate is open and that was found ready in this very tick; and
  -- the tick marks exactly what it starts as running. The queue has no id twice.
  pub tick-IsStartable :
      (announced : Assoc Text) (r : Ticked fl)
      → check_unique_ids e.queue ≡ none
      → tick fl parse i e announced ≡ ok r
      → All IsStartable r.starts
        × ((id : Text)
            → lookup id r.engine.active
              ≡ (if is_named id (tasks_of fl r.starts) then some true else lookup id e.active))
  unfolding tick is_named lookup
  tick-IsStartable announced r unique h = elim (Bool-cases i.paused) [
    | inl paused ↦ subst Keeps (same_ticked _ r (rw paused at h)) (tt, λ id. refl)
    | inr running ↦
        let (set, _, more) =
          and_then-Passed (from_config fl i.default_provider i.providers i.pools) _
            (rw running at h) in
        let (due, found, rest) =
          and_then-Passed (wrap_due (due_tasks parse e dependencies i.around.now)) _ more in
        with_due-Keeps set announced due r (unwrap_due _ due found) unique rest
  ]
