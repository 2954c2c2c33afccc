-- ===== src/Engine/Liveness.antt =====
-- `Tick` of internal/engine/engine.go never leaves an idle machine idle while a script is due.
use claudeq.Prelude.{
  ℕ, ◌≡◌, refl, ap, ◌∙◌, Bool, true, false, ◌||◌, Option, none, some, List, [], ◌∷◌, Text, All, Any,
  keep_if, if◌then◌else◌, arith, is_empty, is_some, ltb,
}
use claudeq.Prelude.Floats.{Floats}
use claudeq.Prelude.Strings.{Time, trim_space}
use claudeq.Prelude.Assoc.{Assoc}
use claudeq.Prelude.Result.{Result, ok, ◌>>=◌}
use claudeq.Prelude.Filter.{All-map, All-sort, All-keep_if, Any-keep_if, Any-sort}
use claudeq.Task.Model.{Task, is_script}
use claudeq.Task.Checks.{validate}
use claudeq.Store.State.{State}
use claudeq.Schedule.Due.{DueProblem}
use claudeq.Schedule.DueLaws.{IsDue, due_iff, due_never_fails}
use claudeq.Provider.Model.{Instance}
use claudeq.Provider.Set.{Set}
use claudeq.Provider.Selection.{Resolved}
use claudeq.Engine.State.{Engine, is_due, seed_cron_anchors, running_state}
use claudeq.Engine.Assign.{Assignment, WaitReason, assign, backfill_last}
use claudeq.Engine.Announce.{Pass, Notices, refresh_provider_health}
use claudeq.Engine.Moment.{seed-SameSchedule, is_due-same, IsHonest, refresh-IsHonest}
use claudeq.Engine.Tick.{Cleared, tick_locked, finish_tick, tasks_of, placements, Ticked, due_tasks}
use claudeq.Engine.TickLaws.{says_yes, sift_all-passing}
use claudeq.Engine.Pass.{
  TickInputs, TickProblem, wrap_due, from_config, reasons, after_probe, with_due, tick, hold_all,
  nothing_started,
}
use claudeq.Engine.PassLaws.{assign_from-All}
use claudeq.Engine.TickStarts.{seen_state, dependencies, moment}
use claudeq.Engine.Progress.{
  Decides, select-progress, due_from-total, sift_all-total, passing-progress,
}
use claudeq.Engine.TickProgress.{assign_from-script, refresh-whole}

-- It passes `Validate`, and its schedule is stored without space around it.
abbrev pub IsStored : (Text → Option (Time → Time)) → Task → Type 0
IsStored parse t = (validate parse t ≡ none) × (trim_space t.cron_expr ≡ t.cron_expr)

module _ (fl : Floats) (parse : Text → Option (Time → Time)) (i : TickInputs fl) (e : Engine) where
  tick-with_due :
      (set : Set fl) (announced : Assoc Text) (due : List Task)
      → i.paused ≡ false
      → from_config fl i.default_provider i.providers i.pools ≡ ok set
      → due_tasks parse e (dependencies fl parse i e) i.around.now ≡ ok due
      → tick fl parse i e announced
        ≡ with_due fl parse i set (dependencies fl parse i e) e announced due
  unfolding tick
  tick-with_due set announced due on config found =
      by_steps i.paused (from_config fl i.default_provider i.providers i.pools)
        (due_tasks parse e (dependencies fl parse i e) i.around.now) on config found
    where
      by_steps :
          (b : Bool) (c : Result TickProblem (Set fl)) (d : Result DueProblem (List Task))
          → b ≡ false
          → c ≡ ok set
          → d ≡ ok due
          → (if b
              then ok (nothing_started fl e (hold_all fl d) announced [])
              else (c >>= λ set. wrap_due d >>= λ ts.
                  with_due fl parse i set (dependencies fl parse i e) e announced ts))
            ≡ with_due fl parse i set (dependencies fl parse i e) e announced due
      by_steps b c d p q r = rw (p, q, r) refl

  -- Nothing that is stored fails to be judged.
  stored-Decides :
      (f : Engine) (s : State) (t : Task)
      → IsStored parse t
      → Decides parse f s (dependencies fl parse i e) i.around.now t
  unfolding is_due
  stored-Decides f s t h = due_never_fails parse t _ h.0 h.1

  placed-nonempty :
      (ready : Assoc (Option (Resolved fl))) (ts : List Task)
      → is_empty ts ≡ false
      → is_empty (placements fl ready ts) ≡ false
  unfolding placements
  placed-nonempty ready [] h = cc
  placed-nonempty ready (t ∷ ts) h = refl

  cleared-nonempty :
      (cs : List (Cleared fl)) → is_empty cs ≡ false → is_empty (tasks_of fl cs) ≡ false
  cleared-nonempty [] h = cc
  cleared-nonempty (c ∷ cs) h = refl

  idle-ltb : (n : ℕ) → n ≡ 0 → ltb 0 n ≡ false
  idle-ltb n h = ground (arith, h)

  locked-progress :
      (p : Pass fl) (todo : List (Assignment fl) × Assoc (WaitReason fl)) (t : Task)
      → IsHonest fl i.fresh (some e.state) i.has_notifier e.state p
      → All (λ a. IsStored parse a.task) todo.0
      → e.non_parallel_active ≡ 0
      → e.parallel_active ≡ 0
      → is_script t ≡ true
      → IsDue parse t (moment fl parse i e t)
      → Any (λ a. (a.task ≡ t) × (a.problem ≡ none)) todo.0
      → (r : Ticked fl) × (tick_locked fl parse i.made
            (dependencies fl parse i e)
            p.verdicts
            i.around.now
            p.notices.state
            (todo.0, reasons fl todo.1)
            (record e { state = p.notices.state })
            p.notices.announced
            p.notices.sent
          ≡ ok r)
        × (is_empty r.starts ≡ false)
  unfolding tick_locked is_due running_state
  locked-progress p todo t honest stored np sp script d found =
      let f : Engine = record e { state = p.notices.state } in
      let deps = dependencies fl parse i e in
      let (s, seeded) = seed_cron_anchors e.queue p.notices.state i.around.now in
      let (out, sifted) =
        sift_all-total fl parse f s deps p.verdicts i.around.now todo.0 ([], reasons fl todo.1)
          (All-map (λ (a : Assignment fl) h. stored-Decides f s a.task h) todo.0 stored) in
      let due_ =
        is_due-same parse f e t s (seen_state fl parse i e) deps i.around.now refl
          (seed-SameSchedule e.queue p.notices.state e.state i.around.now honest.same)
        ∙ (due_iff parse t (moment fl parse i e t)).1 d in
      let is_out =
        sift_all-passing fl parse f s deps p.verdicts i.around.now todo.0 ([], reasons fl todo.1)
          out sifted in
      let some_pass =
        ap (λ (cs : List (Cleared fl)). is_empty cs) is_out
        ∙ passing-progress fl parse f s deps p.verdicts i.around.now t todo.0 script due_ found in
      (
        finish_tick fl parse i.made seeded i.around.now f p.notices.announced p.notices.sent out,
        rw sifted refl,
        placed-nonempty _ _ (
            select-progress (tasks_of fl out.0) (running_state f)
              (idle-ltb e.non_parallel_active np) (idle-ltb e.parallel_active sp)
              (cleared-nonempty out.0 some_pass)),
      )

  after_probe-progress :
      (p : Pass fl) (todo : List (Assignment fl) × Assoc (WaitReason fl))
      → i.stopping ≡ false
      → p.cut_short ≡ false
      → (r : Ticked fl) × (tick_locked fl parse i.made
            (dependencies fl parse i e)
            p.verdicts
            i.around.now
            p.notices.state
            (todo.0, reasons fl todo.1)
            (record e { state = p.notices.state })
            p.notices.announced
            p.notices.sent
          ≡ ok r)
        × (is_empty r.starts ≡ false)
      → (r : Ticked fl) × (after_probe fl parse i (dependencies fl parse i e) todo e p ≡ ok r)
        × (is_empty r.starts ≡ false)
  after_probe-progress p todo stops cut (r, done, nonempty) =
      (r, by_stop p.cut_short i.stopping _ cut stops (ap wrap_due done), nonempty)
    where
      by_stop :
          (a b : Bool) (other : Result TickProblem (Ticked fl))
          → a ≡ false
          → b ≡ false
          → {m : Result TickProblem (Ticked fl)} → m ≡ ok r
          → (if a || b then other else m) ≡ ok r
      by_stop a b other h k done = rw (h, k) done

  -- While no run is going, nothing is paused and nothing stops the daemon, the providers and pools of
  -- the configuration can be read, every provider answers its probe, and every task of the queue
  -- passes Validate and has its cron expression stored without surrounding space: if a script of
  -- the queue is due, then the tick ends without an error and starts at least one task, whatever
  -- the gates and the probes say.
  pub tick-progress :
      (set : Set fl) (announced : Assoc Text) (t : Task)
      → from_config fl i.default_provider i.providers i.pools ≡ ok set
      → All (IsStored parse) e.queue
      → i.paused ≡ false
      → i.stopping ≡ false
      → ((inst : Instance) → is_some (i.fresh inst) ≡ true)
      → e.non_parallel_active ≡ 0
      → e.parallel_active ≡ 0
      → Any (λ u. u ≡ t) e.queue
      → is_script t ≡ true
      → IsDue parse t (moment fl parse i e t)
      → (r : Ticked fl) × (tick fl parse i e announced ≡ ok r) × (is_empty r.starts ≡ false)
  unfolding is_due due_tasks backfill_last assign
  tick-progress set announced t config stored on stops answers np sp queued script d =
      let deps = dependencies fl parse i e in
      let s = seen_state fl parse i e in
      let keeps = λ (u : Task). says_yes (is_due parse e u s deps i.around.now) in
      let due = keep_if keeps e.queue in
      let todo = assign fl i.around set e (some e.state) i.backfill_urgency (backfill_last due) in
      let n : Notices = record { announced = announced; state = e.state; sent = [] } in
      let p = refresh_provider_health fl i.fresh (some e.state) i.has_notifier set todo.0 n in
      let found =
        due_from-total parse e s deps i.around.now e.queue
          (All-map (λ u h. stored-Decides e s u h) e.queue stored) in
      let is_now = ap says_yes ((due_iff parse t (moment fl parse i e t)).1 d) in
      let listed =
        Any-sort _ (λ u. u ≡ t) due
          (Any-keep_if keeps (λ u same. ap keeps same ∙ is_now) e.queue queued) in
      let assigned_ =
        assign_from-script fl i.around set e (some e.state) i.backfill_urgency t script []
          (backfill_last due) listed in
      let all_stored =
        All-map (λ (a : Assignment fl) h. h.0) todo.0
          (assign_from-All fl i.around set e (some e.state) i.backfill_urgency (IsStored parse) []
            (backfill_last due) (All-sort _ _ due (All-keep_if keeps _ e.queue stored))) in
      let (r, done, nonempty) =
        after_probe-progress p todo stops
          (refresh-whole fl i.fresh answers (some e.state) i.has_notifier set todo.0 n)
          (locked-progress p todo t
            (refresh-IsHonest fl i.fresh (some e.state) i.has_notifier e.state set todo.0 announced)
            all_stored np sp script d assigned_) in
      (r, tick-with_due set announced due on config found ∙ done, nonempty)
