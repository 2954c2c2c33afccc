-- ===== src/Engine/TickProgress.antt =====
-- A script is always assigned, and a pass whose probes all answer is not cut short.
use claudeq.Prelude.{
  ℕ, ◌≡◌, inl, inr, refl, ap, ◌∙◌, Bool, true, false, ◌||◌, Option, none, some, List, [], ◌∷◌, Any,
  if◌then◌else◌, is_some,
}
use claudeq.Prelude.Floats.{Floats}
use claudeq.Prelude.Assoc.{Assoc, lookup}
use claudeq.Task.Model.{Task, is_script}
use claudeq.Store.State.{State}
use claudeq.Provider.Model.{Instance}
use claudeq.Provider.Set.{Set}
use claudeq.Provider.Health.{Health}
use claudeq.Provider.Selection.{Resolved, SelectProblem}
use claudeq.Engine.State.{Engine}
use claudeq.Engine.Assign.{
  Surroundings, Assignment, WaitReason, assign_from, place_task, plan, add_placing, Placing,
  assigned, waits,
}
use claudeq.Engine.Announce.{
  Pass, Notices, note_problem, probed, probe_resolved, probe_one, probe_all,
  refresh_provider_health,
}

module _ (fl : Floats) (su : Surroundings fl) (set : Set fl) (e : Engine) (st : Option State)
    (backfill : fl.F) where
  -- A script that is due is always assigned, whatever the providers say.
  pub assign_from-script :
      (t : Task)
      → is_script t ≡ true
      → (planned : Assoc ℕ) (due : List Task) → Any (λ u. u ≡ t) due
      → Any
          (λ a. (a.task ≡ t) × (a.problem ≡ none))
          (assign_from fl su set e st backfill planned due).0
  unfolding assign_from place_task
  assign_from-script t script planned [] a = absurd a
  assign_from-script t script planned (u ∷ us) (inl same) =
      placed_here (is_script u) _ (λ p. assign_from fl su set e st backfill (plan fl p planned) us)
        (ap is_script same ∙ script)
    where
      placed_here :
          (b : Bool) (other : Placing fl)
          (rest : Placing fl → List (Assignment fl) × Assoc (WaitReason fl))
          → b ≡ true
          → Any
              (λ a. (a.task ≡ t) × (a.problem ≡ none))
              (add_placing fl u
                (if b
                  then assigned (record { task = u; resolved = none; problem = none })
                  else other)
                (rest (
                  if b
                  then assigned (record { task = u; resolved = none; problem = none })
                  else other))).0
      placed_here true other rest h = inl (same, refl)
      placed_here false other rest h = cc
  assign_from-script t script planned (u ∷ us) (inr more) =
      added (place_task fl su set e st backfill planned u) _ (
        assign_from-script t script (plan fl (place_task fl su set e st backfill planned u) planned)
          us more)
    where
      added :
          (p : Placing fl) (rest : List (Assignment fl) × Assoc (WaitReason fl))
          → Any (λ a. (a.task ≡ t) × (a.problem ≡ none)) rest.0
          → Any (λ a. (a.task ≡ t) × (a.problem ≡ none)) (add_placing fl u p rest).0
      added (assigned a) rest h = inr h
      added (waits w) rest h = h

module _ (fl : Floats) (fresh : Instance → Option Health)
    (answers : (inst : Instance) → is_some (fresh inst) ≡ true) (st : Option State)
    (notifies : Bool) where
  probed-whole :
      (inst : Instance) (o : Option Health) (p : Pass fl)
      → is_some o ≡ true
      → p.cut_short ≡ false
      → (probed fl st notifies inst o p).cut_short ≡ false
  probed-whole inst none p h k = cc
  probed-whole inst (some v) p h k = k

  either-whole :
      (b : Bool) (p q : Pass fl)
      → p.cut_short ≡ false
      → q.cut_short ≡ false
      → (if b then p else q).cut_short ≡ false
  either-whole true p q h k = h
  either-whole false p q h k = k

  one-whole :
      (a : Assignment fl) (p : Pass fl)
      → p.cut_short ≡ false
      → (probe_one fl fresh st notifies a p).cut_short ≡ false
  one-whole a p h = by_problem a.problem
    where
      by_place :
          (o : Option (Resolved fl)) → (probe_resolved fl fresh st notifies o p).cut_short ≡ false
      by_place none = h
      by_place (some res) =
          either-whole (is_some (lookup res.inst.id p.verdicts)) p _ h
            (probed-whole res.inst (fresh res.inst) p (answers res.inst) h)

      by_problem :
          (o : Option (SelectProblem fl))
          → (let q : Pass fl = elim o [
            | some problem ↦ record p { notices = note_problem fl st notifies a.task p.notices }
            | none ↦ probe_resolved fl fresh st notifies a.resolved p
          ] in
              q.cut_short)
            ≡ false
      by_problem (some problem) = h
      by_problem none = by_place a.resolved

  probe_all-whole :
      (todo : List (Assignment fl)) (p : Pass fl)
      → p.cut_short ≡ false
      → (probe_all fl fresh st notifies todo p).cut_short ≡ false
  unfolding probe_all
  probe_all-whole [] p h = h
  probe_all-whole (a ∷ rest) p h =
      probe_all-whole rest _
        (either-whole (p.cut_short || is_script a.task) p _ h (one-whole a p h))

  pub refresh-whole :
      (set : Set fl) (todo : List (Assignment fl)) (n : Notices)
      → (refresh_provider_health fl fresh st notifies set todo n).cut_short ≡ false
  unfolding refresh_provider_health
  refresh-whole set todo n =
      let out =
        probe_all fl fresh st notifies todo
          (record { verdicts = []; notices = n; cut_short = false }) in
      let h =
        probe_all-whole todo (record { verdicts = []; notices = n; cut_short = false }) refl in
      either-whole out.cut_short out _ h h
