-- ===== src/Engine/Moment.antt =====
-- What a tick reads of the scheduling state, and what its health pass leaves of it.
use claudeq.Prelude.{
  ◌≡◌, inl, inr, refl, ap, sym, arith, ◌∙◌, Bool, true, false, not, ◌&&◌, ◌||◌, Option, none, some,
  List, [], ◌∷◌, Text, ◌==◌, if◌then◌else◌, is_some, Bool-cases, text_eq_iff,
}
use claudeq.Prelude.Floats.{Floats}
use claudeq.Prelude.Strings.{Time}
use claudeq.Prelude.Assoc.{Assoc, lookup, insert, lookup-insert}
use claudeq.Task.Model.{Task, is_script}
use claudeq.Task.Checks.{is_cron}
use claudeq.Store.State.{
  State, last_start, is_completed_once, record_start, is_marked, set_notified_provider_state,
}
use claudeq.Workflow.Dependencies.{Dependency}
use claudeq.Schedule.Due.{due}
use claudeq.Provider.Model.{Instance}
use claudeq.Provider.Set.{Set}
use claudeq.Provider.Health.{Health}
use claudeq.Provider.Selection.{Resolved, SelectProblem}
use claudeq.Engine.State.{Engine, is_due, seed_cron_anchors, met, or_zero}
use claudeq.Engine.Assign.{Assignment}
use claudeq.Engine.Announce.{
  Notices, Pass, note_state, note_provider_health, note_problem, probed, probe_resolved, probe_one,
  probe_all, refresh_provider_health,
}

-- The parts of the state that decide what is due.
abbrev pub SameSchedule : State → State → Type 0
SameSchedule s s' = (s.completed_once ≡ s'.completed_once) × (s.last_started ≡ s'.last_started)

pub SameSchedule-trans : (s t u : State) → SameSchedule s t → SameSchedule t u → SameSchedule s u
SameSchedule-trans s t u p q = (p.0 ∙ q.0, p.1 ∙ q.1)

pub seed-SameSchedule :
    (ts : List Task) (s s' : State) (now : Time)
    → SameSchedule s s'
    → SameSchedule (seed_cron_anchors ts s now).0 (seed_cron_anchors ts s' now).0
unfolding seed_cron_anchors last_start record_start
seed-SameSchedule [] s s' now h = h
seed-SameSchedule (t ∷ ts) s s' now h = elim (Bool-cases (fresh s.last_started)) [
  | inl new ↦
      rw (new, sym (ap fresh h.1) ∙ new)
        (seed-SameSchedule ts _ _ now (h.0, ap (insert t.id now) h.1))
  | inr old ↦ rw (old, sym (ap fresh h.1) ∙ old) (seed-SameSchedule ts s s' now h)
]
  where
    fresh : Assoc Time → Bool
    fresh m = is_cron t.trigger && not (is_some (lookup t.id m))

pub is_due-same :
    (parse : Text → Option (Time → Time)) (e e' : Engine) (t : Task) (s s' : State)
    (deps : Assoc (List Dependency)) (now : Time)
    → e.active ≡ e'.active
    → SameSchedule s s'
    → is_due parse e t s deps now ≡ is_due parse e' t s' deps now
unfolding is_due last_start is_completed_once
is_due-same parse e e' t s s' deps now a h = λ i. due parse t (record {
  now = now;
  running = is_marked t.id (a i);
  completed_once = is_marked t.id (h.0 i);
  cron_anchor = or_zero (lookup t.id (h.1 i));
  dependencies_met = met deps t.id;
})

note_state-SameSchedule :
    (st : Option State) (inst : Instance) (text : Text) (fit notifies : Bool) (n : Notices)
    → SameSchedule (note_state st inst text fit notifies n).state n.state
unfolding note_state set_notified_provider_state
note_state-SameSchedule st inst text fit notifies n = ground arith

module _ (fl : Floats) (fresh : Instance → Option Health) (st : Option State) (notifies : Bool)
    (start : State) where
  -- An instance of this id was probed in this pass, and answered this.
  abbrev pub HasAnswered : Text → Health → Type 0
  HasAnswered id h = (inst : Instance) × (inst.id ≡ id) × (fresh inst ≡ some h)

  -- The pass leaves what decides about dueness, and every verdict of it is an answer.
  pub record IsHonest (p : Pass fl) : Type 0 where
    pub same : SameSchedule p.notices.state start
    pub answered : (id : Text) (h : Health) → lookup id p.verdicts ≡ some h → HasAnswered id h

  answered-insert :
      (inst : Instance) (h : Health) (m : Assoc Health)
      → fresh inst ≡ some h
      → ((id : Text) (h' : Health) → lookup id m ≡ some h' → HasAnswered id h')
      → (id : Text) (h' : Health) → lookup id (insert inst.id h m) ≡ some h'
      → HasAnswered id h'
  answered-insert inst h m f each id h' e = elim (Bool-cases (inst.id == id)) [
    | inl same ↦ (
      inst,
      (text_eq_iff inst.id id).0 same,
      f ∙ (rw same at (rw (lookup-insert inst.id id h m) at e)),
    )
    | inr other ↦ each id h' (rw other at (rw (lookup-insert inst.id id h m) at e))
  ]

  noted-IsHonest :
      (inst : Instance) (text : Text) (fit : Bool) (p : Pass fl) (m : Assoc Health)
      → IsHonest p
      → ((id : Text) (h : Health) → lookup id m ≡ some h → HasAnswered id h)
      → IsHonest
          (record p { verdicts = m; notices = note_state st inst text fit notifies p.notices })
  noted-IsHonest inst text fit p m h each = record {
    same =
        SameSchedule-trans (note_state st inst text fit notifies p.notices).state p.notices.state
          start (note_state-SameSchedule st inst text fit notifies p.notices) h.same;
    answered = each;
  }

  probed-IsHonest :
      (inst : Instance) (o : Option Health) (p : Pass fl)
      → fresh inst ≡ o
      → IsHonest p
      → IsHonest (probed fl st notifies inst o p)
  unfolding note_provider_health
  probed-IsHonest inst none p f h = record { same = h.same; answered = h.answered }
  probed-IsHonest inst (some v) p f h =
      noted-IsHonest inst _ _ p (insert inst.id v p.verdicts) h
        (answered-insert inst v p.verdicts f h.answered)

  choice-IsHonest :
      (b : Bool) (p q : Pass fl) → IsHonest p → IsHonest q → IsHonest (if b then p else q)
  choice-IsHonest true p q h k = h
  choice-IsHonest false p q h k = k

  resolved-IsHonest :
      (o : Option (Resolved fl)) (p : Pass fl)
      → IsHonest p
      → IsHonest (probe_resolved fl fresh st notifies o p)
  resolved-IsHonest none p h = h
  resolved-IsHonest (some res) p h =
      choice-IsHonest (is_some (lookup res.inst.id p.verdicts)) p _ h
        (probed-IsHonest res.inst (fresh res.inst) p refl h)

  one-IsHonest :
      (a : Assignment fl) (p : Pass fl) → IsHonest p → IsHonest (probe_one fl fresh st notifies a p)
  one-IsHonest a p h = go a.problem
    where
      go :
          (o : Option (SelectProblem fl))
          → IsHonest (elim o [
            | some problem ↦ record p { notices = note_problem fl st notifies a.task p.notices }
            | none ↦ probe_resolved fl fresh st notifies a.resolved p
          ])
      go (some problem) = noted-IsHonest _ _ _ p p.verdicts h h.answered
      go none = resolved-IsHonest a.resolved p h

  probe_all-IsHonest :
      (todo : List (Assignment fl)) (p : Pass fl)
      → IsHonest p
      → IsHonest (probe_all fl fresh st notifies todo p)
  unfolding probe_all
  probe_all-IsHonest [] p h = h
  probe_all-IsHonest (a ∷ rest) p h =
      probe_all-IsHonest rest _
        (choice-IsHonest (p.cut_short || is_script a.task) p _ h (one-IsHonest a p h))

  pub refresh-IsHonest :
      (set : Set fl) (todo : List (Assignment fl)) (announced : Assoc Text)
      → IsHonest (
          refresh_provider_health fl fresh st notifies set todo
            (record { announced = announced; state = start; sent = [] }))
  unfolding refresh_provider_health lookup
  refresh-IsHonest set todo announced =
      let begun : Pass fl = record {
        verdicts = [];
        notices = record { announced = announced; state = start; sent = [] };
        cut_short = false;
      } in
      let p = probe_all fl fresh st notifies todo begun in
      let h =
        probe_all-IsHonest todo begun
          (record { same = (refl, refl); answered = λ id v e. absurd (cc) }) in
      choice-IsHonest p.cut_short p _ h (record { same = h.same; answered = h.answered })
