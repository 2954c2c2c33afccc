-- ===== src/Schedule/DueLaws.antt =====
-- When `Due` says yes, and when it fails.
use claudeq.Prelude.{
  ◌≡◌, ◌≤◌, ◌↔◌, ◌⊎◌, inl, inr, refl, Bool, true, false, not, ◌&&◌, ◌||◌, Option, none, some, List,
  [], ◌∷◌, Text, arith, if◌then◌else◌, is_empty, is_some, length,
}
use claudeq.Prelude.Strings.{Time, trim_space, fields}
use claudeq.Prelude.Result.{Result, ok, is_ok}
use claudeq.Prelude.Ladder.{refuse-none, refuse-none_last, iff_refl, not-false}
use mathlib.Core.Option.{some-injective}
use claudeq.Task.Model.{Task, Trigger, asap, fixed, cron, unknown_trigger}
use claudeq.Task.Checks.{
  cron_schedule, check_cron, without_zone, missing_schedule, shorthand, field_count, culprit,
  validate,
}
use claudeq.Task.WellFormed.{TriggerFits, validate_iff}
use claudeq.Schedule.Due.{Inputs, DueProblem, cron_due, by_trigger, due}

-- What the trigger of a task asks of the moment.
abbrev pub TriggerFires : (Text → Option (Time → Time)) → Trigger → Task → Inputs → Type 0
TriggerFires parse asap t i = i.completed_once ≡ false
TriggerFires parse fixed t i = (i.completed_once ≡ false) × (t.fixed_at ≤ i.now)
TriggerFires parse cron t i =
    (next : Time → Time) × (parse t.cron_expr ≡ some next) × (next i.cron_anchor ≤ i.now)
TriggerFires parse (unknown_trigger tr) t i = ⊥

pub record IsDue (parse : Text → Option (Time → Time)) (t : Task) (i : Inputs) : Type 0 where
  pub switched_on : t.enabled ≡ true
  pub idle : i.running ≡ false
  pub input_exists : (t.depends_on ≡ []) ⊎ (i.dependencies_met ≡ true)
  pub fires : TriggerFires parse t.trigger t i

passed_gate :
    (on runs waits : Bool) (m : Result DueProblem Bool)
    → (if not on || runs then ok false else if waits then ok false else m) ≡ ok true
    → (on ≡ true) × (runs ≡ false) × (waits ≡ false)
passed_gate true true waits m h = cc
passed_gate true false true m h = cc
passed_gate true false false m h = (refl, refl, refl)
passed_gate false runs waits m h = cc

module _ (parse : Text → Option (Time → Time)) (t : Task) (i : Inputs) where
  fires_at :
      (next : Time → Time) → next i.cron_anchor ≤ i.now → cron_due t.id (some next) i ≡ ok true
  fires_at next l = ground arith

  cron_fires :
      (o : Option (Time → Time))
      → (cron_due t.id o i ≡ ok true)
        ↔ ((next : Time → Time) × (o ≡ some next) × (next i.cron_anchor ≤ i.now))
  cron_fires none = ((λ h. cc), λ (next, e, l). cc)
  cron_fires (some next) = (
    (λ h. (next, refl, ground arith)),
    λ (next', e, l). fires_at next (rw (some-injective next next' e) l),
  )

  trigger_fires : (tr : Trigger) → (by_trigger parse tr t i ≡ ok true) ↔ TriggerFires parse tr t i
  unfolding cron_schedule
  trigger_fires asap = ((λ h. ground arith), λ h. ground arith)
  trigger_fires fixed = ((λ h. ground arith), λ h. ground arith)
  trigger_fires cron = cron_fires (parse t.cron_expr)
  trigger_fires (unknown_trigger tr) = ((λ h. cc), λ h. absurd h)

  waits_iff :
      (not (is_empty t.depends_on) && not i.dependencies_met ≡ false)
      ↔ ((t.depends_on ≡ []) ⊎ (i.dependencies_met ≡ true))
  waits_iff = go t.depends_on i.dependencies_met
    where
      go :
          (deps : List Text) (met : Bool)
          → (not (is_empty deps) && not met ≡ false) ↔ ((deps ≡ []) ⊎ (met ≡ true))
      go [] met = ((λ _. inl refl), λ _. refl)
      go (d ∷ ds) true = ((λ _. inr refl), λ _. refl)
      go (d ∷ ds) false = ((λ h. cc), λ h. elim h [ inl e ↦ cc | inr e ↦ cc ])

  open_gate :
      t.enabled ≡ true
      → i.running ≡ false
      → (not (is_empty t.depends_on) && not i.dependencies_met) ≡ false
      → due parse t i ≡ by_trigger parse t.trigger t i
  unfolding due
  open_gate e r w = simp (e, r, w)

  gate_of_due :
      due parse t i ≡ ok true
      → (t.enabled ≡ true)
        × (i.running ≡ false)
        × ((not (is_empty t.depends_on) && not i.dependencies_met) ≡ false)
  unfolding due
  gate_of_due h =
      passed_gate t.enabled i.running (not (is_empty t.depends_on) && not i.dependencies_met)
        (by_trigger parse t.trigger t i) h

  -- A task is due just when it is switched on, idle, has its input, and its trigger fires.
  pub due_iff : (due parse t i ≡ ok true) ↔ IsDue parse t i
  due_iff = (
    (λ h.
        let (e, r, w) = gate_of_due h in
        record {
          switched_on = e;
          idle = r;
          input_exists = waits_iff.0 w;
          fires = (trigger_fires t.trigger).0 (rw (open_gate e r w) at h);
        }),
    λ d.
        rw (open_gate d.switched_on d.idle (waits_iff.1 d.input_exists))
          ((trigger_fires t.trigger).1 d.fires),
  )

-- `Due` fails only in the trigger of a task that `Validate` refuses, or whose schedule has
-- space around it.
gate_is_ok :
    (on runs waits : Bool) (m : Result DueProblem Bool)
    → is_ok m ≡ true
    → is_ok (if not on || runs then ok false else if waits then ok false else m) ≡ true
gate_is_ok true true waits m h = refl
gate_is_ok true false true m h = refl
gate_is_ok true false false m h = h
gate_is_ok false runs waits m h = refl

module _ (parse : Text → Option (Time → Time)) (t : Task) (i : Inputs) where
  cron_is_ok : (o : Option (Time → Time)) → is_some o ≡ true → is_ok (cron_due t.id o i) ≡ true
  cron_is_ok none h = h
  cron_is_ok (some next) h = refl

  parsed_of_check :
      (expr : Text) → check_cron parse expr ≡ none → is_some (parse (trim_space expr)) ≡ true
  unfolding check_cron
  parsed_of_check expr h =
      let spec = trim_space expr in
      let parts = without_zone parse (fields spec) in
      let chain = refuse-none _ missing_schedule _ iff_refl (
        refuse-none _ shorthand _ iff_refl (
          refuse-none _ (field_count (length parts)) _ iff_refl
            (refuse-none_last _ (culprit parse 0 parts) (not-false (is_some (parse spec)))))) in
      (chain.0 h).1.1.1

  trigger_is_ok :
      (tr : Trigger)
      → TriggerFits parse tr t
      → trim_space t.cron_expr ≡ t.cron_expr
      → is_ok (by_trigger parse tr t i) ≡ true
  unfolding cron_schedule
  trigger_is_ok asap h e = refl
  trigger_is_ok fixed h e = refl
  trigger_is_ok cron h e = cron_is_ok (parse t.cron_expr) (rw e at (parsed_of_check t.cron_expr h))
  trigger_is_ok (unknown_trigger tr) h e = absurd h

  -- A validated task whose schedule is stored without surrounding space never fails a tick.
  pub due_never_fails :
      validate parse t ≡ none → trim_space t.cron_expr ≡ t.cron_expr → is_ok (due parse t i) ≡ true
  unfolding due
  due_never_fails v e =
      gate_is_ok t.enabled i.running (not (is_empty t.depends_on) && not i.dependencies_met)
        (by_trigger parse t.trigger t i)
        (trigger_is_ok t.trigger ((validate_iff parse t).0 v).trigger_fits e)
