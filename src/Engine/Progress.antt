-- ===== src/Engine/Progress.antt =====
-- A tick on an idle engine starts something as soon as a script is due.
use claudeq.Prelude.{
  ◌≡◌, inl, inr, refl, ap, ◌∙◌, Bool, true, false, not, ◌||◌, Option, none, some, List, [], ◌∷◌,
  ◌++◌, Text, All, Any, keep_if, if◌then◌else◌, is_empty,
}
use claudeq.Prelude.Floats.{Floats}
use claudeq.Prelude.Strings.{Time}
use claudeq.Prelude.Assoc.{Assoc}
use claudeq.Prelude.Result.{Result, ok, err, ◌>>=◌, is_ok}
use claudeq.Task.Model.{Task, is_script}
use claudeq.Store.State.{State}
use claudeq.Workflow.Dependencies.{Dependency}
use claudeq.Schedule.Due.{DueProblem}
use claudeq.Schedule.Select.{Running, select, select_from}
use claudeq.Provider.Health.{Health}
use claudeq.Provider.Selection.{SelectProblem}
use claudeq.Engine.State.{Engine, is_due}
use claudeq.Engine.Assign.{Assignment}
use claudeq.Engine.Tick.{
  Hold, Sifted, Verdict, goes, no_longer_due, stays, due_from, sift, sift_all, verdict_of, is_fit,
}
use claudeq.Engine.TickLaws.{says_yes, passing, add_passing}

yes-ok : (r : Result DueProblem Bool) → is_ok r ≡ true → r ≡ ok (says_yes r)
yes-ok (ok b) h = refl
yes-ok (err e) h = cc

either-nonempty :
    (b : Bool) (xs ys : List Task)
    → is_empty xs ≡ false
    → is_empty ys ≡ false
    → is_empty (if b then xs else ys) ≡ false
either-nonempty true xs ys p q = p
either-nonempty false xs ys p q = q

-- `Select` starts something whenever nothing runs and something may start.
select_from-keeps :
    (p : Bool) (start ts : List Task)
    → is_empty start ≡ false
    → is_empty (select_from p start ts) ≡ false
unfolding select_from
select_from-keeps p start [] h = h
select_from-keeps p start (t ∷ ts) h =
    either-nonempty t.parallel _ _ (select_from-keeps p (start ++ t ∷ []) ts (grown start))
      (either-nonempty (p || not (is_empty start)) start (t ∷ []) h refl)
  where
    grown : (s : List Task) → is_empty (s ++ t ∷ []) ≡ false
    grown [] = refl
    grown (u ∷ us) = refl

pub select-progress :
    (ts : List Task) (r : Running)
    → r.non_parallel ≡ false
    → r.parallel ≡ false
    → is_empty ts ≡ false
    → is_empty (select ts r) ≡ false
unfolding select select_from
select-progress [] r n p h = cc
select-progress (t ∷ ts) r n p h = by_running r.non_parallel r.parallel n p
  where
    by_running :
        (others shared : Bool)
        → others ≡ false
        → shared ≡ false
        → is_empty (if others then [] else select_from shared [] (t ∷ ts)) ≡ false
    by_running true shared a b = cc
    by_running false true a b = cc
    by_running false false a b =
        either-nonempty t.parallel _ _ (select_from-keeps false (t ∷ []) ts refl) refl

module _ (parse : Text → Option (Time → Time)) (e : Engine) (s : State)
    (deps : Assoc (List Dependency)) (now : Time) where
  abbrev pub Decides : Task → Type 0
  Decides t = is_ok (is_due parse e t s deps now) ≡ true

  pub due_from-total :
      (ts : List Task)
      → All Decides ts
      → due_from parse e s deps now ts
        ≡ ok (keep_if (λ t. says_yes (is_due parse e t s deps now)) ts)
  unfolding due_from keep_if
  due_from-total [] h = refl
  due_from-total (t ∷ ts) h =
      rw (due_from-total ts h.1) (by_answer (is_due parse e t s deps now) h.0)
    where
      wrapped : List Task → Result DueProblem (List Task)
      wrapped ts = ok ts

      by_answer :
          (d : Result DueProblem Bool)
          → is_ok d ≡ true
          → (d >>= λ b. wrapped (
              if b
              then t ∷ keep_if (λ u. says_yes (is_due parse e u s deps now)) ts
              else keep_if (λ u. says_yes (is_due parse e u s deps now)) ts))
            ≡ ok (
                if says_yes d
                then t ∷ keep_if (λ u. says_yes (is_due parse e u s deps now)) ts
                else keep_if (λ u. says_yes (is_due parse e u s deps now)) ts)
      by_answer (ok b) k = refl
      by_answer (err p) k = cc

-- An unproblematic script goes if it is still due.
goes_on :
    (fl : Floats) (a : Assignment fl) (b : Bool) (health : Assoc Health)
    → b ≡ true
    → a.problem ≡ none
    → is_script a.task ≡ true
    → verdict_of fl a b health ≡ goes
goes_on fl a b health yes_ clear script =
    by_problem b a.problem (is_script a.task) (is_fit fl health a.resolved) _ yes_ clear script
  where
    by_problem :
        (b : Bool) (o : Option (SelectProblem fl)) (script fit : Bool) (why : Hold fl)
        → b ≡ true
        → o ≡ none
        → script ≡ true
        → ◌≡◌ {A = Verdict fl}
            (if not b then no_longer_due else elim o [
              | some problem ↦ stays (Hold.unresolvable problem)
              | none ↦ if script then goes else if fit then goes else stays why
            ])
            goes
    by_problem false o script fit why p q r = cc
    by_problem true (some problem) script fit why p q r = cc
    by_problem true none true fit why p q r = refl
    by_problem true none false fit why p q r = cc

module _ (fl : Floats) (parse : Text → Option (Time → Time)) (e : Engine) (s : State)
    (deps : Assoc (List Dependency)) (health : Assoc Health) (now : Time) where
  pub sift_all-total :
      (todo : List (Assignment fl)) (out : Sifted fl)
      → All (λ a. Decides parse e s deps now a.task) todo
      → (r : Sifted fl) × (sift_all fl parse e s deps health now todo out ≡ ok r)
  unfolding sift_all
  sift_all-total [] out h = (out, refl)
  sift_all-total (a ∷ rest) out h =
      let d = is_due parse e a.task s deps now in
      let next = sift fl a (verdict_of fl a (says_yes d) health) out in
      let (r, found) = sift_all-total rest next h.1 in (r, rw (yes-ok d h.0) found)

  -- A script that is due passes the second look.
  pub passing-progress :
      (t : Task) (todo : List (Assignment fl))
      → is_script t ≡ true
      → is_due parse e t s deps now ≡ ok true
      → Any (λ a. (a.task ≡ t) × (a.problem ≡ none)) todo
      → is_empty (passing fl parse e s deps health now todo) ≡ false
  unfolding passing
  passing-progress t [] script due_ a = absurd a
  passing-progress t (a ∷ rest) script due_ (inl (same, clear)) =
      ap
        (λ (v : Verdict fl).
          is_empty (add_passing fl a v (passing fl parse e s deps health now rest)))
        (goes_on fl a (says_yes (is_due parse e a.task s deps now)) health
          (ap (λ (u : Task). says_yes (is_due parse e u s deps now)) same ∙ ap says_yes due_) clear
          (ap is_script same ∙ script))
  passing-progress t (a ∷ rest) script due_ (inr more) =
      by_verdict (verdict_of fl a (says_yes (is_due parse e a.task s deps now)) health)
        (passing-progress t rest script due_ more)
    where
      by_verdict :
          (v : Verdict fl)
          → is_empty (passing fl parse e s deps health now rest) ≡ false
          → is_empty (add_passing fl a v (passing fl parse e s deps health now rest)) ≡ false
      by_verdict goes k = refl
      by_verdict no_longer_due k = k
      by_verdict (stays why) k = k
