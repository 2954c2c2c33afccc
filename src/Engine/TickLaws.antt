-- ===== src/Engine/TickLaws.antt =====
-- What the second look of a tick lets through.
use claudeq.Prelude.{
  ◌≡◌, ◌⊎◌, inl, inr, refl, ap, sym, ◌∙◌, Bool, true, false, not, Option, none, some, List, [], ◌∷◌,
  ◌++◌, Text, ◌==◌, All, if◌then◌else◌,
}
use mathlib.Core.List.{append_assoc, append-nil}
use claudeq.Prelude.Floats.{Floats}
use claudeq.Prelude.Strings.{Time}
use claudeq.Prelude.Assoc.{Assoc}
use claudeq.Prelude.Result.{Result, ok, err, and_then-Passed}
use claudeq.Prelude.Filter.{Apart, Distinct}
use claudeq.Task.Model.{Task, is_script}
use claudeq.Store.State.{State}
use claudeq.Workflow.Dependencies.{Dependency}
use claudeq.Schedule.Due.{DueProblem}
use claudeq.Provider.Health.{Health}
use claudeq.Provider.Selection.{SelectProblem}
use claudeq.Engine.State.{Engine, is_due}
use claudeq.Engine.Assign.{Assignment}
use claudeq.Engine.Tick.{
  Hold, Cleared, Verdict, goes, no_longer_due, stays, Sifted, verdict_of, sift, sift_all, is_fit,
}

abbrev pub says_yes : Result DueProblem Bool → Bool
says_yes (ok b) = b
says_yes (err e) = false

module _ (fl : Floats) where
  abbrev pub add_passing : Assignment fl → Verdict fl → List (Cleared fl) → List (Cleared fl)
  add_passing a goes rest = record { task = a.task; resolved = a.resolved } ∷ rest
  add_passing a v rest = rest

  sift-append :
      (a : Assignment fl) (v : Verdict fl) (out : Sifted fl) (rest : List (Cleared fl))
      → (sift fl a v out).0 ++ rest ≡ out.0 ++ add_passing a v rest
  sift-append a goes out rest = append_assoc out.0 _ rest
  sift-append a no_longer_due out rest = refl
  sift-append a (stays why) out rest = refl

  -- Why an assignment passes: it is still due, resolved, and its provider is fit if it needs one.
  pub verdict_of-goes :
      (a : Assignment fl) (b : Bool) (health : Assoc Health)
      → verdict_of fl a b health ≡ goes
      → (b ≡ true) × ((is_script a.task ≡ true) ⊎ (is_fit fl health a.resolved ≡ true))
  verdict_of-goes a b health h =
      by_problem b a.problem (is_script a.task) (is_fit fl health a.resolved) _ h
    where
      by_problem :
          (b : Bool) (o : Option (SelectProblem fl)) (script fit : Bool) (why : Hold fl)
          → (if not b then no_longer_due else elim o [
            | some problem ↦ stays (Hold.unresolvable problem)
            | none ↦ if script then goes else if fit then goes else stays why
          ])
            ≡ goes
          → (b ≡ true) × ((script ≡ true) ⊎ (fit ≡ true))
      by_problem false o script fit why e = cc
      by_problem true (some problem) script fit why e = cc
      by_problem true none true fit why e = (refl, inl refl)
      by_problem true none false true why e = (refl, inr refl)
      by_problem true none false false why e = cc

  module _ (parse_cron : Text → Option (Time → Time)) (e : Engine) (s : State)
      (deps : Assoc (List Dependency)) (health : Assoc Health) (now : Time) where
    abbrev pub still_due : Task → Result DueProblem Bool
    still_due t = is_due parse_cron e t s deps now

    -- The assignments that pass, without the accumulator.
    unfoldable pub passing : List (Assignment fl) → List (Cleared fl)
    passing [] = []
    passing (a ∷ rest) =
        add_passing a (verdict_of fl a (says_yes (still_due a.task)) health) (passing rest)

    pub sift_all-passing :
        (todo : List (Assignment fl)) (out r : Sifted fl)
        → sift_all fl parse_cron e s deps health now todo out ≡ ok r
        → r.0 ≡ out.0 ++ passing todo
    unfolding sift_all passing
    sift_all-passing [] out r h = rw append-nil (cc)
    sift_all-passing (a ∷ rest) out r h =
        let (b, is_now, more) =
          and_then-Passed (still_due a.task)
            (λ (b : Bool).
              sift_all fl parse_cron e s deps health now rest
                (sift fl a (verdict_of fl a b health) out))
            h in
        sift_all-passing rest (sift fl a (verdict_of fl a b health) out) r more
        ∙ sift-append a (verdict_of fl a b health) out (passing rest)
        ∙ ap
            (λ (d : Result DueProblem Bool).
              out.0 ++ add_passing a (verdict_of fl a (says_yes d) health) (passing rest))
            (sym is_now)

    yes_of : (r : Result DueProblem Bool) → says_yes r ≡ true → r ≡ ok true
    yes_of (ok b) h = cc
    yes_of (err e') h = cc

    -- What an assignment has, and has to have to pass, holds of all that is cleared.
    pub passing-All :
        (Q : Assignment fl → Type 0) (P : Cleared fl → Type 0)
        → ((a : Assignment fl)
            → Q a
            → still_due a.task ≡ ok true
            → (is_script a.task ≡ true) ⊎ (is_fit fl health a.resolved ≡ true)
            → P (record { task = a.task; resolved = a.resolved }))
        → (todo : List (Assignment fl)) → All Q todo
        → All P (passing todo)
    unfolding passing
    passing-All Q P each [] q = tt
    passing-All Q P each (a ∷ rest) q =
        by_verdict (verdict_of fl a (says_yes (still_due a.task)) health) refl
          (passing-All Q P each rest q.1)
      where
        by_verdict :
            (v : Verdict fl)
            → verdict_of fl a (says_yes (still_due a.task)) health ≡ v
            → All P (passing rest)
            → All P (add_passing a v (passing rest))
        by_verdict goes h more =
            let (b, why) = verdict_of-goes a (says_yes (still_due a.task)) health h in
            (each a q.0 (yes_of (still_due a.task) b) why, more)
        by_verdict no_longer_due h more = more
        by_verdict (stays why) h more = more

    passing-Apart :
        (id : Text) (todo : List (Assignment fl))
        → Apart (λ (a : Assignment fl). a.task.id) id todo
        → Apart (λ (c : Cleared fl). c.task.id) id (passing todo)
    passing-Apart id todo h =
        passing-All (λ a. (a.task.id == id) ≡ false) (λ c. (c.task.id == id) ≡ false) (λ a q _ _. q)
          todo h

    pub passing-Distinct :
        (todo : List (Assignment fl))
        → Distinct (λ (a : Assignment fl). a.task.id) todo
        → Distinct (λ (c : Cleared fl). c.task.id) (passing todo)
    unfolding passing
    passing-Distinct [] h = tt
    passing-Distinct (a ∷ rest) h =
        by_verdict (verdict_of fl a (says_yes (still_due a.task)) health)
          (passing-Distinct rest h.1)
      where
        by_verdict :
            (v : Verdict fl)
            → Distinct (λ (c : Cleared fl). c.task.id) (passing rest)
            → Distinct (λ (c : Cleared fl). c.task.id) (add_passing a v (passing rest))
        by_verdict goes more = (passing-Apart a.task.id rest h.0, more)
        by_verdict no_longer_due more = more
        by_verdict (stays why) more = more
