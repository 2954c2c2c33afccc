-- ===== src/Engine/Ready.antt =====
-- The map from the tasks that may start to where they run.
use claudeq.Prelude.{
  ◌≡◌, inl, inr, refl, ap, sym, ◌∙◌, Option, some, List, [], ◌∷◌, Text, All, Any, text_eq_refl,
}
use mathlib.Core.Path.{subst}
use claudeq.Prelude.Floats.{Floats}
use claudeq.Prelude.Assoc.{Assoc, lookup, insert, lookup-insert}
use claudeq.Prelude.Filter.{All-map, All-front, All-of_any, Apart, Distinct}
use claudeq.Task.Model.{Task}
use claudeq.Schedule.Select.{Running, select}
use claudeq.Schedule.SelectLaws.{select-IsAdmissible}
use claudeq.Provider.Selection.{Resolved}
use claudeq.Engine.Tick.{Cleared, ready_from, placements, tasks_of, or_nowhere}

module _ (fl : Floats) where
  abbrev id_of : Cleared fl → Text
  id_of c = c.task.id

  ready_from-Apart :
      (id : Text) (cs : List (Cleared fl)) (m : Assoc (Option (Resolved fl)))
      → Apart id_of id cs
      → lookup id (ready_from fl m cs) ≡ lookup id m
  unfolding ready_from
  ready_from-Apart id [] m h = refl
  ready_from-Apart id (c ∷ cs) m h =
      ready_from-Apart id cs (insert c.task.id c.resolved m) h.1
      ∙ (lookup-insert c.task.id id c.resolved m ∙ rw h.0 refl)

  ready_from-in :
      (c : Cleared fl) (cs : List (Cleared fl)) (m : Assoc (Option (Resolved fl)))
      → Distinct id_of cs
      → Any (λ d. d ≡ c) cs
      → lookup c.task.id (ready_from fl m cs) ≡ some c.resolved
  unfolding ready_from
  ready_from-in c [] m h a = absurd a
  ready_from-in c (d ∷ cs) m h (inl e) =
      subst (λ (x : Cleared fl). lookup x.task.id (ready_from fl m (d ∷ cs)) ≡ some x.resolved) e
        (ready_from-Apart d.task.id cs (insert d.task.id d.resolved m) h.0
          ∙ (lookup-insert d.task.id d.task.id d.resolved m ∙ rw (text_eq_refl d.task.id) refl))
  ready_from-in c (d ∷ cs) m h (inr a) = ready_from-in c cs (insert d.task.id d.resolved m) h.1 a

  -- A task that was cleared is placements where it was cleared for.
  placed_one :
      (cs : List (Cleared fl)) (t : Task)
      → Distinct id_of cs
      → (c : Cleared fl) × Any (λ d. d ≡ c) cs × (c.task ≡ t)
      → Any
          (λ d.
            d ≡ record { task = t; resolved = or_nowhere fl (lookup t.id (ready_from fl [] cs)) })
          cs
  placed_one cs t h (c, a, e) =
      subst (λ (x : Cleared fl). Any (λ d. d ≡ x) cs)
        (λ i. record {
          task = e i;
          resolved =
              (ap (or_nowhere fl) (sym (ready_from-in c cs [] h a))
                  ∙ ap (λ (x : Task). or_nowhere fl (lookup x.id (ready_from fl [] cs))) e)
                i;
        })
        a

  placed-All :
      (P : Cleared fl → Type 0) (cs : List (Cleared fl)) (ts : List Task)
      → Distinct id_of cs
      → All P cs
      → All (λ t. (c : Cleared fl) × Any (λ d. d ≡ c) cs × (c.task ≡ t)) ts
      → All P (placements fl (ready_from fl [] cs) ts)
  unfolding placements
  placed-All P cs [] h p a = tt
  placed-All P cs (t ∷ ts) h p a =
      let (d, held, e) = All-of_any P cs p (placed_one cs t h a.0) in
      (subst P e held, placed-All P cs ts h p a.1)

  cleared-each :
      (cs : List (Cleared fl))
      → All (λ t. (c : Cleared fl) × Any (λ d. d ≡ c) cs × (c.task ≡ t)) (tasks_of fl cs)
  cleared-each [] = tt
  cleared-each (c ∷ cs) = (
    (c, inl refl, refl),
    All-map (λ t (d, a, e). (d, inr a, e)) (tasks_of fl cs) (cleared-each cs),
  )

  -- What holds of all that is cleared holds of what starts, wherever the map says that it runs.
  pub started-All :
      (P : Cleared fl → Type 0) (cs : List (Cleared fl)) (r : Running)
      → Distinct id_of cs
      → All P cs
      → All P (placements fl (ready_from fl [] cs) (select (tasks_of fl cs) r))
  started-All P cs r h p =
      let fair = select-IsAdmissible (tasks_of fl cs) r in
      placed-All P cs (select (tasks_of fl cs) r) h p (
        All-front _ (select (tasks_of fl cs) r) fair.rest
          (subst (All _) fair.front (cleared-each cs)))
