-- ===== src/Engine/Active.antt =====
-- Which tasks are marked as running after a start.
use claudeq.Prelude.{
  ◌≡◌, refl, ap, ◌∙◌, Bool, true, false, ◌||◌, Option, some, List, [], ◌∷◌, Text, ◌==◌,
  if◌then◌else◌, arith, any,
}
use claudeq.Prelude.Strings.{Time}
use claudeq.Prelude.Assoc.{Assoc, lookup, insert, lookup-insert}
use claudeq.Task.Model.{Task}
use claudeq.Store.Run.{Run}
use claudeq.Schedule.Select.{select, is_named}
use claudeq.Engine.State.{Engine, running_state}
use claudeq.Engine.Start.{launch_task, launch_all, start_due, take_slot}

pub launch_task-active :
    (t : Task) (id : Text) (rec : Run) (e : Engine)
    → (launch_task t id rec e).active ≡ insert t.id true e.active
unfolding launch_task take_slot
launch_task-active t id rec e = ground arith

pub launch_all-active :
    (ts : List Task) (made : Task → Text × Run) (e : Engine) (id : Text)
    → lookup id (launch_all ts made e).active
      ≡ (if is_named id ts then some true else lookup id e.active)
unfolding launch_all is_named any
launch_all-active [] made e id = refl
launch_all-active (t ∷ ts) made e id =
    let e' = launch_task t (made t).0 (made t).1 e in
    launch_all-active ts made e' id
    ∙ (ap (λ (m : Assoc Bool). if any (λ u. u.id == id) ts then some true else lookup id m)
          (launch_task-active t (made t).0 (made t).1 e)
        ∙ by_test (t.id == id) (any (λ u. u.id == id) ts) (lookup id e.active)
            (lookup id (insert t.id true e.active)) (lookup-insert t.id id true e.active))
  where
    by_test :
        (here there : Bool) (was now : Option Bool)
        → now ≡ (if here then some true else was)
        → (if there then some true else now) ≡ (if here || there then some true else was)
    by_test true true was now h = refl
    by_test true false was now h = h
    by_test false true was now h = refl
    by_test false false was now h = h

pub start_due-active :
    (runnable : List Task) (made : Task → Text × Run) (now : Time) (e : Engine) (id : Text)
    → lookup id (start_due runnable made now e).active
      ≡ (if is_named id (select runnable (running_state e)) then some true else lookup id e.active)
unfolding start_due
start_due-active runnable made now e id =
    launch_all-active (select runnable (running_state e)) made _ id
