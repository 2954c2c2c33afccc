-- ===== src/Engine/Exclusion.antt =====
-- While no run is started by hand, an exclusive run has the machine to itself.
use claudeq.Prelude.{
  All, ℕ, suc, ◌+◌, ◌-◌, ◌≡◌, ◌⊎◌, refl, ap, sym, ◌∙◌, inl, inr, Bool, true, false, Option, List,
  [], ◌∷◌, ◌++◌, Text, if◌then◌else◌, ltb, arith, Bool-cases,
}
use mathlib.Core.Path.{subst}
use claudeq.Prelude.Strings.{Time}
use claudeq.Task.Model.{Task}
use claudeq.Store.Run.{Run, RunStatus}
use claudeq.Schedule.Select.{select}
use claudeq.Schedule.SelectLaws.{IsParallel, select-IsAdmissible}
use claudeq.Engine.State.{Engine, running_state}
use claudeq.Engine.Start.{take_slot, launch_task, launch_all, start_due}
use claudeq.Engine.Finish.{
  Outcome, give_slot, release, retire, settle, finish, one_shot_trigger, is_paused,
}

-- How many of the tasks are exclusive, and how many run beside others.
unfoldable pub exclusives : List Task → ℕ
exclusives [] = 0
exclusives (t ∷ ts) = let rest = exclusives ts in if t.parallel then rest else suc rest

unfoldable pub shared : List Task → ℕ
shared [] = 0
shared (t ∷ ts) = let rest = shared ts in if t.parallel then suc rest else rest

-- The runs that are going, and the engine that counts them, after any ticks and ends of runs. A
-- run that is started by hand is no step.
pub data Reached : List Task → Engine → Type 0 where
  idle : (e : Engine) → e.non_parallel_active ≡ 0 → e.parallel_active ≡ 0 → Reached [] e
  tick :
      (rs : List Task) (e : Engine)
      → Reached rs e
      → (runnable : List Task) (made : Task → Text × Run) (now : Time)
      → Reached (select runnable (running_state e) ++ rs) (start_due runnable made now e)
  end :
      (before : List Task) (t : Task) (behind : List Task) (e : Engine)
      → Reached (before ++ t ∷ behind) e
      → (limit : ℕ) (now backoff : Time) (provider_id : Text) (rec : Run) (res : Outcome)
        (run_err : Option Text)
      → Reached (before ++ behind) (finish limit now backoff t provider_id rec res run_err e)

-- No exclusive task is among them, or there is no other.
abbrev pub Alone : List Task → Type 0
Alone rs = (exclusives rs ≡ 0) ⊎ (exclusives rs + shared rs ≡ 1)

-- The counters are right, and an exclusive run is the only one.
pub record IsExclusive (rs : List Task) (e : Engine) : Type 0 where
  pub non_parallel : e.non_parallel_active ≡ exclusives rs
  pub parallel : e.parallel_active ≡ shared rs
  pub alone : Alone rs

exclusives-append : (xs ys : List Task) → exclusives (xs ++ ys) ≡ exclusives xs + exclusives ys
unfolding exclusives
exclusives-append [] ys = omega arith
exclusives-append (x ∷ xs) ys = ground (arith, exclusives-append xs ys)

shared-append : (xs ys : List Task) → shared (xs ++ ys) ≡ shared xs + shared ys
unfolding shared
shared-append [] ys = omega arith
shared-append (x ∷ xs) ys = ground (arith, shared-append xs ys)

launch_task-counts :
    (t : Task) (id : Text) (rec : Run) (e : Engine)
    → ((launch_task t id rec e).non_parallel_active ≡ e.non_parallel_active + exclusives (t ∷ []))
      × ((launch_task t id rec e).parallel_active ≡ e.parallel_active + shared (t ∷ []))
unfolding launch_task take_slot exclusives shared
launch_task-counts t id rec e = ground arith

launch_all-counts :
    (ts : List Task) (made : Task → Text × Run) (e : Engine)
    → ((launch_all ts made e).non_parallel_active ≡ e.non_parallel_active + exclusives ts)
      × ((launch_all ts made e).parallel_active ≡ e.parallel_active + shared ts)
unfolding launch_all exclusives shared
launch_all-counts [] made e = (omega arith, omega arith)
launch_all-counts (t ∷ ts) made e =
    let one = launch_task-counts t (made t).0 (made t).1 e in
    let rest = launch_all-counts ts made (launch_task t (made t).0 (made t).1 e) in
    ground (arith, one, rest)

-- The two counters.
abbrev slots : Engine → ℕ × ℕ
slots e = (e.non_parallel_active, e.parallel_active)

retire-slots : (id : Text) (one_shot : Bool) (e : Engine) → slots (retire id one_shot e) ≡ slots e
unfolding retire
retire-slots id true e = refl
retire-slots id false e = refl

settle-slots :
    (t : Task) (id : Text) (now backoff : Time) (res : Outcome) (status : RunStatus) (e : Engine)
    → slots (settle t id now backoff res status e) ≡ slots e
unfolding settle
settle-slots t id now backoff res status e = elim (Bool-cases (is_paused status)) [
  | inl h ↦ rw h refl
  | inr h ↦ rw h (retire-slots t.id (one_shot_trigger t.trigger) e)
]

release-slots :
    (t : Task) (id run_id : Text) (e : Engine)
    → slots (release t id run_id e)
      ≡ (e.non_parallel_active - exclusives (t ∷ []), e.parallel_active - shared (t ∷ []))
unfolding release give_slot exclusives shared
release-slots t id run_id e = ground arith

finish-slots :
    (limit : ℕ) (now backoff : Time) (t : Task) (id : Text) (rec : Run) (res : Outcome)
    (run_err : Option Text) (e : Engine)
    → slots (finish limit now backoff t id rec res run_err e)
      ≡ (e.non_parallel_active - exclusives (t ∷ []), e.parallel_active - shared (t ∷ []))
unfolding finish
finish-slots limit now backoff t id rec res run_err e =
    settle-slots t id now backoff res _ (release t id rec.run_id e)
    ∙ release-slots t id rec.run_id e

exclusives-All : (ts : List Task) → All IsParallel ts → exclusives ts ≡ 0
unfolding exclusives
exclusives-All [] h = refl
exclusives-All (t ∷ ts) h = ground (arith, h.0, exclusives-All ts h.1)

start_due-slots :
    (runnable : List Task) (made : Task → Text × Run) (now : Time) (e : Engine)
    → ((start_due runnable made now e).non_parallel_active
        ≡ e.non_parallel_active + exclusives (select runnable (running_state e)))
      × ((start_due runnable made now e).parallel_active
          ≡ e.parallel_active + shared (select runnable (running_state e)))
unfolding start_due
start_due-slots runnable made now e = launch_all-counts (select runnable (running_state e)) made _

cons-Alone :
    (t : Task) (rs : List Task)
    → t.parallel ≡ false
    → exclusives rs ≡ 0
    → shared rs ≡ 0
    → Alone (t ∷ rs)
unfolding exclusives shared
cons-Alone t rs h p q = inr (ground (arith, h, p, q))

none_of : (n m : ℕ) → ltb 0 n ≡ false → n ≡ m → m ≡ 0
none_of n m h e = ground (arith, h, e)

-- What a tick starts keeps an exclusive run alone.
joined-alone :
    (rs runnable : List Task) (e : Engine)
    → IsExclusive rs e
    → (exclusives (select runnable (running_state e) ++ rs) ≡ 0)
      ⊎ (exclusives (select runnable (running_state e) ++ rs)
            + shared (select runnable (running_state e) ++ rs)
          ≡ 1)
unfolding running_state
joined-alone rs runnable e h =
    let starts = select runnable (running_state e) in
    let fair = select-IsAdmissible runnable (running_state e) in
    elim (Bool-cases (ltb 0 e.non_parallel_active)) [
      | inl busy ↦ subst (λ xs. Alone (xs ++ rs)) (sym (fair.quiet busy)) h.alone
      | inr free ↦ elim fair.exclusion [
        | inl all ↦
            let none_new = exclusives-All starts all in
            inl (ground (arith, exclusives-append starts rs, none_new, h.non_parallel, free))
        | inr (t, one, exclusive, no_shared, no_exclusive) ↦
            subst (λ xs. Alone (xs ++ rs)) (sym one)
              (cons-Alone t rs exclusive
                (none_of e.non_parallel_active (exclusives rs) no_exclusive h.non_parallel)
                (none_of e.parallel_active (shared rs) no_shared h.parallel))
      ]
    ]

tick-IsExclusive :
    (rs runnable : List Task) (made : Task → Text × Run) (now : Time) (e : Engine)
    → IsExclusive rs e
    → IsExclusive (select runnable (running_state e) ++ rs) (start_due runnable made now e)
tick-IsExclusive rs runnable made now e h =
    let starts = select runnable (running_state e) in
    let counts = start_due-slots runnable made now e in
    record {
      non_parallel = counts.0 ∙ omega (arith, h.non_parallel, exclusives-append starts rs);
      parallel = counts.1 ∙ omega (arith, h.parallel, shared-append starts rs);
      alone = joined-alone rs runnable e h;
    }

end-IsExclusive :
    (before : List Task) (t : Task) (behind : List Task) (limit : ℕ) (now backoff : Time)
    (id : Text) (rec : Run) (res : Outcome) (run_err : Option Text) (e : Engine)
    → IsExclusive (before ++ t ∷ behind) e
    → IsExclusive (before ++ behind) (finish limit now backoff t id rec res run_err e)
end-IsExclusive before t behind limit now backoff id rec res run_err e h =
    let slots_after = finish-slots limit now backoff t id rec res run_err e in
    let left = exclusives-append before behind in
    let right = shared-append before behind in
    let all_left = exclusives-append before (t ∷ behind) in
    let all_right = shared-append before (t ∷ behind) in
    let one_left = exclusives-append (t ∷ []) behind in
    let one_right = shared-append (t ∷ []) behind in
    record {
      non_parallel =
          ap (λ s. s.0) slots_after ∙ omega (arith, h.non_parallel, left, all_left, one_left);
      parallel = ap (λ s. s.1) slots_after ∙ omega (arith, h.parallel, right, all_right, one_right);
      alone = ground (arith, h.alone, left, right, all_left, all_right, one_left, one_right);
    }

-- Whatever ticks and ends of runs come about, in whatever order, the engine's counters are those of
-- the runs that are going, and an exclusive run is the only one.
pub Reached-IsExclusive : (rs : List Task) (e : Engine) → Reached rs e → IsExclusive rs e
unfolding exclusives shared
Reached-IsExclusive rs e (idle _ n p) = record { non_parallel = n; parallel = p; alone = inl refl }
Reached-IsExclusive rs e (tick qs f h runnable made now) =
    tick-IsExclusive qs runnable made now f (Reached-IsExclusive qs f h)
Reached-IsExclusive rs e (end before t behind f h limit now backoff id rec res run_err) =
    end-IsExclusive before t behind limit now backoff id rec res run_err f
      (Reached-IsExclusive (before ++ t ∷ behind) f h)
