-- ===== src/Engine/OnceOnly.antt =====
-- The runs of each task, and those launched with a one-shot trigger, over any steps of
-- internal/engine/engine.go.
use claudeq.Prelude.{inl, refl, Option, none, some, List, ◌∷◌, ◌++◌, Text, arith}
use claudeq.Prelude.Floats.{Floats}
use claudeq.Prelude.Strings.{Time}
use claudeq.Store.State.{State}
use claudeq.Engine.State.{Engine}
use claudeq.Engine.FinishLaws.{release-state}
use claudeq.Engine.Steps.{cancel_run, take_over_run, retire_state}
use claudeq.Engine.Lifecycle.{
  Happening, Live, Reached, idle, lock, give_up, start, by_hand, stop, take_over, drop_resume, free,
  write_end, end, edit, note, remove,
}
use claudeq.Engine.LifecycleLaws.{
  NoRestart, same-KeepsMarks, retire_state-KeepsMarks, retire_state-active, release-active,
  live_ids, live_ids-phase, IsActive, Unlike,
}
use claudeq.Engine.Once.{IsOrderly, quiet-IsOrderly, phase-IsOrderly}
use claudeq.Engine.OnceSteps.{
  hand-IsOrderly, start-IsOrderly, settle-IsOrderly, end-IsOrderly, forget-IsOrderly,
  marked-IsOrderly,
}

module _ (fl : Floats) (parse : Text → Option (Time → Time)) where
  every_order :
      (e : Engine) (held : Option State) (ls : List Live) (tr : List Happening)
      → Reached fl parse e held ls tr
      → IsOrderly e held ls tr
  unfolding cancel_run take_over_run
  every_order e held ls tr (idle _ none_) = record {
    marked = tt;
    unlike = tt;
    done = λ id c. cc;
    loaded = tt;
    order = tt;
  }
  every_order e held ls tr (lock f ks us h) =
      let o = every_order f none ks us h in
      record {
        marked = o.marked;
        unlike = o.unlike;
        done = o.done;
        loaded = λ id c. inl (o.done id c);
        order = o.order;
      }
  every_order e held ls tr (give_up f st ks us h) =
      let o = every_order f (some st) ks us h in
      record { marked = o.marked; unlike = o.unlike; done = o.done; loaded = tt; order = o.order }
  every_order e held ls tr
        (start f st ks us h made each deps health now todo holds announced sent r d k) =
      start-IsOrderly fl parse f st ks us made each deps health now todo holds announced sent r d k
        (every_order f (some st) ks us h)
  every_order e held ls tr (by_hand f ks us h t made now f' k) =
      hand-IsOrderly f f' ks us t made now k (every_order f none ks us h)
  every_order e held ls tr (stop f ks us h in_flight run_id f' k) =
      marked-IsOrderly fl parse f f' ks us (ground (arith, k)) (ground (arith, k))
        (every_order f none ks us h)
  every_order e held ls tr (take_over f ks us h in_flight run_id f' k) =
      marked-IsOrderly fl parse f f' ks us (ground (arith, k)) (ground (arith, k))
        (every_order f none ks us h)
  every_order e held ls tr (drop_resume f _ ks us h id one_shot) =
      quiet-IsOrderly f (retire_state id one_shot f) held ks us (retire_state-active id one_shot f)
        (retire_state-KeepsMarks id one_shot f) (every_order f held ks us h)
  every_order e held ls tr (free f front l behind us h going_ status) =
      phase-IsOrderly _ none (front ++ l ∷ behind) _ us (live_ids-phase front l _ behind refl) (
        marked-IsOrderly fl parse f _ (front ++ l ∷ behind) us
          (release-active l.task l.provider_id l.run.run_id f)
          (release-state l.task l.provider_id l.run.run_id f)
          (every_order f none (front ++ l ∷ behind) us h))
  every_order e held ls tr (write_end f _ front l behind us h status p now backoff res) =
      settle-IsOrderly fl parse f held front l behind us status now backoff res
        (every_order f held (front ++ l ∷ behind) us h)
  every_order e held ls tr (end f front l behind us h p) =
      end-IsOrderly fl parse f front l behind us (every_order f none (front ++ l ∷ behind) us h)
  every_order e held ls tr (edit f _ ks us h queue events) =
      quiet-IsOrderly f (record f { queue = queue; events = events }) held ks us refl (λ id m. m)
        (every_order f held ks us h)
  every_order e held ls tr (note f _ ks us h state same) =
      quiet-IsOrderly f (record f { state = state }) held ks us refl
        (same-KeepsMarks f.state state same) (every_order f held ks us h)
  every_order e held ls tr (remove f _ ks us h id) =
      forget-IsOrderly fl parse f held ks us id (every_order f held ks us h)

  -- Whatever ticks, starts by hand, cancellations, ends of runs, edits and removals come about, in
  -- whatever order the locks allow, where no id stands twice among the assignments of a tick: once
  -- a run that was launched with a one-shot trigger has ended without a pause for a rate limit, no
  -- tick starts its task with a one-shot trigger again, unless the task was removed meanwhile; no
  -- two runs that are going are of the same task; and each of them is marked as running.
  pub Reached-IsOrderly :
      (e : Engine) (held : Option State) (ls : List Live) (tr : List Happening)
      → Reached fl parse e held ls tr
      → NoRestart tr × Unlike (live_ids ls) × IsActive e.active (live_ids ls)
  Reached-IsOrderly e held ls tr h =
      let o = every_order e held ls tr h in (o.order, o.unlike, o.marked)
