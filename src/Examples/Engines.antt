-- ===== src/Examples/Engines.antt =====
-- A tick, the end of a run, a clipped output and a wake.
use claudeq.Prelude.{
  ◌≡◌, refl, arith, true, not, ◌&&◌, ◌||◌, none, some, List, [], ◌∷◌, ◌++◌, Text, codes, ◌==◌,
  text_eq, ltb, if◌then◌else◌,
}
use claudeq.Prelude.Int.{pos}
use claudeq.Prelude.Assoc.{lookup}
use claudeq.Task.Model.{Task}
use claudeq.Store.Run.{Run, RunStatus, running}
use claudeq.Store.State.{new_state, is_completed_once}
use claudeq.Schedule.Select.{select}
use claudeq.Engine.Output.{byte_length, bytes, clip, clip_bytes}
use claudeq.Engine.OutputLaws.{IsLongestStart, clip-IsLongestStart}
use claudeq.Engine.State.{Engine, running_state}
use claudeq.Engine.Start.{start_due}
use claudeq.Engine.Finish.{Outcome, finish, one_shot_trigger}
use claudeq.Engine.FinishLaws.{ends_paused, finish-pending}
use claudeq.Engine.Exclusion.{Reached, idle, tick, IsExclusive, Reached-IsExclusive}
use claudeq.Wake.Next.{wake_times, next_wake_time, IsNext, next_wake_time-IsNext}
use claudeq.Examples.Data.{plain, watcher, second, run_at}

abbrev at_rest : Engine
at_rest = record {
  active = [];
  canceled = [];
  takeovers = [];
  non_parallel_active = 0;
  parallel_active = 0;
  running_on = [];
  gates = [];
  state = new_state;
  events = [];
  queue = plain ∷ watcher ∷ [];
}

abbrev made : Task → Text × Run
made t = (codes "claude", run_at t.id 20 running [])

abbrev started : Engine
started = start_due (watcher ∷ second ∷ plain ∷ []) made 20 at_rest

two_run : started.parallel_active ≡ 2
unfolding start_due
two_run = refl

abbrev paused : Outcome
paused = record {
  session_id = codes "s";
  model = [];
  status = RunStatus.rate_limited;
  message = [];
  exit_code = pos 1;
  retry_after = 0;
  reset_at = 90;
  final_output = [];
}

abbrev first_run : Run
first_run = run_at (codes "watch") 20 running []

abbrev ended : Engine
ended = finish 10 30 5 watcher (codes "claude") first_run paused none started

session_waits :
    lookup (codes "watch") ended.state.pending_resumes
    ≡ some (record { session_id = codes "s"; provider_id = codes "claude" })
unfolding start_due finish lookup text_eq new_state
session_waits = refl

finish-pending_example :
    (lookup (codes "watch") ended.state.pending_resumes ≡ (
      if watcher.id == codes "watch"
      then (if ends_paused first_run paused none started
          then some (record { session_id = paused.session_id; provider_id = codes "claude" })
          else none)
      else lookup (codes "watch") started.state.pending_resumes))
    × (is_completed_once ended.state (codes "watch") ≡ (
        (watcher.id == codes "watch"
          && (not (ends_paused first_run paused none started) && one_shot_trigger watcher.trigger))
        || is_completed_once started.state (codes "watch")))
finish-pending_example =
    finish-pending 10 30 5 watcher (codes "claude") (codes "watch") first_run paused none started

abbrev going : List Task
going = select (watcher ∷ second ∷ plain ∷ []) (running_state at_rest) ++ []

started-Reached : Reached going started
started-Reached = tick [] at_rest (idle at_rest refl refl) (watcher ∷ second ∷ plain ∷ []) made 20

Reached-IsExclusive_example : IsExclusive going started
Reached-IsExclusive_example = Reached-IsExclusive going started started-Reached

clip-IsLongestStart_example :
    IsLongestStart 3 (clip (codes "aä€") 3).0 (codes "aä€")
    × ((clip (codes "aä€") 3).1 ≡ ltb 3 (byte_length (codes "aä€")))
    × ((bytes (clip (codes "aä€") 3).0, (clip (codes "aä€") 3).1)
        ≡ clip_bytes (bytes (codes "aä€")) 3)
clip-IsLongestStart_example =
    clip-IsLongestStart (codes "aä€") 3 (omega arith, (omega arith, (omega arith, tt)))

cut_in_a_rune : clip (codes "aä€") 4 ≡ (codes "aä", true)
unfolding clip
cut_in_a_rune = refl

next_wake_time-IsNext_example :
    IsNext 10 (wake_times 10 (5 ∷ 40 ∷ 30 ∷ []) 60) (next_wake_time 10 (5 ∷ 40 ∷ 30 ∷ []) 60)
next_wake_time-IsNext_example = next_wake_time-IsNext 10 (5 ∷ 40 ∷ 30 ∷ []) 60
