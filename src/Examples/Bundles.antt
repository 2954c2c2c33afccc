-- ===== src/Examples/Bundles.antt =====
-- A task file that is written and read.
use claudeq.Prelude.{◌≡◌, refl, some, none, List, [], ◌∷◌, codes, map, arith, length, Text, text_eq}
use claudeq.Prelude.Result.{Result, ok, err}
use claudeq.Task.Model.{Task}
use claudeq.Engine.Output.{byte_length}
use claudeq.Bundle.Files.{slashes}
use claudeq.Bundle.Format.{ProviderHint, Codec, without_local, envelope_of, entries_of, write, read}
use claudeq.Bundle.RoundTrip.{Place, folder, placed, stored_file, read-write}
use claudeq.Task.Checks.{check_group, depends_on_itself}
use claudeq.Store.State.{new_state, State}
use claudeq.Bundle.Import.{ImportProblem, save_refused, complete_import, unique_id, import_task}
use claudeq.Bundle.ImportLaws.{IsSavedFresh, import_task-IsFresh}
use claudeq.Store.Config.{Config}
use claudeq.Store.Saving.{bad_task}
use claudeq.Examples.Accounts.{two}
use claudeq.Examples.Data.{plain}

abbrev shared : Task
shared = record plain { prompt = codes "Fix the build."; provider = codes "claude" }

abbrev written_for : ProviderHint
written_for = record { kind = codes "codex"; model = []; provider_name = codes "Codex" }

-- An archive is the list of its files, and only one envelope is ever written.
abbrev codec : Codec
codec = record {
  Archive = List (Text × Text);
  size = λ files. length files;
  zip = λ files. files;
  unzip = λ files. some (map stored_file files);
  encode = λ env. codes "{}";
  decode = λ meta. some (envelope_of shared written_for 7);
}

abbrev unpacked : Place
unpacked = folder (codes "task")

read-write_example :
    (read codec (write codec shared written_for 7) ≡ ok (without_local shared, written_for))
    × (read codec (codec.zip (map (placed unpacked) (entries_of codec shared written_for 7)))
        ≡ ok (without_local shared, written_for))
unfolding byte_length write entries_of slashes text_eq
read-write_example =
    read-write codec shared written_for 7 unpacked (λ es. refl) refl refl (omega arith)
      (omega arith) (omega arith) (omega arith) (refl, refl)

-- Its id is taken, so it becomes fix-2.
import_task-IsFresh_example :
    IsSavedFresh
      (λ expr. none)
      shared
      two
      new_state
      (import_task (λ expr. none) shared two new_state)
unfolding complete_import text_eq check_group
import_task-IsFresh_example = import_task-IsFresh (λ expr. none) shared shared two new_state refl

abbrev stored_id : Result ImportProblem (Task × Config × State) → Text
stored_id (ok r) = r.0.id
stored_id (err e) = []

fix_2_is_stored : stored_id (import_task (λ expr. none) shared two new_state) ≡ codes "fix-2"
unfolding import_task text_eq check_group
fix_2_is_stored = refl

-- The free id is that of a task that it waits for, so the save is refused.
abbrev waiting : Task
waiting = record shared { depends_on = codes "fix-2" ∷ [] }

waiting_is_refused :
    import_task (λ expr. none) waiting two new_state
    ≡ err (save_refused (bad_task (codes "fix-2") depends_on_itself))
unfolding import_task text_eq check_group
waiting_is_refused = refl

second_of_its_id : unique_id (plain ∷ []) (codes "fix") ≡ some (codes "fix-2")
unfolding unique_id text_eq
second_of_its_id = refl
