-- ===== src/Bundle/Format.antt =====
-- `Write` and `Read` of internal/bundle/bundle.go. Zip archives and JSON are parameters.
use claudeq.Prelude.{
  ℕ, ◌-◌, ◌%◌, Bool, false, not, ◌&&◌, Option, none, some, List, [], ◌∷◌, ◌++◌, Text, codes, ◌==◌,
  is_empty, ltb, eqb,
}
use claudeq.Prelude.Int.{ℤ, pos, negsuc}
use claudeq.Prelude.Strings.{Time}
use claudeq.Prelude.Result.{Result, ok, err, ◌>>=◌, fail_if}
use claudeq.Task.Model.{Task}
use claudeq.Bundle.Files.{
  max_size, File, BundleProblem, bundle_too_large, not_an_archive, bad_settings, empty_prompt,
  wrong_version, wrong_format, entry,
}

pub record ProviderHint : Type 0 where
  pub kind : Text
  pub model : Text
  pub provider_name : Text

-- `envelope`: the task in it has no prompt.
pub record Envelope : Type 0 where
  pub format : Text
  pub version : ℤ
  pub exported_at : Time
  pub task : Task
  pub hint : ProviderHint

-- What `archive/zip` and `encoding/json` do: a written archive holds names with their contents.
pub record Codec : Type 1 where
  pub Archive : Type 0
  pub size : Archive → ℕ
  pub zip : List (Text × Text) → Archive
  pub unzip : Archive → Option (List File)
  pub encode : Envelope → Text
  pub decode : Text → Option Envelope

abbrev pub settings_name : Text
settings_name = codes "task.json"

abbrev pub prompt_name : Text
prompt_name = codes "prompt.md"

abbrev pub bundle_format : Text
bundle_format = codes "dispatchq-task"

abbrev pub legacy_format : Text
legacy_format = codes "claudeq-task"

abbrev pub is_version_one : ℤ → Bool
is_version_one (pos n) = eqb n 1
is_version_one (negsuc n) = false

-- The provider and the pool are local to the machine that exports.
abbrev pub without_local : Task → Task
without_local t = record t { provider = []; pool = [] }

-- `now.UTC().Truncate(time.Second)`
abbrev pub whole_seconds : Time → Time
whole_seconds now = now - now % 1000000000

unfoldable pub envelope_of : Task → ProviderHint → Time → Envelope
envelope_of t hint now = record {
  format = bundle_format;
  version = pos 1;
  exported_at = whole_seconds now;
  task = record (without_local t) { prompt = [] };
  hint = hint;
}

module _ (c : Codec) where
  -- The two files that `Write` puts into the archive.
  unfoldable pub entries_of : Task → ProviderHint → Time → List (Text × Text)
  unfolding envelope_of
  entries_of t hint now =
      (settings_name, c.encode (envelope_of t hint now) ++ codes "\n")
      ∷ (prompt_name, t.prompt)
      ∷ []

  -- `Write`
  unfoldable pub write : Task → ProviderHint → Time → c.Archive
  unfolding entries_of
  write t hint now = c.zip (entries_of t hint now)

  abbrev files_of : Option (List File) → Result BundleProblem (List File)
  files_of none = err not_an_archive
  files_of (some files) = ok files

  abbrev settings_of : Option Envelope → Result BundleProblem Envelope
  settings_of none = err bad_settings
  settings_of (some env) = ok env

  abbrev check_settings : Text → Envelope → Result BundleProblem (Task × ProviderHint)
  check_settings prompt env =
      fail_if (not (env.format == bundle_format) && not (env.format == legacy_format))
        (wrong_format env.format)
      >>= λ _. fail_if (not (is_version_one env.version)) wrong_version >>= λ _.
          fail_if (is_empty prompt) empty_prompt >>= λ _.
          ok (without_local (record env.task { prompt = prompt }), env.hint)

  -- `Read`
  unfoldable pub read : c.Archive → Result BundleProblem (Task × ProviderHint)
  unfolding entry
  read archive = fail_if (ltb max_size (c.size archive)) bundle_too_large >>= λ _.
      files_of (c.unzip archive) >>= λ files. entry files settings_name >>= λ meta.
      entry files prompt_name >>= λ prompt. settings_of (c.decode meta) >>= check_settings prompt
