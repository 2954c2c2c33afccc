-- ===== src/Bundle/Files.antt =====
-- The entries of a zip archive and how `entry` of internal/bundle/bundle.go finds one by its name.
use claudeq.Prelude.{
  ℕ, ◌+◌, ◌*◌, Bool, not, ◌&&◌, ◌||◌, Option, none, some, List, [], ◌∷◌, Text, codes, ◌==◌,
  is_empty, is_some, if◌then◌else◌, ltb, eqb,
}
use claudeq.Prelude.Strings.{has_prefix}
use claudeq.Prelude.Result.{Result, ok, err, ◌>>=◌, fail_if}
use claudeq.Engine.Output.{byte_length}

-- `MaxSize`
abbrev pub max_size : ℕ
max_size = 4 * 1024 * 1024

-- A file of an archive: its name, the size that the header gives, and what it inflates to, if it can
-- be read.
pub record File : Type 0 where
  pub name : Text
  pub size : ℕ
  pub content : Option Text

pub data BundleProblem : Type 0 where
  bundle_too_large not_an_archive bad_settings empty_prompt wrong_version : BundleProblem
  missing_entry entry_too_large unreadable_entry wrong_format : Text → BundleProblem

-- `path.Split`: the part up to the last slash, and the rest.
unfoldable pub split_path : Text → Text × Text
split_path [] = ([], [])
split_path (c ∷ s) =
    let rest = split_path s in
    if is_empty rest.0 && not (eqb c b'/') then ([], c ∷ rest.1) else (c ∷ rest.0, rest.1)

-- `strings.Count(s, "/")`
unfoldable pub slashes : Text → ℕ
slashes [] = 0
slashes (c ∷ s) = let rest = slashes s in if eqb c b'/' then 1 + rest else rest

abbrev pub is_skipped : Text → Text × Text → Bool
is_skipped name path =
    not (path.1 == name) || has_prefix path.0 (codes "__MACOSX/") || ltb 1 (slashes path.0)

abbrev pub next_found : Option File → File → Text → Option File
next_found found f dir = if not (is_some found) || is_empty dir then some f else found

-- The loop over the files, with the one found so far.
unfoldable pub find_entry : Text → Option File → List File → Option File
unfolding split_path slashes has_prefix
find_entry name found [] = found
find_entry name found (f ∷ fs) =
    let skipped = find_entry name found fs in
    let taken = find_entry name (next_found found f (split_path f.name).0) fs in
    if is_skipped name (split_path f.name) then skipped else taken

abbrev pub read_content : Text → Option Text → Result BundleProblem Text
read_content name none = err (unreadable_entry name)
read_content name (some data_) =
    fail_if (ltb max_size (byte_length data_)) (entry_too_large name) >>= λ _. ok data_

abbrev pub open_found : Text → Option File → Result BundleProblem Text
open_found name none = err (missing_entry name)
open_found name (some f) =
    fail_if (ltb max_size f.size) (entry_too_large name) >>= λ _. read_content name f.content

-- `entry`
unfoldable pub entry : List File → Text → Result BundleProblem Text
unfolding find_entry byte_length
entry files name = open_found name (find_entry name none files)
