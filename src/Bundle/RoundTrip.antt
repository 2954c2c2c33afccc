-- ===== src/Bundle/RoundTrip.antt =====
-- What `Write` of internal/bundle/bundle.go puts into a bundle, `Read` gets back, also after the files
-- were zipped again by hand.
use claudeq.Prelude.{
  ℕ, ◌+◌, ◌≤◌, ◌≡◌, refl, true, false, not, ◌&&◌, ◌||◌, some, List, [], ◌∷◌, ◌++◌, Text, codes,
  ◌==◌, map, is_empty, if◌then◌else◌, ltb, eqb, arith, text_eq_refl, text_eq,
}
use claudeq.Prelude.Strings.{Time, has_prefix}
use claudeq.Prelude.Result.{ok}
use claudeq.Task.Model.{Task}
use claudeq.Engine.Output.{byte_length}
use claudeq.Bundle.Files.{
  max_size, File, split_path, slashes, is_skipped, find_entry, open_found, entry,
}
use claudeq.Bundle.Format.{
  ProviderHint, Codec, settings_name, prompt_name, without_local, envelope_of, entries_of, write,
  read,
}

-- Where the files of a bundle stand in the archive.
pub data Place : Type 0 where
  root : Place
  folder : Text → Place

abbrev pub dir_of : Place → Text
dir_of root = []
dir_of (folder f) = f ++ b'/' ∷ []

-- One folder level, and not the one that macOS adds.
abbrev pub IsPlace : Place → Type 0
IsPlace root = Unit
IsPlace (folder f) = (slashes f ≡ 0) × ((f == codes "__MACOSX") ≡ false)

abbrev pub placed : Place → Text × Text → Text × Text
placed p e = (dir_of p ++ e.0, e.1)

-- A file of an archive that was written.
abbrev pub stored_file : Text × Text → File
stored_file e = record { name = e.0; size = byte_length e.1; content = some e.1 }

split_path-folder :
    (f name : Text)
    → split_path name ≡ ([], name)
    → split_path ((f ++ b'/' ∷ []) ++ name) ≡ (f ++ b'/' ∷ [], name)
unfolding split_path
split_path-folder [] name h = rw h refl
split_path-folder (c ∷ f) name h = rw (split_path-folder f name h) (by_front f)
  where
    by_front :
        (g : Text)
        → ◌≡◌ {A = Text × Text}
            (if is_empty (g ++ b'/' ∷ []) && not (eqb c b'/')
              then ([], c ∷ name)
              else (c ∷ (g ++ b'/' ∷ []), name))
            (c ∷ (g ++ b'/' ∷ []), name)
    by_front [] = refl
    by_front (d ∷ g) = refl

slashes-folder : (f : Text) → slashes (f ++ b'/' ∷ []) ≡ slashes f + 1
unfolding slashes
slashes-folder [] = refl
slashes-folder (c ∷ f) = ground (arith, slashes-folder f)

-- A folder has the prefix of another just when they are the same.
has_prefix-folder :
    (f q : Text)
    → slashes f ≡ 0
    → slashes q ≡ 0
    → has_prefix (f ++ b'/' ∷ []) (q ++ b'/' ∷ []) ≡ (f == q)
unfolding has_prefix slashes text_eq
has_prefix-folder [] [] h k = refl
has_prefix-folder [] (d ∷ q) h k = ground arith
has_prefix-folder (c ∷ f) [] h k = ground arith
has_prefix-folder (c ∷ f) (d ∷ q) h k = ground (arith, has_prefix-folder f q)

place_split :
    (p : Place) (name : Text)
    → split_path name ≡ ([], name)
    → split_path (dir_of p ++ name) ≡ (dir_of p, name)
place_split root name h = h
place_split (folder f) name h = split_path-folder f name h

place_open :
    (p : Place)
    → IsPlace p
    → (has_prefix (dir_of p) (codes "__MACOSX/") || ltb 1 (slashes (dir_of p))) ≡ false
unfolding has_prefix slashes
place_open root h = refl
place_open (folder f) h =
    rw (has_prefix-folder f (codes "__MACOSX") h.0 refl)
      (rw (slashes-folder f) (rw h.0 (rw h.1 refl)))

skips_other :
    (p : Place) (name other : Text)
    → (other == name) ≡ false
    → is_skipped name (dir_of p, other) ≡ true
skips_other p name other h = rw h refl

keeps_own : (p : Place) (name : Text) → IsPlace p → is_skipped name (dir_of p, name) ≡ false
keeps_own p name h = rw (text_eq_refl name) (rw (place_open p h) refl)

fits-ltb : (n : ℕ) → n ≤ max_size → ltb max_size n ≡ false
fits-ltb n h = ground arith

opened :
    (name entry_name d : Text)
    → byte_length d ≤ max_size
    → open_found name (some (stored_file (entry_name, d))) ≡ ok d
opened name entry_name d h = rw (fits-ltb (byte_length d) h) refl

module _ (p : Place) (is_place : IsPlace p) (meta prompt : Text) where
  abbrev pair : List File
  pair =
      map (λ (e : Text × Text). stored_file (placed p e))
        ((settings_name, meta) ∷ (prompt_name, prompt) ∷ [])

  entry-settings : byte_length meta ≤ max_size → entry pair settings_name ≡ ok meta
  unfolding entry find_entry split_path text_eq
  entry-settings h = rw (place_split p settings_name refl) (
      rw (place_split p prompt_name refl)
        (rw (place_open p is_place) (opened settings_name (dir_of p ++ settings_name) meta h)))

  entry-prompt : byte_length prompt ≤ max_size → entry pair prompt_name ≡ ok prompt
  unfolding entry find_entry split_path text_eq
  entry-prompt h = rw (place_split p settings_name refl) (
      rw (place_split p prompt_name refl)
        (rw (place_open p is_place) (opened prompt_name (dir_of p ++ prompt_name) prompt h)))

-- A bundle that Write makes of a task is read as the same task without its provider and its pool, and
-- with the same hint: both as it was written and after its two files were zipped again, at the root
-- or within one folder that is not the __MACOSX of the Finder. The task has a prompt, no file and no
-- archive exceeds the limit, JSON gives back the settings that it was given, and an archive the names
-- and the contents that it was made of.
pub read-write :
    (c : Codec) (t : Task) (hint : ProviderHint) (now : Time) (p : Place)
    (zip_keeps : (es : List (Text × Text)) → c.unzip (c.zip es) ≡ some (map stored_file es))
    (json_keeps : c.decode (c.encode (envelope_of t hint now) ++ codes "\n")
      ≡ some (envelope_of t hint now))
    → is_empty t.prompt ≡ false
    → byte_length (c.encode (envelope_of t hint now) ++ codes "\n") ≤ max_size
    → byte_length t.prompt ≤ max_size
    → c.size (write c t hint now) ≤ max_size
    → c.size (c.zip (map (placed p) (entries_of c t hint now))) ≤ max_size
    → IsPlace p
    → (read c (write c t hint now) ≡ ok (without_local t, hint))
      × (read c (c.zip (map (placed p) (entries_of c t hint now))) ≡ ok (without_local t, hint))
unfolding write entries_of read envelope_of text_eq
read-write c t hint now p zip_keeps json_keeps has_prompt meta_fits prompt_fits fits fits_again
      is_place =
    (from_place root tt fits, from_place p is_place fits_again)
  where
    from_place :
        (q : Place)
        → IsPlace q
        → c.size (c.zip (map (placed q) (entries_of c t hint now))) ≤ max_size
        → read c (c.zip (map (placed q) (entries_of c t hint now))) ≡ ok (without_local t, hint)
    from_place q is_q k =
        let meta = c.encode (envelope_of t hint now) ++ codes "\n" in
        rw (fits-ltb _ k) (
          rw (zip_keeps (map (placed q) (entries_of c t hint now))) (
            rw (entry-settings q is_q meta t.prompt meta_fits) (
              rw (entry-prompt q is_q meta t.prompt prompt_fits)
                (rw json_keeps (rw has_prompt refl)))))
