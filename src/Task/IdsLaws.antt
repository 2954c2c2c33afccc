-- ===== src/Task/IdsLaws.antt =====
-- A generated id always passes `CheckID`.
use claudeq.Prelude.{
  ◌≡◌, refl, Bool, true, false, none, some, [], ◌∷◌, ◌++◌, Text, arith, All, ◌||◌, ◌&&◌, leb, ℕ,
}
use claudeq.Prelude.Filter.{All-append}
use claudeq.Task.Slug.{slug_step, slug, is_digit}
use claudeq.Task.SlugLaws.{IsClean, IsSlug, slug-IsSlug}
use claudeq.Task.Checks.{is_id_head, is_id_rune, check_id}
use claudeq.Task.WellFormed.{IsId, check_id_iff}
use claudeq.Task.Ids.{gen_task_id}

-- `hex.EncodeToString` writes digits and the letters a to f.
abbrev pub is_hex : ℕ → Bool
is_hex c = is_digit c || (leb b'a' c && leb c b'f')

clean_rune : (dash : Bool) (r : ℕ) → (slug_step dash r).0 ≡ some r → is_id_rune r ≡ true
unfolding slug_step
clean_rune dash r h = ground arith

clean_head : (r : ℕ) → (slug_step true r).0 ≡ some r → is_id_head r ≡ true
unfolding slug_step
clean_head r h = ground arith

clean_runes : (dash : Bool) (s : Text) → IsClean dash s → All (λ c. is_id_rune c ≡ true) s
clean_runes dash [] h = tt
clean_runes dash (r ∷ s) h = (clean_rune dash r h.0, clean_runes (slug_step dash r).1 s h.1)

hex_runes : (s : Text) → All (λ c. is_hex c ≡ true) s → All (λ c. is_id_rune c ≡ true) s
hex_runes [] h = tt
hex_runes (r ∷ s) h = (hex_rune r h.0, hex_runes s h.1)
  where
    hex_rune : (c : ℕ) → is_hex c ≡ true → is_id_rune c ≡ true
    hex_rune c k = ground arith

slug-append-IsId : (s t : Text) → IsSlug s → All (λ c. is_id_rune c ≡ true) t → IsId (s ++ t)
slug-append-IsId [] t h k = let e : true ≡ false = h.nonempty in cc
slug-append-IsId (r ∷ s) t h k =
    (clean_head r h.clean.0, All-append _ s t (clean_runes (slug_step true r).1 s h.clean.1) k)

-- Whatever the name, and for every hex suffix, `CheckID` accepts the id.
pub check_id-gen_task_id :
    (name suffix : Text)
    → All (λ c. is_hex c ≡ true) suffix
    → check_id (gen_task_id name suffix) ≡ none
unfolding gen_task_id
check_id-gen_task_id name suffix h =
    (check_id_iff _).1
      (slug-append-IsId (slug name) (b'-' ∷ suffix) (slug-IsSlug name) (refl, hex_runes suffix h))
