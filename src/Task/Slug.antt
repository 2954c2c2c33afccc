-- ===== src/Task/Slug.antt =====
-- `Slug` of internal/task/task.go: the id fragment that a name gives.
use claudeq.Prelude.{
  ℕ, ◌+◌, Bool, true, false, ◌&&◌, ◌||◌, Option, none, some, [], ◌∷◌, Text, codes, ltb, leb, eqb,
  if◌then◌else◌, is_empty, length,
}
use claudeq.Prelude.Strings.{take, trim_right}

abbrev pub is_lower : ℕ → Bool
is_lower r = leb b'a' r && leb r b'z'

abbrev pub is_upper : ℕ → Bool
is_upper r = leb b'A' r && leb r b'Z'

abbrev pub is_digit : ℕ → Bool
is_digit r = leb b'0' r && leb r b'9'

abbrev pub is_separator : ℕ → Bool
is_separator r = eqb r b' ' || eqb r b'-' || eqb r b'_'

abbrev pub is_dash : ℕ → Bool
is_dash r = eqb r b'-'

-- One rune of the loop: what it writes, and whether a dash came last.
unfoldable pub slug_step : Bool → ℕ → Option ℕ × Bool
slug_step dash r =
    if is_lower r || is_digit r
    then (some r, false)
    else if is_upper r
    then (some (r + 32), false)
    else if is_separator r
    then (if dash then (none, true) else (some b'-', true))
    else (none, dash)

abbrev pub emit : Option ℕ → Text → Text
emit none s = s
emit (some r) s = r ∷ s

unfoldable pub slug_loop : Bool → Text → Text
slug_loop dash [] = []
slug_loop dash (r ∷ rs) = let (out, dash') = slug_step dash r in emit out (slug_loop dash' rs)

abbrev pub max_slug : ℕ
max_slug = 24

abbrev pub cut : Text → Text
cut s = if ltb max_slug (length s) then trim_right is_dash (take max_slug s) else s

abbrev pub or_task : Text → Text
or_task s = if is_empty s then codes "task" else s

unfoldable pub slug : Text → Text
unfolding slug_step slug_loop trim_right
slug name = or_task (cut (trim_right is_dash (slug_loop true name)))
