-- ===== src/Provider/Windows.antt =====
-- `windowHours` and `windowsOf` of internal/provider/pool.go, and how long a window still runs.
use claudeq.Prelude.{
  ◌^◌, ℕ, ◌+◌, ◌-◌, ◌*◌, Bool, true, false, not, ◌&&◌, ◌||◌, Option, none, some, List, [], ◌∷◌,
  Text, codes, ◌==◌, eqb, ltb, if◌then◌else◌,
}
use claudeq.Prelude.Strings.{Time, after, has_prefix, drop}
use claudeq.Prelude.Floats.{Floats, of_ℕ}
use claudeq.Provider.Model.{LimitWindow}

-- The value of a text of decimal digits; the empty text has none.
unfoldable pub digits_from : ℕ → Text → Option ℕ
digits_from n [] = some n
digits_from n (c ∷ cs) =
    let rest = digits_from (n * 10 + (c - b'0')) cs in
    if ltb c b'0' || ltb b'9' c then none else rest

abbrev pub digits : Text → Option ℕ
digits [] = none
digits (c ∷ cs) = digits_from 0 (c ∷ cs)

abbrev pub unsign : Text → Text
unsign [] = []
unsign (c ∷ cs) = if eqb c b'+' then cs else c ∷ cs

-- `strconv.Atoi` where the result is positive: anything else is no use to the caller.
abbrev pub positive_int : Option ℕ → Option ℕ
positive_int none = none
positive_int (some n) = if ltb 0 n && ltb n (2 ^ 63) then some n else none

module _ (fl : Floats) where
  open fl use {F, of_ratio, sub, mul, div, larger, lt, le, same}

  -- The last window of this id, with its position.
  unfoldable pub last_window :
      Text → ℕ → List (LimitWindow fl) → Option (ℕ × LimitWindow fl) → Option (ℕ × LimitWindow fl)
  last_window id i [] found = found
  last_window id i (w ∷ ws) found =
      last_window id (i + 1) ws (if w.id == id then some (i, w) else found)

  abbrev pub is_at : ℕ → Option (ℕ × LimitWindow fl) → Bool
  is_at i none = false
  is_at i (some e) = eqb i e.0

  abbrev pub resets_after : Option Time → Option Time → Bool
  resets_after (some t) (some u) = after t u
  resets_after _ _ = false

  -- Without a weekly window: the latest-resetting one that is not the short window.
  abbrev pub better_long :
      ℕ → LimitWindow fl → Option (ℕ × LimitWindow fl) → Option (LimitWindow fl) → Bool
  better_long i w short none = true
  better_long i w short (some l) = resets_after w.resets_at l.resets_at

  abbrev pub resets : Option Time → Bool
  resets none = false
  resets (some _) = true

  unfoldable pub stand_in :
      ℕ
      → Option (ℕ × LimitWindow fl)
      → List (LimitWindow fl)
      → Option (LimitWindow fl)
      → Option (LimitWindow fl)
  stand_in i short [] long = long
  stand_in i short (w ∷ ws) long = stand_in (i + 1) short ws (
      if resets w.resets_at && not (is_at i short) && better_long i w short long
      then some w
      else long)

  abbrev pub window_only : Option (ℕ × LimitWindow fl) → Option (LimitWindow fl)
  window_only none = none
  window_only (some e) = some e.1

  -- A lone short window stands in for the long one.
  abbrev pub pair_up :
      Option (LimitWindow fl)
      → Option (LimitWindow fl)
      → Option (LimitWindow fl) × Option (LimitWindow fl)
  pair_up none short = (short, none)
  pair_up (some l) short = (some l, short)

  abbrev pub long_of : Option (LimitWindow fl) → Option (LimitWindow fl) → Option (LimitWindow fl)
  long_of none other = other
  long_of (some w) other = some w

  unfoldable pub windows_of :
      List (LimitWindow fl) → Option (LimitWindow fl) × Option (LimitWindow fl)
  unfolding last_window stand_in
  windows_of ws =
      let short = last_window (codes "five_hour") 0 ws none in
      let week = last_window (codes "week") 0 ws none in
      pair_up (long_of (window_only week) (stand_in 0 short ws none)) (window_only short)

  abbrev pub week_hours : F
  week_hours = of_ℕ fl 168

  abbrev pub minutes_to_hours : Option ℕ → F
  minutes_to_hours none = week_hours
  minutes_to_hours (some mins) = div (of_ℕ fl mins) (of_ℕ fl 60)

  -- How long a window of this id lasts.
  unfoldable pub window_hours : Text → F
  unfolding has_prefix digits_from
  window_hours id =
      if id == codes "five_hour"
      then of_ℕ fl 5
      else if id == codes "week"
      then week_hours
      else if has_prefix id (codes "window_")
      then minutes_to_hours (positive_int (digits (unsign (drop 7 id))))
      else week_hours

  -- `Duration.Hours` of a time to come.
  abbrev pub hours_until : Time → Time → F
  hours_until now t = div (of_ℕ fl (t - now)) (of_ℕ fl 3_600_000_000_000)

  -- A window whose reset has passed has started over.
  abbrev pub has_passed : Time → Option Time → Bool
  has_passed now none = false
  has_passed now (some t) = not (after t now)

  abbrev pub drop_passed : Time → Option (LimitWindow fl) → Option (LimitWindow fl)
  drop_passed now none = none
  drop_passed now (some w) = if has_passed now w.resets_at then none else some w

  abbrev pub refresh : Time → LimitWindow fl → LimitWindow fl
  refresh now w =
      if has_passed now w.resets_at
      then record w { used_percent = of_ℕ fl 0; resets_at = none }
      else w

  abbrev pub hours_left : Time → LimitWindow fl → F
  hours_left now w = elim w.resets_at [
    | none ↦ window_hours w.id
    | some t ↦ larger (of_ratio 1 4) (hours_until now t)
  ]
