-- ===== src/Provider/Score.antt =====
-- `scoreMember` and `ScoreProvider` of internal/provider/pool.go.
use claudeq.Prelude.{ℕ, ◌+◌, Bool, true, false, Option, none, some, [], Text, if◌then◌else◌}
use claudeq.Prelude.Floats.{Floats, of_ℕ}
use claudeq.Provider.Model.{
  Instance, label, LimitWindow, Limits, PoolMember, MemberScore, RankInputs, Note, switched_off,
  limits_unset, no_reason, no_reading, used_up, short_used, has_reset, percent_left,
}
use claudeq.Provider.Windows.{
  windows_of, window_hours, refresh, has_passed, drop_passed, hours_left,
}

module _ (fl : Floats) where
  open fl use {F, of_ratio, sub, mul, div, larger, lt, le, same}

  abbrev pub weight_of : F → F → F
  weight_of weight capacity =
      if lt (of_ℕ fl 0) weight
      then weight
      else if lt (of_ℕ fl 0) capacity
      then capacity
      else of_ℕ fl 1

  abbrev pub is_short_full : Option (LimitWindow fl) → Bool
  is_short_full none = false
  is_short_full (some w) = le (of_ℕ fl 90) w.used_percent

  abbrev pub short_note : Option (LimitWindow fl) → Note fl
  short_note none = no_reading
  short_note (some w) = short_used w.used_percent w.label

  -- The tier and the note of a member with a reading.
  abbrev pub judge : Bool → LimitWindow fl → Option (LimitWindow fl) → F → ℕ × Note fl
  judge fresh long short free =
      if le (of_ratio 995 10) long.used_percent
      then (2, used_up long.label)
      else if is_short_full short
      then (2, short_note short)
      else if fresh
      then (0, has_reset long.label)
      else (0, percent_left free long.label long.resets_at)

  abbrev pub with_windows :
      RankInputs fl
      → MemberScore fl
      → Bool
      → Option (LimitWindow fl)
      → Option (LimitWindow fl)
      → MemberScore fl
  with_windows i s read none short = record s { tier = 1; note = no_reading }
  with_windows i s read (some week) short =
      if read
      then (let long = refresh fl i.now week in
          let free = larger (of_ℕ fl 0) (sub (of_ℕ fl 100) long.used_percent) in
          let urgency =
            div
              (div (mul (div free (of_ℕ fl 100)) (window_hours fl long.id))
                (hours_left fl i.now long))
              (of_ℕ fl (1 + s.running)) in
          let verdict =
            judge (has_passed fl i.now week.resets_at) long (drop_passed fl i.now short) free in
          record s {
            tier = verdict.0;
            urgency = urgency;
            score = mul urgency s.weight;
            week_free = free;
            resets_at = long.resets_at;
            note = verdict.1;
          })
      else record s { tier = 1; note = no_reading }

  abbrev pub count_running : Option (Text → ℕ) → Text → ℕ
  count_running none id = 0
  count_running (some f) id = f id

  abbrev pub can_take : Bool → Option (Instance → Bool × Note fl) → Instance → Bool × Note fl
  can_take enabled none inst = (enabled, switched_off)
  can_take enabled (some f) inst = if enabled then f inst else (false, switched_off)

  abbrev pub reading : Option (Instance → Limits fl × Bool) → Instance → Limits fl × Bool
  reading none inst = (
    record {
      state = limits_unset;
      windows = [];
      reason = no_reason;
      plan = [];
      capacity = of_ℕ fl 0;
      updated_at = 0;
      checked_at = 0;
    },
    false,
  )
  reading (some f) inst = f inst

  -- A member that cannot take work ranks last; the others go by their windows.
  abbrev pub scored :
      Bool
      → Note fl
      → RankInputs fl
      → MemberScore fl
      → Bool
      → Option (LimitWindow fl)
      → Option (LimitWindow fl)
      → MemberScore fl
  scored true why i s read long short = with_windows i s read long short
  scored false why i s read long short = record s { tier = 3; note = why }

  unfoldable pub score_member : Instance → PoolMember fl → RankInputs fl → MemberScore fl
  unfolding label windows_of window_hours
  score_member inst m i =
      let l = reading i.limits inst in
      let take = can_take inst.enabled i.usable inst in
      let s : MemberScore fl = record {
        provider_id = inst.id;
        name = label inst;
        tier = 0;
        urgency = of_ℕ fl 0;
        score = of_ℕ fl 0;
        weight = weight_of m.weight l.0.capacity;
        week_free = of_ℕ fl 0;
        resets_at = none;
        running = count_running i.running inst.id;
        note = no_reading;
      } in
      scored take.0 take.1 i s l.1 (windows_of fl l.0.windows).0 (windows_of fl l.0.windows).1

  unfoldable pub score_provider : Instance → RankInputs fl → MemberScore fl
  unfolding score_member
  score_provider inst i = score_member inst (record { provider_id = inst.id; weight = of_ℕ fl 1 }) i
