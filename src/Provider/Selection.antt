-- ===== src/Provider/Selection.antt =====
-- `Selection`, `Availability` and `Resolved` of internal/provider/resolve.go, and what the walk and
-- the ranking ask of them.
use claudeq.Prelude.{
  ℕ, Bool, true, false, not, ◌&&◌, Option, none, some, List, Text, ltb, if◌then◌else◌,
}
use claudeq.Prelude.Strings.{Time}
use claudeq.Prelude.Floats.{Floats}
use claudeq.Provider.Model.{
  Instance, Limits, Pool, MemberScore, RankInputs, Note, waits_for_limit, cannot_run,
  takes_no_backfill, below_threshold, spare,
}
use claudeq.Provider.Score.{score_provider}

module _ (fl : Floats) where
  pub record Selection : Type 0 where
    pub provider_id : Text
    pub model : Text
    pub pool_id : Text
    pub prefer : Text
    pub backfill : Bool
    pub min_urgency : fl.F

  pub record PoolChoice : Type 0 where
    pub pool : Pool fl
    pub scores : List (MemberScore fl)
    pub resumed : Bool

  pub record Resolved : Type 0 where
    pub inst : Instance
    pub model : Text
    pub fallback_from : Option Instance
    pub pool : Option PoolChoice

  pub data SelectProblem : Type 0 where
    no_providers : SelectProblem
    unknown_provider provider_disabled unknown_pool pool_switched_off : Text → SelectProblem
    no_spare : Note fl → SelectProblem
    no_spare_in_pool : Text → List (Note fl) → SelectProblem

  -- A nil function is `none`.
  pub record Availability : Type 0 where
    pub out_of_allowance : Option (Text → Bool)
    pub can_take_work : Option (Instance → Bool)
    pub limits : Option (Instance → Limits fl × Bool)
    pub running : Option (Text → ℕ)
    pub now : Option Time

  abbrev pub nothing_known : Availability
  nothing_known = record {
    out_of_allowance = none;
    can_take_work = none;
    limits = none;
    running = none;
    now = none;
  }

  abbrev pub ask_id : Option (Text → Bool) → Text → Bool
  ask_id none id = false
  ask_id (some f) id = f id

  -- `OutOfAllowance != nil && OutOfAllowance(id)`
  unfoldable pub is_out : Availability → Text → Bool
  is_out av id = ask_id av.out_of_allowance id

  abbrev pub accepts : Option (Instance → Bool) → Instance → Bool
  accepts none inst = true
  accepts (some f) inst = f inst

  unfoldable pub usable : Availability → Instance → Bool
  usable av inst = inst.enabled && accepts av.can_take_work inst

  abbrev pub or_zero : Option Time → Time
  or_zero none = 0
  or_zero (some t) = t

  unfoldable pub can_work : Availability → Instance → Bool × Note fl
  unfolding is_out usable
  can_work av inst =
      if is_out av inst.id
      then (false, waits_for_limit)
      else if not (usable av inst)
      then (false, cannot_run)
      else (true, cannot_run)

  unfoldable pub rank_inputs : Availability → RankInputs fl
  unfolding can_work
  rank_inputs av = record {
    now = or_zero av.now;
    limits = av.limits;
    running = av.running;
    usable = some (can_work av);
  }

  unfoldable pub spare_note : MemberScore fl → fl.F → Note fl
  spare_note s threshold =
      if ltb 0 s.tier
      then takes_no_backfill s.name s.note
      else below_threshold s.name s.urgency threshold

  unfoldable pub is_spare : Availability → fl.F → Instance → Bool
  unfolding rank_inputs score_provider spare
  is_spare av threshold inst = spare fl (score_provider fl inst (rank_inputs av)) threshold

  abbrev pub note_for : Availability → fl.F → Instance → Note fl
  note_for av threshold inst = spare_note (score_provider fl inst (rank_inputs av)) threshold

  -- `checkSpare`
  unfoldable pub check_spare : Availability → fl.F → Instance → Option SelectProblem
  unfolding is_spare spare_note
  check_spare av threshold inst =
      if is_spare av threshold inst then none else some (no_spare (note_for av threshold inst))

  unfoldable pub backfill_work : Availability → fl.F → Instance → Bool × Note fl
  unfolding is_spare spare_note
  backfill_work av threshold inst =
      if not (is_spare av threshold inst)
      then (false, note_for av threshold inst)
      else (true, cannot_run)

  -- What the members of a pool are ranked by for this selection.
  unfoldable pub pool_inputs : Selection → Availability → RankInputs fl
  unfolding rank_inputs backfill_work
  pool_inputs sel av =
      if sel.backfill
      then record (rank_inputs av) { usable = some (backfill_work av sel.min_urgency) }
      else rank_inputs av
