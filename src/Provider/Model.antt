-- ===== src/Provider/Model.antt =====
-- `Instance`, `LimitWindow`, `Limits`, `Pool` and `MemberScore` of internal/provider.
use claudeq.Prelude.{ℕ, ◌&&◌, Bool, Option, List, Text, eqb, is_empty, if◌then◌else◌}
use claudeq.Prelude.Strings.{Time, trim_space}
use claudeq.Prelude.Floats.{Floats}

pub record Instance : Type 0 where
  pub id : Text
  pub kind : Text
  pub name : Text
  pub binary_path : Text
  pub config_dir : Text
  pub default_model : Text
  pub fallback_provider : Text
  pub fallback_model : Text
  pub enabled : Bool

unfoldable pub label : Instance → Text
label i = if is_empty i.name then i.id else i.name

-- `limits_unset` is the state of a value that no read has filled in.
pub data LimitsState : Type 0 where
  limits_unset limits_ok limits_unavailable limits_unsupported limits_disabled : LimitsState

-- Why the latest read found nothing; a text is the error's or what the sentence names.
pub data LimitsReason : Type 0 where
  no_reason no_limit no_plan : LimitsReason
  read_problem read_late kind_problem : Text → LimitsReason

module _ (fl : Floats) where
  pub record LimitWindow : Type 0 where
    pub id : Text
    pub label : Text
    pub used_percent : fl.F
    pub resets_at : Option Time

  pub record Limits : Type 0 where
    pub state : LimitsState
    pub windows : List LimitWindow
    pub reason : LimitsReason
    pub plan : Text
    pub capacity : fl.F
    pub updated_at : Time
    pub checked_at : Time

  pub record PoolMember : Type 0 where
    pub provider_id : Text
    pub weight : fl.F

  pub record Pool : Type 0 where
    pub id : Text
    pub name : Text
    pub members : List PoolMember

  unfoldable pub pool_label : Pool → Text
  unfolding trim_space
  pool_label p = if is_empty (trim_space p.name) then p.id else p.name

  -- Why a member stands where it does; the wording is not modelled.
  pub data Note : Type 0 where
    switched_off not_configured no_reading waits_for_limit cannot_run : Note
    not_ready : Text → Note
    used_up : Text → Note
    short_used : fl.F → Text → Note
    has_reset : Text → Note
    percent_left : fl.F → Text → Option Time → Note
    takes_no_backfill : Text → Note → Note
    below_threshold : Text → fl.F → fl.F → Note

  pub record MemberScore : Type 0 where
    pub provider_id : Text
    pub name : Text
    pub tier : ℕ
    pub urgency : fl.F
    pub score : fl.F
    pub weight : fl.F
    pub week_free : fl.F
    pub resets_at : Option Time
    pub running : ℕ
    pub note : Note

  -- A nil function is `none`. The limits come with whether there is a reading to judge by.
  pub record RankInputs : Type 0 where
    pub now : Time
    pub limits : Option (Instance → Limits × Bool)
    pub running : Option (Text → ℕ)
    pub usable : Option (Instance → Bool × Note)

  unfoldable pub spare : MemberScore → fl.F → Bool
  spare s threshold = eqb s.tier 0 && fl.lt threshold s.urgency
