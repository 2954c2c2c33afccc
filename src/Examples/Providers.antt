-- ===== src/Examples/Providers.antt =====
-- A few provider instances, and floating-point numbers to rank them by.
use claudeq.Prelude.{
  ℕ, ◌-◌, ◌*◌, ◌/◌, Bool, true, false, none, List, [], ◌∷◌, codes, ltb, leb, eqb, if◌then◌else◌,
}
use claudeq.Prelude.Floats.{Floats}
use claudeq.Provider.Model.{Instance, Limits, Pool, limits_ok, no_reason}
use claudeq.Provider.Set.{Set}
use claudeq.Provider.Selection.{Selection}
use claudeq.Provider.Health.{Health, ready, Reason}
use claudeq.Engine.Assign.{Surroundings}

-- Whole numbers in the place of floating-point ones.
abbrev pub whole : Floats
whole = record {
  F = ℕ;
  of_ratio = λ a b. a / b;
  sub = λ a b. a - b;
  mul = λ a b. a * b;
  div = λ a b. a / b;
  larger = λ a b. if ltb a b then b else a;
  lt = ltb;
  le = leb;
  same = eqb;
}

abbrev pub claude : Instance
claude = record {
  id = codes "claude";
  kind = codes "claude-code";
  name = codes "Claude";
  binary_path = [];
  config_dir = [];
  default_model = codes "opus";
  fallback_provider = codes "spent";
  fallback_model = [];
  enabled = true;
}

-- It hands over to another provider, which hands back.
abbrev pub spent : Instance
spent = record claude { id = codes "spent"; enabled = false; fallback_provider = codes "other" }

abbrev pub other : Instance
other = record claude { id = codes "other"; fallback_provider = codes "claude" }

abbrev pub three : List Instance
three = claude ∷ spent ∷ other ∷ []

abbrev pub is_on : Instance → Bool
is_on inst = inst.enabled

abbrev pub both : Pool whole
both = record {
  id = codes "both";
  name = [];
  members =
      record { provider_id = codes "claude"; weight = 1 }
      ∷ record { provider_id = codes "other"; weight = 2 }
      ∷ [];
}

abbrev pub configured : Set whole
configured = record { instances = three; default_id = codes "claude"; pools = both ∷ [] }

abbrev pub plain_selection : Selection whole
plain_selection = record {
  provider_id = [];
  model = [];
  pool_id = [];
  prefer = [];
  backfill = false;
  min_urgency = 1;
}

abbrev pub half_used : Limits whole
half_used = record {
  state = limits_ok;
  windows =
      record { id = codes "week"; label = codes "Week"; used_percent = 0; resets_at = none } ∷ [];
  reason = no_reason;
  plan = [];
  capacity = 1;
  updated_at = 5;
  checked_at = 5;
}

abbrev pub is_fine : Health
is_fine = record {
  state = ready;
  reason = Reason.as_reported [];
  binary = [];
  detail = [];
  checked_at = 0;
}

abbrev pub all_well : Surroundings whole
all_well = record { now = 10; health = λ inst. is_fine; limits = λ inst. (half_used, true) }
