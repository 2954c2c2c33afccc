-- ===== src/Provider/Monitor.antt =====
-- `LimitMonitor` of internal/provider/limits.go: what a read of an allowance leaves in its memory. A
-- read holds the lock of its instance, so it is one step; what the reader answers is an argument.
use claudeq.Prelude.{
  ℕ, ◌+◌, Bool, true, false, not, ◌&&◌, Option, none, some, List, [], Text, ◌==◌, if◌then◌else◌,
  ltb, is_empty,
}
use claudeq.Prelude.Strings.{Time}
use claudeq.Prelude.Assoc.{Assoc, lookup, insert}
use claudeq.Prelude.Floats.{Floats, of_ℕ}
use claudeq.Provider.Model.{
  Instance, label, LimitWindow, Limits, LimitsState, limits_unset, limits_ok, limits_unavailable,
  limits_unsupported, limits_disabled, LimitsReason, no_reason, no_limit, no_plan, read_problem,
  read_late, kind_problem,
}
use claudeq.Provider.Health.{fingerprint}

module _ (fl : Floats) where
  pub record LimitReading : Type 0 where
    pub windows : List (LimitWindow fl)
    pub plan : Text
    pub capacity : fl.F

  -- What asking the adapter comes to: no adapter of this kind, one that reads no limits, or the
  -- answer of one that does.
  pub data Answer : Type 0 where
    no_adapter no_reader no_plan_limits past_deadline : Answer
    read_failed : Text → Answer
    reading : LimitReading → Answer

  pub record Entry : Type 0 where
    pub fingerprint : Text
    pub limits : Limits fl

  abbrev pub no_limits : Limits fl
  no_limits = record {
    state = limits_unset;
    windows = [];
    reason = no_reason;
    plan = [];
    capacity = of_ℕ fl 0;
    updated_at = 0;
    checked_at = 0;
  }

  abbrev pub matching : Text → Option Entry → Option (Limits fl)
  matching fp none = none
  matching fp (some e) = if e.fingerprint == fp then some e.limits else none

  -- `cached`
  unfoldable pub remembered : Instance → Assoc Entry → Option (Limits fl)
  unfolding lookup fingerprint
  remembered inst entries = matching (fingerprint inst) (lookup inst.id entries)

  abbrev pub with_windows_read : Option (Limits fl) → Limits fl × Bool
  with_windows_read none = (no_limits, false)
  with_windows_read (some l) = (l, not (is_empty l.windows))

  -- `Cached`
  unfoldable pub cached : Instance → Assoc Entry → Limits fl × Bool
  unfolding remembered
  cached inst entries = with_windows_read (remembered inst entries)

  abbrev pub unsupported : LimitsReason → Time → Limits fl
  unsupported reason now = record no_limits {
    state = limits_unsupported;
    reason = reason;
    checked_at = now;
  }

  -- A failed read keeps the figures of the last one.
  abbrev pub unavailable : LimitsReason → Time → Limits fl → Limits fl
  unavailable reason now prev = record prev {
    state = limits_unavailable;
    reason = reason;
    checked_at = now;
  }

  abbrev pub answered : Instance → Time → Limits fl → Answer → Limits fl
  answered inst now prev no_adapter = unsupported (kind_problem inst.kind) now
  answered inst now prev no_reader = unsupported no_limit now
  answered inst now prev no_plan_limits = unsupported no_plan now
  answered inst now prev past_deadline = unavailable (read_late (label inst)) now prev
  answered inst now prev (read_failed e) = unavailable (read_problem e) now prev
  answered inst now prev (reading r) = record {
    state = limits_ok;
    windows = r.windows;
    reason = no_reason;
    plan = r.plan;
    capacity = r.capacity;
    updated_at = now;
    checked_at = now;
  }

  unfoldable pub read : Instance → Time → Limits fl → Answer → Limits fl
  unfolding label
  read inst now prev answer =
      if not inst.enabled
      then record no_limits { state = limits_disabled; checked_at = now }
      else answered inst now prev answer

  abbrev pub default_min_age : ℕ
  default_min_age = 30000000000

  unfoldable pub min_age_or_default : ℕ → ℕ
  min_age_or_default age = if ltb 0 age then age else default_min_age

  abbrev pub is_unavailable : LimitsState → Bool
  is_unavailable limits_unavailable = true
  is_unavailable _ = false

  abbrev pub or_no_limits : Option (Limits fl) → Limits fl
  or_no_limits none = no_limits
  or_no_limits (some l) = l

  -- The limits that a request is answered with from memory.
  abbrev pub from_memory : ℕ → Time → Bool → Bool → Option (Limits fl) → Option (Limits fl)
  from_memory age now fresh force none = none
  from_memory age now fresh force (some prev) =
      if not fresh
      then some prev
      else if not force && ltb now (prev.checked_at + min_age_or_default age)
      then some prev
      else none

  -- A read that the caller's going away cut short is not remembered.
  unfoldable pub remember : Instance → Bool → Limits fl → Assoc Entry → Limits fl × Assoc Entry
  unfolding fingerprint insert
  remember inst gone l entries =
      if gone && is_unavailable l.state
      then (l, entries)
      else (l, insert inst.id (record { fingerprint = fingerprint inst; limits = l }) entries)

  abbrev pub or_read :
      Option (Limits fl) → Limits fl × Assoc Entry → Assoc Entry → Limits fl × Assoc Entry
  or_read none fresh entries = fresh
  or_read (some l) fresh entries = (l, entries)

  -- `get`
  unfoldable pub get :
      ℕ → Instance → Time → Answer → Bool → Bool → Bool → Assoc Entry → Limits fl × Assoc Entry
  unfolding remembered min_age_or_default read remember
  get age inst now answer gone fresh force entries =
      let prev = remembered inst entries in
      or_read (from_memory age now fresh force prev)
        (remember inst gone (read inst now (or_no_limits prev) answer) entries) entries
