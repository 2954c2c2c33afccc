-- ===== src/Provider/Health.antt =====
-- `Health` and `Checker` of internal/provider/health.go. What an adapter finds when it is asked is an
-- argument of the check that asks, with whether the caller went away meanwhile.
use claudeq.Prelude.{
  ℕ, ◌+◌, Bool, true, false, not, ◌&&◌, Option, none, some, [], ◌∷◌, ◌++◌, Text, codes, ◌==◌,
  if◌then◌else◌, ltb,
}
use claudeq.Prelude.Strings.{Time, is_zero}
use claudeq.Prelude.Assoc.{Assoc, lookup, insert, delete}
use claudeq.Provider.Model.{Instance, label}

pub data HealthState : Type 0 where
  ready not_installed not_authenticated invalid_configuration disabled check_failed : HealthState
  other_state : Text → HealthState

-- A reason that the source words itself keeps what it names.
pub data Reason : Type 0 where
  as_reported switched_off unknown_kind : Text → Reason

pub record Health : Type 0 where
  pub state : HealthState
  pub reason : Reason
  pub binary : Text
  pub detail : Text
  pub checked_at : Time

abbrev pub is_ready : HealthState → Bool
is_ready ready = true
is_ready _ = false

abbrev pub is_check_failed : HealthState → Bool
is_check_failed check_failed = true
is_check_failed _ = false

-- `Ready`
unfoldable pub may_start : Health → Bool
may_start h = is_ready h.state

unfoldable pub known_unready : Health → Bool
known_unready h = not (is_ready h.state) && not (is_check_failed h.state)

pub record CachedHealth : Type 0 where
  pub fingerprint : Text
  pub health : Health
  pub at : Time

abbrev bool_text : Bool → Text
bool_text true = codes "true"
bool_text false = codes "false"

unfoldable pub fingerprint : Instance → Text
fingerprint inst =
    inst.kind ++ 0 ∷ inst.binary_path ++ 0 ∷ inst.config_dir ++ 0 ∷ bool_text inst.enabled

-- `DefaultHealthTTL`, for a TTL that is not set.
abbrev pub default_ttl : ℕ
default_ttl = 30000000000

unfoldable pub ttl_or_default : ℕ → ℕ
ttl_or_default ttl = if ltb 0 ttl then ttl else default_ttl

abbrev pub dated : Time → Health → Health
dated now h = if is_zero h.checked_at then record h { checked_at = now } else h

abbrev pub asked : Instance → Time → Option Health → Health
asked inst now none = record {
  state = invalid_configuration;
  reason = unknown_kind inst.kind;
  binary = [];
  detail = [];
  checked_at = now;
}
asked inst now (some h) = dated now h

-- `answer` is the adapter's, or `none` for a kind that no adapter is registered for.
unfoldable pub probe : Instance → Time → Option Health → Health
unfolding label
probe inst now answer =
    if not inst.enabled
    then record {
      state = disabled;
      reason = switched_off (label inst);
      binary = [];
      detail = [];
      checked_at = now;
    }
    else asked inst now answer

abbrev pub if_same : Text → Option CachedHealth → Health → Health
if_same fp none fallback = fallback
if_same fp (some entry) fallback = if entry.fingerprint == fp then entry.health else fallback

-- `lastKnown`
unfoldable pub last_known : Instance → Health → Assoc CachedHealth → Health
unfolding lookup fingerprint
last_known inst fallback cached = if_same (fingerprint inst) (lookup inst.id cached) fallback

-- The health, and the cache after the check.
unfoldable pub check_fresh :
    Instance → Time → Option Health → Bool → Assoc CachedHealth → Health × Assoc CachedHealth
unfolding probe last_known insert fingerprint
check_fresh inst now answer cut_short cached =
    let h = probe inst now answer in
    if cut_short then (last_known inst h cached, cached) else (
      h,
      insert inst.id (record { fingerprint = fingerprint inst; health = h; at = h.checked_at })
          cached,
    )

-- The verdict that is recent enough to use again.
unfoldable pub reusable : ℕ → Instance → Time → Option CachedHealth → Option Health
unfolding fingerprint ttl_or_default
reusable ttl inst now none = none
reusable ttl inst now (some entry) =
    if entry.fingerprint == fingerprint inst && ltb now (entry.at + ttl_or_default ttl)
    then some entry.health
    else none

abbrev pub or_fresh :
    Option Health → Health × Assoc CachedHealth → Assoc CachedHealth → Health × Assoc CachedHealth
or_fresh none fresh cached = fresh
or_fresh (some h) fresh cached = (h, cached)

unfoldable pub check :
    ℕ → Instance → Time → Option Health → Bool → Assoc CachedHealth → Health × Assoc CachedHealth
unfolding reusable check_fresh lookup
check ttl inst now answer cut_short cached =
    or_fresh (reusable ttl inst now (lookup inst.id cached))
      (check_fresh inst now answer cut_short cached) cached

unfoldable pub check_maybe_fresh :
    ℕ
    → Instance
    → Time
    → Option Health
    → Bool
    → Bool
    → Assoc CachedHealth
    → Health × Assoc CachedHealth
unfolding check check_fresh
check_maybe_fresh ttl inst now answer cut_short fresh cached =
    if fresh
    then check_fresh inst now answer cut_short cached
    else check ttl inst now answer cut_short cached

unfoldable pub forget : Text → Assoc CachedHealth → Assoc CachedHealth
unfolding delete
forget id cached = delete id cached
