-- ===== src/Wake/Scheduler.antt =====
-- `Scheduler` of internal/wake/wake.go. Whether the external command succeeds is an argument.
use claudeq.Prelude.{
  ℕ, ◌-◌, Bool, false, ◌&&◌, Option, none, some, List, [], ◌∷◌, if◌then◌else◌, ltb, leb,
}
use claudeq.Prelude.Strings.{Time}

pub record Scheduler : Type 0 where
  pub min_reschedule : ℕ
  pub last : Option Time

pub data Command : Type 0 where
  schedule_wake cancel_wake : Time → Command

abbrev pub default_min_reschedule : ℕ
default_min_reschedule = 60000000000

unfoldable pub min_reschedule_or_default : Scheduler → ℕ
min_reschedule_or_default s =
    if ltb 0 s.min_reschedule then s.min_reschedule else default_min_reschedule

-- `within`: the distance of two times, in either order.
unfoldable pub within : Time → Time → ℕ → Bool
within a b tol = leb (a - b) tol && leb (b - a) tol

abbrev pub is_unchanged : Scheduler → Time → Option Time → Bool
is_unchanged s t none = false
is_unchanged s t (some last) = within t last (min_reschedule_or_default s)

abbrev pub cancel_first : Option Time → List Command → List Command
cancel_first none rest = rest
cancel_first (some last) rest = cancel_wake last ∷ rest

-- `Schedule`: the commands that are run, and the scheduler after them.
unfoldable pub schedule : Time → Bool → Scheduler → List Command × Scheduler
unfolding within min_reschedule_or_default
schedule t succeeds s = if is_unchanged s t s.last then ([], s) else (
  cancel_first s.last (schedule_wake t ∷ []),
  if succeeds then record s { last = some t } else s,
)

-- `Cancel`
unfoldable pub cancel : Scheduler → List Command × Scheduler
cancel s = (cancel_first s.last [], record s { last = none })
