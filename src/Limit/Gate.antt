-- ===== src/Limit/Gate.antt =====
-- `Gate` of internal/limit/limit.go. The clock is an argument, and the mutex makes each method one
-- step. A gate holds the time until which it is closed; zero is an open gate.
use claudeq.Prelude.{◌+◌, Bool, not, List, [], ◌∷◌, if◌then◌else◌}
use claudeq.Prelude.Strings.{Time, before, after}

pub record Gate : Type 0 where
  pub closed_until : Time

unfoldable pub new : Gate
new = record { closed_until = 0 }

unfoldable pub block : Gate → Time → Gate
block g until = if after until g.closed_until then record { closed_until = until } else g

unfoldable pub block_for : Time → Gate → Time → Gate
unfolding block
block_for now g delay = block g (now + delay)

unfoldable pub is_open : Time → Gate → Bool
is_open now g = not (before now g.closed_until)

-- The time the gate reopens, or the zero time if it is open.
unfoldable pub blocked_until : Time → Gate → Time
blocked_until now g = if before now g.closed_until then g.closed_until else 0

-- Several rate limits reported to one gate, in the order that they arrive.
unfoldable pub block_all : Gate → List Time → Gate
unfolding block
block_all g [] = g
block_all g (u ∷ us) = block_all (block g u) us
