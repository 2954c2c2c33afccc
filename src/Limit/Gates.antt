-- ===== src/Limit/Gates.antt =====
-- `Gates` of internal/limit/limit.go: the gates of the provider instances. A map is ranged over in
-- any order, which here is the order of its entries.
use claudeq.Prelude.{◌||◌, Option, none, some, [], ◌∷◌, Text, if◌then◌else◌}
use claudeq.Prelude.Strings.{Time, is_zero, before}
use claudeq.Prelude.Assoc.{Assoc, lookup, insert}
use claudeq.Limit.Gate.{Gate, new, block, blocked_until}

abbrev pub Gates : Type 0
Gates = Assoc Gate

abbrev pub or_new : Option Gate → Gate
or_new none = new
or_new (some g) = g

-- The gate of a provider, made on first use.
unfoldable pub gate_for : Gates → Text → Gate
unfolding lookup new
gate_for gs id = or_new (lookup id gs)

-- `gates.For(id).Block(until)`: the gate is shared by its pointer, so the map sees the change.
unfoldable pub block_provider : Gates → Text → Time → Gates
unfolding gate_for block insert
block_provider gs id until = insert id (block (gate_for gs id) until) gs

abbrev earlier : Time → Time → Time
earlier until earliest = if is_zero earliest || before until earliest then until else earliest

-- One round of the loop of `BlockedUntil`.
unfoldable pub next_earliest : Time → Time → Time
next_earliest until earliest = if is_zero until then earliest else earlier until earliest

-- The loop of `BlockedUntil`, with the earliest time so far.
unfoldable pub earliest_from : Time → Time → Gates → Time
unfolding blocked_until next_earliest
earliest_from now earliest [] = earliest
earliest_from now earliest ((id, g) ∷ gs) =
    earliest_from now (next_earliest (blocked_until now g) earliest) gs

unfoldable pub any_blocked_until : Time → Gates → Time
unfolding earliest_from
any_blocked_until now gs = earliest_from now 0 gs

-- `Blocked`: the providers that wait out a limit, with the time that their gate reopens.
unfoldable pub blocked : Time → Gates → Assoc Time
unfolding blocked_until
blocked now [] = []
blocked now ((id, g) ∷ gs) =
    let until = blocked_until now g in
    let rest = blocked now gs in if is_zero until then rest else (id, until) ∷ rest
