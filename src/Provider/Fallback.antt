-- ===== src/Provider/Fallback.antt =====
-- The fallback walk of `ResolveAvailable` (internal/provider/resolve.go), and the model that the
-- substitute runs.
use claudeq.Prelude.{
  ℕ, zero, suc, Bool, not, ◌&&◌, Option, none, some, List, [], ◌∷◌, Text, ◌==◌, if◌then◌else◌,
  is_empty, any, length,
}
use claudeq.Provider.Model.{Instance}
use claudeq.Provider.Set.{find}

-- `found from next`: `next` takes the work, as the fallback of `from`. `exhausted` is no outcome of
-- the source: the fuel ran out.
pub data Walk : Type 0 where
  stopped exhausted : Walk
  found : Instance → Instance → Walk

-- `_, visited := seen[id]`
unfoldable pub is_seen : Text → List Text → Bool
unfolding any
is_seen id seen = any (λ other. other == id) seen

module _ (insts : List Instance) (fits : Instance → Bool) where
  -- One hop: `rest` is the walk that goes on from the next instance.
  abbrev pub hop : List Text → Instance → Option Instance → Walk → Walk
  hop seen cur none rest = stopped
  hop seen cur (some next) rest =
      if is_seen cur.fallback_provider seen
      then stopped
      else if fits next
      then found cur next
      else rest

  abbrev pub or_stay : Instance → Option Instance → Instance
  or_stay cur none = cur
  or_stay cur (some next) = next

  unfoldable pub walk : ℕ → List Text → Instance → Walk
  unfolding is_seen find
  walk zero seen cur = exhausted
  walk (suc fuel) seen cur =
      let next = find cur.fallback_provider insts in
      let rest = walk fuel (cur.fallback_provider ∷ seen) (or_stay cur next) in
      if is_empty cur.fallback_provider then stopped else hop seen cur next rest

  -- Each hop sees an instance for the first time, so this fuel is enough.
  unfoldable pub fallback_walk : Instance → Walk
  unfolding walk
  fallback_walk origin = walk (suc (length insts)) (origin.id ∷ []) origin

unfoldable pub fallback_model : Instance → Instance → Instance → Text → Text
fallback_model origin from next want =
    if not (is_empty from.fallback_model)
    then from.fallback_model
    else if not (is_empty want) && next.kind == origin.kind
    then want
    else next.default_model
