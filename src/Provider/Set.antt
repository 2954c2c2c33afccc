-- ===== src/Provider/Set.antt =====
-- `Set` of internal/provider/resolve.go: the configured instances, the default and the pools.
use claudeq.Prelude.{
  Option, none, some, List, [], ◌∷◌, Text, ◌==◌, if◌then◌else◌, is_empty, first, any,
}
use claudeq.Prelude.Floats.{Floats}
use claudeq.Prelude.Result.{Result, ok, err}
use claudeq.Provider.Model.{Instance, Pool, PoolMember}

pub data SetProblem : Type 0 where
  empty_id : SetProblem
  duplicate_id : Text → SetProblem
  default_not_configured : Text → SetProblem

-- The first instance of this id.
unfoldable pub find : Text → List Instance → Option Instance
unfolding first
find id insts = first (λ inst. inst.id == id) insts

abbrev pub ids_of_head : List Instance → Text
ids_of_head [] = []
ids_of_head (inst ∷ insts) = inst.id

-- The loop that looks for an empty or a repeated id, with the ids seen so far.
unfoldable pub check_ids : List Text → List Instance → Option SetProblem
unfolding any
check_ids seen [] = none
check_ids seen (inst ∷ insts) =
    let rest = check_ids (inst.id ∷ seen) insts in
    if is_empty inst.id
    then some empty_id
    else if any (λ id. id == inst.id) seen
    then some (duplicate_id inst.id)
    else rest

module _ (fl : Floats) where
  pub record Set : Type 0 where
    pub instances : List Instance
    pub default_id : Text
    pub pools : List (Pool fl)

  abbrev pub set_of : Option SetProblem → Text → List Instance → Result SetProblem Set
  set_of (some problem) default_id insts = err problem
  set_of none default_id insts =
      if is_empty default_id
      then ok (record { instances = insts; default_id = ids_of_head insts; pools = [] })
      else if any (λ inst. inst.id == default_id) insts
      then ok (record { instances = insts; default_id = default_id; pools = [] })
      else err (default_not_configured default_id)

  unfoldable pub new_set : Text → List Instance → Result SetProblem Set
  unfolding check_ids any
  new_set default_id insts = set_of (check_ids [] insts) default_id insts

  unfoldable pub with_pools : Set → List (Pool fl) → Set
  with_pools s pools = record s { pools = pools }

  unfoldable pub lookup_pool : Set → Text → Option (Pool fl)
  unfolding first
  lookup_pool s id = first (λ p. p.id == id) s.pools

  unfoldable pub lookup : Set → Text → Option Instance
  unfolding find
  lookup s id = find id s.instances

  -- The configured instances of a pool, in its order.
  abbrev pub keep_found : Option Instance → List Instance → List Instance
  keep_found none rest = rest
  keep_found (some inst) rest = inst ∷ rest

  unfoldable pub members_of : Set → List (PoolMember fl) → List Instance
  unfolding lookup
  members_of s [] = []
  members_of s (m ∷ ms) = keep_found (lookup s m.provider_id) (members_of s ms)

  unfoldable pub pool_members : Set → Pool fl → List Instance
  unfolding members_of
  pool_members s p = members_of s p.members
