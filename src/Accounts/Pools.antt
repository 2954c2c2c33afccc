-- ===== src/Accounts/Pools.antt =====
-- `AddPool`, `EditPool` and `RemovePool` of internal/app/pool.go keep every pool on configured
-- providers.
use claudeq.Prelude.{
  ◌≡◌, sym, not, List, [], ◌∷◌, ◌++◌, Text, ◌==◌, All, is_empty, is_some, Bool-cases, inl, inr,
}
use mathlib.Core.Path.{subst}
use claudeq.Prelude.Floats.{Floats}
use claudeq.Prelude.Filter.{All-append}
use claudeq.Prelude.Result.{Result, ok, and_then-Passed, fail_if}
use claudeq.Provider.Model.{Pool}
use claudeq.Accounts.Lists.{
  EditProblem, pool_exists, unknown_pool, id_fixed, pool_used, found, Accounts, find_pool,
  replace_pool, drop_pool,
}
use claudeq.Accounts.Edit.{
  Host, save, check_pool, with_pool_list, add_pool, edit_pool, remove_pool, pool_tasks,
}
use claudeq.Accounts.Saved.{save_inv}
use claudeq.Accounts.Links.{PoolLinked, IsLinked}
-- An instance of the set is a provider of the configuration.
use claudeq.Accounts.Members.{checked-PoolLinked}

module _ (fl : Floats) where
  All-replace_pool :
      (P : Pool fl → Type 0) (id : Text) (new : Pool fl)
      → P new
      → (ps : List (Pool fl)) → All P ps
      → All P (replace_pool fl id new ps)
  unfolding replace_pool
  All-replace_pool P id new n [] h = tt
  All-replace_pool P id new n (p ∷ ps) h = elim (Bool-cases (p.id == id)) [
    | inl e ↦ rw e (n, h.1)
    | inr e ↦ rw e (h.0, All-replace_pool P id new n ps h.1)
  ]

  All-drop_pool :
      (P : Pool fl → Type 0) (id : Text) (ps : List (Pool fl))
      → All P ps
      → All P (drop_pool fl id ps)
  unfolding drop_pool
  All-drop_pool P id [] h = tt
  All-drop_pool P id (p ∷ ps) h = elim (Bool-cases (p.id == id)) [
    | inl e ↦ rw e h.1
    | inr e ↦ rw e (h.0, All-drop_pool P id ps h.1)
  ]

  module _ (host : Host fl) (a : Accounts fl) where
    pools-IsLinked :
        (ps : List (Pool fl)) (b : Accounts fl)
        → All (PoolLinked fl a.config.providers) ps
        → IsLinked fl a
        → save fl host (with_pool_list fl host a ps) ≡ ok b
        → IsLinked fl b
    pools-IsLinked ps b members l h =
        let (same, known) = save_inv fl host (with_pool_list fl host a ps) b h in
        subst (IsLinked fl) (sym same)
          (record { usable = l.usable; fallbacks = known; members = members; tasks = l.tasks })

    pub add_pool-IsLinked :
        (p : Pool fl) (b : Accounts fl)
        → IsLinked fl a
        → add_pool fl host p a ≡ ok b
        → IsLinked fl b
    unfolding add_pool
    add_pool-IsLinked p b l h =
        let (_, _, h1) =
          and_then-Passed (fail_if (is_some (find_pool fl p.id a.pools)) (pool_exists p.id)) _ h in
        let (u, good, h2) = and_then-Passed (check_pool fl host a p) _ h1 in
        pools-IsLinked (a.pools ++ p ∷ []) b
          (All-append _ a.pools (p ∷ []) l.members (checked-PoolLinked fl host a p u good, tt)) l h2

    pub edit_pool-IsLinked :
        (id : Text) (apply : Pool fl → Result EditProblem (Pool fl)) (b : Accounts fl)
        → IsLinked fl a
        → edit_pool fl host id apply a ≡ ok b
        → IsLinked fl b
    unfolding edit_pool
    edit_pool-IsLinked id apply b l h =
        let (p, _, h1) = and_then-Passed (found (unknown_pool id) (find_pool fl id a.pools)) _ h in
        let (edited, _, h2) = and_then-Passed (apply p) _ h1 in
        let (_, _, h3) = and_then-Passed (fail_if (not (edited.id == id)) (id_fixed id)) _ h2 in
        let (u, good, h4) = and_then-Passed (check_pool fl host a edited) _ h3 in
        pools-IsLinked (replace_pool fl id edited a.pools) b
          (All-replace_pool _ id edited (checked-PoolLinked fl host a edited u good) a.pools
            l.members)
          l h4

    pub remove_pool-IsLinked :
        (id : Text) (b : Accounts fl)
        → IsLinked fl a
        → remove_pool fl host id a ≡ ok b
        → IsLinked fl b
    unfolding remove_pool
    remove_pool-IsLinked id b l h =
        let (_, _, h1) = and_then-Passed (found (unknown_pool id) (find_pool fl id a.pools)) _ h in
        let (_, _, h2) =
          and_then-Passed
            (fail_if (not (is_empty (pool_tasks fl host id a)))
              (pool_used (pool_tasks fl host id a)))
            _ h1 in
        pools-IsLinked (drop_pool fl id a.pools) b (All-drop_pool _ id a.pools l.members) l h2
