-- ===== src/Accounts/Removal.antt =====
-- `RemoveProvider` of internal/app/provider.go takes away a provider only when nothing names it.
use claudeq.Prelude.{
  ◌≡◌, refl, ◌∙◌, Bool, or-map, true, false, not, ◌&&◌, List, [], ◌∷◌, ◌++◌, Text, ◌==◌, All, map,
  keep_if, is_empty, if◌then◌else◌,
}
use claudeq.Prelude.Floats.{Floats}
use claudeq.Prelude.Filter.{All-map_both}
use claudeq.Prelude.Result.{Result, ok, and_then-Passed, fail_if}
use claudeq.Task.Model.{Task}
use claudeq.Store.Config.{Provider}
use claudeq.Store.State.{State, forget_provider}
use claudeq.Provider.Model.{Pool, PoolMember}
use claudeq.Accounts.Lists.{
  EditProblem, unknown_provider, only_provider, still_used, find_provider, drop_provider, found,
  Accounts, pools_with, member_pools, provider_refs, is_unused, with_providers,
}
use claudeq.Accounts.Edit.{Host, is_only, save, remove_provider}
use claudeq.Accounts.Links.{TaskLinked, PoolLinked, IsLinked, drop-configured, drop-usable}
use claudeq.Accounts.Changes.{fail_if_inv, saved-IsLinked}

-- A filter that keeps nothing has refused every element.
none_kept :
    {A B : Type 0} (q : A → Bool) (f : A → B) (xs : List A)
    → is_empty (map f (keep_if q xs)) ≡ true
    → All (λ x. q x ≡ false) xs
unfolding keep_if
none_kept q f [] h = tt
none_kept q f (x ∷ xs) h = by_test (q x) h (none_kept q f xs)
  where
    by_test :
        (b : Bool)
        → is_empty (map f (if b then x ∷ keep_if q xs else keep_if q xs)) ≡ true
        → (is_empty (map f (keep_if q xs)) ≡ true → All (λ y. q y ≡ false) xs)
        → (b ≡ false) × All (λ y. q y ≡ false) xs
    by_test true k rest = cc
    by_test false k rest = (refl, rest k)

four_parts :
    (d f p t : Bool)
    → not (not d && f && p && t) ≡ false
    → (d ≡ false) × (f ≡ true) × (p ≡ true) × (t ≡ true)
four_parts false true true true h = (refl, refl, refl, refl)
four_parts true f p t h = cc
four_parts false false p t h = cc
four_parts false true false t h = cc
four_parts false true true false h = cc

empty_parts :
    (xs ys : List Text) → is_empty (xs ++ ys) ≡ true → (is_empty xs ≡ true) × (is_empty ys ≡ true)
empty_parts [] ys h = (refl, h)
empty_parts (x ∷ xs) ys h = cc

module _ (fl : Floats) (id : Text) where
  members_other :
      (pool : Text) (ms : List (PoolMember fl))
      → is_empty (member_pools fl pool id ms) ≡ true
      → All (λ (m : PoolMember fl). (m.provider_id == id) ≡ false) ms
  members_other pool [] h = tt
  members_other pool (m ∷ ms) h = by_test (m.provider_id == id) h (members_other pool ms)
    where
      by_test :
          (b : Bool)
          → is_empty (if b then pool ∷ member_pools fl pool id ms else member_pools fl pool id ms)
            ≡ true
          → (is_empty (member_pools fl pool id ms) ≡ true
              → All (λ (n : PoolMember fl). (n.provider_id == id) ≡ false) ms)
          → (b ≡ false) × All (λ (n : PoolMember fl). (n.provider_id == id) ≡ false) ms
      by_test true k rest = cc
      by_test false k rest = (refl, rest k)

  pools_other :
      (ps : List (Pool fl))
      → is_empty (pools_with fl id ps) ≡ true
      → All
          (λ (p : Pool fl). All (λ (m : PoolMember fl). (m.provider_id == id) ≡ false) p.members)
          ps
  unfolding pools_with
  pools_other [] h = tt
  pools_other (p ∷ ps) h =
      let (one, rest) = empty_parts (member_pools fl p.id id p.members) (pools_with fl id ps) h in
      (members_other p.id p.members one, pools_other ps rest)

  module _ (providers : List Provider) where
    pools_left :
        (ps : List (Pool fl))
        → is_empty (pools_with fl id ps) ≡ true
        → All (PoolLinked fl providers) ps
        → All (PoolLinked fl (drop_provider id providers)) ps
    pools_left ps h linked =
        All-map_both
          (λ (p : Pool fl) other l.
            All-map_both (λ (m : PoolMember fl) o c. drop-configured id m.provider_id providers o c)
              p.members other l)
          ps (pools_other ps h) linked

    tasks_left :
        (ts : List Task)
        → is_empty (map (λ (t : Task). t.id) (keep_if (λ t. t.provider == id) ts)) ≡ true
        → All (TaskLinked providers) ts
        → All (TaskLinked (drop_provider id providers)) ts
    tasks_left ts h linked =
        All-map_both
          (λ (t : Task) other l.
            or-map (is_empty t.provider) (drop-configured id t.provider providers other) l)
          ts (none_kept (λ (t : Task). t.provider == id) _ ts h) linked

pub remove_provider-IsLinked :
    (fl : Floats) (host : Host fl) (a b : Accounts fl) (id : Text) (s s' : State)
    → IsLinked fl a
    → remove_provider fl host id a s ≡ ok (b, s')
    → IsLinked fl b
unfolding remove_provider provider_refs
remove_provider-IsLinked fl host a b id s s' l h =
    let (_, _, h1) =
      and_then-Passed (found (unknown_provider id) (find_provider id a.config.providers)) _ h in
    let (_, _, h2) =
      and_then-Passed (fail_if (is_only a.config.providers) (only_provider id)) _ h1 in
    let refs = provider_refs fl a id in
    let (u, unused, h3) =
      and_then-Passed (fail_if (not (is_unused fl refs)) (still_used refs)) _ h2 in
    let left = drop_provider id a.config.providers in
    let (c, kept, h4) = and_then-Passed (save fl host (with_providers fl a left)) _ h3 in
    let (d, _, p, t) = four_parts _ _ _ _ (fail_if_inv _ _ u unused) in
    saved-IsLinked fl host a left b
      (drop-usable id a.config.settings.default_provider a.config.providers d l.usable)
      (pools_left fl id a.config.providers a.pools p l.members)
      (tasks_left fl id a.config.providers a.config.tasks t l.tasks) (kept ∙ same h4)
  where
    same :
        {c : Accounts fl}
        → ◌≡◌ {A = Result EditProblem (Accounts fl × State)}
            (ok (c, forget_provider id s))
            (ok (b, s'))
        → ◌≡◌ {A = Result EditProblem (Accounts fl)} (ok c) (ok b)
    same k = cc
