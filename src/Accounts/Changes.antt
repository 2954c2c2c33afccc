-- ===== src/Accounts/Changes.antt =====
-- Each operation on providers keeps the references of the configuration.
use claudeq.Prelude.{
  ◌≡◌, refl, ap, sym, ◌∙◌, Bool, true, false, not, ◌&&◌, ◌||◌, some, List, [], ◌∷◌, ◌++◌, Text,
  ◌==◌, All, any, is_some, if◌then◌else◌, arith, first,
}
use mathlib.Core.Path.{subst}
use claudeq.Prelude.Floats.{Floats}
use claudeq.Prelude.Result.{Result, ok, and_then-Passed, ok-injective, fail_if}
use claudeq.Prelude.Ladder.{not-false}
use claudeq.Store.Config.{Provider}
use claudeq.Provider.Model.{Instance}
use claudeq.Engine.Pass.{instance_of}
use claudeq.Accounts.Validate.{validate_instance}
use claudeq.Accounts.Lists.{
  EditProblem, unknown_provider, id_fixed, is_switched_off, stored, find_provider, replace_provider,
  checked, found, check_default, Accounts, find_pool, with_providers, normalize_fallback,
  expand_paths,
}
use claudeq.Accounts.Edit.{
  Host, save, prepared, add_provider, edit_provider, set_provider_enabled, set_default_provider,
}
use claudeq.Accounts.Saved.{save_inv}
use claudeq.Accounts.Links.{
  is_usable, TaskLinked, PoolLinked, IsLinked, Keeps, tasks-keep, pools-keep, append-Keeps,
  append-usable, replace-Keeps, replace-usable,
}

pub fail_if_inv :
    (b : Bool) (e : EditProblem) (u : Unit {0})
    → ◌≡◌ {A = Result EditProblem (Unit {0})} (fail_if b e) (ok u)
    → b ≡ false
fail_if_inv true e u h = cc
fail_if_inv false e u h = refl

-- An edited instance keeps its id when its paths and its fallback are put in order.
prepared-id : (fl : Floats) (host : Host fl) (i : Instance) → (prepared fl host i).id ≡ i.id
unfolding normalize_fallback expand_paths
prepared-id fl host i = ground arith

pub found_id :
    (id : Text) (ps : List Provider) (p : Provider)
    → found (unknown_provider id) (find_provider id ps) ≡ ok p
    → (p.id == id) ≡ true
unfolding find_provider first
found_id id [] p h = cc
found_id id (q ∷ qs) p h = by_test (q.id == id) (λ k. found_id id qs p k) refl h
  where
    by_test :
        (b : Bool)
        → (found (unknown_provider id) (first (λ r. r.id == id) qs) ≡ ok p → (p.id == id) ≡ true)
        → (q.id == id) ≡ b
        → found (unknown_provider id) (if b then some q else first (λ r. r.id == id) qs) ≡ ok p
        → (p.id == id) ≡ true
    by_test true f e k = subst (λ (x : Provider). (x.id == id) ≡ true) (ok-injective q p k) e
    by_test false f e k = f k

-- A provider that is the first of its id is usable if it is switched on.
found-usable :
    (id : Text) (ps : List Provider) (p : Provider)
    → found (unknown_provider id) (find_provider id ps) ≡ ok p
    → p.enabled ≡ true
    → is_usable id ps ≡ true
unfolding find_provider first any
found-usable id [] p h on = cc
found-usable id (q ∷ qs) p h on = by_test (q.id == id) (λ k. found-usable id qs p k on) h
  where
    by_test :
        (b : Bool)
        → (found (unknown_provider id) (first (λ r. r.id == id) qs) ≡ ok p → is_usable id qs ≡ true)
        → found (unknown_provider id) (if b then some q else first (λ r. r.id == id) qs) ≡ ok p
        → ((b && q.enabled) || is_usable id qs) ≡ true
    by_test true f k =
        subst (λ (x : Provider). (x.enabled || is_usable id qs) ≡ true) (sym (ok-injective q p k))
          (rw on refl)
    by_test false f k = f k

module _ (fl : Floats) (host : Host fl) (a : Accounts fl) where
  -- What a save of other providers needs, besides what it checks itself.
  pub saved-IsLinked :
      (ps : List Provider) (b : Accounts fl)
      → is_usable a.config.settings.default_provider ps ≡ true
      → All (PoolLinked fl ps) a.pools
      → All (TaskLinked ps) a.config.tasks
      → save fl host (with_providers fl a ps) ≡ ok b
      → IsLinked fl b
  saved-IsLinked ps b usable members tasks h =
      let (same, known) = save_inv fl host (with_providers fl a ps) b h in
      subst (IsLinked fl) (sym same)
        (record { usable = usable; fallbacks = known; members = members; tasks = tasks })

  kept-IsLinked :
      (ps : List Provider) (b : Accounts fl)
      → is_usable a.config.settings.default_provider ps ≡ true
      → Keeps a.config.providers ps
      → IsLinked fl a
      → save fl host (with_providers fl a ps) ≡ ok b
      → IsLinked fl b
  kept-IsLinked ps b usable keeps l h =
      saved-IsLinked ps b usable (pools-keep fl a.config.providers ps keeps a.pools l.members)
        (tasks-keep a.config.providers ps keeps a.config.tasks l.tasks) h

  pub add_provider-IsLinked :
      (inst : Instance) (b : Accounts fl)
      → IsLinked fl a
      → add_provider fl host inst a ≡ ok b
      → IsLinked fl b
  unfolding add_provider
  add_provider-IsLinked inst b l h =
      let (_, _, h1) =
        and_then-Passed (checked (validate_instance host.is_registered (prepared fl host inst))) _
          h in
      let (_, _, h2) =
        and_then-Passed
          (fail_if (is_some (find_provider (prepared fl host inst).id a.config.providers)) _) _
          h1 in
      let (_, _, h3) =
        and_then-Passed (fail_if (is_some (find_pool fl (prepared fl host inst).id a.pools)) _) _
          h2 in
      kept-IsLinked (a.config.providers ++ stored (prepared fl host inst) ∷ []) b
        (append-usable a.config.settings.default_provider a.config.providers _ l.usable)
        (append-Keeps a.config.providers _) l h3

  pub set_provider_enabled-IsLinked :
      (id : Text) (enabled : Bool) (b : Accounts fl)
      → IsLinked fl a
      → set_provider_enabled fl host id enabled a ≡ ok b
      → IsLinked fl b
  unfolding set_provider_enabled check_default
  set_provider_enabled-IsLinked id enabled b l h =
      let (p, is_p, h1) =
        and_then-Passed (found (unknown_provider id) (find_provider id a.config.providers)) _ h in
      let (u, allowed, h2) = and_then-Passed (check_default a.config id enabled) _ h1 in
      let new : Provider = record p { enabled = enabled } in
      let same = found_id id a.config.providers p is_p in
      kept-IsLinked (replace_provider id new a.config.providers) b
        (replace-usable id a.config.settings.default_provider new a.config.providers same
          (fail_if_inv _ _ u allowed) l.usable)
        (replace-Keeps id new a.config.providers same) l h2

  pub edit_provider-IsLinked :
      (id : Text) (apply : Instance → Result EditProblem Instance) (b : Accounts fl)
      → IsLinked fl a
      → edit_provider fl host id apply a ≡ ok b
      → IsLinked fl b
  unfolding edit_provider check_default
  edit_provider-IsLinked id apply b l h =
      let (p, _, h1) =
        and_then-Passed (found (unknown_provider id) (find_provider id a.config.providers)) _ h in
      let (edited, _, h2) = and_then-Passed (apply (instance_of p)) _ h1 in
      let (v, fixed, h3) = and_then-Passed (fail_if (not (edited.id == id)) (id_fixed id)) _ h2 in
      let new = prepared fl host edited in
      let (_, _, h4) = and_then-Passed (checked (validate_instance host.is_registered new)) _ h3 in
      let (u, allowed, h5) = and_then-Passed (check_default a.config id new.enabled) _ h4 in
      let same =
        ap (λ (x : Text). x == id) (prepared-id fl host edited)
        ∙ (not-false (edited.id == id)).0 (fail_if_inv _ _ v fixed) in
      kept-IsLinked (replace_provider id (stored new) a.config.providers) b
        (replace-usable id a.config.settings.default_provider (stored new) a.config.providers same
          (fail_if_inv _ _ u allowed) l.usable)
        (replace-Keeps id (stored new) a.config.providers same) l h5

  pub set_default_provider-IsLinked :
      (id : Text) (b : Accounts fl)
      → IsLinked fl a
      → set_default_provider fl host id a ≡ ok b
      → IsLinked fl b
  unfolding set_default_provider
  set_default_provider-IsLinked id b l h =
      let (p, is_p, h1) =
        and_then-Passed (found (unknown_provider id) (find_provider id a.config.providers)) _ h in
      let (u, on, h2) = and_then-Passed (fail_if (not p.enabled) (is_switched_off id)) _ h1 in
      let (same, known) = save_inv fl host _ b h2 in
      subst (IsLinked fl) (sym same) (record {
        usable =
            found-usable id a.config.providers p is_p
              ((not-false p.enabled).0 (fail_if_inv _ _ u on));
        fallbacks = known;
        members = l.members;
        tasks = l.tasks;
      })
