-- ===== src/Accounts/Sequence.antt =====
-- Edits of the providers and pools, one after another, as internal/app/provider.go and
-- internal/app/pool.go make them. An edit that is refused leaves everything as it is.
use claudeq.Prelude.{◌≡◌, refl, Bool, List, [], ◌∷◌, Text}
use mathlib.Core.Path.{subst}
use claudeq.Prelude.Floats.{Floats}
use claudeq.Prelude.Result.{Result, ok, err, ◌>>=◌, ok-injective}
use claudeq.Store.State.{State}
use claudeq.Provider.Model.{Instance, Pool}
use claudeq.Accounts.Lists.{EditProblem, Accounts}
use claudeq.Accounts.Edit.{
  Host, add_provider, edit_provider, set_provider_enabled, remove_provider, set_default_provider,
  add_pool, edit_pool, remove_pool,
}
use claudeq.Accounts.Links.{IsLinked}
use claudeq.Accounts.Changes.{
  add_provider-IsLinked, edit_provider-IsLinked, set_provider_enabled-IsLinked,
  set_default_provider-IsLinked,
}
use claudeq.Accounts.Removal.{remove_provider-IsLinked}
use claudeq.Accounts.Pools.{add_pool-IsLinked, edit_pool-IsLinked, remove_pool-IsLinked}

module _ (fl : Floats) where
  -- One call of the interface.
  pub data Change : Type 0 where
    adding : Instance → Change
    editing : Text → (Instance → Result EditProblem Instance) → Change
    switching : Text → Bool → Change
    removing : Text → Change
    defaulting : Text → Change
    adding_pool : Pool fl → Change
    editing_pool : Text → (Pool fl → Result EditProblem (Pool fl)) → Change
    removing_pool : Text → Change

  -- The stored configuration and scheduling state.
  pub record Stored : Type 0 where
    pub accounts : Accounts fl
    pub state : State

  abbrev with_state : State → Result EditProblem (Accounts fl) → Result EditProblem Stored
  with_state s r = r >>= λ a. ok (record { accounts = a; state = s })

  abbrev both : Result EditProblem (Accounts fl × State) → Result EditProblem Stored
  both r = r >>= λ p. ok (record { accounts = p.0; state = p.1 })

  module _ (host : Host fl) where
    unfoldable pub perform : Change → Stored → Result EditProblem Stored
    unfolding add_provider edit_provider set_provider_enabled remove_provider set_default_provider
        add_pool edit_pool remove_pool
    perform (adding inst) s = with_state s.state (add_provider fl host inst s.accounts)
    perform (editing id apply) s = with_state s.state (edit_provider fl host id apply s.accounts)
    perform (switching id enabled) s =
        with_state s.state (set_provider_enabled fl host id enabled s.accounts)
    perform (removing id) s = both (remove_provider fl host id s.accounts s.state)
    perform (defaulting id) s = with_state s.state (set_default_provider fl host id s.accounts)
    perform (adding_pool p) s = with_state s.state (add_pool fl host p s.accounts)
    perform (editing_pool id apply) s = with_state s.state (edit_pool fl host id apply s.accounts)
    perform (removing_pool id) s = with_state s.state (remove_pool fl host id s.accounts)

    abbrev kept_or : Stored → Result EditProblem Stored → Stored
    kept_or s (ok s') = s'
    kept_or s (err e) = s

    unfoldable pub perform_all : List Change → Stored → Stored
    unfolding perform
    perform_all [] s = s
    perform_all (c ∷ cs) s = perform_all cs (kept_or s (perform c s))

    by_state :
        (s : State) (r : Result EditProblem (Accounts fl)) (t : Stored)
        → ((a : Accounts fl) → r ≡ ok a → IsLinked fl a)
        → with_state s r ≡ ok t
        → IsLinked fl t.accounts
    by_state s (err e) t f h = cc
    by_state s (ok a) t f h =
        subst (λ (x : Stored). IsLinked fl x.accounts) (ok-injective _ t h) (f a refl)

    by_both :
        (r : Result EditProblem (Accounts fl × State)) (t : Stored)
        → ((a : Accounts fl) (s : State) → r ≡ ok (a, s) → IsLinked fl a)
        → both r ≡ ok t
        → IsLinked fl t.accounts
    by_both (err e) t f h = cc
    by_both (ok (a, s)) t f h =
        subst (λ (x : Stored). IsLinked fl x.accounts) (ok-injective _ t h) (f a s refl)

    perform-IsLinked :
        (c : Change) (s t : Stored)
        → IsLinked fl s.accounts
        → perform c s ≡ ok t
        → IsLinked fl t.accounts
    unfolding perform
    perform-IsLinked (adding inst) s t l h =
        by_state s.state _ t (λ b. add_provider-IsLinked fl host s.accounts inst b l) h
    perform-IsLinked (editing id apply) s t l h =
        by_state s.state _ t (λ b. edit_provider-IsLinked fl host s.accounts id apply b l) h
    perform-IsLinked (switching id enabled) s t l h =
        by_state s.state _ t (λ b. set_provider_enabled-IsLinked fl host s.accounts id enabled b l)
          h
    perform-IsLinked (removing id) s t l h =
        by_both _ t (λ b s'. remove_provider-IsLinked fl host s.accounts b id s.state s' l) h
    perform-IsLinked (defaulting id) s t l h =
        by_state s.state _ t (λ b. set_default_provider-IsLinked fl host s.accounts id b l) h
    perform-IsLinked (adding_pool p) s t l h =
        by_state s.state _ t (λ b. add_pool-IsLinked fl host s.accounts p b l) h
    perform-IsLinked (editing_pool id apply) s t l h =
        by_state s.state _ t (λ b. edit_pool-IsLinked fl host s.accounts id apply b l) h
    perform-IsLinked (removing_pool id) s t l h =
        by_state s.state _ t (λ b. remove_pool-IsLinked fl host s.accounts id b l) h

    -- When the default provider is one that is switched on, every fallback, every pool member and
    -- every provider of a task is a configured provider, then so it is after any list of calls that
    -- add, edit, switch, remove or make default a provider and that add, edit or remove a pool, with
    -- the calls among them that are refused leaving everything as it was.
    pub perform_all-IsLinked :
        (cs : List Change) (s : Stored)
        → IsLinked fl s.accounts
        → IsLinked fl (perform_all cs s).accounts
    unfolding perform_all
    perform_all-IsLinked [] s l = l
    perform_all-IsLinked (c ∷ cs) s l =
        perform_all-IsLinked cs (kept_or s (perform c s))
          (by_result (perform c s) (λ t. perform-IsLinked c s t l))
      where
        by_result :
            (r : Result EditProblem Stored)
            → ((t : Stored) → r ≡ ok t → IsLinked fl t.accounts)
            → IsLinked fl (kept_or s r).accounts
        by_result (ok t) f = f t refl
        by_result (err e) f = l
