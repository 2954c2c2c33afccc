-- ===== src/Engine/Announce.antt =====
-- The readiness pass of a tick: `noteProviderHealth`, `refreshProviderHealth` and
-- `forgetUnknownProviders` of internal/engine/engine.go.
use claudeq.Prelude.{
  Bool, true, false, ◌||◌, Option, none, some, List, [], ◌∷◌, ◌++◌, Text, codes, ◌==◌,
  if◌then◌else◌, is_empty, is_some, map, any,
}
use claudeq.Prelude.Floats.{Floats}
use claudeq.Prelude.Assoc.{Assoc, lookup, insert}
use claudeq.Task.Model.{Task, is_script}
use claudeq.Store.State.{State, notified_provider_state, set_notified_provider_state}
use claudeq.Provider.Model.{Instance}
use claudeq.Provider.Set.{Set}
use claudeq.Provider.Health.{
  Health, HealthState, ready, not_installed, not_authenticated, invalid_configuration, disabled,
  check_failed, other_state, may_start,
}
use claudeq.Provider.Selection.{Resolved}
use claudeq.Engine.Assign.{Assignment}

-- `string(h.State)`
abbrev pub state_text : HealthState → Text
state_text ready = codes "ready"
state_text not_installed = codes "not_installed"
state_text not_authenticated = codes "not_authenticated"
state_text invalid_configuration = codes "invalid_configuration"
state_text disabled = codes "disabled"
state_text check_failed = codes "check_failed"
state_text (other_state s) = s

-- What is sent about a provider: that it works again, or that it cannot run tasks.
pub data Announcement : Type 0 where
  ready_again : Instance → Announcement
  cannot_run_tasks : Instance → Announcement

-- The memo in memory, the one in the state file, and what was sent, oldest first.
pub record Notices : Type 0 where
  pub announced : Assoc Text
  pub state : State
  pub sent : List Announcement

abbrev pub previous_state : Option Text → Option State → Text → Text
previous_state (some s) st id = s
previous_state none (some st) id = notified_provider_state st id
previous_state none none id = []

-- A first look at a working provider is nothing to announce.
abbrev pub announcement : Instance → Bool → Bool → List Announcement
announcement inst true true = []
announcement inst true false = ready_again inst ∷ []
announcement inst false first_look = cannot_run_tasks inst ∷ []

-- `noteProviderHealth`: `st` is the state that the pass loaded, if it could; `text` is the health as
-- the memo keeps it.
unfoldable pub note_state : Option State → Instance → Text → Bool → Bool → Notices → Notices
unfolding notified_provider_state set_notified_provider_state lookup insert
note_state st inst text is_fit has_notifier n =
    let previous = previous_state (lookup inst.id n.announced) st inst.id in
    let noted = insert inst.id text n.announced in
    if previous == text then record n { announced = noted } else record {
      announced = noted;
      state = set_notified_provider_state inst.id text n.state;
      sent =
          if has_notifier then n.sent ++ announcement inst is_fit (is_empty previous) else n.sent;
    }

unfoldable pub note_provider_health : Option State → Instance → Health → Bool → Notices → Notices
unfolding note_state may_start
note_provider_health st inst h has_notifier n =
    note_state st inst (state_text h.state) (may_start h) has_notifier n

-- `forgetUnknownProviders`
unfoldable pub forget_unknown : List Text → Assoc Text → Assoc Text
unfolding any
forget_unknown known [] = []
forget_unknown known (entry ∷ rest) =
    let others = forget_unknown known rest in
    if any (λ id. id == entry.0) known then entry ∷ others else others

module _ (fl : Floats) where
  -- The id that a task asked for.
  abbrev pub asked_id : Task → Text
  asked_id t = if is_empty t.pool then t.provider else t.pool

  abbrev pub nameless : Text → Instance
  nameless id = record {
    id = id;
    kind = [];
    name = id;
    binary_path = [];
    config_dir = [];
    default_model = [];
    fallback_provider = [];
    fallback_model = [];
    enabled = false;
  }

  -- What an unresolved task is reported as: an invalid configuration under the id it asked for.
  abbrev pub note_problem : Option State → Bool → Task → Notices → Notices
  note_problem st has_notifier t n =
      note_state st (nameless (asked_id t)) (state_text invalid_configuration) false has_notifier n

  -- The verdicts so far, the notices, and whether the caller went away during a probe.
  pub record Pass : Type 0 where
    pub verdicts : Assoc Health
    pub notices : Notices
    pub cut_short : Bool

  abbrev pub probed : Option State → Bool → Instance → Option Health → Pass → Pass
  probed st has_notifier inst none p = record p { cut_short = true }
  probed st has_notifier inst (some h) p = record p {
    verdicts = insert inst.id h p.verdicts;
    notices = note_provider_health st inst h has_notifier p.notices;
  }

  abbrev pub probe_resolved :
      (Instance → Option Health) → Option State → Bool → Option (Resolved fl) → Pass → Pass
  probe_resolved fresh st has_notifier none p = p
  probe_resolved fresh st has_notifier (some res) p =
      if is_some (lookup res.inst.id p.verdicts)
      then p
      else probed st has_notifier res.inst (fresh res.inst) p

  abbrev pub probe_one :
      (Instance → Option Health) → Option State → Bool → Assignment fl → Pass → Pass
  probe_one fresh st has_notifier a p = elim a.problem [
    | some problem ↦ record p { notices = note_problem st has_notifier a.task p.notices }
    | none ↦ probe_resolved fresh st has_notifier a.resolved p
  ]

  -- The loop over the assignments. `fresh` is what `CheckFresh` answers for an instance, or `none` if
  -- the caller goes away meanwhile, which ends the loop.
  unfoldable pub probe_all :
      (Instance → Option Health) → Option State → Bool → List (Assignment fl) → Pass → Pass
  unfolding is_script lookup insert note_provider_health note_state
  probe_all fresh st has_notifier [] p = p
  probe_all fresh st has_notifier (a ∷ rest) p =
      probe_all fresh st has_notifier rest
        (if p.cut_short || is_script a.task then p else probe_one fresh st has_notifier a p)

  -- The ids that something still refers to.
  unfoldable pub known_ids : Set fl → List (Assignment fl) → List Text
  unfolding is_script
  known_ids set [] = map (λ (inst : Instance). inst.id) set.instances
  known_ids set (a ∷ rest) =
      let more = known_ids set rest in if is_script a.task then more else asked_id a.task ∷ more

  abbrev pub forget_others : List Text → Notices → Notices
  forget_others known n = record n { announced = forget_unknown known n.announced }

  -- `refreshProviderHealth`
  unfoldable pub refresh_provider_health :
      (Instance → Option Health)
      → Option State
      → Bool
      → Set fl
      → List (Assignment fl)
      → Notices
      → Pass
  unfolding probe_all known_ids forget_unknown
  refresh_provider_health fresh st has_notifier set due n =
      let out =
        probe_all fresh st has_notifier due
          (record { verdicts = []; notices = n; cut_short = false }) in
      if out.cut_short
      then out
      else record out { notices = forget_others (known_ids set due) out.notices }
