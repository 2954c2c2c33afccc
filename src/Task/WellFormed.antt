-- ===== src/Task/WellFormed.antt =====
-- What a task must be to be stored, said without the order of the checks, and that `Validate`
-- accepts just these tasks.
use claudeq.Prelude.{
  ◌≤◌, ◌≡◌, ◌≢◌, ◌↔◌, ◌⊎◌, inl, inr, refl, true, false, not, ◌&&◌, Option, none, List, [], ◌∷◌,
  Text, arith, is_empty, All, any, text_eq_iff, text_eq, false_iff, eqb_iff, ltb, length,
}
use claudeq.Prelude.Ladder.{
  refuse-none, refuse-none_last, attempt-none, attempt-none_last, iff_refl, not-false, nonempty_iff,
  empty_iff, either_empty_iff,
}
use claudeq.Prelude.Strings.{Time, is_control, trim_space}
use claudeq.Task.Model.{
  Task, Trigger, asap, fixed, cron, unknown_trigger, Kind, unset, agent, script, unknown_kind,
  Permissions, ask, skip, unknown_permissions,
}
use claudeq.Task.Checks.{
  first_setting, check_script, is_skip, is_cron, prompt_problem, is_id_head, is_id_rune,
  check_runes, check_id, surrounding_space, too_long, control_character, script_sets, script_skips,
  script_backfills, needs_fixed_at, bad_cron, depends_on_itself, bad_dependency, by_kind,
  missing_id, missing_working_dir, provider_and_pool, bad_group, recurring_depends, check_name,
  max_group_len, check_group, check_kind, check_permissions, check_dependencies, check_cron,
  check_trigger, validate,
}

-- A letter or a digit, and then letters, digits, dots, dashes and underscores.
abbrev pub IsId : Text → Type 0
IsId [] = ⊥
IsId (r ∷ rs) = (is_id_head r ≡ true) × All (λ c. is_id_rune c ≡ true) rs

abbrev pub IsGroup : Text → Type 0
IsGroup name =
    (name ≡ trim_space name) × (length name ≤ max_group_len) × (any is_control name ≡ false)

-- A script job names nothing that steers a model.
pub record IsModelFree (t : Task) : Type 0 where
  pub no_provider : t.provider ≡ []
  pub no_pool : t.pool ≡ []
  pub no_model : t.model ≡ []
  pub no_effort : t.reasoning_effort ≡ []
  pub keeps_prompts : t.permissions ≢ skip
  pub no_backfill : t.backfill ≡ false

abbrev pub KindFits : Kind → Task → Type 0
KindFits unset t = Unit
KindFits agent t = Unit
KindFits script t = IsModelFree t
KindFits (unknown_kind k) t = ⊥

abbrev pub TriggerFits : (Text → Option (Time → Time)) → Trigger → Task → Type 0
TriggerFits parse asap t = Unit
TriggerFits parse fixed t = t.fixed_at ≢ 0
TriggerFits parse cron t = check_cron parse t.cron_expr ≡ none
TriggerFits parse (unknown_trigger tr) t = ⊥

abbrev pub PermissionsFit : Permissions → Type 0
PermissionsFit ask = Unit
PermissionsFit skip = Unit
PermissionsFit (unknown_permissions p) = ⊥

pub record IsWellFormed (parse : Text → Option (Time → Time)) (t : Task) : Type 0 where
  pub has_id : t.id ≢ []
  pub has_prompt : t.prompt ≢ []
  pub has_dir : t.working_dir ≢ []
  pub kind_fits : KindFits t.kind t
  pub one_target : (t.provider ≡ []) ⊎ (t.pool ≡ [])
  pub trigger_fits : TriggerFits parse t.trigger t
  pub group_fits : (t.group ≡ []) ⊎ IsGroup t.group
  pub permissions_fit : PermissionsFit t.permissions
  pub runs_once : (t.depends_on ≡ []) ⊎ (t.trigger ≢ cron)
  pub others : All (λ dep. (dep ≢ t.id) × IsId dep) t.depends_on

check_later : (rs : Text) → (check_runes true rs ≡ none) ↔ All (λ c. is_id_rune c ≡ true) rs
unfolding check_runes
check_later [] = ((λ _. tt), λ _. refl)
check_later (r ∷ rs) = refuse-none _ _ _ (not-false (is_id_rune r)) (check_later rs)

pub check_id_iff : (id : Text) → (check_id id ≡ none) ↔ IsId id
unfolding check_id
check_id_iff [] = ((λ h. cc), λ h. absurd h)
check_id_iff (r ∷ rs) = refuse-none _ _ _ (not-false (is_id_head r)) (check_later rs)

fits_60 : (name : Text) → (ltb max_group_len (length name) ≡ false) ↔ (length name ≤ max_group_len)
fits_60 name = ground arith

check_name_iff : (g : Text) → (check_name g ≡ none) ↔ IsGroup g
unfolding check_name
check_name_iff g =
    let chain =
      refuse-none _ surrounding_space _ (not_same_iff g)
        (refuse-none _ too_long _ (fits_60 g) (refuse-none_last _ control_character iff_refl)) in
    ((λ h. let (p, (q, r)) = chain.0 h in (p, q, r)), λ h. chain.1 (h.0, (h.1, h.2)))
  where
    not_same_iff :
        (name : Text) → (not (text_eq name (trim_space name)) ≡ false) ↔ (name ≡ trim_space name)
    not_same_iff name = ground (arith, text_eq_iff name (trim_space name))

pub check_group_iff : (g : Text) → (check_group g ≡ none) ↔ ((g ≡ []) ⊎ IsGroup g)
unfolding check_group
check_group_iff [] = ((λ _. inl refl), λ _. refl)
check_group_iff (r ∷ g) = (
  (λ h. inr ((check_name_iff (r ∷ g)).0 h)),
  λ h. elim h [ inl e ↦ cc | inr k ↦ (check_name_iff (r ∷ g)).1 k ],
)

is_skip_iff : (p : Permissions) → (is_skip p ≡ false) ↔ (p ≢ skip)
is_skip_iff ask = ((λ _ e. cc), λ _. refl)
is_skip_iff skip = ((λ h. cc), λ h. absurd (h refl))
is_skip_iff (unknown_permissions p) = ((λ _ e. cc), λ _. refl)

first_setting_iff :
    (t : Task)
    → (first_setting t ≡ none)
      ↔ ((t.provider ≡ []) × ((t.pool ≡ []) × ((t.model ≡ []) × (t.reasoning_effort ≡ []))))
unfolding first_setting
first_setting_iff t = refuse-none _ _ _ (empty_iff t.provider) (
    refuse-none _ _ _ (empty_iff t.pool)
      (refuse-none _ _ _ (empty_iff t.model) (refuse-none_last _ _ (empty_iff t.reasoning_effort))))

check_script_iff : (t : Task) → (check_script t ≡ none) ↔ IsModelFree t
unfolding check_script
check_script_iff t =
    let chain = attempt-none _ script_sets _ (first_setting_iff t) (
      refuse-none _ script_skips _ (is_skip_iff t.permissions)
        (refuse-none_last _ script_backfills iff_refl)) in
    (
      (λ h.
          let ((a, (b, (c, d))), (e, f)) = chain.0 h in
          record {
            no_provider = a;
            no_pool = b;
            no_model = c;
            no_effort = d;
            keeps_prompts = e;
            no_backfill = f;
          }),
      λ h. chain.1 (
        (h.no_provider, (h.no_pool, (h.no_model, h.no_effort))),
        (h.keeps_prompts, h.no_backfill),
      ),
    )

by_kind_iff : (k : Kind) (t : Task) → (by_kind k (check_script t) ≡ none) ↔ KindFits k t
by_kind_iff unset t = ((λ _. tt), λ _. refl)
by_kind_iff agent t = ((λ _. tt), λ _. refl)
by_kind_iff script t = check_script_iff t
by_kind_iff (unknown_kind k) t = ((λ h. cc), λ h. absurd h)

check_trigger_iff :
    (parse : Text → Option (Time → Time)) (tr : Trigger) (t : Task)
    → (check_trigger parse tr t.fixed_at t.cron_expr ≡ none) ↔ TriggerFits parse tr t
check_trigger_iff parse asap t = ((λ _. tt), λ _. refl)
check_trigger_iff parse fixed t =
    refuse-none_last _ needs_fixed_at (ground (arith, eqb_iff t.fixed_at 0))
check_trigger_iff parse cron t = attempt-none_last _ bad_cron iff_refl
check_trigger_iff parse (unknown_trigger tr) t = ((λ h. cc), λ h. absurd h)

check_permissions_iff : (p : Permissions) → (check_permissions p ≡ none) ↔ PermissionsFit p
check_permissions_iff ask = ((λ _. tt), λ _. refl)
check_permissions_iff skip = ((λ _. tt), λ _. refl)
check_permissions_iff (unknown_permissions p) = ((λ h. cc), λ h. absurd h)

check_dependencies_iff :
    (id : Text) (deps : List Text)
    → (check_dependencies id deps ≡ none) ↔ All (λ dep. (dep ≢ id) × IsId dep) deps
unfolding check_dependencies
check_dependencies_iff id [] = ((λ _. tt), λ _. refl)
check_dependencies_iff id (dep ∷ deps) =
    let chain =
      refuse-none _ depends_on_itself _ (other dep) (
        attempt-none _ (bad_dependency dep) _ (check_id_iff dep)
          (check_dependencies_iff id deps)) in
    ((λ h. let (a, (b, c)) = chain.0 h in ((a, b), c)), λ h. chain.1 (h.0.0, (h.0.1, h.1)))
  where
    other : (dep' : Text) → (text_eq dep' id ≡ false) ↔ (dep' ≢ id)
    other dep' = false_iff (text_eq dep' id) (text_eq_iff dep' id)

is_cron_iff : (tr : Trigger) → (is_cron tr ≡ false) ↔ (tr ≢ cron)
is_cron_iff asap = ((λ _ e. cc), λ _. refl)
is_cron_iff fixed = ((λ _ e. cc), λ _. refl)
is_cron_iff cron = ((λ h. cc), λ h. absurd (h refl))
is_cron_iff (unknown_trigger t) = ((λ _ e. cc), λ _. refl)

once_iff :
    (deps : List Text) (tr : Trigger)
    → (not (is_empty deps) && is_cron tr ≡ false) ↔ ((deps ≡ []) ⊎ (tr ≢ cron))
once_iff [] tr = ((λ _. inl refl), λ _. refl)
once_iff (d ∷ deps) tr =
    ((λ h. inr ((is_cron_iff tr).0 h)), λ h. elim h [ inl e ↦ cc | inr n ↦ (is_cron_iff tr).1 n ])

module _ (parse : Text → Option (Time → Time)) (t : Task) where
  -- `Validate` returns nil for the tasks that are well formed, and for no others.
  pub validate_iff : (validate parse t ≡ none) ↔ IsWellFormed parse t
  unfolding validate check_kind
  validate_iff =
      let chain = refuse-none _ missing_id _ (nonempty_iff t.id) (
        refuse-none _ (prompt_problem t) _ (nonempty_iff t.prompt) (
          refuse-none _ missing_working_dir _ (nonempty_iff t.working_dir) (
            attempt-none _ (λ p. p) _ (by_kind_iff t.kind t)
              (refuse-none _ provider_and_pool _ (either_empty_iff t.provider t.pool) (
                attempt-none _ (λ p. p) _ (check_trigger_iff parse t.trigger t)
                  (attempt-none _ bad_group _ (check_group_iff t.group) (
                    attempt-none _ (λ p. p) _ (check_permissions_iff t.permissions)
                      (refuse-none _ recurring_depends _ (once_iff t.depends_on t.trigger)
                        (check_dependencies_iff t.id t.depends_on))))))))) in
      (
        (λ h.
            let (a, (b, (c, (d, (e, (f, (g, (k, (m, n))))))))) = chain.0 h in
            record {
              has_id = a;
              has_prompt = b;
              has_dir = c;
              kind_fits = d;
              one_target = e;
              trigger_fits = f;
              group_fits = g;
              permissions_fit = k;
              runs_once = m;
              others = n;
            }),
        λ w. chain.1 (
          w.has_id,
          (
            w.has_prompt,
            (
              w.has_dir,
              (
                w.kind_fits,
                (
                  w.one_target,
                  (w.trigger_fits, (w.group_fits, (w.permissions_fit, (w.runs_once, w.others)))),
                ),
              ),
            ),
          ),
        ),
      )
