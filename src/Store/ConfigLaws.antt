-- ===== src/Store/ConfigLaws.antt =====
-- The migration of an old configuration is done once.
use claudeq.Prelude.{◌≡◌, true, false, not, ◌||◌, is_empty, is_some, arith}
use claudeq.Store.Config.{
  Config, first_id, migrate, migrate_permissions, migrate_providers, migrate_default, migrate_beta,
  migrate_claude, migrate_feedback, seed_providers,
}

-- Nothing is left for the migration to change.
pub record IsCurrent (c : Config) : Type 0 where
  pub no_skip : c.settings.legacy_skip_permissions ≡ false
  pub has_provider : is_empty c.providers ≡ false
  pub has_default : is_empty c.settings.default_provider ≡ false
  pub no_beta :
      (is_some c.settings.legacy_beta_features || is_some c.settings.legacy_show_codex_beta) ≡ false
  pub no_claude :
      (not (is_empty c.settings.legacy_claude_path)
        || not (is_empty c.settings.legacy_default_model))
      ≡ false
  pub no_feedback :
      (not (is_empty c.settings.legacy_feedback_provider)
        || not (is_empty c.settings.legacy_feedback_model))
      ≡ false

migrate_of_current : (c : Config) → IsCurrent c → migrate c ≡ (c, false)
unfolding migrate migrate_permissions migrate_providers migrate_default migrate_beta migrate_claude
    migrate_feedback
migrate_of_current c h =
    simp (h.no_skip, h.has_provider, h.has_default, h.no_beta, h.no_claude, h.no_feedback)

-- The provider that a migration makes the default has an id.
abbrev pub CanDefault : Config → Type 0
CanDefault c =
    (not (is_empty c.settings.default_provider)
      || (is_empty c.providers || not (is_empty (first_id c.providers))))
    ≡ true

migrate-IsCurrent : (c : Config) → CanDefault c → IsCurrent (migrate c).0
unfolding migrate migrate_permissions migrate_providers migrate_default migrate_beta migrate_claude
    migrate_feedback seed_providers
migrate-IsCurrent c h = record {
  no_skip = ground arith;
  has_provider = ground arith;
  has_default = ground (arith, h);
  no_beta = ground arith;
  no_claude = ground arith;
  no_feedback = ground arith;
}

-- A migrated configuration is not changed by another migration, if the first of its providers has
-- an id or there is a default or no provider at all.
pub migrate-migrate : (c : Config) → CanDefault c → migrate (migrate c).0 ≡ ((migrate c).0, false)
migrate-migrate c h = migrate_of_current (migrate c).0 (migrate-IsCurrent c h)
