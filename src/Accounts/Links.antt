-- ===== src/Accounts/Links.antt =====
-- A configuration whose references all lead somewhere, and what the edits of its lists keep of that.
use claudeq.Prelude.{
  ◌≡◌, Bool, or-map, true, false, not, ◌&&◌, ◌||◌, List, [], ◌∷◌, ◌++◌, Text, ◌==◌, All, any,
  is_empty, arith, text_eq_iff,
}
use claudeq.Prelude.Floats.{Floats}
use claudeq.Prelude.Filter.{All-map}
use claudeq.Task.Model.{Task}
use claudeq.Store.Config.{Provider}
use claudeq.Provider.Model.{Pool, PoolMember}
use claudeq.Accounts.Lists.{Accounts, replace_provider, drop_provider}
use claudeq.Accounts.Saved.{is_configured, HasFallback}

-- The default is a provider that is switched on.
abbrev pub is_usable : Text → List Provider → Bool
is_usable id ps = any (λ (p : Provider). p.id == id && p.enabled) ps

abbrev pub TaskLinked : List Provider → Task → Type 0
TaskLinked ps t = (is_empty t.provider || is_configured t.provider ps) ≡ true

module _ (fl : Floats) where
  abbrev pub PoolLinked : List Provider → Pool fl → Type 0
  PoolLinked ps pool =
      All (λ (m : PoolMember fl). is_configured m.provider_id ps ≡ true) pool.members

  -- The default provider is usable, and every fallback, pool member and provider of a task is
  -- configured.
  pub record IsLinked (a : Accounts fl) : Type 0 where
    pub usable : is_usable a.config.settings.default_provider a.config.providers ≡ true
    pub fallbacks : All (HasFallback a.config.providers) a.config.providers
    pub members : All (PoolLinked a.config.providers) a.pools
    pub tasks : All (TaskLinked a.config.providers) a.config.tasks

-- Every id that is configured stays so.
abbrev pub Keeps : List Provider → List Provider → Type 0
Keeps ps qs = (id : Text) → is_configured id ps ≡ true → is_configured id qs ≡ true

pub tasks-keep :
    (ps qs : List Provider)
    → Keeps ps qs
    → (ts : List Task) → All (TaskLinked ps) ts
    → All (TaskLinked qs) ts
tasks-keep ps qs k ts h =
    All-map (λ (t : Task) l. or-map (is_empty t.provider) (k t.provider) l) ts h

pub pools-keep :
    (fl : Floats) (ps qs : List Provider)
    → Keeps ps qs
    → (pools : List (Pool fl)) → All (PoolLinked fl ps) pools
    → All (PoolLinked fl qs) pools
pools-keep fl ps qs k pools h =
    All-map (λ (p : Pool fl) l. All-map (λ (m : PoolMember fl) c. k m.provider_id c) p.members l)
      pools h

any-append :
    (p : Provider → Bool) (ps qs : List Provider) → any p ps ≡ true → any p (ps ++ qs) ≡ true
unfolding any
any-append p [] qs h = cc
any-append p (x ∷ xs) qs h = or-map (p x) (any-append p xs qs) h

pub append-Keeps : (ps qs : List Provider) → Keeps ps (ps ++ qs)
append-Keeps ps qs id h = any-append (λ p. p.id == id) ps qs h

pub append-usable :
    (id : Text) (ps qs : List Provider) → is_usable id ps ≡ true → is_usable id (ps ++ qs) ≡ true
append-usable id ps qs h = any-append (λ p. p.id == id && p.enabled) ps qs h

-- A provider is replaced by one of its id.
pub replace-Keeps :
    (id : Text) (new : Provider) (ps : List Provider)
    → (new.id == id) ≡ true
    → Keeps ps (replace_provider id new ps)
unfolding replace_provider any
replace-Keeps id new [] same j h = h
replace-Keeps id new (p ∷ ps) same j h = ground (
  arith,
  same,
  h,
  text_eq_iff p.id id,
  text_eq_iff new.id id,
  text_eq_iff p.id j,
  text_eq_iff new.id j,
  replace-Keeps id new ps same j,
)

-- The default stays usable, unless it is the one that is replaced and is switched off.
pub replace-usable :
    (id d : Text) (new : Provider) (ps : List Provider)
    → (new.id == id) ≡ true
    → (not new.enabled && d == id) ≡ false
    → is_usable d ps ≡ true
    → is_usable d (replace_provider id new ps) ≡ true
unfolding replace_provider any
replace-usable id d new [] same on h = h
replace-usable id d new (p ∷ ps) same on h = ground (
  arith,
  same,
  on,
  h,
  text_eq_iff p.id id,
  text_eq_iff new.id id,
  text_eq_iff d id,
  text_eq_iff p.id d,
  text_eq_iff new.id d,
  replace-usable id d new ps same on,
)

-- Another id than the removed one stays configured, and usable.
pub drop-configured :
    (id j : Text) (ps : List Provider)
    → (j == id) ≡ false
    → is_configured j ps ≡ true
    → is_configured j (drop_provider id ps) ≡ true
unfolding drop_provider any
drop-configured id j [] other h = h
drop-configured id j (p ∷ ps) other h = ground (
  arith,
  other,
  h,
  text_eq_iff p.id id,
  text_eq_iff j id,
  text_eq_iff p.id j,
  drop-configured id j ps other,
)

pub drop-usable :
    (id j : Text) (ps : List Provider)
    → (j == id) ≡ false
    → is_usable j ps ≡ true
    → is_usable j (drop_provider id ps) ≡ true
unfolding drop_provider any
drop-usable id j [] other h = h
drop-usable id j (p ∷ ps) other h = ground (
  arith,
  other,
  h,
  text_eq_iff p.id id,
  text_eq_iff j id,
  text_eq_iff p.id j,
  drop-usable id j ps other,
)
