-- ===== src/Provider/HealthLaws.antt =====
-- When the health checker answers from its cache.
use claudeq.Prelude.{
  ℕ, ◌+◌, ◌≡◌, refl, ap, ◌∙◌, Bool, true, false, ◌&&◌, Option, none, some, Text, ◌==◌,
  if◌then◌else◌, ltb, arith, text_eq_iff,
}
use claudeq.Prelude.Strings.{Time}
use claudeq.Prelude.Assoc.{Assoc, lookup, insert, lookup-insert}
use claudeq.Provider.Model.{Instance}
use claudeq.Provider.Health.{
  Health, CachedHealth, fingerprint, check, check_fresh, probe, reusable, ttl_or_default, or_fresh,
}

or_fresh_if :
    (b : Bool) (h : Health) (fresh : Health × Assoc CachedHealth) (cached : Assoc CachedHealth)
    → or_fresh (if b then some h else none) fresh cached ≡ (if b then (h, cached) else fresh)
or_fresh_if true h fresh cached = refl
or_fresh_if false h fresh cached = refl

just_put :
    (id other : Text) (entry : CachedHealth) (cached : Assoc CachedHealth)
    → id ≡ other
    → lookup other (insert id entry cached) ≡ some entry
just_put id other entry cached same =
    ground (arith, lookup-insert id other entry cached, text_eq_iff id other, same)

-- The verdict of a check that was not cut short serves the checks after it of the same id, just as
-- long as the settings that it depends on stay the same and its time to live is not over; the cache
-- then stays as it is. After that the provider is asked again.
pub check-check_fresh :
    (ttl : ℕ) (before inst : Instance) (earlier now : Time) (first answer : Option Health)
    (cut : Bool) (cached : Assoc CachedHealth)
    → before.id ≡ inst.id
    → check ttl inst now answer cut (check_fresh before earlier first false cached).1 ≡ (
        if fingerprint before == fingerprint inst
          && ltb now ((probe before earlier first).checked_at + ttl_or_default ttl)
        then (probe before earlier first, (check_fresh before earlier first false cached).1)
        else check_fresh inst now answer cut (check_fresh before earlier first false cached).1)
unfolding check check_fresh reusable
check-check_fresh ttl before inst earlier now first answer cut cached same =
    let h = probe before earlier first in
    let entry : CachedHealth = record {
      fingerprint = fingerprint before;
      health = h;
      at = h.checked_at;
    } in
    let after = insert before.id entry cached in
    let fresh = check_fresh inst now answer cut after in
    ap (λ o. or_fresh (reusable ttl inst now o) fresh after)
      (just_put before.id inst.id entry cached same)
    ∙ or_fresh_if
        (fingerprint before == fingerprint inst && ltb now (h.checked_at + ttl_or_default ttl)) h
        fresh after
