-- ===== src/Limit/GatesLaws.antt =====
-- The gates of all providers together (internal/limit/limit.go): after a block, and the earliest time
-- at which one reopens.
use claudeq.Prelude.{
  ◌≡◌, ◌≢◌, ◌≤◌, ◌⊎◌, inl, inr, refl, true, false, [], ◌∷◌, Text, ◌==◌, arith, if◌then◌else◌, not,
  map, keep_if, ap, Bool, ◌&&◌, ◌||◌, leb, text_eq_iff, text_eq_refl, sym, ◌∙◌, All, Any,
  Bool-cases,
}
use mathlib.Core.Path.{subst}
use claudeq.Prelude.Strings.{Time}
use claudeq.Prelude.Assoc.{lookup-insert}
use claudeq.Limit.Gate.{Gate, block, is_open, blocked_until}
use claudeq.Limit.GateLaws.{is_open-block}
use claudeq.Limit.Gates.{
  Gates, next_earliest, gate_for, block_provider, earliest_from, any_blocked_until, blocked,
}

-- The gates after a block, as a map.
block_provider-lookup :
    (gs : Gates) (id j : Text) (until : Time)
    → gate_for (block_provider gs id until) j
      ≡ (if id == j then block (gate_for gs id) until else gate_for gs j)
unfolding block_provider gate_for
block_provider-lookup gs id j until =
    ground (arith, lookup-insert id j (block (gate_for gs id) until) gs)

-- After one provider is blocked until some time, the gate of any provider is open at a moment just
-- when it was open at that moment before and, if it is the gate of this provider, the time is over;
-- and the gates of all other providers are as they were.
pub gate_for-block_provider :
    (gs : Gates) (id j : Text) (until now : Time)
    → (is_open now (gate_for (block_provider gs id until) j)
        ≡ (is_open now (gate_for gs j) && (not (id == j) || leb until now)))
      × (gate_for (block_provider gs id until) j
          ≡ (if id == j then gate_for (block_provider gs id until) id else gate_for gs j))
gate_for-block_provider gs id j until now = elim (Bool-cases (id == j)) [
  | inl e ↦
      let same = (text_eq_iff id j).0 e in
      (
        rw e (
            subst
              (λ k.
                is_open now (gate_for (block_provider gs id until) k)
                ≡ (is_open now (gate_for gs k) && leb until now))
              same own),
        rw e (ap (gate_for (block_provider gs id until)) (sym same)),
      )
  | inr e ↦
      let kept : gate_for (block_provider gs id until) j ≡ gate_for gs j =
        block_provider-lookup gs id j until ∙ (rw e refl) in
      (rw e (ap (is_open now) kept ∙ true_after (is_open now (gate_for gs j))), rw e kept)
]
  where
    true_after : (b : Bool) → b ≡ (b && true)
    true_after b = ground arith

    own_block : (g : Gate) → is_open now (block g until) ≡ (is_open now g && leb until now)
    own_block g = ground (arith, is_open-block now g until)

    own :
        is_open now (gate_for (block_provider gs id until) id)
        ≡ (is_open now (gate_for gs id) && leb until now)
    own =
        ap (is_open now) (block_provider-lookup gs id id until ∙ (rw (text_eq_refl id) refl))
        ∙ own_block (gate_for gs id)

-- The earliest time, of the closed gates and the one at hand.
pub record IsEarliest (now seed found : Time) (gs : Gates) : Type 0 where
  pub bounded : All (λ e. (is_open now e.1 ≡ true) ⊎ (found ≤ blocked_until now e.1)) gs
  pub under_seed : (seed ≡ 0) ⊎ ((found ≤ seed) × (found ≢ 0))
  pub reached :
      (found ≡ seed) ⊎ Any (λ e. (is_open now e.1 ≡ false) × (blocked_until now e.1 ≡ found)) gs
  pub none_closed : found ≡ 0 → All (λ e. is_open now e.1 ≡ true) gs

-- One round: an open gate changes nothing, a closed one gives the smaller time.
record IsRound (now seed next : Time) (g : Gate) : Type 0 where
  opened : is_open now g ≡ true → next ≡ seed
  closed : is_open now g ≡ false → (next ≢ 0) × (next ≤ blocked_until now g)
  either : (next ≡ seed) ⊎ ((is_open now g ≡ false) × (blocked_until now g ≡ next))
  falls : (seed ≡ 0) ⊎ ((next ≤ seed) × (next ≢ 0))

next_earliest-IsRound :
    (now seed : Time) (g : Gate) → IsRound now seed (next_earliest (blocked_until now g) seed) g
unfolding is_open blocked_until next_earliest
next_earliest-IsRound now seed g = ground arith

module _ (now seed next found : Time) (id : Text) (g : Gate) (gs : Gates)
    (r : IsRound now seed next g) (e : IsEarliest now next found gs) where
  cons-IsEarliest : IsEarliest now seed found ((id, g) ∷ gs)
  cons-IsEarliest = record {
    bounded = (
      elim (Bool-cases (is_open now g)) [
        | inl o ↦ inl o
        | inr c ↦ inr (ground (arith, r.closed c, e.under_seed))
      ],
      e.bounded,
    );
    under_seed = ground (arith, r.falls, e.under_seed);
    reached = elim e.reached [
      | inl p ↦ elim r.either [ inl q ↦ inl (p ∙ q) | inr (c, q) ↦ inr (inl (c, q ∙ sym p)) ]
      | inr a ↦ inr (inr a)
    ];
    none_closed = λ z. (
      elim (Bool-cases (is_open now g)) [
        | inl o ↦ o
        | inr c ↦ ground (arith, r.closed c, e.under_seed, z)
      ],
      e.none_closed z,
    );
  }

earliest_from-IsEarliest :
    (now seed : Time) (gs : Gates) → IsEarliest now seed (earliest_from now seed gs) gs
unfolding earliest_from
earliest_from-IsEarliest now seed [] = record {
  bounded = tt;
  under_seed = ground arith;
  reached = inl refl;
  none_closed = λ _. tt;
}
earliest_from-IsEarliest now seed ((id, g) ∷ gs) =
    let next = next_earliest (blocked_until now g) seed in
    cons-IsEarliest now seed next (earliest_from now next gs) id g gs
      (next_earliest-IsRound now seed g) (earliest_from-IsEarliest now next gs)

-- The time at which the queue continues: zero when no gate is closed, else the first time at which
-- a closed gate reopens.
pub any_blocked_until-IsEarliest :
    (now : Time) (gs : Gates) → IsEarliest now 0 (any_blocked_until now gs) gs
unfolding any_blocked_until
any_blocked_until-IsEarliest now gs = earliest_from-IsEarliest now 0 gs

-- What `Blocked` lists is just the providers whose gate is closed, with the time of the gate.
pub blocked-keep_if :
    (now : Time) (gs : Gates)
    → blocked now gs ≡ map (λ e. (e.0, e.1.closed_until)) (keep_if (λ e. not (is_open now e.1)) gs)
unfolding blocked keep_if is_open blocked_until
blocked-keep_if now [] = refl
blocked-keep_if now ((id, g) ∷ gs) = ground (arith, blocked-keep_if now gs)
