-- ===== src/Limit/GateLaws.antt =====
-- A gate keeps the longest known block, whatever the order of the reports.
use claudeq.Prelude.{◌≡◌, ◌≤◌, ◌<◌, ◌↔◌, refl, true, false, List, [], ◌∷◌, arith, ap, ◌∙◌, All}
use claudeq.Prelude.Strings.{Time}
use mathlib.Core.List.{Perm, Permᴰ}
use mathlib.Core.Logic.{∥∥₁_elim}
use claudeq.Limit.Gate.{Gate, block, is_open, blocked_until, block_all}

-- The gate is open after a block just when it was open before and the block is over.
pub is_open-block :
    (now : Time) (g : Gate) (until : Time)
    → (is_open now (block g until) ≡ true) ↔ ((is_open now g ≡ true) × (until ≤ now))
unfolding is_open block
is_open-block now g until = ground arith

-- The gate is open just when every reported limit is over and it was open at the start.
pub is_open-block_all :
    (now : Time) (g : Gate) (us : List Time)
    → (is_open now (block_all g us) ≡ true) ↔ ((is_open now g ≡ true) × All (λ u. u ≤ now) us)
unfolding block_all
is_open-block_all now g [] = ((λ h. (h, tt)), λ h. h.0)
is_open-block_all now g (u ∷ us) =
    let rest = is_open-block_all now (block g u) us in
    let here = is_open-block now g u in
    (
      (λ h. let (a, b) = rest.0 h in ((here.0 a).0, ((here.0 a).1, b))),
      λ h. rest.1 (here.1 (h.0, h.1.0), h.1.1),
    )

-- `BlockedUntil` is zero on an open gate, and else a time still to come.
pub blocked_until_iff :
    (now : Time) (g : Gate)
    → ((blocked_until now g ≡ 0) ↔ (is_open now g ≡ true))
      × (is_open now g ≡ false → now < blocked_until now g)
unfolding blocked_until is_open
blocked_until_iff now g = ground arith

block_comm : (g : Gate) (u v : Time) → block (block g u) v ≡ block (block g v) u
unfolding block
block_comm g u v = ground arith

block_all-permᴰ : {us vs : List Time} → Permᴰ us vs → (g : Gate) → block_all g us ≡ block_all g vs
unfolding block_all
block_all-permᴰ Permᴰ.nil g = refl
block_all-permᴰ (Permᴰ.cons {b = v} e p) g = rw e (block_all-permᴰ p (block g v))
block_all-permᴰ (Permᴰ.swap {a' = v} {b' = u} {l = us} e f) g =
    rw (e, f) (ap (λ h. block_all h us) (block_comm g u v))
block_all-permᴰ (Permᴰ.trans p q) g = block_all-permᴰ p g ∙ block_all-permᴰ q g

Gate-set : IsSet Gate
Gate-set = hlevel

-- Reports that arrive in another order leave the same gate.
pub block_all-perm : (us vs : List Time) (g : Gate) → Perm us vs → block_all g us ≡ block_all g vs
block_all-perm us vs g p = ∥∥₁_elim p (Gate-set _ _) (λ q. block_all-permᴰ q g)
