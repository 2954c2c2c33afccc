-- ===== src/Wake/Next.antt =====
-- `NextWakeTime` of internal/wake/wake.go.
use claudeq.Prelude.{
  ℕ, ◌+◌, ◌≤◌, ◌<◌, ◌≡◌, ◌⊎◌, refl, inl, inr, Option, none, some, List, [], ◌∷◌, ◌++◌, All, Any,
  if◌then◌else◌, ltb, ltb_iff, not, arith, Bool-cases,
}
use mathlib.Core.Path.{subst}
use claudeq.Prelude.Strings.{Time, after, before}

abbrev sooner : Time → Option Time → Option Time
sooner t none = some t
sooner t (some best) = if before t best then some t else some best

-- `consider(t)`, with the best time so far.
unfoldable pub consider : Time → Option Time → Time → Option Time
consider now best t = if not (after t now) then best else sooner t best

unfoldable pub consider_all : Time → Option Time → List Time → Option Time
unfolding consider
consider_all now best [] = best
consider_all now best (t ∷ ts) = consider_all now (consider now best t) ts

-- `NextWakeTime`; without a heartbeat, its length is zero.
unfoldable pub next_wake_time : Time → List Time → ℕ → Option Time
unfolding consider_all consider
next_wake_time now candidates heartbeat =
    let best = consider_all now none candidates in
    if ltb 0 heartbeat then consider now best (now + heartbeat) else best

-- The times that a wake is planned from.
abbrev pub wake_times : Time → List Time → ℕ → List Time
wake_times now candidates heartbeat =
    if ltb 0 heartbeat then candidates ++ (now + heartbeat) ∷ [] else candidates

-- The best time lies ahead, is one of the times, and no time ahead is sooner; without one, no time
-- lies ahead.
abbrev pub IsNext : Time → List Time → Option Time → Type 0
IsNext now ts none = All (λ t. t ≤ now) ts
IsNext now ts (some best) =
    (now < best) × (Any (λ t. t ≡ best) ts × All (λ t. (t ≤ now) ⊎ (best ≤ t)) ts)

-- The same from the time that was best before these.
abbrev IsNextFrom : Time → Option Time → List Time → Option Time → Type 0
IsNextFrom now none ts found = IsNext now ts found
IsNextFrom now (some old) ts none = ⊥
IsNextFrom now (some old) ts (some best) =
    (now < best)
    × (((old ≡ best) ⊎ Any (λ t. t ≡ best) ts)
        × ((best ≤ old) × All (λ t. (t ≤ now) ⊎ (best ≤ t)) ts))

-- The best time of before, if there was one, lies ahead.
abbrev IsAhead : Time → Option Time → Type 0
IsAhead now none = Unit
IsAhead now (some best) = now < best

pass_by :
    (now t : Time) (ts : List Time) (found : Option Time)
    → t ≤ now
    → IsNext now ts found
    → IsNext now (t ∷ ts) found
pass_by now t ts none p h = (p, h)
pass_by now t ts (some b) p h = (h.0, (inr h.1.0, (inl p, h.1.1)))

take_first :
    (now t : Time) (ts : List Time) (found : Option Time)
    → IsNextFrom now (some t) ts found
    → IsNext now (t ∷ ts) found
take_first now t ts none h = elim h [ ]
take_first now t ts (some b) h = (h.0, (h.1.0, (inr h.1.1.0, h.1.1.1)))

keep_best :
    (now best t : Time) (ts : List Time) (found : Option Time)
    → (t ≤ now) ⊎ (best ≤ t)
    → IsNextFrom now (some best) ts found
    → IsNextFrom now (some best) (t ∷ ts) found
keep_best now best t ts none p h = elim h [ ]
keep_best now best t ts (some b) p (ahead, (here, (lower, rest))) =
    (ahead, (further here, (lower, (later p, rest))))
  where
    further : (best ≡ b) ⊎ Any (λ u. u ≡ b) ts → (best ≡ b) ⊎ ((t ≡ b) ⊎ Any (λ u. u ≡ b) ts)
    further (inl e) = inl e
    further (inr e) = inr (inr e)

    later : (t ≤ now) ⊎ (best ≤ t) → (t ≤ now) ⊎ (b ≤ t)
    later (inl e) = inl e
    later (inr e) = inr (omega (arith, e, lower))

take_sooner :
    (now best t : Time) (ts : List Time) (found : Option Time)
    → t < best
    → IsNextFrom now (some t) ts found
    → IsNextFrom now (some best) (t ∷ ts) found
take_sooner now best t ts none p h = elim h [ ]
take_sooner now best t ts (some b) p (ahead, (here, (lower, rest))) =
    (ahead, (inr here, (omega (arith, p, lower), (inr lower, rest))))

consider_all-IsNextFrom :
    (now : Time) (best : Option Time) (ts : List Time)
    → IsAhead now best
    → IsNextFrom now best ts (consider_all now best ts)
unfolding consider_all consider
consider_all-IsNextFrom now none [] h = tt
consider_all-IsNextFrom now (some best) [] h = (h, (inl refl, (omega arith, tt)))
consider_all-IsNextFrom now none (t ∷ ts) h = elim (Bool-cases (ltb now t)) [
  | inl e ↦
      rw e (take_first now t ts _ (consider_all-IsNextFrom now (some t) ts ((ltb_iff now t).0 e)))
  | inr e ↦ rw e (pass_by now t ts _ (ground (arith, e)) (consider_all-IsNextFrom now none ts tt))
]
consider_all-IsNextFrom now (some best) (t ∷ ts) h = elim (Bool-cases (ltb now t)) [
  | inl e ↦ elim (Bool-cases (ltb t best)) [
    | inl f ↦
        rw (e, f)
          (take_sooner now best t ts _ ((ltb_iff t best).0 f)
            (consider_all-IsNextFrom now (some t) ts ((ltb_iff now t).0 e)))
    | inr f ↦
        rw (e, f)
          (keep_best now best t ts _ (inr (ground (arith, f)))
            (consider_all-IsNextFrom now (some best) ts h))
  ]
  | inr e ↦ rw e (
      keep_best now best t ts _ (inl (ground (arith, e)))
        (consider_all-IsNextFrom now (some best) ts h))
]

consider_all-append :
    (now : Time) (best : Option Time) (ts us : List Time)
    → consider_all now best (ts ++ us) ≡ consider_all now (consider_all now best ts) us
unfolding consider_all
consider_all-append now best [] us = refl
consider_all-append now best (t ∷ ts) us = consider_all-append now (consider now best t) ts us

wake_times-found :
    (now : Time) (candidates : List Time) (heartbeat : ℕ)
    → consider_all now none (wake_times now candidates heartbeat)
      ≡ next_wake_time now candidates heartbeat
unfolding next_wake_time consider_all
wake_times-found now candidates heartbeat = elim (Bool-cases (ltb 0 heartbeat)) [
  | inl e ↦ rw e (consider_all-append now none candidates ((now + heartbeat) ∷ []))
  | inr e ↦ rw e refl
]

-- The planned wake is the soonest of the candidates and the heartbeat that lies ahead; there is none
-- only if none of them lies ahead.
pub next_wake_time-IsNext :
    (now : Time) (candidates : List Time) (heartbeat : ℕ)
    → IsNext now (wake_times now candidates heartbeat) (next_wake_time now candidates heartbeat)
next_wake_time-IsNext now candidates heartbeat =
    subst (IsNext now (wake_times now candidates heartbeat))
      (wake_times-found now candidates heartbeat)
      (consider_all-IsNextFrom now none (wake_times now candidates heartbeat) tt)
