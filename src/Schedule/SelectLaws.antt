-- ===== src/Schedule/SelectLaws.antt =====
-- What `Select` of internal/schedule/schedule.go starts, and what `Held` says of the rest.
use claudeq.Prelude.{
  ◌≡◌, ◌⊎◌, inl, inr, refl, sym, ◌∙◌, Bool, true, false, not, ◌&&◌, ◌||◌, List, [], ◌∷◌, ◌++◌, Text,
  ◌==◌, arith, if◌then◌else◌, is_empty, All, Bool-cases, text_eq_iff,
}
use claudeq.Prelude.Assoc.{Assoc, insert, lookup, has, lookup-insert}
use claudeq.Task.Model.{Task}
use claudeq.Schedule.Select.{
  Running, select_from, select, is_named, hold, held_from, held, HoldReason,
}
use mathlib.Core.List.{append_assoc, append-nil}

-- The longest front part of parallel tasks, and what follows it.
parallel_front : List Task → List Task
parallel_front [] = []
parallel_front (t ∷ ts) = if t.parallel then t ∷ parallel_front ts else []

after_front : List Task → List Task
after_front [] = []
after_front (t ∷ ts) = if t.parallel then after_front ts else t ∷ ts

front-append-after : (ts : List Task) → ts ≡ parallel_front ts ++ after_front ts
unfolding parallel_front after_front
front-append-after [] = refl
front-append-after (t ∷ ts) = ground (arith, front-append-after ts)

abbrev pub IsParallel : Task → Type 0
IsParallel t = t.parallel ≡ true

front-IsParallel : (ts : List Task) → All IsParallel (parallel_front ts)
unfolding parallel_front
front-IsParallel [] = tt
front-IsParallel (t ∷ ts) = elim (Bool-cases t.parallel) [
  | inl e ↦ simp e (refl, front-IsParallel ts)
  | inr e ↦ simp e tt
]

-- A task that had to wait: the first one left over, if there is one.
abbrev pub FirstWaits : (Task → Type 0) → List Task → Type 0
FirstWaits P [] = Unit
FirstWaits P (t ∷ ts) = P t

after-exclusive : (ts : List Task) → FirstWaits (λ t. t.parallel ≡ false) (after_front ts)
unfolding after_front
after-exclusive [] = tt
after-exclusive (t ∷ ts) = elim (Bool-cases t.parallel) [
  | inl e ↦ simp e (after-exclusive ts)
  | inr e ↦ simp e
]

-- Once the exclusive slot is out of reach, the parallel tasks up to the first exclusive one start.
select_from_shared :
    (p : Bool) (start ts : List Task)
    → (p || not (is_empty start)) ≡ true
    → select_from p start ts ≡ start ++ parallel_front ts
unfolding select_from parallel_front
select_from_shared p start [] h = sym (append-nil start)
select_from_shared p start (t ∷ ts) h = elim (Bool-cases t.parallel) [
  | inl e ↦ simp e (
      select_from_shared p (start ++ t ∷ []) ts (busy start)
      ∙ append_assoc start (t ∷ []) (parallel_front ts))
  | inr e ↦ simp (e, h, append-nil)
]
  where
    busy : (s : List Task) → (p || not (is_empty (s ++ t ∷ []))) ≡ true
    busy [] = ground arith
    busy (u ∷ us) = ground arith

-- A task could not have joined these: the exclusive slot is taken, by a run or by the one that
-- starts, or the task is exclusive itself while another runs or starts.
abbrev pub CannotJoin : Running → List Task → Task → Type 0
CannotJoin r starts t =
    (r.non_parallel ≡ true)
    ⊎ ((t.parallel ≡ false) × ((r.parallel ≡ true) ⊎ (is_empty starts ≡ false)))
    ⊎ ((u : Task) × (starts ≡ u ∷ []) × (u.parallel ≡ false))

pub record IsAdmissible (r : Running) (due starts : List Task) : Type 0 where
  -- Strict priority: nothing starts ahead of a due task that waits.
  pub rest : List Task
  pub front : due ≡ starts ++ rest
  -- An exclusive task starts alone, while nothing runs; parallel tasks start together.
  pub exclusion :
      All IsParallel starts
      ⊎ ((t : Task) × (starts ≡ t ∷ [])
          × (t.parallel ≡ false)
          × (r.parallel ≡ false)
          × (r.non_parallel ≡ false))
  pub quiet : r.non_parallel ≡ true → starts ≡ []
  -- The first task left over could not have joined.
  pub maximal : FirstWaits (CannotJoin r starts) rest

shared-IsAdmissible :
    (r : Running) (ts : List Task)
    → r.non_parallel ≡ false
    → (r.parallel ≡ true) ⊎ (is_empty (parallel_front ts) ≡ false)
    → IsAdmissible r ts (parallel_front ts)
shared-IsAdmissible r ts q busy = record {
  rest = after_front ts;
  front = front-append-after ts;
  exclusion = inl (front-IsParallel ts);
  quiet = λ h. cc;
  maximal = waits (after_front ts) (after-exclusive ts);
}
  where
    waits :
        (us : List Task)
        → FirstWaits (λ t. t.parallel ≡ false) us
        → FirstWaits (CannotJoin r (parallel_front ts)) us
    waits [] h = tt
    waits (u ∷ us) h = inr (inl (h, busy))

alone-IsAdmissible :
    (r : Running) (t : Task) (ts : List Task)
    → r.non_parallel ≡ false
    → r.parallel ≡ false
    → t.parallel ≡ false
    → IsAdmissible r (t ∷ ts) (t ∷ [])
alone-IsAdmissible r t ts q p e = record {
  rest = ts;
  front = refl;
  exclusion = inr (t, refl, e, p, q);
  quiet = λ h. cc;
  maximal = waits ts;
}
  where
    waits : (us : List Task) → FirstWaits (CannotJoin r (t ∷ [])) us
    waits [] = tt
    waits (u ∷ us) = inr (inr (t, refl, e))

none-IsAdmissible : (r : Running) (ts : List Task) → r.non_parallel ≡ true → IsAdmissible r ts []
none-IsAdmissible r ts q = record {
  rest = ts;
  front = refl;
  exclusion = inl tt;
  quiet = λ h. refl;
  maximal = waits ts;
}
  where
    waits : (us : List Task) → FirstWaits (CannotJoin r []) us
    waits [] = tt
    waits (u ∷ us) = inl q

opened_front :
    (t : Task) (ts : List Task)
    → t.parallel ≡ true
    → select_from false [] (t ∷ ts) ≡ parallel_front (t ∷ ts)
unfolding select_from parallel_front
opened_front t ts e = simp e (select_from_shared false (t ∷ []) ts refl)

open_slot :
    (r : Running) (ts : List Task)
    → r.non_parallel ≡ false
    → r.parallel ≡ false
    → IsAdmissible r ts (select_from false [] ts)
unfolding select_from parallel_front
open_slot r [] q p = record {
  rest = [];
  front = refl;
  exclusion = inl tt;
  quiet = λ h. refl;
  maximal = tt;
}
open_slot r (t ∷ ts) q p = elim (Bool-cases t.parallel) [
  | inl e ↦ rw (opened_front t ts e) (shared-IsAdmissible r (t ∷ ts) q (inr (rw e refl)))
  | inr e ↦ simp e (alone-IsAdmissible r t ts q p e)
]

-- Whatever is due and running, the tasks that `Select` starts are a front part of the due tasks; they
-- are parallel tasks, or one exclusive task while nothing runs; nothing starts while an exclusive task
-- runs; and the first task left over could not have joined: an exclusive task runs or is the one that
-- starts, or it is exclusive itself and another runs or starts.
pub select-IsAdmissible : (due : List Task) (r : Running) → IsAdmissible r due (select due r)
unfolding select
select-IsAdmissible due r = elim (Bool-cases r.non_parallel) [
  | inl q ↦ simp q (none-IsAdmissible r due q)
  | inr q ↦ elim (Bool-cases r.parallel) [
    | inl p ↦
        simp (q, p) (rw (select_from_shared true [] due refl) (shared-IsAdmissible r due q (inl p)))
    | inr p ↦ simp (q, p) (open_slot r due q p)
  ]
]

-- One round of the loop of `Held`, for any id that is looked up.
has-hold :
    (started : List Task) (np ahead : Bool) (out : Assoc HoldReason) (j id : Text)
    → has id (if is_named j started then out else insert j (hold np ahead) out)
      ≡ (has id out || (j == id && not (is_named id started)))
has-hold started np ahead out j id =
    ground (arith, lookup-insert j id (hold np ahead) out, text_eq_iff j id)

has-held_from :
    (started : List Task) (np ahead : Bool) (out : Assoc HoldReason) (ts : List Task) (id : Text)
    → has id (held_from started np ahead out ts)
      ≡ (has id out || (is_named id ts && not (is_named id started)))
unfolding held_from
has-held_from started np ahead out [] id = unfold is_named in ground arith
has-held_from started np ahead out (t ∷ ts) id =
    let out' = if is_named t.id started then out else insert t.id (hold np ahead) out in
    ground (
      arith,
      has-held_from started np (ahead || not t.parallel) out' ts id,
      has-hold started np ahead out t.id id,
      is_named-cons t ts id,
    )
  where
    is_named-cons :
        (u : Task) (us : List Task) (j : Text) → is_named j (u ∷ us) ≡ (u.id == j || is_named j us)
    is_named-cons u us j = unfold is_named in refl

-- The queue shows a reason for just the due tasks that do not start.
pub has-held :
    (due : List Task) (r : Running) (id : Text)
    → has id (held due r) ≡ (is_named id due && not (is_named id (select due r)))
unfolding held lookup
has-held due r id = has-held_from (select due r) r.non_parallel false [] due id
