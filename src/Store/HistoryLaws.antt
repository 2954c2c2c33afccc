-- ===== src/Store/HistoryLaws.antt =====
-- The history shows each run once, as its last event has it.
use claudeq.Prelude.{
  ◌≡◌, ◌≢◌, refl, ap, sym, ◌∙◌, Bool, true, false, ◌&&◌, ◌||◌, Option, none, some, List, [], ◌∷◌,
  ◌++◌, Text, ◌==◌, if◌then◌else◌, any, is_some, arith, map, keep_if, ◌⊎◌, text_eq_iff, first,
  last_such, inl, inr, Bool-cases,
}
use claudeq.Prelude.Strings.{Time}
use claudeq.Prelude.Assoc.{lookup, lookup-insert}
use claudeq.Store.Run.{Run, RunStatus}
use claudeq.Store.History.{
  Index, index_event, index_events, no_events, pick, keep_run, runs, reconciled,
  reconcile_running_runs, interrupt, is_running,
}

abbrev pub has_id : Text → Run → Bool
has_id id r = r.run_id == id

abbrev mem : Text → List Text → Bool
mem id ids = any (λ other. other == id) ids

lookup-index_events :
    (id : Text) (ix : Index) (rs : List Run)
    → lookup id (index_events ix rs).latest ≡ last_such (has_id id) rs (lookup id ix.latest)
unfolding index_events index_event last_such
lookup-index_events id ix [] = refl
lookup-index_events id ix (r ∷ rs) =
    lookup-index_events id (index_event ix r) rs
    ∙ ap (last_such (has_id id) rs) (lookup-insert r.run_id id r ix.latest)

-- The order lists just the ids that have a run, and a run stands under its own id.
record IsSound (ix : Index) : Type 0 where
  named : (id : Text) (r : Run) → lookup id ix.latest ≡ some r → r.run_id ≡ id
  listed : (id : Text) → mem id ix.order ≡ is_some (lookup id ix.latest)

any-append :
    (id : Text) (xs : List Text) (y : Text) → mem id (xs ++ y ∷ []) ≡ (mem id xs || y == id)
unfolding any
any-append id [] y = ground arith
any-append id (x ∷ xs) y = ground (arith, any-append id xs y)

index_event-IsSound : (ix : Index) (r : Run) → IsSound ix → IsSound (index_event ix r)
unfolding index_event
index_event-IsSound ix r h = record {
  named = λ id q e.
      ground
        (arith, e, lookup-insert r.run_id id r ix.latest, text_eq_iff r.run_id id, h.named id q);
  listed = λ id. ground (
    arith,
    lookup-insert r.run_id id r ix.latest,
    text_eq_iff r.run_id id,
    h.listed id,
    h.listed r.run_id,
    any-append id ix.order r.run_id,
  );
}

index_events-IsSound : (ix : Index) (rs : List Run) → IsSound ix → IsSound (index_events ix rs)
unfolding index_events
index_events-IsSound ix [] h = h
index_events-IsSound ix (r ∷ rs) h =
    index_events-IsSound (index_event ix r) rs (index_event-IsSound ix r h)

first-keep_run :
    (ix : Index) (id j : Text) (o : Option Run) (rest : List Run)
    → IsSound ix
    → lookup j ix.latest ≡ o
    → first (has_id id) (keep_run o rest)
      ≡ (if j == id && is_some o then o else first (has_id id) rest)
unfolding first
first-keep_run ix id j none rest h e = ground arith
first-keep_run ix id j (some r) rest h e = ground (arith, ap (λ i. i == id) (h.named j r e))

first-pick :
    (ix : Index) (id : Text) (ids : List Text)
    → IsSound ix
    → first (has_id id) (pick ix.latest ids) ≡ (if mem id ids then lookup id ix.latest else none)
unfolding pick any first
first-pick ix id [] h = refl
first-pick ix id (j ∷ ids) h = ground (
  arith,
  first-keep_run ix id j (lookup j ix.latest) (pick ix.latest ids) h refl,
  first-pick ix id ids h,
  ap {A = Text} (λ i. lookup i ix.latest),
  text_eq_iff j id,
)

no_events-IsSound : IsSound no_events
unfolding any lookup
no_events-IsSound = record { named = λ id r e. cc; listed = λ id. refl }

if_listed :
    (ix : Index) (id : Text) (b : Bool)
    → b ≡ is_some (lookup id ix.latest)
    → (if b then lookup id ix.latest else none) ≡ lookup id ix.latest
if_listed ix id b h = ground (arith, h)

-- The history shows for each run id the last event of that id, and none where there is none.
pub first-runs :
    (id : Text) (events : List Run)
    → first (has_id id) (runs events) ≡ last_such (has_id id) events none
unfolding runs any lookup
first-runs id events =
    let ix = index_events no_events events in
    let sound : IsSound ix = index_events-IsSound no_events events no_events-IsSound in
    first-pick ix id ix.order sound
    ∙ if_listed ix id (mem id ix.order) (sound.listed id)
    ∙ lookup-index_events id no_events events

last_such-append :
    (p : Run → Bool) (xs ys : List Run) (o : Option Run)
    → last_such p (xs ++ ys) o ≡ last_such p ys (last_such p xs o)
unfolding last_such
last_such-append p [] ys o = refl
last_such-append p (x ∷ xs) ys o = last_such-append p xs ys (if p x then some x else o)

-- What is interrupted is not running, and stands before what was given.
carry :
    (rest b : Bool) (q r : Run) (o : Option Run)
    → is_running q.status ≡ false
    → (is_running r.status ≡ false) ⊎ (((if b then some q else o) ≡ some r) × (rest ≡ false))
    → (is_running r.status ≡ false) ⊎ ((o ≡ some r) × ((b || rest) ≡ false))
carry rest b q r o s (inl f) = inl f
carry rest true q r o s (inr (f, g)) =
    let same : q ≡ r = cc in inl (ap (λ x. is_running x.status) (sym same) ∙ s)
carry rest false q r o s (inr (f, g)) = inr (f, g)

last_interrupted :
    (id : Text) (now : Time) (rs : List Run) (o : Option Run) (r : Run)
    → last_such (has_id id) (map (interrupt now) rs) o ≡ some r
    → (is_running r.status ≡ false) ⊎ ((o ≡ some r) × (any (has_id id) rs ≡ false))
unfolding last_such any interrupt
last_interrupted id now [] o r h = inr (h, refl)
last_interrupted id now (q ∷ rs) o r h =
    carry (any (has_id id) rs) (q.run_id == id) (interrupt now q) r o refl
      (last_interrupted id now rs (if q.run_id == id then some (interrupt now q) else o) r h)

head_or_rest :
    (b : Bool) (q r : Run) (o : Option Run)
    → (if b then some q else o) ≡ some r
    → is_running r.status ≡ true
    → ((b ≡ true) × (is_running q.status ≡ true)) ⊎ (o ≡ some r)
head_or_rest true q r o h e =
    let same : q ≡ r = cc in inl (refl, ap (λ x. is_running x.status) same ∙ e)
head_or_rest false q r o h e = inr h

first-running :
    (id : Text) (rs : List Run) (r : Run)
    → first (has_id id) rs ≡ some r
    → is_running r.status ≡ true
    → any (has_id id) (keep_if (λ q. is_running q.status) rs) ≡ true
unfolding first any keep_if
first-running id [] r h e = cc
first-running id (q ∷ rs) r h e =
    elim (head_or_rest (q.run_id == id) q r (first (has_id id) rs) h e) [
      | inl (f, g) ↦ ground (arith, f, g)
      | inr f ↦ ground (arith, first-running id rs r f e)
    ]

not_running : (s : RunStatus) → is_running s ≢ true → is_running s ≡ false
not_running s h = elim (Bool-cases (is_running s)) [ inl e ↦ absurd (h e) | inr e ↦ e ]

-- After the reconciliation at start-up the history shows no run as running.
pub reconcile_running_runs-stops :
    (now : Time) (events : List Run) (id : Text) (r : Run)
    → first (has_id id) (runs (reconcile_running_runs now events)) ≡ some r
    → is_running r.status ≡ false
unfolding reconcile_running_runs reconciled
reconcile_running_runs-stops now events id r h =
    let before = keep_if (λ q. is_running q.status) (runs events) in
    let over =
      sym (last_such-append (has_id id) events (map (interrupt now) before) none)
      ∙ sym (first-runs id (events ++ map (interrupt now) before))
      ∙ h in
    elim (last_interrupted id now before (last_such (has_id id) events none) r over) [
      | inl f ↦ f
      | inr (f, g) ↦ not_running r.status (λ e.
          let k = first-running id (runs events) r (first-runs id events ∙ f) e in
          let clash : true ≡ false = sym k ∙ g in cc)
    ]
