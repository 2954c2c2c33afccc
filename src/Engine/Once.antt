-- ===== src/Engine/Once.antt =====
-- The marks of running and of completion that internal/engine/engine.go keeps, and the steps that
-- touch neither.
use claudeq.Prelude.{
  ◌≡◌, ◌⊎◌, inl, inr, refl, ap, sym, ◌∙◌, Bool, true, false, not, ◌&&◌, ◌||◌, Option, none, some,
  List, [], ◌∷◌, ◌++◌, Text, ◌==◌, All, map, if◌then◌else◌, Bool-cases, text_eq_iff,
}
use mathlib.Core.Path.{subst}
use claudeq.Prelude.Assoc.{Assoc}
use claudeq.Task.Model.{Task}
use claudeq.Store.Run.{RunStatus}
use claudeq.Store.State.{State, is_completed_once, is_marked}
use claudeq.Engine.State.{Engine}
use claudeq.Engine.Finish.{one_shot_trigger, is_paused}
use claudeq.Engine.Lifecycle.{Happening, started, completed, Live, completion}
use claudeq.Engine.LifecycleLaws.{
  completed_since, NoRestart, KeepsMarks, live_ids, IsActive, Unlike,
}

-- What the loaded state of a tick in its lock knows: a completed task is marked there, or its run has
-- not left yet.
abbrev pub Snapshot : Engine → Option State → List Happening → Type 0
Snapshot e none tr = Unit
Snapshot e (some st) tr =
    (id : Text)
    → completed_since id tr ≡ true
    → (is_completed_once st id ≡ true) ⊎ (is_marked id e.active ≡ true)

pub record IsOrderly (e : Engine) (held : Option State) (ls : List Live) (tr : List Happening)
    : Type 0 where
  pub marked : IsActive e.active (live_ids ls)
  pub unlike : Unlike (live_ids ls)
  pub done : (id : Text) → completed_since id tr ≡ true → is_completed_once e.state id ≡ true
  pub loaded : Snapshot e held tr
  pub order : NoRestart tr

pub Snapshot-active :
    (e e' : Engine) (held : Option State) (tr : List Happening)
    → e'.active ≡ e.active
    → Snapshot e held tr
    → Snapshot e' held tr
Snapshot-active e e' none tr h s = tt
Snapshot-active e e' (some st) tr h s =
    λ id c. elim (s id c) [ inl m ↦ inl m | inr m ↦ inr (ap (is_marked id) h ∙ m) ]

-- A step that keeps the marks of running, and those of completed tasks, keeps the order.
pub quiet-IsOrderly :
    (e e' : Engine) (held : Option State) (ls : List Live) (tr : List Happening)
    → e'.active ≡ e.active
    → KeepsMarks e.state e'.state
    → IsOrderly e held ls tr
    → IsOrderly e' held ls tr
quiet-IsOrderly e e' held ls tr h k o = record {
  marked = subst (λ (m : Assoc Bool). IsActive m (live_ids ls)) (sym h) o.marked;
  unlike = o.unlike;
  done = λ id c. k id (o.done id c);
  loaded = Snapshot-active e e' held tr h o.loaded;
  order = o.order;
}

-- The same runs in another phase.
pub phase-IsOrderly :
    (e : Engine) (held : Option State) (ls ls' : List Live) (tr : List Happening)
    → live_ids ls' ≡ live_ids ls
    → IsOrderly e held ls tr
    → IsOrderly e held ls' tr
phase-IsOrderly e held ls ls' tr h o = record {
  marked = subst (IsActive e.active) (sym h) o.marked;
  unlike = subst Unlike (sym h) o.unlike;
  done = o.done;
  loaded = o.loaded;
  order = o.order;
}

-- The end of a run is noted while the run is still marked.
pub complete-IsOrderly :
    (e : Engine) (held : Option State) (ls : List Live) (tr : List Happening) (t : Task)
    (status : RunStatus)
    → is_marked t.id e.active ≡ true
    → ((not (is_paused status) && one_shot_trigger t.trigger) ≡ true
        → is_completed_once e.state t.id ≡ true)
    → IsOrderly e held ls tr
    → IsOrderly e held ls (completion t status tr)
complete-IsOrderly e held ls tr t status active once o =
    by_test (not (is_paused status) && one_shot_trigger t.trigger) once
  where
    same_id :
        (P : Text → Type 0) (id : Text) (tail : Bool)
        → (t.id == id || tail) ≡ true
        → P t.id
        → (tail ≡ true → P id)
        → P id
    same_id P id tail c here there = elim (Bool-cases (t.id == id)) [
      | inl e' ↦ subst P ((text_eq_iff t.id id).0 e') here
      | inr e' ↦ there (rw e' at c)
    ]

    by_held : (h : Option State) → Snapshot e h tr → Snapshot e h (completed t.id ∷ tr)
    by_held none s = tt
    by_held (some st) s = λ id c.
        same_id (λ j. (is_completed_once st j ≡ true) ⊎ (is_marked j e.active ≡ true)) id
          (completed_since id tr) c (inr active) (s id)

    by_test :
        (b : Bool)
        → (b ≡ true → is_completed_once e.state t.id ≡ true)
        → IsOrderly e held ls (if b then completed t.id ∷ tr else tr)
    by_test false h = o
    by_test true h = record {
      marked = o.marked;
      unlike = o.unlike;
      done = λ id c.
          same_id (λ j. is_completed_once e.state j ≡ true) id (completed_since id tr) c (h refl)
            (o.done id);
      loaded = by_held held o.loaded;
      order = o.order;
    }

pub completed_since-started :
    (id : Text) (ts : List Task) (tr : List Happening)
    → completed_since id (map (λ (t : Task). started t) ts ++ tr) ≡ completed_since id tr
completed_since-started id [] tr = refl
completed_since-started id (t ∷ ts) tr = completed_since-started id ts tr

-- Neither running nor a completed one-shot task, as the state `st` has it.
abbrev pub IsFresh : Engine → State → Task → Type 0
IsFresh e st t =
    (is_marked t.id e.active ≡ false)
    × ((one_shot_trigger t.trigger && is_completed_once st t.id) ≡ false)

pub fresh_starts :
    (e : Engine) (st : State) (ts : List Task) (tr : List Happening)
    → Snapshot e (some st) tr
    → NoRestart tr
    → All (IsFresh e st) ts
    → NoRestart (map (λ (t : Task). started t) ts ++ tr)
fresh_starts e st [] tr s n h = n
fresh_starts e st (t ∷ ts) tr s n h = (
  rw (completed_since-started t.id ts tr)
      (by_test (completed_since t.id tr) (one_shot_trigger t.trigger) (s t.id) h.0.1),
  fresh_starts e st ts tr s n h.1,
)
  where
    by_test :
        (c once : Bool)
        → (c ≡ true → (is_completed_once st t.id ≡ true) ⊎ (is_marked t.id e.active ≡ true))
        → (once && is_completed_once st t.id) ≡ false
        → (once && c) ≡ false
    by_test c false k f = refl
    by_test false true k f = refl
    by_test true true k f = elim (k refl) [
      | inl m ↦ let clash : true ≡ false = sym m ∙ f in cc
      | inr m ↦ let clash : true ≡ false = sym m ∙ h.0.0 in cc
    ]
