-- ===== src/Engine/OnceStarts.antt =====
-- What a start, by a tick or by hand, adds to the runs that are going.
use claudeq.Prelude.{
  ◌≡◌, refl, ap, sym, ◌∙◌, Bool, true, false, ◌||◌, none, some, List, [], ◌∷◌, ◌++◌, Text, ◌==◌,
  All, map, any, if◌then◌else◌, arith, text_eq_iff, text_eq_refl,
}
use mathlib.Core.Path.{subst}
use mathlib.Core.List.{append_assoc}
use claudeq.Prelude.Assoc.{Assoc, lookup, insert, lookup-insert}
use claudeq.Prelude.Filter.{Distinct}
use claudeq.Task.Model.{Task}
use claudeq.Store.Run.{Run}
use claudeq.Store.State.{State, is_marked, or_false}
use claudeq.Schedule.Select.{is_named}
use claudeq.Engine.State.{Engine}
use claudeq.Engine.Lifecycle.{Happening, started, started_by_hand, Live, live_of}
use claudeq.Engine.LifecycleLaws.{same-KeepsMarks, live_ids, IsActive, Unlike}
use claudeq.Engine.Once.{IsOrderly, IsFresh, completed_since-started, fresh_starts}

-- Marks after the start of these tasks.
abbrev pub MarksStarted : Assoc Bool → List Task → Assoc Bool → Type 0
MarksStarted m ts m' =
    (id : Text) → lookup id m' ≡ (if is_named id ts then some true else lookup id m)

abbrev pub started_live : List Task → (Task → Text × Run) → List Live → List Live
started_live ts each ls = map (λ (t : Task). live_of t (each t)) ts ++ ls

kept_mark :
    (m m' : Assoc Bool) (ts : List Task) (id : Text)
    → MarksStarted m ts m'
    → is_marked id m ≡ true
    → is_marked id m' ≡ true
unfolding is_marked
kept_mark m m' ts id h k = ap or_false (h id) ∙ by_test (is_named id ts)
  where
    by_test : (b : Bool) → or_false (if b then some true else lookup id m) ≡ true
    by_test true = refl
    by_test false = k

named_mark :
    (m m' : Assoc Bool) (ts : List Task) (id : Text)
    → MarksStarted m ts m'
    → is_named id ts ≡ true
    → is_marked id m' ≡ true
unfolding is_marked
named_mark m m' ts id h k = ap or_false (h id) ∙ by_test (is_named id ts) k
  where
    by_test : (b : Bool) → b ≡ true → or_false (if b then some true else lookup id m) ≡ true
    by_test true e = refl
    by_test false e = cc

module _ (e : Engine) (st : State) (each : Task → Text × Run) (ls : List Live) where
  live_marked :
      (m' : Assoc Bool) (all ts : List Task)
      → MarksStarted e.active all m'
      → All (λ t. is_named t.id all ≡ true) ts
      → IsActive e.active (live_ids ls)
      → IsActive m' (live_ids (started_live ts each ls))
  live_marked m' all [] h n a = kept ls a
    where
      kept : (ks : List Live) → IsActive e.active (live_ids ks) → IsActive m' (live_ids ks)
      kept [] b = tt
      kept (k ∷ ks) b = (kept_mark e.active m' all k.task.id h b.0, kept ks b.1)
  live_marked m' all (t ∷ ts) h n a =
      (named_mark e.active m' all t.id h n.0, live_marked m' all ts h n.1 a)

  apart_live :
      (t : Task)
      → is_marked t.id e.active ≡ false
      → (ks : List Live) → IsActive e.active (live_ids ks)
      → All (λ id. (id == t.id) ≡ false) (live_ids ks)
  apart_live t idle_ [] a = tt
  apart_live t idle_ (k ∷ ks) a = (differ (k.task.id == t.id) refl, apart_live t idle_ ks a.1)
    where
      differ : (b : Bool) → (k.task.id == t.id) ≡ b → b ≡ false
      differ false h = refl
      differ true h =
          let same = (text_eq_iff k.task.id t.id).0 h in
          let clash : true ≡ false =
            sym a.0 ∙ (ap (λ (id : Text). is_marked id e.active) same ∙ idle_) in
          cc

  live-Unlike :
      (ts : List Task)
      → Distinct (λ (t : Task). t.id) ts
      → All (IsFresh e st) ts
      → IsActive e.active (live_ids ls)
      → Unlike (live_ids ls)
      → Unlike (live_ids (started_live ts each ls))
  live-Unlike [] d f a u = u
  live-Unlike (t ∷ ts) d f a u = (apart ts d.0, live-Unlike ts d.1 f.1 a u)
    where
      apart :
          (us : List Task)
          → All (λ v. (v.id == t.id) ≡ false) us
          → All
              (λ id. (id == t.id) ≡ false)
              (live_ids (map (λ (v : Task). live_of v (each v)) us ++ ls))
      apart [] p = apart_live t f.0.0 ls a
      apart (v ∷ us) p = (p.0, apart us p.1)

named_each : (before ts : List Task) → All (λ t. is_named t.id (before ++ ts) ≡ true) ts
unfolding is_named any
named_each before [] = tt
named_each before (t ∷ ts) = (
  here before,
  subst (λ (all : List Task). All (λ u. any (λ v. v.id == u.id) all ≡ true) ts)
      (append_assoc before (t ∷ []) ts) (named_each (before ++ t ∷ []) ts),
)
  where
    here : (bs : List Task) → any (λ v. v.id == t.id) (bs ++ t ∷ ts) ≡ true
    here [] = rw (text_eq_refl t.id) refl
    here (b ∷ bs) = ground (arith, here bs)

pub starts-IsOrderly :
    (e e' : Engine) (st : State) (ls : List Live) (tr : List Happening) (each : Task → Text × Run)
    (ts : List Task)
    → IsOrderly e (some st) ls tr
    → Distinct (λ (t : Task). t.id) ts
    → All (IsFresh e st) ts
    → MarksStarted e.active ts e'.active
    → e'.state.completed_once ≡ e.state.completed_once
    → IsOrderly e' none (started_live ts each ls) (map (λ (t : Task). started t) ts ++ tr)
starts-IsOrderly e e' st ls tr each ts o d f m k = record {
  marked = live_marked e st each ls e'.active ts ts m (named_each [] ts) o.marked;
  unlike = live-Unlike e st each ls ts d f o.marked o.unlike;
  done = λ id c.
      same-KeepsMarks e.state e'.state k id
        (o.done id (sym (completed_since-started id ts tr) ∙ c));
  loaded = tt;
  order = fresh_starts e st ts tr o.loaded o.order f;
}

launched_marks : (t : Task) (m : Assoc Bool) → MarksStarted m (t ∷ []) (insert t.id true m)
unfolding is_named any
launched_marks t m id = lookup-insert t.id id true m ∙ by_test (t.id == id)
  where
    by_test :
        (b : Bool)
        → (if b then some true else lookup id m) ≡ (if b || false then some true else lookup id m)
    by_test true = refl
    by_test false = refl

-- A start by hand, which is refused while the task runs.
pub launched-IsOrderly :
    (e e' : Engine) (ls : List Live) (tr : List Happening) (t : Task) (made : Text × Run)
    → is_marked t.id e.active ≡ false
    → e'.active ≡ insert t.id true e.active
    → e'.state.completed_once ≡ e.state.completed_once
    → IsOrderly e none ls tr
    → IsOrderly e' none (live_of t made ∷ ls) (started_by_hand t ∷ tr)
launched-IsOrderly e e' ls tr t made idle_ a k o = record {
  marked =
      live_marked e e.state (λ _. made) ls e'.active (t ∷ []) (t ∷ [])
        (λ id. ap (lookup id) a ∙ launched_marks t e.active id) (named_each [] (t ∷ [])) o.marked;
  unlike = (apart_live e e.state (λ _. made) ls t idle_ ls o.marked, o.unlike);
  done = λ id c. same-KeepsMarks e.state e'.state k id (o.done id c);
  loaded = tt;
  order = o.order;
}
