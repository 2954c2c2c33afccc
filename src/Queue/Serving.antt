-- ===== src/Queue/Serving.antt =====
-- Requests to the queue of internal/app/app.go, one after another.
use claudeq.Prelude.{
  ℕ, suc, ◌+◌, ◌≤◌, ◌≡◌, refl, ap, sym, ◌∙◌, Bool, true, false, some, List, [], ◌∷◌, Text, ◌==◌,
  map, any, keep_if, is_some, if◌then◌else◌, arith, Bool-cases, inl, inr, text_eq_iff,
}
use claudeq.Prelude.Strings.{set}
use claudeq.Task.Model.{Task}
use claudeq.Queue.Order.{index_from, remove_at, nth}
use claudeq.Queue.Bag.{others, enable_if, count}

-- No task has the id.
others-absent : (id : Text) (ts : List Task) → count id ts ≡ 0 → others id ts ≡ ts
unfolding count keep_if
others-absent id [] h = refl
others-absent id (t ∷ ts) h = ground (arith, h, others-absent id ts)

enable-absent :
    (id : Text) (on : Bool) (ts : List Task) → count id ts ≡ 0 → map (enable_if id on) ts ≡ ts
unfolding count
enable-absent id on [] h = refl
enable-absent id on (t ∷ ts) h = by_test (t.id == id) refl h (enable-absent id on ts)
  where
    by_test :
        (b : Bool)
        → (t.id == id) ≡ b
        → (if b then 1 else 0) + count id ts ≡ 0
        → (count id ts ≡ 0 → map (enable_if id on) ts ≡ ts)
        → (if b then record t { enabled = on } else t) ∷ map (enable_if id on) ts ≡ t ∷ ts
    by_test true e k f = let no : ⊥ = omega (arith, k) in absurd no
    by_test false e k f = ap (λ us. t ∷ us) (f (omega (arith, k)))

-- What stands at the place where the id is found.
pub record FoundAt (id : Text) (m : ℕ) (ts : List Task) : Type 0 where
  pub task : Task
  pub holds : nth m ts ≡ some task
  pub removed : remove_at m ts ≡ others id ts
  pub enabled : (on : Bool) → set ts m (record task { enabled = on }) ≡ map (enable_if id on) ts

pub index_from-FoundAt :
    (i k : ℕ) (id : Text) (ts : List Task)
    → index_from i id ts ≡ some k
    → count id ts ≤ 1
    → (m : ℕ) × (k ≡ i + m) × FoundAt id m ts
unfolding index_from count remove_at keep_if
index_from-FoundAt i k id [] h c = cc
index_from-FoundAt i k id (t ∷ ts) h c =
    by_test (t.id == id) refl h c (λ e d. index_from-FoundAt (suc i) k id ts e d)
  where
    later : (m : ℕ) → (t.id == id) ≡ false → FoundAt id m ts → FoundAt id (suc m) (t ∷ ts)
    later m e f = record {
      task = f.task;
      holds = f.holds;
      removed = rw e (ap (λ us. t ∷ us) f.removed);
      enabled = λ on. rw e (ap (λ us. t ∷ us) (f.enabled on));
    }

    here : (t.id == id) ≡ true → count id ts ≡ 0 → FoundAt id 0 (t ∷ ts)
    here e z = record {
      task = t;
      holds = refl;
      removed = rw e (sym (others-absent id ts z));
      enabled =
          λ on. rw e (ap (λ us. record t { enabled = on } ∷ us) (sym (enable-absent id on ts z)));
    }

    by_test :
        (b : Bool)
        → (t.id == id) ≡ b
        → (if b then some i else index_from (suc i) id ts) ≡ some k
        → (if b then 1 else 0) + count id ts ≤ 1
        → (index_from (suc i) id ts ≡ some k
            → count id ts ≤ 1
            → (m : ℕ) × (k ≡ suc i + m) × FoundAt id m ts)
        → (m : ℕ) × (k ≡ i + m) × FoundAt id m (t ∷ ts)
    by_test true e h' c' rest =
        let same : i ≡ k = cc in (0, omega (arith, same), here e (omega (arith, c')))
    by_test false e h' c' rest =
        let (m, at, f) = rest h' (omega (arith, c')) in (suc m, omega (arith, at), later m e f)

pub count-others : (id x : Text) (ts : List Task) → count x (others id ts) ≤ count x ts
unfolding count keep_if
count-others id x [] = omega arith
count-others id x (t ∷ ts) = ground (arith, count-others id x ts)

pub count-enable :
    (id x : Text) (on : Bool) (ts : List Task) → count x (map (enable_if id on) ts) ≡ count x ts
unfolding count
count-enable id x on [] = refl
count-enable id x on (t ∷ ts) = rw (same_id (t.id == id)) (rw (count-enable id x on ts) refl)
  where
    same_id : (b : Bool) → (if b then record t { enabled = on } else t).id ≡ t.id
    same_id true = refl
    same_id false = refl

pub index_from-absent :
    (i : ℕ) (id : Text) (ts : List Task) → is_some (index_from i id ts) ≡ false → count id ts ≡ 0
unfolding index_from count
index_from-absent i id [] h = refl
index_from-absent i id (t ∷ ts) h = ground (arith, h, index_from-absent (suc i) id ts)

-- A task under a new id is a bag without repetition.
pub count-new :
    (t : Task) (x : Text) (ts : List Task)
    → count t.id ts ≡ 0
    → count x ts ≤ 1
    → count x (t ∷ ts) ≤ 1
unfolding count
count-new t x ts h c = elim (Bool-cases (t.id == x)) [
  | inl e ↦
      let none_ : count x ts ≡ 0 =
        ap (λ (y : Text). count y ts) (sym ((text_eq_iff t.id x).0 e)) ∙ h in
      rw e (omega (arith, none_))
  | inr e ↦ rw e (omega (arith, c))
]

pub index_from-any :
    (i : ℕ) (id : Text) (ts : List Task)
    → is_some (index_from i id ts) ≡ any (λ (t : Task). t.id == id) ts
unfolding index_from any
index_from-any i id [] = refl
index_from-any i id (t ∷ ts) = ground (arith, index_from-any (suc i) id ts)
