-- ===== src/Queue/Bag.antt =====
-- The queue of internal/app/app.go as the bag of its tasks: what requests do to it, the order left
-- aside.
use claudeq.Prelude.{
  ℕ, ◌+◌, ◌≤◌, ◌≡◌, refl, ◌∙◌, Bool, true, false, not, List, [], ◌∷◌, Text, ◌==◌, map, keep_if,
  if◌then◌else◌, arith,
}
use mathlib.Core.List.{Perm, Permᴰ}
use mathlib.Core.List.Perm
use mathlib.Core.Logic.{∥∥₁_elim, ∥∥₁_prop}
use claudeq.Prelude.Int.{ℤ}
use claudeq.Task.Model.{Task}

pub data Request : Type 0 where
  adding : Task → Request
  removing : Text → Request
  enabling : Text → Bool → Request
  moving : Text → ℤ → Request

abbrev pub others : Text → List Task → List Task
others id ts = keep_if (λ t. not (t.id == id)) ts

abbrev pub enable_if : Text → Bool → Task → Task
enable_if id on t = if t.id == id then record t { enabled = on } else t

-- What an accepted request does to a bag.
abbrev pub on_bag : Request → List Task → List Task
on_bag (adding t) ts = t ∷ ts
on_bag (removing id) ts = others id ts
on_bag (enabling id on) ts = map (enable_if id on) ts
on_bag (moving id to) ts = ts

abbrev pub on_bag_all : List Request → List Task → List Task
on_bag_all [] ts = ts
on_bag_all (r ∷ rs) ts = on_bag_all rs (on_bag r ts)

-- How many tasks have the id.
unfoldable pub count : Text → List Task → ℕ
count id [] = 0
count id (t ∷ ts) = (if t.id == id then 1 else 0) + count id ts

abbrev pub IsUnrepeated : List Task → Type 0
IsUnrepeated ts = (id : Text) → count id ts ≤ 1

count-permᴰ : (id : Text) {ts us : List Task} → Permᴰ ts us → count id ts ≡ count id us
unfolding count
count-permᴰ id Permᴰ.nil = refl
count-permᴰ id (Permᴰ.cons {b = t} e p) = rw e (rw (count-permᴰ id p) refl)
count-permᴰ id (Permᴰ.swap {a' = t} {b' = u} {l = us} e f) = rw (e, f) (omega arith)
count-permᴰ id (Permᴰ.trans p q) = count-permᴰ id p ∙ count-permᴰ id q

ℕ-set : IsSet ℕ
ℕ-set = hlevel

pub count-perm : (id : Text) (ts us : List Task) → Perm ts us → count id ts ≡ count id us
count-perm id ts us p = ∥∥₁_elim p (ℕ-set _ _) (λ q. count-permᴰ id q)

others-permᴰ : (id : Text) {ts us : List Task} → Permᴰ ts us → Perm (others id ts) (others id us)
unfolding keep_if
others-permᴰ id Permᴰ.nil = Perm.refl []
others-permᴰ id (Permᴰ.cons {b = t} e p) = rw e (by_test (t.id == id) t (others-permᴰ id p))
  where
    by_test :
        (b : Bool) (x : Task) {xs ys : List Task}
        → Perm xs ys
        → Perm (if not b then x ∷ xs else xs) (if not b then x ∷ ys else ys)
    by_test true x q = q
    by_test false x q = Perm.cons x q
others-permᴰ id (Permᴰ.swap {a' = t} {b' = u} {l = us} e f) =
    rw (e, f) (by_tests (u.id == id) (t.id == id))
  where
    by_tests :
        (b c : Bool)
        → Perm
            (if not b
              then u ∷ (if not c then t ∷ others id us else others id us)
              else if not c
              then t ∷ others id us
              else others id us)
            (if not c
              then t ∷ (if not b then u ∷ others id us else others id us)
              else if not b
              then u ∷ others id us
              else others id us)
    by_tests true true = Perm.refl _
    by_tests true false = Perm.refl _
    by_tests false true = Perm.refl _
    by_tests false false = Perm.swap t u (others id us)
others-permᴰ id (Permᴰ.trans p q) = Perm.trans (others-permᴰ id p) (others-permᴰ id q)

others-perm : (id : Text) (ts us : List Task) → Perm ts us → Perm (others id ts) (others id us)
others-perm id ts us p = ∥∥₁_elim p ∥∥₁_prop (λ q. others-permᴰ id q)

on_bag-perm : (r : Request) (ts us : List Task) → Perm ts us → Perm (on_bag r ts) (on_bag r us)
on_bag-perm (adding t) ts us p = Perm.cons t p
on_bag-perm (removing id) ts us p = others-perm id ts us p
on_bag-perm (enabling id on) ts us p = Perm.map (enable_if id on) p
on_bag-perm (moving id to) ts us p = p

pub on_bag_all-perm :
    (rs : List Request) (ts us : List Task)
    → Perm ts us
    → Perm (on_bag_all rs ts) (on_bag_all rs us)
on_bag_all-perm [] ts us p = p
on_bag_all-perm (r ∷ rs) ts us p =
    on_bag_all-perm rs (on_bag r ts) (on_bag r us) (on_bag-perm r ts us p)
