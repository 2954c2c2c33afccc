-- ===== src/Bundle/FreshId.antt =====
-- `ImportTask` always finds an id that no task has.
use claudeq.Prelude.{
  ℕ, zero, suc, ◌≤◌, ◌<◌, ◌≡◌, refl, ◌∙◌, Bool, true, false, Option, none, some, List, [], ◌∷◌,
  ◌++◌, Text, ◌==◌, ◌⊎◌, any, keep_if, length, is_some, arith, Bool-cases, inl, inr, text_eq_iff,
  All,
}
use claudeq.Prelude.Filter.{All-append, All-map}
use claudeq.Task.Model.{Task}
use claudeq.Task.Slug.{is_digit}
use claudeq.Task.Checks.{is_id_rune, check_id}
use claudeq.Task.WellFormed.{IsId, check_id_iff}
use claudeq.Queue.Order.{index_from, index_of}
use claudeq.Queue.Bag.{others}
use claudeq.Queue.Serving.{index_from-any}
use claudeq.Bundle.Import.{digits, itoa, candidate, free_id, unique_id}
use claudeq.Bundle.Decimal.{candidates_differ, All-digits}

abbrev has_task : Text → List Task → Bool
has_task id ts = any (λ (t : Task). t.id == id) ts

other_stays :
    (x y : Text) (ts : List Task)
    → (x == y) ≡ false
    → has_task x ts ≡ true
    → has_task x (others y ts) ≡ true
unfolding any keep_if
other_stays x y [] h k = k
other_stays x y (t ∷ ts) h k =
    ground
      (arith, h, k, text_eq_iff t.id x, text_eq_iff t.id y, text_eq_iff x y, other_stays x y ts h)

others-length : (y : Text) (ts : List Task) → length (others y ts) ≤ length ts
unfolding keep_if
others-length y [] = omega arith
others-length y (t ∷ ts) = ground (arith, others-length y ts)

fewer : (y : Text) (ts : List Task) → has_task y ts ≡ true → length (others y ts) < length ts
unfolding any keep_if
fewer y [] h = cc
fewer y (t ∷ ts) h = ground (arith, h, others-length y ts, fewer y ts)

not_found : (id : Text) (ts : List Task) → has_task id ts ≡ false → index_of ts id ≡ none
unfolding index_of
not_found id ts h = by_result (index_from 0 id ts) (index_from-any 0 id ts ∙ h)
  where
    by_result : (o : Option ℕ) → is_some o ≡ false → o ≡ none
    by_result none k = refl
    by_result (some i) k = cc

-- A suffix of a dash and digits leaves an id an id.
candidate-IsId : (want : Text) (n : ℕ) → check_id want ≡ none → check_id (candidate want n) ≡ none
unfolding itoa
candidate-IsId want n h = (check_id_iff _).1 (
    append-IsId want (b'-' ∷ itoa n) ((check_id_iff want).0 h)
      (refl, digit_runes (digits (suc n) n) (All-digits (suc n) n)))
  where
    a_rune : (c : ℕ) → is_digit c ≡ true → is_id_rune c ≡ true
    a_rune c d = ground (arith, d)

    digit_runes : (s : Text) → All (λ c. is_digit c ≡ true) s → All (λ c. is_id_rune c ≡ true) s
    digit_runes s k = All-map (λ c d. a_rune c d) s k

    append-IsId : (s t : Text) → IsId s → All (λ c. is_id_rune c ≡ true) t → IsId (s ++ t)
    append-IsId [] t k l = absurd k
    append-IsId (c ∷ s) t k l = (k.0, All-append _ s t k.1 l)

module _ (want : Text) where
  -- So many candidates, from this one on, are ids of tasks.
  abbrev AllTaken : ℕ → ℕ → List Task → Type 0
  AllTaken zero n ts = Unit
  AllTaken (suc k) n ts = (has_task (candidate want n) ts ≡ true) × AllTaken k (suc n) ts

  still_taken :
      (k m n : ℕ) (ts : List Task)
      → n < m
      → AllTaken k m ts
      → AllTaken k m (others (candidate want n) ts)
  still_taken zero m n ts h a = tt
  still_taken (suc k) m n ts h a = (
    other_stays (candidate want m) (candidate want n) ts (candidates_differ want m n h) a.0,
    still_taken k (suc m) n ts (omega (arith, h)) a.1,
  )

  at_most : (k n : ℕ) (ts : List Task) → AllTaken k n ts → k ≤ length ts
  at_most zero n ts a = omega arith
  at_most (suc k) n ts a =
      let rest =
        at_most k (suc n) (others (candidate want n) ts)
          (still_taken k (suc n) n ts (omega arith) a.1) in
      omega (arith, rest, fewer (candidate want n) ts a.0)

  -- The search ends with an id, or has seen only ids of tasks.
  search_ends :
      (fuel n : ℕ) (ts : List Task)
      → ((m : ℕ) × (free_id fuel n want ts ≡ some (candidate want m))
          × (has_task (candidate want m) ts ≡ false))
        ⊎ AllTaken fuel n ts
  unfolding free_id index_of
  search_ends zero n ts = inr tt
  search_ends (suc fuel) n ts = elim (Bool-cases (has_task (candidate want n) ts)) [
    | inl used ↦ elim (search_ends fuel (suc n) ts) [
      | inl (m, e, free) ↦ inl (m, rw (index_from-any 0 (candidate want n) ts) (rw used e), free)
      | inr taken ↦ inr (used, taken)
    ]
    | inr free ↦ inl (n, rw (index_from-any 0 (candidate want n) ts) (rw free refl), free)
  ]

  pub unique_id-IsFree :
      (ts : List Task)
      → (id : Text) × (unique_id ts want ≡ some id)
        × (index_of ts id ≡ none)
        × (check_id want ≡ none → check_id id ≡ none)
  unfolding unique_id index_of
  unique_id-IsFree ts = elim (Bool-cases (has_task want ts)) [
    | inl used ↦ elim (search_ends (suc (length ts)) 2 ts) [
      | inl (n, e, free) ↦ (
        candidate want n,
        rw (index_from-any 0 want ts) (rw used e),
        not_found (candidate want n) ts free,
        candidate-IsId want n,
      )
      | inr taken ↦ let no : ⊥ = omega (arith, at_most (suc (length ts)) 2 ts taken) in absurd no
    ]
    | inr free ↦
        (want, rw (index_from-any 0 want ts) (rw free refl), not_found want ts free, λ h. h)
  ]
