-- ===== src/Bundle/Decimal.antt =====
-- `strconv.Itoa` gives no two numbers the same digits.
use claudeq.Prelude.{
  ℕ, zero, suc, ◌+◌, ◌-◌, ◌*◌, ◌/◌, ◌%◌, ◌<◌, ◌≡◌, refl, ap, sym, ◌∙◌, Bool, false, true, [], ◌∷◌,
  ◌++◌, Text, ◌==◌, if◌then◌else◌, ltb, arith, text_eq_iff, Bool-cases, inl, inr, All,
}
use claudeq.Prelude.Filter.{All-append}
use claudeq.Task.Slug.{is_digit}
use claudeq.Bundle.Import.{digits, itoa, candidate}

-- The number that digits stand for, after those read before.
abbrev value : ℕ → Text → ℕ
value before [] = before
value before (c ∷ s) = value (before * 10 + (c - b'0')) s

value-append : (n : ℕ) (xs : Text) (c : ℕ) → value n (xs ++ c ∷ []) ≡ value n xs * 10 + (c - b'0')
value-append n [] c = refl
value-append n (x ∷ xs) c = value-append (n * 10 + (x - b'0')) xs c

a_tenth : (fuel n : ℕ) → n < suc fuel → ltb n 10 ≡ false → n / 10 < fuel
a_tenth fuel n h e = ground (arith, h, e)

value-digits : (fuel n : ℕ) → n < fuel → value 0 (digits fuel n) ≡ n
unfolding digits
value-digits zero n h = omega (arith, h)
value-digits (suc fuel) n h =
    by_test (ltb n 10) refl (λ e. value-digits fuel (n / 10) (a_tenth fuel n h e))
  where
    by_test :
        (b : Bool)
        → ltb n 10 ≡ b
        → (ltb n 10 ≡ false → value 0 (digits fuel (n / 10)) ≡ n / 10)
        → value 0 (if b then (b'0' + n) ∷ [] else digits fuel (n / 10) ++ (b'0' + n % 10) ∷ []) ≡ n
    by_test true e front = omega arith
    by_test false e front =
        value-append 0 (digits fuel (n / 10)) (b'0' + n % 10)
        ∙ (ap (λ (v : ℕ). v * 10 + ((b'0' + n % 10) - b'0')) (front e) ∙ omega arith)

itoa-injective : (m n : ℕ) → itoa m ≡ itoa n → m ≡ n
unfolding itoa
itoa-injective m n h =
    sym (value-digits (suc m) m (omega arith))
    ∙ (ap (λ s. value 0 s) h ∙ value-digits (suc n) n (omega arith))

tail_eq : (want s t : Text) → want ++ b'-' ∷ s ≡ want ++ b'-' ∷ t → s ≡ t
tail_eq [] s t h = cc
tail_eq (c ∷ want) s t h = tail_eq want s t (cc)

pub candidates_differ :
    (want : Text) (m n : ℕ) → n < m → (candidate want m == candidate want n) ≡ false
candidates_differ want m n h = elim (Bool-cases (candidate want m == candidate want n)) [
  | inl same ↦
      let e : m ≡ n = itoa-injective m n (tail_eq want _ _ ((text_eq_iff _ _).0 same)) in
      let no : ⊥ = omega (arith, h, e) in absurd no
  | inr e ↦ e
]

pub All-digits : (fuel n : ℕ) → All (λ c. is_digit c ≡ true) (digits fuel n)
unfolding digits
All-digits zero n = tt
All-digits (suc fuel) n = by_test (ltb n 10) refl (All-digits fuel (n / 10))
  where
    by_test :
        (b : Bool)
        → ltb n 10 ≡ b
        → All (λ c. is_digit c ≡ true) (digits fuel (n / 10))
        → All
            (λ c. is_digit c ≡ true)
            (if b then (b'0' + n) ∷ [] else digits fuel (n / 10) ++ (b'0' + n % 10) ∷ [])
    by_test true e front = (ground (arith, e), tt)
    by_test false e front = All-append _ (digits fuel (n / 10)) _ front (ground arith, tt)
