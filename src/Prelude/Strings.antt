-- ===== src/Prelude/Strings.antt =====
-- What the source uses of Go's strings, unicode and time packages.
use Prim.Native.Nat.{ℕ, zero, suc, ◌≤◌}
use mathlib.Core.Path.{◌≡◌, refl}
use mathlib.Core.Bool.{Bool, true, false, ◌&&◌, ◌||◌}
use mathlib.Core.List.{List, [], ◌∷◌, ◌++◌}
use native.Mathlib.Omega.{arith}
use claudeq.Prelude.Tests.{ltb, leb, eqb, if◌then◌else◌}
use claudeq.Prelude.Lists.{length}
use claudeq.Prelude.Texts.{Text, is_empty}

-- `time.Time`, in nanoseconds after its zero value.
abbrev pub Time : Type 0
Time = ℕ

abbrev pub is_zero : Time → Bool
is_zero t = eqb t 0

abbrev pub before : Time → Time → Bool
before t u = ltb t u

abbrev pub after : Time → Time → Bool
after t u = ltb u t

-- `unicode.IsSpace`.
unfoldable pub is_space : ℕ → Bool
is_space c =
    (leb 9 c && leb c 13)
    || eqb c 32
    || eqb c 0x85
    || eqb c 0xA0
    || eqb c 0x1680
    || (leb 0x2000 c && leb c 0x200A)
    || eqb c 0x2028
    || eqb c 0x2029
    || eqb c 0x202F
    || eqb c 0x205F
    || eqb c 0x3000

-- `unicode.IsControl`.
unfoldable pub is_control : ℕ → Bool
is_control c = leb c 0x1F || (leb 0x7F c && leb c 0x9F)

-- The list without the longest tail of elements that pass the test.
unfoldable pub trim_right {ℓ} : {A : Type ℓ} → (A → Bool) → List A → List A
trim_right p [] = []
trim_right p (x ∷ xs) = let rest = trim_right p xs in if is_empty rest && p x then [] else x ∷ rest

-- The list without the longest head of elements that pass the test.
unfoldable pub trim_left {ℓ} : {A : Type ℓ} → (A → Bool) → List A → List A
trim_left p [] = []
trim_left p (x ∷ xs) = let rest = trim_left p xs in if p x then rest else x ∷ xs

-- `strings.TrimSpace`.
unfoldable pub trim_space : Text → Text
unfolding is_space trim_left trim_right
trim_space s = trim_right is_space (trim_left is_space s)

-- `strings.HasPrefix`.
unfoldable pub has_prefix : Text → Text → Bool
has_prefix s [] = true
has_prefix [] (c ∷ p) = false
has_prefix (x ∷ s) (c ∷ p) = eqb x c && has_prefix s p

abbrev pub take {ℓ} : {A : Type ℓ} → ℕ → List A → List A
take zero xs = []
take (suc n) [] = []
take (suc n) (x ∷ xs) = x ∷ take n xs

abbrev pub drop {ℓ} : {A : Type ℓ} → ℕ → List A → List A
drop zero xs = xs
drop (suc n) [] = []
drop (suc n) (x ∷ xs) = drop n xs

module _ {ℓ} {A : Type ℓ} where
  pub length-take : (n : ℕ) (xs : List A) → length (take n xs) ≤ n
  length-take zero xs = omega arith
  length-take (suc n) [] = omega arith
  length-take (suc n) (x ∷ xs) = omega (arith, length-take n xs)

  pub length-trim_right : (p : A → Bool) (xs : List A) → length (trim_right p xs) ≤ length xs
  unfolding trim_right
  length-trim_right p [] = omega arith
  length-trim_right p (x ∷ xs) = ground (arith, length-trim_right p xs)

  pub trim_right-trim_right :
      (p : A → Bool) (xs : List A) → trim_right p (trim_right p xs) ≡ trim_right p xs
  unfolding trim_right
  trim_right-trim_right p [] = refl
  trim_right-trim_right p (x ∷ xs) = ground (arith, trim_right-trim_right p xs)

abbrev keep_word : Text → List Text → List Text
keep_word word rest = if is_empty word then rest else word ∷ rest

fields_from : Text → Text → List Text
fields_from word [] = keep_word word []
fields_from word (c ∷ cs) =
    let gap = keep_word word (fields_from [] cs) in
    let more = fields_from (word ++ c ∷ []) cs in if is_space c then gap else more

-- `strings.Fields`.
unfoldable pub fields : Text → List Text
unfolding is_space fields_from
fields s = fields_from [] s

-- `strings.Join(parts, " ")`.
unfoldable pub join_space : List Text → Text
join_space [] = []
join_space (w ∷ []) = w
join_space (w ∷ v ∷ ws) = w ++ b' ' ∷ join_space (v ∷ ws)

-- `xs[i] = v`; out of range nothing is written.
abbrev pub set {ℓ} : {A : Type ℓ} → List A → ℕ → A → List A
set [] i v = []
set (x ∷ xs) zero v = v ∷ xs
set (x ∷ xs) (suc i) v = x ∷ set xs i v
