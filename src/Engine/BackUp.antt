-- ===== src/Engine/BackUp.antt =====
-- The bytes of a text, and where the loop that backs up to the start of a code point stops in them
-- (`clip` of internal/workflow/workflow.go and `clipOutput` of internal/engine/engine.go).
use claudeq.Prelude.{
  ℕ, zero, suc, ◌+◌, ◌/◌, ◌≤◌, ◌<◌, ◌≡◌, refl, ap, ◌∙◌, Bool, true, false, List, [], ◌∷◌, ◌++◌,
  Text, length, All, if◌then◌else◌, arith,
}
use mathlib.Core.Path.{subst}
use claudeq.Prelude.Strings.{take}
use claudeq.Engine.Output.{
  utf8_len, lead, continuation, tail, bytes, byte_length, rune_start, byte_at, back_up,
}

-- A code point of Unicode.
abbrev pub IsRune : ℕ → Type 0
IsRune c = c < 0x110000

pub length-tail : (c : ℕ) → utf8_len c ≡ suc (length (tail c))
length-tail c = ground arith

lead-starts : (c : ℕ) → IsRune c → rune_start (lead c) ≡ true
lead-starts c h = ground (arith, h)

continues : (n : ℕ) → rune_start (continuation n) ≡ false
continues n = ground arith

pub tail-continues : (c : ℕ) → All (λ b. rune_start b ≡ false) (tail c)
tail-continues c = ground (arith, continues c, continues (c / 0x40), continues (c / 0x1000))

pub bytes-length : (s : Text) → length (bytes s) ≡ byte_length s
unfolding bytes byte_length
bytes-length [] = refl
bytes-length (c ∷ s) =
    omega (arith, append_length (tail c) (bytes s), length-tail c, bytes-length s)
  where
    append_length : (xs ys : List ℕ) → length (xs ++ ys) ≡ length xs + length ys
    append_length [] ys = omega arith
    append_length (x ∷ xs) ys = omega (arith, append_length xs ys)

-- The first byte of a text starts a code point.
pub first-starts : (s : Text) → All IsRune s → rune_start (byte_at (bytes s) 0) ≡ true
unfolding bytes
first-starts [] h = refl
first-starts (c ∷ s) h = lead-starts c h.0

-- Within the bytes of one code point the loop goes down to its first byte.
pub back_up-inside :
    (l : ℕ) (conts rest : List ℕ) (n : ℕ)
    → All (λ b. rune_start b ≡ false) conts
    → n ≤ length conts
    → back_up (l ∷ (conts ++ rest)) n ≡ 0
unfolding back_up
back_up-inside l conts rest zero h k = refl
back_up-inside l conts rest (suc n) h k =
    rw (not_start conts n h k) (back_up-inside l conts rest n h (omega (arith, k)))
  where
    not_start :
        (bs : List ℕ) (i : ℕ)
        → All (λ b. rune_start b ≡ false) bs
        → suc i ≤ length bs
        → rune_start (byte_at (bs ++ rest) i) ≡ false
    not_start [] i p q = let no : ⊥ = omega (arith, q) in absurd no
    not_start (b ∷ bs) zero p q = p.0
    not_start (b ∷ bs) (suc i) p q = not_start bs i p.1 (omega (arith, q))

byte_at-behind :
    (front rest : List ℕ) (i : ℕ) → byte_at (front ++ rest) (length front + i) ≡ byte_at rest i
byte_at-behind [] rest i = ap (byte_at rest) (omega arith)
byte_at-behind (b ∷ front) rest i =
    let at : suc (length front + i) ≡ suc (length front) + i = omega arith in
    subst (λ k. byte_at (b ∷ (front ++ rest)) k ≡ byte_at rest i) at (byte_at-behind front rest i)

-- Behind them it does what it does in the rest.
pub back_up-behind :
    (l : ℕ) (front rest : List ℕ) (i : ℕ)
    → rune_start (byte_at rest 0) ≡ true
    → back_up (l ∷ (front ++ rest)) (suc (length front + i)) ≡ suc (length front) + back_up rest i
unfolding back_up
back_up-behind l front rest zero h =
    rw (ap rune_start (byte_at-behind front rest 0) ∙ h) (omega arith)
back_up-behind l front rest (suc i) h =
    by_start (rune_start (byte_at rest (suc i))) (ap rune_start (byte_at-behind front rest (suc i)))
      (ap (back_up (l ∷ (front ++ rest))) step ∙ back_up-behind l front rest i h)
  where
    step : length front + suc i ≡ suc (length front + i)
    step = omega arith

    by_start :
        (b : Bool)
        → rune_start (byte_at (front ++ rest) (length front + suc i)) ≡ b
        → back_up (l ∷ (front ++ rest)) (length front + suc i) ≡ suc (length front) + back_up rest i
        → (if rune_start (byte_at (front ++ rest) (length front + suc i))
            then suc (length front + suc i)
            else back_up (l ∷ (front ++ rest)) (length front + suc i))
          ≡ suc (length front) + (if b then suc i else back_up rest i)
    by_start true e k = rw e (omega arith)
    by_start false e k = rw e k

pub take-behind :
    (front rest : List ℕ) (n : ℕ) → take (length front + n) (front ++ rest) ≡ front ++ take n rest
take-behind [] rest n = ap (λ k. take k rest) at
  where
    at : 0 + n ≡ n
    at = omega arith
take-behind (b ∷ front) rest n =
    let at : suc (length front + n) ≡ suc (length front) + n = omega arith in
    subst (λ k. take k (b ∷ (front ++ rest)) ≡ b ∷ (front ++ take n rest)) at
      (ap (λ bs. b ∷ bs) (take-behind front rest n))
