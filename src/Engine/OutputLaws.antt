-- ===== src/Engine/OutputLaws.antt =====
-- What is left of a text that is cut (`clip` of internal/workflow/workflow.go and `clipOutput` of
-- internal/engine/engine.go).
use claudeq.Prelude.{
  ℕ, zero, suc, ◌+◌, ◌-◌, ◌≤◌, ◌<◌, ◌≡◌, refl, ap, sym, ◌∙◌, Bool, true, false, List, [], ◌∷◌, ◌++◌,
  Text, length, All, if◌then◌else◌, ltb, leb, arith, ltb_iff,
}
use mathlib.Core.Path.{subst}
use mathlib.Core.List.{append-nil}
use claudeq.Prelude.Strings.{take}
use claudeq.Engine.BackUp.{
  IsRune, length-tail, tail-continues, bytes-length, first-starts, back_up-inside, back_up-behind,
  take-behind,
}
use claudeq.Engine.Output.{
  utf8_len, lead, tail, bytes, byte_length, rune_start, byte_at, back_up, clip_bytes, text_before,
  clip,
}

-- The next code point, if any, does not fit.
abbrev pub NextTooLong : ℕ → ℕ → Text → Type 0
NextTooLong limit used [] = Unit
NextTooLong limit used (c ∷ s) = limit < used + utf8_len c

-- The longest start of a text that fits in the limit and ends between two code points.
pub record IsLongestStart (limit : ℕ) (start s : Text) : Type 0 where
  pub rest : Text
  pub split : s ≡ start ++ rest
  pub fits : byte_length start ≤ limit
  pub next : NextTooLong limit (byte_length start) rest

-- The text before the byte at which the loop stops: it is the longest start, and its bytes are those
-- before that byte.
IsCut : ℕ → Text → Text → Type 0
IsCut limit s start =
    IsLongestStart limit start s × (bytes start ≡ take (back_up (bytes s) limit) (bytes s))

text_before-short : (cut c : ℕ) (s : Text) → cut < utf8_len c → text_before cut (c ∷ s) ≡ []
unfolding text_before
text_before-short cut c s h = rw (too_long (utf8_len c) h) refl
  where
    too_long : (n : ℕ) → cut < n → leb n cut ≡ false
    too_long n k = ground (arith, k)

text_before-longer :
    (x c : ℕ) (s : Text) → text_before (utf8_len c + x) (c ∷ s) ≡ c ∷ text_before x s
unfolding text_before
text_before-longer x c s =
    rw (fits (utf8_len c)) (ap (λ n. c ∷ text_before n s) (taken (utf8_len c)))
  where
    fits : (n : ℕ) → leb n (n + x) ≡ true
    fits n = ground arith

    taken : (n : ℕ) → (n + x) - n ≡ x
    taken n = omega arith

empty-IsCut : (limit c : ℕ) (s : Text) → limit < utf8_len c → IsCut limit (c ∷ s) []
unfolding IsCut bytes byte_length
empty-IsCut limit c s h = (
  record { rest = c ∷ s; split = refl; fits = omega arith; next = omega (arith, h) },
  rw
      (back_up-inside (lead c) (tail c) (bytes s) limit (tail-continues c)
        (omega (arith, h, length-tail c)))
      refl,
)

cons-IsCut :
    (limit m c : ℕ) (s start : Text)
    → limit ≡ suc (length (tail c) + m)
    → rune_start (byte_at (bytes s) 0) ≡ true
    → IsCut m s start
    → IsCut limit (c ∷ s) (c ∷ start)
unfolding IsCut bytes byte_length
cons-IsCut limit m c s start e f (longest, same) = (
  record {
    rest = longest.rest;
    split = ap (λ t. c ∷ t) longest.split;
    fits = omega (arith, e, length-tail c, longest.fits);
    next = later longest.rest longest.next;
  },
  ap (λ bs. lead c ∷ (tail c ++ bs)) same
      ∙ (sym (take-behind (lead c ∷ tail c) (bytes s) (back_up (bytes s) m))
          ∙ ap (λ n. take n (lead c ∷ (tail c ++ bytes s)))
              (sym (
                ap (back_up (lead c ∷ (tail c ++ bytes s))) e
                ∙ back_up-behind (lead c) (tail c) (bytes s) m f))),
)
  where
    later :
        (t : Text)
        → NextTooLong m (byte_length start) t
        → NextTooLong limit (utf8_len c + byte_length start) t
    later [] k = tt
    later (d ∷ t) k = omega (arith, k, e, length-tail c)

back_up-IsCut :
    (s : Text) (limit : ℕ) → All IsRune s → IsCut limit s (text_before (back_up (bytes s) limit) s)
unfolding IsCut bytes byte_length text_before
back_up-IsCut [] limit h =
    (record { rest = []; split = refl; fits = omega arith; next = tt }, nothing (back_up [] limit))
  where
    nothing : (n : ℕ) → ◌≡◌ {A = List ℕ} [] (take n [])
    nothing zero = refl
    nothing (suc n) = refl
back_up-IsCut (c ∷ s) limit h = by_room (ltb limit (utf8_len c)) refl (λ m. back_up-IsCut s m h.1)
  where
    inside :
        limit < utf8_len c
        → IsCut limit (c ∷ s) (text_before (back_up (bytes (c ∷ s)) limit) (c ∷ s))
    inside k =
        let stops : back_up (bytes (c ∷ s)) limit ≡ 0 =
          back_up-inside (lead c) (tail c) (bytes s) limit (tail-continues c)
            (omega (arith, k, length-tail c)) in
        subst (IsCut limit (c ∷ s))
          (sym (
            ap (λ n. text_before n (c ∷ s)) stops
            ∙ text_before-short 0 c s (omega (arith, length-tail c))))
          (empty-IsCut limit c s k)

    behind :
        (m : ℕ)
        → limit ≡ suc (length (tail c) + m)
        → IsCut m s (text_before (back_up (bytes s) m) s)
        → IsCut limit (c ∷ s) (text_before (back_up (bytes (c ∷ s)) limit) (c ∷ s))
    behind m e rest =
        let x = back_up (bytes s) m in
        let stops : back_up (bytes (c ∷ s)) limit ≡ utf8_len c + x =
          ap (back_up (bytes (c ∷ s))) e
          ∙ (back_up-behind (lead c) (tail c) (bytes s) m (first-starts s h.1)
              ∙ ap (λ n. n + x) (sym (length-tail c))) in
        subst (IsCut limit (c ∷ s))
          (sym (ap (λ n. text_before n (c ∷ s)) stops ∙ text_before-longer x c s))
          (cons-IsCut limit m c s (text_before x s) e (first-starts s h.1) rest)

    by_room :
        (b : Bool)
        → ltb limit (utf8_len c) ≡ b
        → ((m : ℕ) → IsCut m s (text_before (back_up (bytes s) m) s))
        → IsCut limit (c ∷ s) (text_before (back_up (bytes (c ∷ s)) limit) (c ∷ s))
    by_room true e rest = inside ((ltb_iff limit (utf8_len c)).0 e)
    by_room false e rest =
        behind (limit - utf8_len c) (room (utf8_len c) (length-tail c) e)
          (rest (limit - utf8_len c))
      where
        room :
            (n : ℕ)
            → n ≡ suc (length (tail c))
            → ltb limit n ≡ false
            → limit ≡ suc (length (tail c) + (limit - n))
        room n k l = ground (arith, k, l)

-- Of a text of Unicode code points, a clipped text is the longest start that fits in the limit of
-- bytes and ends between two code points; it is reported as cut just when the text does not fit; and
-- its bytes, with this report, are what the loop over the bytes of the text gives.
pub clip-IsLongestStart :
    (s : Text) (limit : ℕ)
    → All IsRune s
    → IsLongestStart limit (clip s limit).0 s
      × ((clip s limit).1 ≡ ltb limit (byte_length s))
      × ((bytes (clip s limit).0, (clip s limit).1) ≡ clip_bytes (bytes s) limit)
unfolding clip clip_bytes IsCut
clip-IsLongestStart s limit h =
    rw (bytes-length s) (by_length (leb (byte_length s) limit) refl (back_up-IsCut s limit h))
  where
    by_length :
        (b : Bool)
        → leb (byte_length s) limit ≡ b
        → IsCut limit s (text_before (back_up (bytes s) limit) s)
        → (let r : Text × Bool =
              if b then (s, false) else (text_before (back_up (bytes s) limit) s, true) in
            IsLongestStart limit r.0 s
            × (r.1 ≡ ltb limit (byte_length s))
            × (◌≡◌ {A = List ℕ × Bool}
                (bytes r.0, r.1)
                (if b then (bytes s, false) else (take (back_up (bytes s) limit) (bytes s), true))))
    by_length true e cut = (
      record { rest = []; split = sym (append-nil s); fits = ground (arith, e); next = tt },
      ground (arith, e),
      refl,
    )
    by_length false e cut = (cut.0, ground (arith, e), ap (λ (bs : List ℕ). (bs, true)) cut.1)
