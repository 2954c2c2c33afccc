-- ===== src/Engine/Output.antt =====
-- `clipOutput` of internal/engine/engine.go and `clip` of internal/workflow/workflow.go: a text is cut
-- to a number of bytes, between two code points. The code works on the bytes of the string.
use claudeq.Prelude.{
  ℕ, zero, suc, ◌+◌, ◌-◌, ◌/◌, ◌%◌, Bool, true, false, not, List, [], ◌∷◌, ◌++◌, Text, length,
  if◌then◌else◌, ltb, leb, eqb,
}
use claudeq.Prelude.Strings.{trim_space, take}
use claudeq.Store.Run.{max_final_output}

-- The bytes of a code point in UTF-8: how many, the first one and those that follow it.
abbrev pub utf8_len : ℕ → ℕ
utf8_len c = if ltb c 0x80 then 1 else if ltb c 0x800 then 2 else if ltb c 0x10000 then 3 else 4

abbrev pub lead : ℕ → ℕ
lead c =
    if ltb c 0x80
    then c
    else if ltb c 0x800
    then 0xC0 + c / 0x40
    else if ltb c 0x10000
    then 0xE0 + c / 0x1000
    else 0xF0 + c / 0x40000

abbrev pub continuation : ℕ → ℕ
continuation n = 0x80 + n % 0x40

abbrev pub tail : ℕ → List ℕ
tail c =
    if ltb c 0x80
    then []
    else if ltb c 0x800
    then continuation c ∷ []
    else if ltb c 0x10000
    then continuation (c / 0x40) ∷ continuation c ∷ []
    else continuation (c / 0x1000) ∷ continuation (c / 0x40) ∷ continuation c ∷ []

unfoldable pub bytes : Text → List ℕ
bytes [] = []
bytes (c ∷ s) = lead c ∷ (tail c ++ bytes s)

-- `len(s)`
unfoldable pub byte_length : Text → ℕ
byte_length [] = 0
byte_length (c ∷ s) = utf8_len c + byte_length s

-- `utf8.RuneStart`: the two high bits of the byte are not 10.
abbrev pub rune_start : ℕ → Bool
rune_start b = not (eqb (b / 0x40 % 4) 2)

-- `s[i]`; the loop asks for no byte behind the last one.
abbrev pub byte_at : List ℕ → ℕ → ℕ
byte_at [] i = 0
byte_at (b ∷ bs) zero = b
byte_at (b ∷ bs) (suc i) = byte_at bs i

-- `for cut > 0 && !utf8.RuneStart(s[cut]) { cut-- }`
unfoldable pub back_up : List ℕ → ℕ → ℕ
back_up s zero = zero
back_up s (suc cut) =
    let lower = back_up s cut in if rune_start (byte_at s (suc cut)) then suc cut else lower

-- `clip`, on the bytes of a string.
unfoldable pub clip_bytes : List ℕ → ℕ → List ℕ × Bool
unfolding back_up
clip_bytes s n = if leb (length s) n then (s, false) else (take (back_up s n) s, true)

-- `s[:cut]` as a text: its code points as long as their bytes lie before the cut.
unfoldable pub text_before : ℕ → Text → Text
text_before cut [] = []
text_before cut (c ∷ s) =
    let rest = text_before (cut - utf8_len c) s in if leb (utf8_len c) cut then c ∷ rest else []

-- `clip`, on a text.
unfoldable pub clip : Text → ℕ → Text × Bool
unfolding byte_length bytes back_up text_before
clip s n = if leb (byte_length s) n then (s, false) else (text_before (back_up (bytes s) n) s, true)

-- `clipOutput`
unfoldable pub clip_output : Text → Text × Bool
unfolding clip trim_space
clip_output s = clip (trim_space s) max_final_output
