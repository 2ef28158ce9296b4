-- ===== src/Base/Text.antt =====
-- The functions of Go's `strings` that the program calls, over code points.
use Prim.Native.Nat.{ℕ, ◌+◌}
use Prim.Native.Char.{Char, code}
use Prim.Native.String.{String, [], ◌∷◌}
use mathlib.Core.Bool.{Bool, true, false, ◌&&◌, ◌||◌}
use mathlib.Core.List.{List, [], ◌∷◌}
use universal_crossplane.Base.Tests.{leb, eqb, if◌then◌else◌}

-- `unicode.IsSpace`
is_space : ℕ → Bool
is_space c =
    (leb 9 c && leb c 13)
    || eqb c 0x20
    || eqb c 0x85
    || eqb c 0xa0
    || eqb c 0x1680
    || (leb 0x2000 c && leb c 0x200a)
    || eqb c 0x2028
    || eqb c 0x2029
    || eqb c 0x202f
    || eqb c 0x205f
    || eqb c 0x3000

trim_left : String → String
trim_left [] = []
trim_left (c ∷ s) = if is_space (code c) then trim_left s else c ∷ s

-- A character in front of a text whose right end is trimmed.
abbrev cons_trimmed : Char → String → String
cons_trimmed c [] = if is_space (code c) then [] else c ∷ []
cons_trimmed c (d ∷ s) = c ∷ d ∷ s

trim_right : String → String
trim_right [] = []
trim_right (c ∷ s) = cons_trimmed c (trim_right s)

-- `strings.TrimSpace`
unfoldable pub trim_space : String → String
unfolding trim_left trim_right is_space
trim_space s = trim_right (trim_left s)

abbrev cons_part : Char → List String → List String
cons_part c [] = (c ∷ []) ∷ []
cons_part c (p ∷ ps) = (c ∷ p) ∷ ps

-- `strings.Split` at a separator of one character.
unfoldable pub split : ℕ → String → List String
split sep [] = [] ∷ []
split sep (c ∷ s) =
    let parts = split sep s in if eqb (code c) sep then [] ∷ parts else cons_part c parts

abbrev lower : ℕ → ℕ
lower c = if leb b'A' c && leb c b'Z' then c + 32 else c

-- `strings.EqualFold` where one of the texts is of ASCII letters other than k and s: no other
-- character folds to one of these.
unfoldable pub equal_fold : String → String → Bool
equal_fold [] [] = true
equal_fold [] (d ∷ t) = false
equal_fold (c ∷ s) [] = false
equal_fold (c ∷ s) (d ∷ t) = eqb (lower (code c)) (lower (code d)) && equal_fold s t

-- What is left of a text after a prefix, or the text itself.
strip : String → String → String → String
strip whole [] s = s
strip whole (p ∷ ps) [] = whole
strip whole (p ∷ ps) (c ∷ s) = if eqb (code p) (code c) then strip whole ps s else whole

-- `strings.TrimPrefix`, with its arguments in Go's order.
unfoldable pub trim_prefix : String → String → String
unfolding strip
trim_prefix s prefix = strip s prefix s
