-- ===== src/Prelude/Text.antt =====
-- Text as code points where the program prints or folds it, and the order of whole texts.
use Prim.Native.Nat.{ℕ, zero, suc, ◌+◌, ◌-◌, ◌/◌, ◌%◌}
use Prim.Native.Char.{Char, code}
use Prim.Native.String.{String, compare}
use mathlib.Core.Bool.{Bool, true, false, ◌&&◌, ◌||◌}
use mathlib.Core.List.{List, [], ◌∷◌, ◌++◌, map}
use text.Mathlib.Text.{is_lt}
use astro_cli.Prelude.Tests.{ltb, leb, eqb, if◌then◌else◌}

-- The code points of a text.
abbrev pub codes : String → List ℕ
codes String.[] = []
codes (String.◌∷◌ c s) = code c ∷ codes s

abbrev pub eq_codes : List ℕ → List ℕ → Bool
eq_codes [] [] = true
eq_codes (c ∷ s) (d ∷ t) = eqb c d && eq_codes s t
eq_codes _ _ = false

-- Go's `<` on strings.
abbrev pub str_lt : String → String → Bool
str_lt s t = is_lt (compare s t)

-- `strings.HasPrefix`, with the prefix first.
abbrev pub is_prefix : List ℕ → List ℕ → Bool
is_prefix [] t = true
is_prefix (c ∷ s) [] = false
is_prefix (c ∷ s) (d ∷ t) = eqb c d && is_prefix s t

-- `strings.Contains`, with the text first.
abbrev pub contains_text : List ℕ → List ℕ → Bool
contains_text [] s = is_prefix s []
contains_text (c ∷ t) s = is_prefix s (c ∷ t) || contains_text t s

-- `unicode.ToLower` on ASCII.
abbrev pub to_lower : ℕ → ℕ
to_lower c = if leb b'A' c && leb c b'Z' then c + 32 else c

-- The i-th character of a text.
abbrev pub pick : String → ℕ → Char → Char
pick String.[] i d = d
pick (String.◌∷◌ c s) zero d = c
pick (String.◌∷◌ c s) (suc i) d = pick s i d

abbrev pub upper_char : Char → Char
upper_char c =
    if leb b'a' (code c) && leb (code c) b'z'
    then pick "ABCDEFGHIJKLMNOPQRSTUVWXYZ" (code c - b'a') c
    else c

-- `strings.ToUpper` on ASCII.
unfoldable pub to_upper : String → String
to_upper String.[] = ""
to_upper (String.◌∷◌ c s) = String.◌∷◌ (upper_char c) (to_upper s)

-- `strings.EqualFold` on ASCII.
abbrev pub equal_fold : String → String → Bool
equal_fold s t = eq_codes (map to_lower (codes s)) (map to_lower (codes t))

unfoldable pub itoa_from : ℕ → ℕ → List ℕ
itoa_from zero n = []
itoa_from (suc fuel) n =
    let more = itoa_from fuel (n / 10) ++ (b'0' + n % 10) ∷ [] in
    if ltb n 10 then (b'0' + n) ∷ [] else more

-- `strconv.Itoa` of a number that is not negative; it has at most as many digits as its value, or
-- one.
unfoldable pub itoa : ℕ → List ℕ
unfolding itoa_from
itoa n = itoa_from (suc n) n
