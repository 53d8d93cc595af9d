-- ===== src/Fields/Magic.antt =====
-- `magicFieldValue`: the value that a text stands for.
use astro_cli.Fields.Json.{Value, null, boolean, integer, text}
use astro_cli.Fields.Scan.{FieldError}
use astro_cli.Prelude.Int.{ℤ, pos, negsuc}
use Prim.Native.Nat.{◌^◌}
use astro_cli.Prelude.{
  zero, suc, List, ℕ, ◌∷◌, [], ◌+◌, ◌*◌, ◌-◌, eqb, leb, ltb, if◌then◌else◌, true, false, ◌&&◌,
  Result, ok, Option, none, some, ◌>>=◌, eq_codes, codes,
}

unfoldable pub digits : ℕ → List ℕ → Option ℕ
digits n [] = some n
digits n (c ∷ s) =
    let rest = digits (n * 10 + (c - b'0')) s in if leb b'0' c && leb c b'9' then rest else none

-- At least one digit.
unfoldable pub unsigned : List ℕ → Option ℕ
unfolding digits
unsigned [] = none
unsigned (c ∷ s) = digits 0 (c ∷ s)

unfoldable pub positive : Option ℕ → Option ℤ
positive none = none
positive (some n) = if ltb n (2 ^ 63) then some (pos n) else none

unfoldable pub negative : Option ℕ → Option ℤ
negative none = none
negative (some zero) = some (pos 0)
negative (some (suc n)) = if ltb n (2 ^ 63) then some (negsuc n) else none

-- `strconv.Atoi`: an optional sign and digits, within the 64 bits of an int.
unfoldable pub atoi : List ℕ → Option ℤ
unfolding unsigned positive negative
atoi [] = none
atoi (c ∷ s) =
    if eqb c b'-'
    then negative (unsigned s)
    else if eqb c b'+'
    then positive (unsigned s)
    else positive (unsigned (c ∷ s))

-- The text is none of the numbers.
unfoldable pub word_value : List ℕ → Value
word_value v =
    if eq_codes v (codes "true")
    then boolean true
    else if eq_codes v (codes "false")
    then boolean false
    else if eq_codes v (codes "null")
    then null
    else text v

unfoldable pub plain_value : List ℕ → Value
unfolding atoi word_value
plain_value v = elim (atoi v) [ none ↦ word_value v | some n ↦ integer n ]

-- The standard input and the files, which a read may use up.
module _ {W : Type 0} (read_stdin : W → Result FieldError (List ℕ × W))
    (read_file : List ℕ → W → Result FieldError (List ℕ × W)) where
  unfoldable pub read_file_value : List ℕ → W → Result FieldError (List ℕ × W)
  read_file_value filename w =
      if eq_codes filename (codes "-") then read_stdin w else read_file filename w

  unfoldable pub magic_field_value : List ℕ → W → Result FieldError (Value × W)
  unfolding plain_value read_file_value
  magic_field_value [] w = ok (plain_value [], w)
  magic_field_value (c ∷ s) w =
      if eqb c b'@'
      then read_file_value s w >>= (λ (got : List ℕ × W). ok (text got.0, got.1))
      else ok (plain_value (c ∷ s), w)
