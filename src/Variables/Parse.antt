-- ===== src/Variables/Parse.antt =====
-- The texts of arguments and lines.
use mathlib.Core.Option
use astro_cli.Prelude.{
  some, [], ◌||◌, length, ◌&&◌, if◌then◌else◌, none, ◌∷◌, eqb, leb, Option, Bool, List, ℕ,
}

-- `strings.SplitN(s, "=", 2)`, where it has two parts.
unfoldable pub split_pair : List ℕ → Option (List ℕ × List ℕ)
split_pair [] = none
split_pair (c ∷ s) =
    let rest = Option.map (λ (p : List ℕ × List ℕ). (c ∷ p.0, p.1)) (split_pair s) in
    if eqb c b'=' then some ([], s) else rest

unfoldable pub drop_while : (ℕ → Bool) → List ℕ → List ℕ
drop_while test [] = []
drop_while test (c ∷ s) = let rest = drop_while test s in if test c then rest else c ∷ s

unfoldable pub drop_while_end : (ℕ → Bool) → List ℕ → List ℕ
drop_while_end test [] = []
drop_while_end test (c ∷ s) =
    let rest = drop_while_end test s in if test c && eqb (length rest) 0 then [] else c ∷ rest

-- `strings.Trim` and `strings.TrimSpace`, with the characters as a test.
abbrev pub trim : (ℕ → Bool) → List ℕ → List ℕ
trim test s = drop_while_end test (drop_while test s)

-- `unicode.IsSpace`
abbrev pub is_space : ℕ → Bool
is_space c =
    leb 9 c && leb c 13
    || (eqb c 32
        || (eqb c 133
            || (eqb c 160
                || (eqb c 5760
                    || (leb 8192 c && leb c 8202
                        || (eqb c 8232
                            || (eqb c 8233 || (eqb c 8239 || (eqb c 8287 || eqb c 12288)))))))))

-- The cleaning of quotes and whitespace.
unfoldable pub clean : List ℕ → List ℕ
clean value = trim is_space (trim (eqb b'\'') (trim (eqb b'"') value))
