-- ===== src/Env/Format/Injective.antt =====
-- dotenvQuote of format.go, as a map from values to texts. Its left inverse here stands for no code
-- and serves the proof only.
use astro_cli.Prelude.{
  length, [], true, ◌∷◌, some, none, eqb, false, Bool, Option, if◌then◌else◌, List, ℕ,
}

-- What stands for a character behind a backslash.
unfoldable unescaped : ℕ → ℕ
unescaped c = if eqb c b'n' then 10 else if eqb c b'r' then 13 else if eqb c b't' then 9 else c

abbrev in_front : ℕ → Option (List ℕ) → Option (List ℕ)
in_front c none = none
in_front c (some s) = some (c ∷ s)

-- The text up to the closing quote, which stands at the end; the flag is a backslash before.
unfoldable unescape : Bool → List ℕ → Option (List ℕ)
unfolding unescaped
unescape flag [] = none
unescape true (c ∷ s) = in_front (unescaped c) (unescape false s)
unescape false (c ∷ s) =
    let behind = unescape true s in
    let rest = in_front c (unescape false s) in
    if eqb c b'\\'
    then behind
    else if eqb c b'"'
    then (if eqb (length s) 0 then some [] else none)
    else rest

-- A text as it is, or what stands in double quotes.
unfoldable unquote : List ℕ → Option (List ℕ)
unfolding unescape
unquote [] = some []
unquote (c ∷ s) = let quoted = unescape false s in if eqb c b'"' then quoted else some (c ∷ s)
