-- ===== src/Proxy/Hostname.antt =====
-- hostname.go: the label of a hostname. A name is its code points.
mod Label
mod Tests
use astro_cli.Prelude.{
  take, ltb, length, ◌||◌, [], map, true, to_lower, ◌&&◌, ◌∷◌, false, eqb, leb, List, if◌then◌else◌,
  Bool, ℕ,
}

-- `[a-z0-9-]`
abbrev pub is_allowed : ℕ → Bool
is_allowed c = leb b'a' c && leb c b'z' || (leb b'0' c && leb c b'9' || eqb c b'-')

-- `unicode.ToLower` where the result is allowed: beyond ASCII, only the dotted capital I and the
-- sign for Kelvin have a lower case in ASCII.
abbrev pub lower_rune : ℕ → ℕ
lower_rune c = if eqb c 304 then b'i' else if eqb c 8490 then b'k' else to_lower c

-- nonAlphanumRe.ReplaceAllString: one hyphen for each longest run of other characters; the flag
-- says that the character before was one of them.
unfoldable pub replace_runs : Bool → List ℕ → List ℕ
replace_runs inside [] = []
replace_runs inside (c ∷ s) =
    let after_kept = replace_runs false s in
    let after_run = replace_runs true s in
    if is_allowed c then c ∷ after_kept else if inside then after_run else b'-' ∷ after_run

-- `strings.TrimLeft(name, "-")`
unfoldable pub trim_left : List ℕ → List ℕ
trim_left [] = []
trim_left (c ∷ s) = let rest = trim_left s in if eqb c b'-' then rest else c ∷ s

-- `strings.TrimRight(name, "-")`
unfoldable pub trim_right : List ℕ → List ℕ
trim_right [] = []
trim_right (c ∷ s) =
    let rest = trim_right s in if eqb c b'-' && eqb (length rest) 0 then [] else c ∷ rest

abbrev pub max_label_len : ℕ
max_label_len = 63

unfoldable pub sanitize_label : List ℕ → List ℕ
sanitize_label name =
    let label = trim_right (trim_left (replace_runs false (map lower_rune name))) in
    if ltb max_label_len (length label) then trim_right (take max_label_len label) else label
