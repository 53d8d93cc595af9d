-- ===== src/Env/Format/Guarded.antt =====
-- What dotenvQuote keeps from the reader of a dotenv file: the end of the text, of the line and of
-- the word, comments and what would be expanded.
use astro_cli.Env.Format.{escaped, escape, needs_quotes, dotenv_quote}
use astro_cli.Prelude.{
  inr, inl, codes, [], if◌then◌else◌, is_prefix, arith, true, ◌++◌, eqb, ◌∷◌, ◌&&◌, ◌≡◌, ◌≢◌,
  if_intro, contains_by, false, ◌⊎◌, not, All, ℕ, Bool, List, refl,
}

-- No character means anything but itself.
abbrev pub IsBare : List ℕ → Type 0
IsBare = All (λ c.
    (c ≢ b' ')
    × (c ≢ 9)
    × (c ≢ 10)
    × (c ≢ 13)
    × (c ≢ b'"')
    × (c ≢ b'\'')
    × (c ≢ b'#')
    × (c ≢ b'\\')
    × (c ≢ b'$'))

-- Every `"` and `$` is behind a backslash that is not behind another, no line ends, and no
-- backslash is left over; the flag is a backslash before.
unfoldable pub guarded : Bool → List ℕ → Bool
guarded flag [] = not flag
guarded true (c ∷ s) = not (eqb c 10) && not (eqb c 13) && guarded false s
guarded false (c ∷ s) =
    let behind = guarded true s in
    let rest = guarded false s in
    if eqb c b'\\'
    then behind
    else not (eqb c b'"') && not (eqb c b'$') && not (eqb c 10) && not (eqb c 13) && rest

-- Bare, or in double quotes with its meaning for the reader taken away.
abbrev pub IsGuarded : List ℕ → Type 0
IsGuarded s =
    IsBare s ⊎ ((body : List ℕ) × (s ≡ b'"' ∷ body ++ b'"' ∷ []) × (guarded false body ≡ true))

guarded-escaped :
    (c : ℕ) (t : List ℕ) → guarded false t ≡ true → guarded false (escaped c ++ t) ≡ true
unfolding guarded escaped
guarded-escaped c t h =
    if_intro Holds (eqb c b'\\') (λ e. h)
      (λ n1.
        if_intro Holds (eqb c b'"') (λ e. h)
          (λ n2.
            if_intro Holds (eqb c b'$') (λ e. h)
              (λ n3.
                if_intro Holds (eqb c 10) (λ e. h)
                  (λ n4.
                    if_intro Holds (eqb c 13) (λ e. h)
                      (λ n5. if_intro Holds (eqb c 9) (λ e. h) (λ n6. ground (arith, h)))))))
  where
    Holds : List ℕ → Type 0
    Holds s = guarded false (s ++ t) ≡ true

guarded-escape : (v : List ℕ) → guarded false (escape v) ≡ true
unfolding escape guarded
guarded-escape [] = refl
guarded-escape (c ∷ v) = guarded-escaped c (escape v) (guarded-escape v)

IsBare-plain : (v : List ℕ) → contains_by needs_quotes v ≡ false → IsBare v
unfolding needs_quotes
IsBare-plain [] h = tt
IsBare-plain (c ∷ v) h = (
  (
    ground arith,
    ground arith,
    ground arith,
    ground arith,
    ground arith,
    ground arith,
    ground arith,
    ground arith,
    ground arith,
  ),
  IsBare-plain v (ground arith),
)

-- What stands for a value in a dotenv file has no space, tab, end of a line, quotes, `#`, backslash
-- or `$` at all, or it is a text in double quotes, in which every double quote and `$` is escaped
-- by a backslash, no line ends, and no backslash is left to escape the closing quote.
pub dotenv_quote-IsGuarded : (v : List ℕ) → IsGuarded (dotenv_quote v)
unfolding dotenv_quote
dotenv_quote-IsGuarded v =
    if_intro IsGuarded (not (contains_by needs_quotes v) && not (is_prefix (codes "export ") v))
      (λ h. inl (IsBare-plain v (ground arith))) (λ h. inr (escape v, refl, guarded-escape v))
