-- ===== src/Env/Format.antt =====
-- format.go: environment variables as a dotenv file. A text is its code points.
pub mod Injective
pub mod Guarded
mod Tests
use mathlib.Core.Option
use astro_cli.Env.{EnvironmentObject, VarValue}
use astro_cli.Prelude.{
  String, List, ℕ, ◌∷◌, [], ◌++◌, Bool, Option, none, some, eqb, ◌||◌, ◌&&◌, not, if◌then◌else◌,
  is_prefix, codes, contains_by,
}

-- dotenvEscaper, on one character.
unfoldable pub escaped : ℕ → List ℕ
escaped c =
    if eqb c b'\\'
    then b'\\' ∷ b'\\' ∷ []
    else if eqb c b'"'
    then b'\\' ∷ b'"' ∷ []
    else if eqb c b'$'
    then b'\\' ∷ b'$' ∷ []
    else if eqb c 10
    then b'\\' ∷ b'n' ∷ []
    else if eqb c 13
    then b'\\' ∷ b'r' ∷ []
    else if eqb c 9
    then b'\\' ∷ b't' ∷ []
    else c ∷ []

unfoldable pub escape : List ℕ → List ℕ
unfolding escaped
escape [] = []
escape (c ∷ s) = escaped c ++ escape s

-- The characters that `strings.ContainsAny` looks for.
unfoldable pub needs_quotes : ℕ → Bool
needs_quotes c =
    eqb c b' '
    || (eqb c 9
        || (eqb c 13
            || (eqb c 10
                || (eqb c b'"' || (eqb c b'\'' || (eqb c b'#' || (eqb c b'\\' || eqb c b'$')))))))

unfoldable pub dotenv_quote : List ℕ → List ℕ
unfolding escape needs_quotes
dotenv_quote v =
    if not (contains_by needs_quotes v) && not (is_prefix (codes "export ") v)
    then v
    else b'"' ∷ escape v ++ b'"' ∷ []

abbrev pub dotenv_value : Bool → VarValue → List ℕ
dotenv_value include_secrets v =
    if v.is_secret && not include_secrets
    then codes "  # secret, use --include-secrets"
    else dotenv_quote (codes v.value)

-- The line of an object, if it has an environment variable.
abbrev pub dotenv_line : Bool → String → Option VarValue → List ℕ
dotenv_line include_secrets key none = []
dotenv_line include_secrets key (some v) =
    (codes key ++ b'=' ∷ dotenv_value include_secrets v) ++ 10 ∷ []

unfoldable pub write_var_dotenv : List EnvironmentObject → Bool → List ℕ
unfolding dotenv_quote
write_var_dotenv [] include_secrets = []
write_var_dotenv (obj ∷ objs) include_secrets =
    dotenv_line include_secrets obj.object_key obj.environment_var
    ++ write_var_dotenv objs include_secrets
