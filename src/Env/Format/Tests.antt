-- ===== src/Env/Format/Tests.antt =====
-- Values of dotenv files.
use astro_cli.Env.{ObjectType, EnvironmentObject}
use astro_cli.Env.Examples.{object_of}
use astro_cli.Env.Format.{dotenv_quote, write_var_dotenv}
use astro_cli.Env.Format.Guarded.{IsGuarded, dotenv_quote-IsGuarded}
use astro_cli.Prelude.{refl, [], codes, ◌∷◌, String, Bool, true, false, some, none, ◌≡◌}

abbrev variable : String → String → Bool → EnvironmentObject
variable key value is_secret = record (object_of ObjectType.environment_variable none none) {
  object_key = key;
  environment_var = some (record { value = value; is_secret = is_secret });
}

-- A secret is left out, and what a shell would expand is escaped.
dotenv_run :
    write_var_dotenv
      (variable "A" "x" false ∷ variable "B" "s" true ∷ variable "C" "$x y" false ∷ [])
      false
    ≡ codes "A=x\nB=  # secret, use --include-secrets\nC=\"\\$x y\"\n"
unfolding write_var_dotenv
dotenv_run = refl

dotenv_quote-IsGuarded_example : IsGuarded (dotenv_quote (codes "a \"b\" # $c\n"))
dotenv_quote-IsGuarded_example = dotenv_quote-IsGuarded (codes "a \"b\" # $c\n")
