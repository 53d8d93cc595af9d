-- ===== src/Variables/Tests.antt =====
-- The theorems on a deployment's variables at concrete inputs, and runs of the code.
use astro_cli.Variables.Fresh.{add_variables_from_args-fresh}
use astro_cli.Variables.Parse.{split_pair, clean, drop_while_end, drop_while}
use astro_cli.Variables.Unique.{variable_modify-Distinct, Distinct}
use astro_cli.Variables.Keeps.{variable_modify-Extends, Extends}
use astro_cli.Prelude.{refl, ◌++◌, ◌≡◌, [], some, ◌∷◌, codes, false, ℕ, true, Bool, List, String}
use astro_cli.Variables.{
  add_line, keys, add_lines, add_variables_from_args, add_variables_from_file, contains,
  variable_modify, Variable,
}

abbrev variable : String → String → Bool → Variable
variable key value is_secret = record {
  is_secret = is_secret;
  key = codes key;
  value = some (codes value);
}

abbrev old : List Variable
old = variable "A" "1" true ∷ variable "B" "2" false ∷ []

abbrev lines : List (List ℕ)
lines = codes "# comment" ∷ codes "A=9" ∷ codes "C=\" x \"" ∷ codes "C=y" ∷ codes "nothing" ∷ []

-- The file updates A, which stays secret, adds C once, and refuses two lines.
file_run :
    variable_modify old true false [] [] [] (some lines)
    ≡ (variable "A" "9" true ∷ variable "B" "2" false ∷ variable "C" "x" false ∷ [], true)
unfolding variable_modify add_variables_from_file add_variables_from_args add_lines add_line
    split_pair contains clean drop_while drop_while_end
file_run = refl

variable_modify-Extends_example :
    Extends false old ((variable_modify old false true (codes "A") (codes "9") [] (some lines)).0)
variable_modify-Extends_example =
    variable_modify-Extends old false true (codes "A") (codes "9") [] (some lines)

variable_modify-Distinct_example :
    Distinct (keys ((variable_modify old true false [] [] [] (some lines)).0))
unfolding contains
variable_modify-Distinct_example = variable_modify-Distinct old true false lines (refl, (refl, tt))

abbrev twice : List (List ℕ × List ℕ)
twice = (codes "C", codes "1") ∷ (codes "C", codes "2") ∷ []

-- The same new key in two arguments is sent twice.
add_variables_from_args-fresh_example :
    add_variables_from_args old true false (old, false) (codes "C=1" ∷ codes "C=2" ∷ [])
    ≡ (old ++ variable "C" "1" false ∷ variable "C" "2" false ∷ [], false)
unfolding contains
add_variables_from_args-fresh_example =
    add_variables_from_args-fresh old true false twice old false
      ((refl, refl, refl, refl), ((refl, refl, refl, refl), tt))
