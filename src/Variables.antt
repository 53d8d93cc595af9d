-- ===== src/Variables.antt =====
-- cloud/deployment/deployment_variable.go: creating and updating the variables of a deployment. A
-- text is its code points. What the platform returns is an input, and so are the lines of the file,
-- as bufio.Scanner reads them; the outcome is the list that deployment.Update receives.
pub mod Parse
pub mod Keeps
pub mod Fresh
pub mod Unique
mod Tests
use astro_cli.Variables.Parse.{clean, split_pair}
use astro_cli.Prelude.{
  ◌&&◌, contains_by, eq_codes, ◌||◌, length, set, ◌+◌, false, eqb, is_prefix, true, ◌++◌, not, none,
  ◌∷◌, [], get_elem?, some, if◌then◌else◌, map, Option, List, Bool, ℕ,
}

-- DeploymentEnvironmentVariable, and the request of it.
pub record Variable : Type 0 where
  pub is_secret : Bool
  pub key : List ℕ
  pub value : Option (List ℕ)

-- errVarBool stands beside the list.
abbrev pub Draft : Type 0
Draft = List Variable × Bool

-- newKeyList stands beside the draft.
abbrev pub FileDraft : Type 0
FileDraft = List (List ℕ) × Draft

-- The index of the first element that is equal, from `i` on.
unfoldable pub contains : List (List ℕ) → List ℕ → ℕ → Option ℕ
contains [] v i = none
contains (s ∷ elems) v i =
    let rest = contains elems v (i + 1) in if eq_codes v s then some i else rest

abbrev pub keys : List Variable → List (List ℕ)
keys vs = map (λ (v : Variable). v.key) vs

module _ (old : List Variable) (update_vars make_secret : Bool) where
  -- A variable can be made secret, and not the contrary.
  abbrev pub updated : Variable → List ℕ → Variable
  updated o value = record {
    is_secret = if not make_secret then o.is_secret else make_secret;
    key = o.key;
    value = some value;
  }

  abbrev pub created : List ℕ → List ℕ → Variable
  created key value = record { is_secret = make_secret; key = key; value = some value }

  -- `newEnvironmentVariables[num] = …`, made from `oldEnvironmentVariables[num]`.
  abbrev pub overwrite : List Variable → ℕ → Option Variable → List ℕ → List Variable
  overwrite new num none value = new
  overwrite new num (some o) value = set new num (updated o value)

  abbrev pub add_found : List Variable → Option ℕ → List ℕ → List ℕ → List Variable
  add_found new none key value = new ++ created key value ∷ []
  add_found new (some num) key value =
      if not update_vars then new else overwrite new num (get_elem? old num) value

  unfoldable pub add_variable : List Variable → List ℕ → List ℕ → List Variable
  add_variable new key value = add_found new (contains (keys old) key 0) key value

  -- One round of the loop of addVariablesFromArgs.
  abbrev pub add_arg : Draft → Option (List ℕ × List ℕ) → Draft
  add_arg (new, failed) none = (new, true)
  add_arg (new, failed) (some (key, val)) =
      if eqb (length key) 0 || eqb (length val) 0
      then (new, true)
      else (add_variable new key val, failed)

  unfoldable pub add_variables_from_args : Draft → List (List ℕ) → Draft
  add_variables_from_args draft [] = draft
  add_variables_from_args draft (arg ∷ args) =
      add_variables_from_args (add_arg draft (split_pair arg)) args

  abbrev pub add_file_pair : FileDraft → Option ℕ → List ℕ → List ℕ → FileDraft
  add_file_pair (seen, (new, failed)) none key value =
      (seen ++ key ∷ [], (new ++ created key value ∷ [], failed))
  add_file_pair (seen, (new, failed)) (some num) key value =
      if not update_vars
      then (seen, (new, true))
      else (seen ++ key ∷ [], (overwrite new num (get_elem? old num) value, failed))

  abbrev pub add_pair : FileDraft → Option (List ℕ × List ℕ) → FileDraft
  add_pair (seen, (new, failed)) none = (seen, (new, true))
  add_pair (seen, (new, failed)) (some (key, value)) =
      if (eqb (length key) 0 || eqb (length value) 0) || contains_by (eq_codes key) seen
      then (seen, (new, true))
      else add_file_pair (seen, (new, failed)) (contains (keys old) key 0) key (clean value)

  -- One round of the loop of addVariablesFromFile.
  unfoldable pub add_line : FileDraft → List ℕ → FileDraft
  add_line draft line =
      if is_prefix (b'#' ∷ []) line || eqb (length line) 0
      then draft
      else add_pair draft (split_pair line)

  unfoldable pub add_lines : FileDraft → List (List ℕ) → FileDraft
  add_lines draft [] = draft
  add_lines draft (line ∷ lines) = add_lines (add_line draft line) lines

  unfoldable pub add_variables_from_file : Draft → List (List ℕ) → Draft
  add_variables_from_file draft lines = (add_lines ([], draft) lines).1

  -- The parts of VariableModify that add variables, and the list that it sends.
  abbrev pub add_flags : Draft → List ℕ → List ℕ → Draft
  add_flags (new, failed) key value =
      if eqb (length key) 0 && eqb (length value) 0
      then (new, failed)
      else if eqb (length key) 0 || eqb (length value) 0
      then (new, true)
      else (add_variable new key value, failed)

  unfoldable pub variable_modify : List ℕ → List ℕ → List (List ℕ) → Option (List (List ℕ)) → Draft
  variable_modify key value args file =
      let with_args = add_variables_from_args (add_flags (old, false) key value) args in
      elim file [ none ↦ with_args | some lines ↦ add_variables_from_file with_args lines ]
