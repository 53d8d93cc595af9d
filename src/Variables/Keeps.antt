-- ===== src/Variables/Keeps.antt =====
-- What happens to the variables that a deployment has already.
use mathlib.Core.Path.{subst}
use astro_cli.Prelude.{
  eq_codes, ◌&&◌, contains_by, ◌||◌, length, is_prefix, eqb, not, none, if_intro, Option, zero, suc,
  some-inj, sym, refl, arith, set, some, false, [], get_elem?, true, ◌∷◌, ℕ, ◌++◌, ◌≡◌, List, Bool,
}
use astro_cli.Variables.{
  clean, split_pair, add_variables_from_file, add_pair, add_file_pair, add_arg, add_found,
  variable_modify, add_flags, add_lines, add_line, add_variables_from_args, keys, contains,
  overwrite, updated, add_variable, Variable, Draft,
}

-- A variable has become another one: under its key, as secret as before, and the same unless
-- variables are updated.
abbrev pub Kept : Bool → Variable → Variable → Type 0
Kept update_vars o n =
    (n.key ≡ o.key) × (o.is_secret ≡ true → n.is_secret ≡ true) × (update_vars ≡ false → n ≡ o)

-- Each variable of the first list stands at its place in the second.
abbrev pub Extends : Bool → List Variable → List Variable → Type 0
Extends update_vars [] new = Unit
Extends update_vars (o ∷ os) [] = ⊥
Extends update_vars (o ∷ os) (n ∷ ns) = Kept update_vars o n × Extends update_vars os ns

module _ (update_vars : Bool) where
  pub Extends-same : (old : List Variable) → Extends update_vars old old
  Extends-same [] = tt
  Extends-same (o ∷ os) = ((refl, (λ h. h), λ h. refl), Extends-same os)

  pub Extends-append :
      (old new more : List Variable)
      → Extends update_vars old new
      → Extends update_vars old (new ++ more)
  Extends-append [] new more h = tt
  Extends-append (o ∷ os) [] more h = absurd h
  Extends-append (o ∷ os) (n ∷ ns) more (k, h) = (k, Extends-append os ns more h)

  Extends-set :
      (old new : List Variable) (num : ℕ) (o n : Variable)
      → Extends update_vars old new
      → get_elem? old num ≡ some o
      → Kept update_vars o n
      → Extends update_vars old (set new num n)
  Extends-set [] new num o n h e k = tt
  Extends-set (x ∷ os) [] num o n h e k = absurd h
  Extends-set (x ∷ os) (y ∷ ns) zero o n (hk, h) e k =
      (subst (λ t. Kept update_vars t n) (sym (some-inj e)) k, h)
  Extends-set (x ∷ os) (y ∷ ns) (suc num) o n (hk, h) e k = (hk, Extends-set os ns num o n h e k)

updated-Kept :
    (old : List Variable) (update_vars make_secret : Bool) (o : Variable) (value : List ℕ)
    → update_vars ≡ true
    → Kept update_vars o (updated old update_vars make_secret o value)
updated-Kept old update_vars make_secret o value yes_update = (refl, (λ h. ground arith), λ h. cc)

module _ (old : List Variable) (update_vars make_secret : Bool) where
  abbrev Goal : List Variable → Type 0
  Goal = Extends update_vars old

  pub overwrite-Extends :
      (new : List Variable) (num : ℕ) (o : Option Variable) (value : List ℕ)
      → get_elem? old num ≡ o
      → update_vars ≡ true
      → Goal new
      → Goal (overwrite old update_vars make_secret new num o value)
  overwrite-Extends new num none value e u h = h
  overwrite-Extends new num (some o) value e u h =
      Extends-set update_vars old new num o (updated old update_vars make_secret o value) h e
        (updated-Kept old update_vars make_secret o value u)

  add_found-Extends :
      (new : List Variable) (found : Option ℕ) (key value : List ℕ)
      → Goal new
      → Goal (add_found old update_vars make_secret new found key value)
  add_found-Extends new none key value h = Extends-append update_vars old new _ h
  add_found-Extends new (some num) key value h =
      if_intro Goal (not update_vars) (λ u. h)
        (λ u. overwrite-Extends new num (get_elem? old num) value refl (ground arith) h)

  add_variable-Extends :
      (new : List Variable) (key value : List ℕ)
      → Goal new
      → Goal (add_variable old update_vars make_secret new key value)
  unfolding add_variable
  add_variable-Extends new key value = add_found-Extends new (contains (keys old) key 0) key value

  add_arg-Extends :
      (draft : Draft) (pair : Option (List ℕ × List ℕ))
      → Goal (draft.0)
      → Goal ((add_arg old update_vars make_secret draft pair).0)
  add_arg-Extends (new, failed) none h = h
  add_arg-Extends (new, failed) (some (key, val)) h =
      if_intro (λ (d : Draft). Goal (d.0)) (eqb (length key) 0 || eqb (length val) 0) (λ e. h)
        (λ e. add_variable-Extends new key val h)

  add_variables_from_args-Extends :
      (draft : Draft) (args : List (List ℕ))
      → Goal (draft.0)
      → Goal ((add_variables_from_args old update_vars make_secret draft args).0)
  unfolding add_variables_from_args
  add_variables_from_args-Extends draft [] h = h
  add_variables_from_args-Extends draft (arg ∷ args) h =
      add_variables_from_args-Extends (add_arg old update_vars make_secret draft (split_pair arg))
        args (add_arg-Extends draft (split_pair arg) h)

  add_file_pair-Extends :
      (seen : List (List ℕ)) (new : List Variable) (failed : Bool) (found : Option ℕ)
      (key value : List ℕ)
      → Goal new
      → Goal ((add_file_pair old update_vars make_secret (seen, (new, failed)) found key value).1.0)
  add_file_pair-Extends seen new failed none key value h = Extends-append update_vars old new _ h
  add_file_pair-Extends seen new failed (some num) key value h =
      if_intro (λ (d : List (List ℕ) × Draft). Goal (d.1.0)) (not update_vars) (λ u. h)
        (λ u. overwrite-Extends new num (get_elem? old num) value refl (ground arith) h)

  add_pair-Extends :
      (draft : List (List ℕ) × Draft) (pair : Option (List ℕ × List ℕ))
      → Goal (draft.1.0)
      → Goal ((add_pair old update_vars make_secret draft pair).1.0)
  add_pair-Extends (seen, (new, failed)) none h = h
  add_pair-Extends (seen, (new, failed)) (some (key, value)) h =
      if_intro (λ (d : List (List ℕ) × Draft). Goal (d.1.0))
        ((eqb (length key) 0 || eqb (length value) 0) || contains_by (eq_codes key) seen) (λ e. h)
        (λ e. add_file_pair-Extends seen new failed (contains (keys old) key 0) key (clean value) h)

  add_line-Extends :
      (draft : List (List ℕ) × Draft) (line : List ℕ)
      → Goal (draft.1.0)
      → Goal ((add_line old update_vars make_secret draft line).1.0)
  unfolding add_line
  add_line-Extends draft line h =
      if_intro (λ (d : List (List ℕ) × Draft). Goal (d.1.0))
        (is_prefix (b'#' ∷ []) line || eqb (length line) 0) (λ e. h)
        (λ e. add_pair-Extends draft (split_pair line) h)

  add_lines-Extends :
      (draft : List (List ℕ) × Draft) (lines : List (List ℕ))
      → Goal (draft.1.0)
      → Goal ((add_lines old update_vars make_secret draft lines).1.0)
  unfolding add_lines
  add_lines-Extends draft [] h = h
  add_lines-Extends draft (line ∷ lines) h =
      add_lines-Extends (add_line old update_vars make_secret draft line) lines
        (add_line-Extends draft line h)

  add_flags-Extends :
      (new : List Variable) (failed : Bool) (key value : List ℕ)
      → Goal new
      → Goal ((add_flags old update_vars make_secret (new, failed) key value).0)
  add_flags-Extends new failed key value h =
      if_intro (λ (d : Draft). Goal (d.0)) (eqb (length key) 0 && eqb (length value) 0) (λ e. h)
        (λ e.
          if_intro (λ (d : Draft). Goal (d.0)) (eqb (length key) 0 || eqb (length value) 0) (λ e. h)
            (λ e. add_variable-Extends new key value h))

  -- Whatever flags, arguments and file are given, the list that VariableModify sends has each
  -- variable of the deployment at its place, under its key, as secret as it was, and unchanged
  -- unless variables are updated.
  pub variable_modify-Extends :
      (key value : List ℕ) (args : List (List ℕ)) (file : Option (List (List ℕ)))
      → Extends update_vars old
          ((variable_modify old update_vars make_secret key value args file).0)
  unfolding variable_modify add_variables_from_file
  variable_modify-Extends key value args none =
      add_variables_from_args-Extends _ args
        (add_flags-Extends old false key value (Extends-same update_vars old))
  variable_modify-Extends key value args (some lines) = add_lines-Extends _ lines (
      add_variables_from_args-Extends _ args
        (add_flags-Extends old false key value (Extends-same update_vars old)))
