-- ===== src/Variables/Fresh.antt =====
-- The variables that are added: from arguments one for each, from a file one for each key.
use astro_cli.Prelude.{
  arith, some, append_assoc, none, append-nil, sym, ap, contains_by, refl, ◌∙◌, false, map, ◌≡◌,
  length, All, [], ◌∷◌, eqb, ◌++◌, Bool, ℕ, List,
}
use astro_cli.Variables.Parse.{split_pair}
use astro_cli.Variables.{
  keys, contains, add_arg, add_variable, created, add_variables_from_args, Variable, Draft,
}

-- The text of an argument.
abbrev pub join_pair : List ℕ × List ℕ → List ℕ
join_pair (key, value) = key ++ b'=' ∷ value

-- A key without the separator, and a value, which the deployment does not have.
abbrev pub IsFresh : List Variable → List ℕ × List ℕ → Type 0
IsFresh old (key, value) =
    (eqb (length key) 0 ≡ false)
    × (eqb (length value) 0 ≡ false)
    × (contains_by (eqb b'=') key ≡ false)
    × (contains (keys old) key 0 ≡ none)

split_pair-join_pair :
    (key value : List ℕ)
    → contains_by (eqb b'=') key ≡ false
    → split_pair (join_pair (key, value)) ≡ some (key, value)
unfolding split_pair
split_pair-join_pair [] value h = refl
split_pair-join_pair (c ∷ key) value h = ground (arith, split_pair-join_pair key value)

add_variables_from_args-step :
    (old : List Variable) (update_vars make_secret : Bool) (draft : Draft) (arg : List ℕ)
    (args : List (List ℕ))
    → add_variables_from_args old update_vars make_secret draft (arg ∷ args)
      ≡ add_variables_from_args old update_vars make_secret
          (add_arg old update_vars make_secret draft (split_pair arg))
          args
unfolding add_variables_from_args
add_variables_from_args-step old update_vars make_secret draft arg args = refl

add_variables_from_args-nil :
    (old : List Variable) (update_vars make_secret : Bool) (draft : Draft)
    → add_variables_from_args old update_vars make_secret draft [] ≡ draft
unfolding add_variables_from_args
add_variables_from_args-nil old update_vars make_secret draft = refl

module _ (old : List Variable) (update_vars make_secret : Bool) where
  abbrev pub created_from : List ℕ × List ℕ → Variable
  created_from (key, value) = created old update_vars make_secret key value

  add_arg_fresh :
      (new : List Variable) (failed : Bool) (pair : List ℕ × List ℕ)
      → IsFresh old pair
      → add_arg old update_vars make_secret (new, failed) (split_pair (join_pair pair))
        ≡ (new ++ created_from pair ∷ [], failed)
  unfolding add_variable
  add_arg_fresh new failed (key, value) (named, valued, plain, absent) =
      rw (split_pair-join_pair key value plain, named, valued, absent) refl

  -- From arguments that are pairs of a key that the deployment does not have and a value, each one
  -- adds a variable, in their order, also where two of them have the same key.
  pub add_variables_from_args-fresh :
      (pairs : List (List ℕ × List ℕ)) (new : List Variable) (failed : Bool)
      → All (IsFresh old) pairs
      → add_variables_from_args old update_vars make_secret (new, failed) (map join_pair pairs)
        ≡ (new ++ map created_from pairs, failed)
  add_variables_from_args-fresh [] new failed h =
      add_variables_from_args-nil old update_vars make_secret (new, failed)
      ∙ ap (λ vs. (vs, failed)) (sym (append-nil new))
  add_variables_from_args-fresh (pair ∷ pairs) new failed (first, h) =
      add_variables_from_args-step old update_vars make_secret (new, failed) (join_pair pair)
        (map join_pair pairs)
      ∙ ap
          (λ draft. add_variables_from_args old update_vars make_secret draft (map join_pair pairs))
          (add_arg_fresh new failed pair first)
      ∙ add_variables_from_args-fresh pairs (new ++ created_from pair ∷ []) failed h
      ∙ ap (λ vs. (vs, failed)) (append_assoc new (created_from pair ∷ []) (map created_from pairs))
