-- ===== src/Variables/Unique.antt =====
-- A file never adds a key twice.
use astro_cli.Variables.Keeps.{Extends-same, overwrite-Extends, Extends-append, Extends}
use astro_cli.Prelude.{
  length, is_prefix, eqb, not, if_intro, some-inj, sym, Option, true, ◌∙◌, zero, suc, set, ◌+◌,
  refl, some, ◌||◌, arith, get_elem?, ap, none, [], false, ◌∷◌, ◌++◌, ◌≡◌, contains_by, eq_codes, ℕ,
  Bool, List,
}
use astro_cli.Variables.{
  split_pair, clean, add_variables_from_args, add_variables_from_file, add_line, add_pair, updated,
  variable_modify, add_lines, overwrite, FileDraft, created, add_file_pair, keys, contains,
  Variable,
}

-- No key stands twice.
abbrev pub Distinct : List (List ℕ) → Type 0
Distinct [] = Unit
Distinct (k ∷ ks) = (contains_by (eq_codes k) ks ≡ false) × Distinct ks

eq_codes_sym : (s t : List ℕ) → eq_codes s t ≡ eq_codes t s
eq_codes_sym [] [] = refl
eq_codes_sym [] (d ∷ t) = refl
eq_codes_sym (c ∷ s) [] = refl
eq_codes_sym (c ∷ s) (d ∷ t) = ground (arith, eq_codes_sym s t)

contains_by-snoc :
    (test : List ℕ → Bool) (ks : List (List ℕ)) (k : List ℕ)
    → contains_by test (ks ++ k ∷ []) ≡ (contains_by test ks || test k)
contains_by-snoc test [] k = ground arith
contains_by-snoc test (x ∷ ks) k = ground (arith, contains_by-snoc test ks k)

Distinct-snoc :
    (ks : List (List ℕ)) (k : List ℕ)
    → Distinct ks
    → contains_by (eq_codes k) ks ≡ false
    → Distinct (ks ++ k ∷ [])
Distinct-snoc [] k d h = (refl, tt)
Distinct-snoc (x ∷ ks) k (dx, d) h = (
  rw (contains_by-snoc (eq_codes x) ks k) (ground (arith, eq_codes_sym x k)),
  Distinct-snoc ks k d (ground arith),
)

contains-none :
    (elems : List (List ℕ)) (v : List ℕ) (i : ℕ)
    → contains elems v i ≡ none
    → contains_by (eq_codes v) elems ≡ false
unfolding contains
contains-none [] v i h = refl
contains-none (s ∷ elems) v i h = ground (arith, contains-none elems v (i + 1))

keys-append : (vs ws : List Variable) → keys (vs ++ ws) ≡ keys vs ++ keys ws
keys-append [] ws = refl
keys-append (v ∷ vs) ws = ap (λ ks. v.key ∷ ks) (keys-append vs ws)

-- A write of a variable under the old key leaves the keys.
keys-set :
    (update_vars : Bool) (old new : List Variable) (num : ℕ) (o n : Variable)
    → Extends update_vars old new
    → get_elem? old num ≡ some o
    → n.key ≡ o.key
    → keys (set new num n) ≡ keys new
keys-set update_vars [] new num o n h e k = absurd (cc)
keys-set update_vars (x ∷ os) [] num o n h e k = refl
keys-set update_vars (x ∷ os) (y ∷ ns) zero o n ((same_key, secret, same), h) e k =
    ap (λ key. key ∷ keys ns) (k ∙ ap (λ (v : Variable). v.key) (sym (some-inj e)) ∙ sym same_key)
keys-set update_vars (x ∷ os) (y ∷ ns) (suc num) o n (hk, h) e k =
    ap (λ ks. y.key ∷ ks) (keys-set update_vars os ns num o n h e k)

module _ (old : List Variable) (update_vars make_secret : Bool) where
  -- What holds between two lines of the file: the keys that were added are those that were seen,
  -- none stands twice, and the old variables are in their places.
  abbrev Inv : FileDraft → Type 0
  Inv (seen, (new, failed)) =
      Extends update_vars old new
      × Distinct (keys new)
      × ((k : List ℕ)
          → contains_by (eq_codes k) (keys new) ≡ true
          → (contains_by (eq_codes k) (keys old) || contains_by (eq_codes k) seen) ≡ true)

  keys-overwrite :
      (new : List Variable) (num : ℕ) (o : Option Variable) (value : List ℕ)
      → Extends update_vars old new
      → get_elem? old num ≡ o
      → keys (overwrite old update_vars make_secret new num o value) ≡ keys new
  keys-overwrite new num none value h e = refl
  keys-overwrite new num (some o) value h e =
      keys-set update_vars old new num o (updated old update_vars make_secret o value) h e refl

  add_file_pair-Inv :
      (seen : List (List ℕ)) (new : List Variable) (failed : Bool) (found : Option ℕ)
      (key value : List ℕ)
      → contains (keys old) key 0 ≡ found
      → contains_by (eq_codes key) seen ≡ false
      → Inv (seen, (new, failed))
      → Inv (add_file_pair old update_vars make_secret (seen, (new, failed)) found key value)
  add_file_pair-Inv seen new failed none key value e unseen (ext, d, known) =
      let absent = contains-none (keys old) key 0 e in
      let added = keys-append new (created old update_vars make_secret key value ∷ []) in
      (
        Extends-append update_vars old new _ ext,
        rw added (Distinct-snoc (keys new) key d (ground (arith, known key))),
        λ k h.
            let split : (contains_by (eq_codes k) (keys new) || eq_codes k key) ≡ true =
              sym (contains_by-snoc (eq_codes k) (keys new) key)
              ∙ sym (ap (contains_by (eq_codes k)) added)
              ∙ h in
            rw (contains_by-snoc (eq_codes k) seen key) (ground (arith, known k)),
      )
  add_file_pair-Inv seen new failed (some num) key value e unseen (ext, d, known) =
      if_intro Inv (not update_vars) (λ u. (ext, d, known))
        (λ u.
          let kept = keys-overwrite new num (get_elem? old num) value ext refl in
          (
            overwrite-Extends old update_vars make_secret new num (get_elem? old num) value refl
                (ground arith) ext,
            rw kept d,
            λ k h.
                rw (contains_by-snoc (eq_codes k) seen key)
                  (ground (arith, known k (sym (ap (contains_by (eq_codes k)) kept) ∙ h))),
          ))

  add_pair-Inv :
      (draft : FileDraft) (pair : Option (List ℕ × List ℕ))
      → Inv draft
      → Inv (add_pair old update_vars make_secret draft pair)
  add_pair-Inv (seen, (new, failed)) none h = h
  add_pair-Inv (seen, (new, failed)) (some (key, value)) h =
      if_intro Inv ((eqb (length key) 0 || eqb (length value) 0) || contains_by (eq_codes key) seen)
        (λ e. h)
        (λ e.
          add_file_pair-Inv seen new failed (contains (keys old) key 0) key (clean value) refl
            (ground arith) h)

  add_lines-Inv :
      (draft : FileDraft) (lines : List (List ℕ))
      → Inv draft
      → Inv (add_lines old update_vars make_secret draft lines)
  unfolding add_lines add_line
  add_lines-Inv draft [] h = h
  add_lines-Inv draft (line ∷ lines) h =
      add_lines-Inv (add_line old update_vars make_secret draft line) lines (
        if_intro Inv (is_prefix (b'#' ∷ []) line || eqb (length line) 0) (λ e. h)
          (λ e. add_pair-Inv draft (split_pair line) h))

  -- If no two variables of the deployment have the same key, then with a file alone no two
  -- variables of the list that VariableModify sends have the same key.
  pub variable_modify-Distinct :
      (lines : List (List ℕ))
      → Distinct (keys old)
      → Distinct (keys ((variable_modify old update_vars make_secret [] [] [] (some lines)).0))
  unfolding variable_modify add_variables_from_file add_variables_from_args
  variable_modify-Distinct lines d =
      (add_lines-Inv ([], (old, false)) lines
        (Extends-same update_vars old, d, (λ k h. ground arith))).1
