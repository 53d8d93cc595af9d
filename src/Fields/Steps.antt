-- ===== src/Fields/Steps.antt =====
-- The loop over the keys, a key at a time.
use astro_cli.Fields.Json.{Value, array, object, Items, Entries, append_item, put}
use astro_cli.Fields.Scan.{FieldError}
use astro_cli.Fields.Assign.{
  add_params_map, add_params_slice, Move, mark_array, start, into_slice, into_map, move_of, descend,
}
use astro_cli.Prelude.{
  Result, bind-ok, ◌∙◌, refl, sym, false, ◌>>=◌, true, inr, ok, ◌∷◌, inl, Bool, ◌⊎◌, List, ℕ, ◌≡◌,
}

pub ok-inj : {A : Type 0} {a b : A} → ◌≡◌ {A = Result FieldError A} (ok a) (ok b) → a ≡ b
ok-inj e = cc

Move-cases :
    (mv : Move) → ((mv ≡ mark_array) ⊎ (mv ≡ start)) ⊎ ((mv ≡ into_slice) ⊎ (mv ≡ into_map))
Move-cases mark_array = inl (inl refl)
Move-cases start = inl (inr refl)
Move-cases into_slice = inr (inl refl)
Move-cases into_map = inr (inr refl)

module _ (m : Entries) (subkey : List ℕ) (is_array : Bool) (k : List ℕ) (keys : List (List ℕ))
    (v : Value) where
  pub descend-mark_array :
      move_of subkey is_array k ≡ mark_array
      → descend m subkey is_array (k ∷ keys) v ≡ descend m subkey true keys v
  unfolding descend
  descend-mark_array h = rw (h, descend) refl

  pub descend-start :
      move_of subkey is_array k ≡ start
      → descend m subkey is_array (k ∷ keys) v ≡ descend m k is_array keys v
  unfolding descend
  descend-start h = rw (h, descend) refl

  pub descend-into_slice :
      move_of subkey is_array k ≡ into_slice
      → descend m subkey is_array (k ∷ keys) v ≡ (
          add_params_slice m subkey k >>= (λ (at : Items × Entries).
            descend at.1 k false keys v
            >>= (λ inner. ok (put m subkey (array (append_item at.0 (object inner)))))))
  unfolding descend
  descend-into_slice h = rw (h, descend) refl

  pub descend-into_map :
      move_of subkey is_array k ≡ into_map
      → descend m subkey is_array (k ∷ keys) v ≡ (
          add_params_map m subkey >>= (λ inside.
            descend inside k false keys v >>= (λ inner. ok (put m subkey (object inner)))))
  unfolding descend
  descend-into_map h = rw (h, descend) refl

  -- What a key that succeeds has done.
  abbrev InSlice : Entries → Type 0
  InSlice m' =
      (at : Items × Entries) × (inner : Entries) × (add_params_slice m subkey k ≡ ok at)
      × (descend at.1 k false keys v ≡ ok inner)
      × (put m subkey (array (append_item at.0 (object inner))) ≡ m')

  abbrev InMap : Entries → Type 0
  InMap m' =
      (inside : Entries) × (inner : Entries) × (add_params_map m subkey ≡ ok inside)
      × (descend inside k false keys v ≡ ok inner)
      × (put m subkey (object inner) ≡ m')

  pub descend-ok :
      (m' : Entries)
      → descend m subkey is_array (k ∷ keys) v ≡ ok m'
      → ((descend m subkey true keys v ≡ ok m') ⊎ (descend m k is_array keys v ≡ ok m'))
        ⊎ (InSlice m' ⊎ InMap m')
  descend-ok m' e = elim (Move-cases (move_of subkey is_array k)) [
    | inl (inl h) ↦ inl (inl (sym (descend-mark_array h) ∙ e))
    | inl (inr h) ↦ inl (inr (sym (descend-start h) ∙ e))
    | inr (inl h) ↦
        let (at, e1, rest) =
          bind-ok (add_params_slice m subkey k) _ (sym (descend-into_slice h) ∙ e) in
        let (inner, e2, e3) = bind-ok (descend at.1 k false keys v) _ rest in
        inr (inl (at, inner, e1, e2, cc))
    | inr (inr h) ↦
        let (inside, e1, rest) =
          bind-ok (add_params_map m subkey) _ (sym (descend-into_map h) ∙ e) in
        let (inner, e2, e3) = bind-ok (descend inside k false keys v) _ rest in
        inr (inr (inside, inner, e1, e2, cc))
  ]
