-- ===== src/Fields/Extends.antt =====
-- A field only adds to the parameters: `descend` and what it is made of.
use mathlib.Core.Path.{subst}
use astro_cli.Fields.Json.{
  Value, null, boolean, integer, text, array, object, Items, no_items, item, Entries, no_entries,
  entry, append_item, get, put, exists,
}
use astro_cli.Fields.Assign.{
  map_under, add_params_map, fill_up, last_map, slice_under, add_params_slice, append_to, fill_in,
  stored, store, descend,
}
use astro_cli.Fields.Steps.{descend-ok, ok-inj}
use astro_cli.Prelude.{
  [], some-inj, ◌∷◌, none, Option, ◌≢◌, true, false, none, sym, bind-ok, refl, Bool, ok, inr, inl,
  eq_codes, Bool-cases, if_intro, some, List, ℕ, ◌≡◌,
}

-- Every value of the old parameters is at its place in the new ones: a map has its keys, an array
-- its items, and both may have more.
mutual
  pub data ValueExtends : Value → Value → Type 0 where
    same : (v : Value) → ValueExtends v v
    in_array : {xs ys : Items} → ItemsExtend xs ys → ValueExtends (array xs) (array ys)
    in_object : {m m' : Entries} → EntriesExtend m m' → ValueExtends (object m) (object m')

  pub data ItemsExtend : Items → Items → Type 0 where
    more_items : (ys : Items) → ItemsExtend no_items ys
    same_item :
        {v w : Value} {xs ys : Items}
        → ValueExtends v w
        → ItemsExtend xs ys
        → ItemsExtend (item v xs) (item w ys)

  pub data EntriesExtend : Entries → Entries → Type 0 where
    more_entries : (m : Entries) → EntriesExtend no_entries m
    same_entry :
        (k : List ℕ) {v w : Value} {m m' : Entries}
        → ValueExtends v w
        → EntriesExtend m m'
        → EntriesExtend (entry k v m) (entry k w m')

EntriesExtend-refl : (m : Entries) → EntriesExtend m m
EntriesExtend-refl no_entries = more_entries no_entries
EntriesExtend-refl (entry k v m) = same_entry k (same v) (EntriesExtend-refl m)

append_item-Extends : (xs : Items) (v : Value) → ItemsExtend xs (append_item xs v)
unfolding append_item
append_item-Extends no_items v = more_items _
append_item-Extends (item w xs) v = same_item (same w) (append_item-Extends xs v)

-- A write adds, if it adds to what was there under its key.
put-Extends :
    (m : Entries) (k : List ℕ) (w : Value)
    → ((v : Value) → get m k ≡ some v → ValueExtends v w)
    → EntriesExtend m (put m k w)
unfolding get put
put-Extends no_entries k w h = more_entries _
put-Extends (entry l v m) k w h = elim (Bool-cases (eq_codes l k)) [
  | inl eq ↦ rw eq (same_entry l (h v (rw eq refl)) (EntriesExtend-refl m))
  | inr ne ↦ rw ne (same_entry l (same v) (put-Extends m k w (λ u e. h u (rw ne e))))
]

fill_up-Extends :
    (v : Value) (k : List ℕ) (inner : Entries)
    → EntriesExtend (fill_up v k).1 inner
    → ItemsExtend (item v no_items) (append_item (fill_up v k).0 (object inner))
unfolding fill_up append_item
fill_up-Extends (object m) k inner h =
    if_intro
      (λ (at : Items × Entries).
        EntriesExtend at.1 inner
        → ItemsExtend (item (object m) no_items) (append_item at.0 (object inner)))
      (exists m k) (λ e. λ extended. same_item (same _) (more_items _))
      (λ e. λ extended. same_item (in_object extended) (more_items _)) h
fill_up-Extends null k inner h = same_item (same _) (more_items _)
fill_up-Extends (boolean b) k inner h = same_item (same _) (more_items _)
fill_up-Extends (integer n) k inner h = same_item (same _) (more_items _)
fill_up-Extends (text s) k inner h = same_item (same _) (more_items _)
fill_up-Extends (array xs) k inner h = same_item (same _) (more_items _)

last_map-Extends :
    (items : Items) (k : List ℕ) (inner : Entries)
    → EntriesExtend (last_map items k).1 inner
    → ItemsExtend items (append_item (last_map items k).0 (object inner))
unfolding last_map append_item
last_map-Extends no_items k inner h = more_items _
last_map-Extends (item v no_items) k inner h = fill_up-Extends v k inner h
last_map-Extends (item v (item w xs)) k inner h =
    same_item (same v) (last_map-Extends (item w xs) k inner h)

append_to-Extends :
    (k : List ℕ) (v : Value) (old : Option Value) {w : Value}
    → append_to k v old ≡ ok w
    → (u : Value) → old ≡ some u
    → ValueExtends u w
unfolding append_to
append_to-Extends k v none e u f = absurd (cc)
append_to-Extends k v (some (array xs)) {w} e u f =
    subst (λ (t : Value × Value). ValueExtends t.0 t.1) (cc) (in_array (append_item-Extends xs v))
append_to-Extends k v (some null) e u f = absurd (cc)
append_to-Extends k v (some (boolean b)) e u f = absurd (cc)
append_to-Extends k v (some (integer n)) e u f = absurd (cc)
append_to-Extends k v (some (text s)) e u f = absurd (cc)
append_to-Extends k v (some (object m)) e u f = absurd (cc)

fill_in-Extends :
    (k : List ℕ) (v : Value) (old : Option Value) {w : Value}
    → fill_in k v old ≡ ok w
    → (u : Value) → old ≡ some u
    → ValueExtends u w
unfolding fill_in
fill_in-Extends k v none e u f = absurd (cc)
fill_in-Extends k v (some x) e u f = absurd (cc)

-- A value is lost by one assignment only: that of null to an array.
stored-Extends :
    (k : List ℕ) (is_array : Bool) (v : Value) (old : Option Value) {w : Value}
    → v ≢ null
    → stored k is_array v old ≡ ok w
    → (u : Value) → old ≡ some u
    → ValueExtends u w
unfolding stored
stored-Extends k true null old h e u f = absurd (h refl)
stored-Extends k true (boolean b) old h e u f = append_to-Extends k _ old e u f
stored-Extends k true (integer n) old h e u f = append_to-Extends k _ old e u f
stored-Extends k true (text s) old h e u f = append_to-Extends k _ old e u f
stored-Extends k true (array xs) old h e u f = append_to-Extends k _ old e u f
stored-Extends k true (object x) old h e u f = append_to-Extends k _ old e u f
stored-Extends k false v old h e u f = fill_in-Extends k v old e u f

store-Extends :
    (m : Entries) (k : List ℕ) (is_array : Bool) (v : Value) {m' : Entries}
    → v ≢ null
    → store m k is_array v ≡ ok m'
    → EntriesExtend m m'
unfolding store
store-Extends m k is_array v h e =
    let (assigned, e1, e2) = bind-ok (stored k is_array v (get m k)) _ e in
    subst (EntriesExtend m) (cc)
      (put-Extends m k assigned (stored-Extends k is_array v (get m k) h e1))

map_under-Extends :
    (k : List ℕ) (old : Option Value) {inner inner' : Entries}
    → map_under k old ≡ ok inner
    → EntriesExtend inner inner'
    → (u : Value) → old ≡ some u
    → ValueExtends u (object inner')
unfolding map_under
map_under-Extends k none e h u f = absurd (cc)
map_under-Extends k (some (object m)) {inner} {inner'} e h u f =
    subst (λ t. ValueExtends t (object inner')) (some-inj f)
      (in_object (subst (λ t. EntriesExtend t inner') (cc) h))
map_under-Extends k (some null) e h u f = absurd (cc)
map_under-Extends k (some (boolean b)) e h u f = absurd (cc)
map_under-Extends k (some (integer n)) e h u f = absurd (cc)
map_under-Extends k (some (text s)) e h u f = absurd (cc)
map_under-Extends k (some (array xs)) e h u f = absurd (cc)

slice_under-Extends :
    (k l : List ℕ) (old : Option Value) {at : Items × Entries} {inner : Entries}
    → slice_under k l old ≡ ok at
    → EntriesExtend at.1 inner
    → (u : Value) → old ≡ some u
    → ValueExtends u (array (append_item at.0 (object inner)))
unfolding slice_under
slice_under-Extends k l none e h u f = absurd (cc)
slice_under-Extends k l (some (array xs)) {at} {inner} e h u f =
    subst (λ t. ValueExtends t (array (append_item at.0 (object inner)))) (some-inj f)
      (in_array (
        subst (λ (t : Items × Entries). ItemsExtend xs (append_item t.0 (object inner))) (ok-inj e)
          (last_map-Extends xs l inner
            (subst (λ (t : Items × Entries). EntriesExtend t.1 inner) (sym (ok-inj e)) h))))
slice_under-Extends k l (some null) e h u f = absurd (cc)
slice_under-Extends k l (some (boolean b)) e h u f = absurd (cc)
slice_under-Extends k l (some (integer n)) e h u f = absurd (cc)
slice_under-Extends k l (some (text s)) e h u f = absurd (cc)
slice_under-Extends k l (some (object m)) e h u f = absurd (cc)

pub descend-Extends :
    (m : Entries) (subkey : List ℕ) (is_array : Bool) (keys : List (List ℕ)) (v : Value)
    {m' : Entries}
    → v ≢ null
    → descend m subkey is_array keys v ≡ ok m'
    → EntriesExtend m m'
unfolding descend add_params_map add_params_slice
descend-Extends m subkey is_array [] v h e = store-Extends m subkey is_array v h e
descend-Extends m subkey is_array (k ∷ keys) v h e =
    elim (descend-ok m subkey is_array k keys v _ e) [
      | inl (inl next) ↦ descend-Extends m subkey true keys v h next
      | inl (inr next) ↦ descend-Extends m k is_array keys v h next
      | inr (inl (at, inner, e1, e2, e3)) ↦ subst (EntriesExtend m) e3 (
          put-Extends m subkey _ (
            slice_under-Extends subkey k (get m subkey) (e1)
              (descend-Extends at.1 k false keys v h e2)))
      | inr (inr (inside, inner, e1, e2, e3)) ↦ subst (EntriesExtend m) e3 (
          put-Extends m subkey _ (
            map_under-Extends subkey (get m subkey) (e1)
              (descend-Extends inside k false keys v h e2)))
    ]
