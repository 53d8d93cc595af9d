-- ===== src/Fields/Assign.antt =====
-- The loop of `parseField` over the keys, down the maps of the parameters, and the assignment.
use astro_cli.Fields.Json.{
  Value, null, array, object, Items, no_items, item, Entries, no_entries, append_item, exists, get,
  put,
}
use astro_cli.Fields.Scan.{FieldError, unexpected_override, expected_array, expected_map}
use astro_cli.Prelude.{
  Option, List, ℕ, ◌∷◌, [], eqb, if◌then◌else◌, Bool, true, false, Result, ok, err, none, some,
  ◌>>=◌, length,
}

-- The map under a key, from what `m[key]` is: the one that is there, or a new one.
unfoldable pub map_under : List ℕ → Option Value → Result FieldError Entries
map_under key none = ok no_entries
map_under key (some (object inner)) = ok inner
map_under key (some _) = err (expected_map key)

unfoldable pub add_params_map : Entries → List ℕ → Result FieldError Entries
unfolding get map_under
add_params_map m key = map_under key (get m key)

-- The last item, if it is a map without the new key, is filled up: the items before that map, and
-- the map. Otherwise a map is appended.
unfoldable pub fill_up : Value → List ℕ → Items × Entries
unfolding exists
fill_up (object inner) newkey =
    if exists inner newkey then (item (object inner) no_items, no_entries) else (no_items, inner)
fill_up v newkey = (item v no_items, no_entries)

unfoldable pub last_map : Items → List ℕ → Items × Entries
unfolding fill_up
last_map no_items newkey = (no_items, no_entries)
last_map (item v no_items) newkey = fill_up v newkey
last_map (item v (item w items)) newkey =
    let rest = last_map (item w items) newkey in (item v rest.0, rest.1)

unfoldable pub slice_under : List ℕ → List ℕ → Option Value → Result FieldError (Items × Entries)
unfolding last_map
slice_under prevkey newkey none = ok (no_items, no_entries)
slice_under prevkey newkey (some (array items)) = ok (last_map items newkey)
slice_under prevkey newkey (some _) = err (expected_array prevkey)

unfoldable pub add_params_slice : Entries → List ℕ → List ℕ → Result FieldError (Items × Entries)
unfolding get slice_under
add_params_slice m prevkey newkey = slice_under prevkey newkey (get m prevkey)

-- `destMap[subkey] = append(existSlice, value)`, from what `destMap[subkey]` is.
unfoldable pub append_to : List ℕ → Value → Option Value → Result FieldError Value
unfolding append_item
append_to subkey value none = ok (array (item value no_items))
append_to subkey value (some (array items)) = ok (array (append_item items value))
append_to subkey value (some _) = err (expected_array subkey)

-- A key that is not an array's must be new.
unfoldable pub fill_in : List ℕ → Value → Option Value → Result FieldError Value
fill_in subkey value none = ok value
fill_in subkey value (some _) = err (unexpected_override subkey)

-- The value that is assigned.
unfoldable pub stored : List ℕ → Bool → Value → Option Value → Result FieldError Value
unfolding append_to fill_in
stored subkey true null old = ok (array no_items)
stored subkey true value old = append_to subkey value old
stored subkey false value old = fill_in subkey value old

-- The assignment at the end of the path.
unfoldable pub store : Entries → List ℕ → Bool → Value → Result FieldError Entries
unfolding get put stored
store dest subkey is_array value =
    stored subkey is_array value (get dest subkey) >>= (λ assigned. ok (put dest subkey assigned))

-- What the loop does with a key.
pub data Move : Type 0 where
  mark_array : Move
  start : Move
  into_slice : Move
  into_map : Move

unfoldable pub move_of : List ℕ → Bool → List ℕ → Move
move_of subkey is_array k =
    if eqb (length k) 0
    then mark_array
    else if eqb (length subkey) 0
    then start
    else if is_array
    then into_slice
    else into_map

-- The maps on the path are changed in place, so each is put back where it was found.
unfoldable pub descend : Entries → List ℕ → Bool → List (List ℕ) → Value → Result FieldError Entries
unfolding move_of add_params_slice add_params_map store put append_item
descend dest subkey is_array [] value = store dest subkey is_array value
descend dest subkey is_array (k ∷ keys) value = elim (move_of subkey is_array k) [
  | mark_array ↦ descend dest subkey true keys value
  | start ↦ descend dest k is_array keys value
  | into_slice ↦ add_params_slice dest subkey k >>= (λ (at : Items × Entries).
      descend at.1 k false keys value
      >>= (λ inner. ok (put dest subkey (array (append_item at.0 (object inner))))))
  | into_map ↦
      add_params_map dest subkey
      >>= (λ m. descend m k false keys value >>= (λ inner. ok (put dest subkey (object inner))))
]
