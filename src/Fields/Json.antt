-- ===== src/Fields/Json.antt =====
-- The values of a request's parameters: what encoding/json is given for them (cmd/api/fields.go).
use astro_cli.Prelude.{◌||◌, false, List, ℕ, Bool, Option, none, some, eq_codes, if◌then◌else◌}
use astro_cli.Prelude.Int.{ℤ}

-- The entries of a map are listed in the order in which they were added, which json ignores.
mutual
  pub data Value : Type 0 where
    null : Value
    boolean : Bool → Value
    integer : ℤ → Value
    text : List ℕ → Value
    array : Items → Value
    object : Entries → Value

  pub data Items : Type 0 where
    no_items : Items
    item : Value → Items → Items

  pub data Entries : Type 0 where
    no_entries : Entries
    entry : List ℕ → Value → Entries → Entries

-- `append(items, value)`
unfoldable pub append_item : Items → Value → Items
append_item no_items v = item v no_items
append_item (item w items) v = item w (append_item items v)

-- `m[key]`
unfoldable pub get : Entries → List ℕ → Option Value
get no_entries key = none
get (entry k v m) key = let rest = get m key in if eq_codes k key then some v else rest

-- `_, exists := m[key]`
unfoldable pub exists : Entries → List ℕ → Bool
exists no_entries key = false
exists (entry k v m) key = eq_codes k key || exists m key

-- `m[key] = value`
unfoldable pub put : Entries → List ℕ → Value → Entries
put no_entries key value = entry key value no_entries
put (entry k v m) key value =
    let rest = put m key value in if eq_codes k key then entry k value m else entry k v rest
