-- ===== src/Fields/Scan.antt =====
-- The loop of `parseField` over a field, which cuts it in keys and a value. A string is its bytes,
-- and the separators are bytes.
use astro_cli.Prelude.{
  List, ℕ, ◌∷◌, [], ◌++◌, ◌+◌, ◌-◌, eqb, if◌then◌else◌, take, drop, length, Result, ok, err, Option,
  none, some,
}

pub data FieldError : Type 0 where
  invalid_key : List ℕ → FieldError
  requires_value : List ℕ → FieldError
  unexpected_override : List ℕ → FieldError
  expected_array : List ℕ → FieldError
  expected_map : List ℕ → FieldError
  parsing : List ℕ → FieldError → FieldError
  out_of_reach : List ℕ → FieldError

pub data Mark : Type 0 where
  key_start : Mark
  key_end : Mark
  key_separator : Mark
  other : Mark

-- `switch r`
unfoldable pub mark_of : ℕ → Mark
mark_of r =
    if eqb r b'['
    then key_start
    else if eqb r b']'
    then key_end
    else if eqb r b'='
    then key_separator
    else other

-- `f[from:to]`
unfoldable pub slice : List ℕ → ℕ → ℕ → List ℕ
slice f from to = drop from (take to f)

-- `if keyStartAt == 0 { keystack = append(keystack, f[0:i]) }`
unfoldable pub head_key : List ℕ → ℕ → ℕ → List (List ℕ) → List (List ℕ)
unfolding slice
head_key f i key_start_at keystack =
    if eqb key_start_at 0 then keystack ++ slice f 0 i ∷ [] else keystack

-- The loop from index `i`, where the rest of `f` stands: the keys, and `valueIndex`.
unfoldable pub scan : List ℕ → List ℕ → ℕ → ℕ → List (List ℕ) → List (List ℕ) × ℕ
unfolding mark_of head_key slice
scan f [] i key_start_at keystack = (keystack, 0)
scan f (r ∷ rest) i key_start_at keystack = elim (mark_of r) [
  | key_start ↦ scan f rest (i + 1) (i + 1) (head_key f i key_start_at keystack)
  | key_end ↦ scan f rest (i + 1) key_start_at (keystack ++ slice f key_start_at i ∷ [])
  | key_separator ↦ (head_key f i key_start_at keystack, i + 1)
  | other ↦ scan f rest (i + 1) key_start_at keystack
]

-- `keystack[len(keystack)-1]`
unfoldable pub last_key : List (List ℕ) → List ℕ
last_key [] = []
last_key (k ∷ []) = k
last_key (k ∷ l ∷ ks) = last_key (l ∷ ks)

-- The keys of a field, and its name and text if it has a value.
pub record Cut : Type 0 where
  pub keystack : List (List ℕ)
  pub key : List ℕ
  pub value : Option (List ℕ)

-- The checks that follow the loop.
unfoldable pub cut_at : List ℕ → List (List ℕ) × ℕ → Result FieldError Cut
unfolding last_key slice
cut_at f (keystack, value_index) =
    if eqb (length keystack) 0
    then err (invalid_key f)
    else if eqb value_index 0
    then if eqb (length (last_key keystack)) 0
      then ok (record { keystack = keystack; key = f; value = none })
      else err (requires_value f)
    else ok (record {
      keystack = keystack;
      key = slice f 0 (value_index - 1);
      value = some (drop value_index f);
    })

unfoldable pub cut : List ℕ → Result FieldError Cut
unfolding scan cut_at
cut f = cut_at f (scan f f 0 0 [])
