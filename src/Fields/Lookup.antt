-- ===== src/Fields/Lookup.antt =====
-- Where a field without arrays puts its value.
use mathlib.Core.Path.{subst}
use astro_cli.Fields.Json.{
  Value, null, boolean, integer, text, array, object, Entries, no_entries, entry, get, put,
}
use astro_cli.Fields.Assign.{
  map_under, add_params_map, store, stored, fill_in, into_map, move_of, descend,
}
use astro_cli.Fields.Steps.{ok-inj, descend-start, descend-into_map}
use astro_cli.Prelude.{
  ◌↔◌, ◌>>=◌, Bool, ap, ◌∙◌, sym, bind-ok, All, ok, none, refl, [], ◌∷◌, false, arith, true, ◌≢◌,
  some, eq_codes, length, Option, List, ℕ, ◌≡◌,
}

-- The value at a path of keys, a map for each key but the last.
unfoldable pub value_at : Option Value → List (List ℕ) → Option Value
unfolding get
value_at v [] = v
value_at (some (object m)) (k ∷ keys) = value_at (get m k) keys
value_at _ (k ∷ keys) = none

-- A path that can be assigned: it ends at a new key, in maps only.
unfoldable pub open_at : Option Value → List (List ℕ) → Bool
unfolding get
open_at none keys = true
open_at (some v) [] = false
open_at (some (object m)) (k ∷ keys) = open_at (get m k) keys
open_at (some _) (k ∷ keys) = false

abbrev pub IsNamed : List ℕ → Type 0
IsNamed k = length k ≢ 0

eq_codes_self : (s : List ℕ) → eq_codes s s ≡ true
eq_codes_self [] = refl
eq_codes_self (c ∷ s) = ground (arith, eq_codes_self s)

eq_codes→≡ : (s t : List ℕ) → eq_codes s t ≡ true → s ≡ t
eq_codes→≡ [] [] h = refl
eq_codes→≡ [] (d ∷ t) h = absurd (cc)
eq_codes→≡ (c ∷ s) [] h = absurd (cc)
eq_codes→≡ (c ∷ s) (d ∷ t) h = grind (arith, eq_codes→≡ s t)

get-put : (m : Entries) (k : List ℕ) (v : Value) → get (put m k v) k ≡ some v
unfolding get put
get-put no_entries k v = rw (eq_codes_self k) refl
get-put (entry l u m) k v = ground (arith, get-put m k v)

get-put-other :
    (m : Entries) (k : List ℕ) (v : Value) (q : List ℕ)
    → eq_codes k q ≡ false
    → get (put m k v) q ≡ get m q
unfolding get put
get-put-other no_entries k v q h = rw h refl
get-put-other (entry l u m) k v q h = ground (arith, get-put-other m k v q h, eq_codes→≡ l k)

fill_in-ok :
    (k : List ℕ) (v : Value) (old : Option Value) {w : Value}
    → fill_in k v old ≡ ok w
    → (old ≡ none) × (v ≡ w)
unfolding fill_in
fill_in-ok k v none e = (refl, cc)
fill_in-ok k v (some u) e = absurd (cc)

map_under-ok :
    (k : List ℕ) (old : Option Value) (inside : Entries) (keys : List (List ℕ)) (l : List ℕ)
    → map_under k old ≡ ok inside
    → open_at (some (object inside)) (l ∷ keys) ≡ true
    → open_at old (l ∷ keys) ≡ true
unfolding map_under open_at
map_under-ok k none inside keys l e h = refl
map_under-ok k (some (object m)) inside keys l e h =
    subst (λ t. open_at (get t l) keys ≡ true) (sym (ok-inj e)) h
map_under-ok k (some null) inside keys l e h = absurd (cc)
map_under-ok k (some (boolean b)) inside keys l e h = absurd (cc)
map_under-ok k (some (integer n)) inside keys l e h = absurd (cc)
map_under-ok k (some (text s)) inside keys l e h = absurd (cc)
map_under-ok k (some (array xs)) inside keys l e h = absurd (cc)

move_of-into_map :
    (subkey k : List ℕ) → IsNamed subkey → IsNamed k → move_of subkey false k ≡ into_map
unfolding move_of
move_of-into_map subkey k named hk = ground arith

-- The map that a value is; a new one where there is no map.
abbrev pub inside_of : Option Value → Entries
inside_of (some (object m)) = m
inside_of _ = no_entries

-- Every key beside the path is as it was, in each of the maps that the path leads through.
abbrev pub Keeps : Entries → List ℕ → List (List ℕ) → Entries → Type 0
Keeps m k [] m' = (q : List ℕ) → eq_codes k q ≡ false → get m' q ≡ get m q
Keeps m k (l ∷ keys) m' =
    ((q : List ℕ) → eq_codes k q ≡ false → get m' q ≡ get m q)
    × Keeps (inside_of (get m k)) l keys (inside_of (get m' k))

-- The value is at the path, which could be assigned, and everything beside the path is kept.
abbrev pub Puts : Entries → List ℕ → List (List ℕ) → Value → Entries → Type 0
Puts m k keys v m' =
    (value_at (some (object m')) (k ∷ keys) ≡ some v)
    × (open_at (some (object m)) (k ∷ keys) ≡ true)
    × Keeps m k keys m'

Puts-put :
    (m : Entries) (k : List ℕ) (keys : List (List ℕ)) (v w : Value) {m' : Entries}
    → value_at (some w) keys ≡ some v
    → open_at (get m k) keys ≡ true
    → Keeps m k keys (put m k w)
    → put m k w ≡ m'
    → Puts m k keys v m'
unfolding value_at open_at
Puts-put m k keys v w there free kept same =
    subst (Puts m k keys v) same (ap (λ t. value_at t keys) (get-put m k w) ∙ there, free, kept)

inside_of-map_under :
    (k : List ℕ) (old : Option Value) {inside : Entries}
    → map_under k old ≡ ok inside
    → inside ≡ inside_of old
unfolding map_under
inside_of-map_under k none e = cc
inside_of-map_under k (some (object m)) e = cc
inside_of-map_under k (some null) e = absurd (cc)
inside_of-map_under k (some (boolean b)) e = absurd (cc)
inside_of-map_under k (some (integer n)) e = absurd (cc)
inside_of-map_under k (some (text s)) e = absurd (cc)
inside_of-map_under k (some (array xs)) e = absurd (cc)

Keeps-under :
    (m : Entries) (k l : List ℕ) (keys : List (List ℕ)) (inner : Entries) {inside : Entries}
    → add_params_map m k ≡ ok inside
    → Keeps inside l keys inner
    → Keeps (inside_of (get m k)) l keys (inside_of (get (put m k (object inner)) k))
unfolding add_params_map
Keeps-under m k l keys inner {inside} e kept =
    subst (λ o. Keeps (inside_of (get m k)) l keys (inside_of o)) (sym (get-put m k (object inner)))
      (subst (λ t. Keeps t l keys inner) (inside_of-map_under k (get m k) e) kept)

-- From the second key on.
descend-under :
    (m : Entries) (subkey : List ℕ) (keys : List (List ℕ)) (v : Value) {m' : Entries}
    → IsNamed subkey
    → All IsNamed keys
    → descend m subkey false keys v ≡ ok m'
    → Puts m subkey keys v m'
unfolding descend store stored value_at open_at
descend-under m subkey [] v {m'} named hk e =
    let (assigned, e1, e2) = bind-ok (fill_in subkey v (get m subkey)) _ e in
    let (free, same) = fill_in-ok subkey v (get m subkey) e1 in
    Puts-put m subkey [] v assigned (ap some (sym same)) (ap (λ o. open_at o []) free)
      (get-put-other m subkey assigned) (ok-inj e2)
descend-under m subkey (k ∷ keys) v {m'} named (hk, hks) e =
    let into = move_of-into_map subkey k named hk in
    let (inside, e1, rest) =
      bind-ok (add_params_map m subkey) _
        (sym (descend-into_map m subkey false k keys v into) ∙ e) in
    let (inner, e2, e3) = bind-ok (descend inside k false keys v) _ rest in
    let (there, free, kept) = descend-under inside k keys v hk hks e2 in
    Puts-put m subkey (k ∷ keys) v (object inner) there
      (map_under-ok subkey (get m subkey) inside keys k e1 free)
      (get-put-other m subkey (object inner), Keeps-under m subkey k keys inner e1 kept) (ok-inj e3)

pub descend-Puts :
    (m : Entries) (k : List ℕ) (keys : List (List ℕ)) (v : Value) {m' : Entries}
    → IsNamed k
    → All IsNamed keys
    → descend m [] false (k ∷ keys) v ≡ ok m'
    → Puts m k keys v m'
unfolding move_of
descend-Puts m k keys v hk hks e =
    descend-under m k keys v hk hks (sym (descend-start m [] false k keys v (ground arith)) ∙ e)

map_under-open :
    (k : List ℕ) (old : Option Value) (l : List ℕ) (keys : List (List ℕ))
    → open_at old (l ∷ keys) ≡ true
    → (inside : Entries) × (map_under k old ≡ ok inside)
      × (open_at (some (object inside)) (l ∷ keys) ≡ true)
unfolding map_under open_at get
map_under-open k none l keys h = (no_entries, refl, refl)
map_under-open k (some (object m)) l keys h = (m, refl, h)
map_under-open k (some null) l keys h = absurd (cc)
map_under-open k (some (boolean b)) l keys h = absurd (cc)
map_under-open k (some (integer n)) l keys h = absurd (cc)
map_under-open k (some (text s)) l keys h = absurd (cc)
map_under-open k (some (array xs)) l keys h = absurd (cc)

fill_in-open :
    (k : List ℕ) (v : Value) (old : Option Value) → open_at old [] ≡ true → fill_in k v old ≡ ok v
unfolding fill_in open_at
fill_in-open k v none h = refl
fill_in-open k v (some u) h = absurd (cc)

descend-open :
    (m : Entries) (subkey : List ℕ) (keys : List (List ℕ)) (v : Value)
    → IsNamed subkey
    → All IsNamed keys
    → open_at (some (object m)) (subkey ∷ keys) ≡ true
    → (m' : Entries) × (descend m subkey false keys v ≡ ok m')
unfolding descend store stored open_at
descend-open m subkey [] v named hk h =
    (put m subkey v, rw (fill_in-open subkey v (get m subkey) h) refl)
descend-open m subkey (k ∷ keys) v named (hk, hks) h =
    let (inside, e1, free) = map_under-open subkey (get m subkey) k keys h in
    let (inner, e2) = descend-open inside k keys v hk hks free in
    (
      put m subkey (object inner),
      descend-into_map m subkey false k keys v (move_of-into_map subkey k named hk)
          ∙ ap
              (λ r. r >>= (λ at.
                descend at k false keys v >>= (λ under. ok (put m subkey (object under)))))
              e1
          ∙ ap (λ r. r >>= (λ under. ok (put m subkey (object under)))) e2,
    )

-- A path of keys is assigned if, and only if, it can be.
pub descend-open_iff :
    (m : Entries) (k : List ℕ) (keys : List (List ℕ)) (v : Value)
    → IsNamed k
    → All IsNamed keys
    → ((m' : Entries) × (descend m [] false (k ∷ keys) v ≡ ok m'))
      ↔ (open_at (some (object m)) (k ∷ keys) ≡ true)
unfolding move_of
descend-open_iff m k keys v hk hks = (
  (λ (m', e). (descend-Puts m k keys v hk hks e).1),
  (λ h.
      let (m', e) = descend-open m k keys v hk hks h in
      (m', descend-start m [] false k keys v (ground arith) ∙ e)),
)
